-- ===== src/Logic/System/Wake/Lost.antt =====
-- The destructor can miss the worker.
use asio_learn.Base.{arith, ◌≡◌, refl, true, some, [], ◌∷◌, ◌⊎◌}
use asio_learn.Logic.System.Wake.{
  decided, waiting, alive, joining, Threads, Step, blocks, wakes, posts, sets_flag, notifies_stop,
  step, run,
}

-- No step is possible but a further post, or a wake-up without a notification.
abbrev pub IsStuck : Threads → Type 0
IsStuck u = (e : Step) (w : Threads) → step u e ≡ some w → (e ≡ posts) ⊎ (e ≡ wakes)

-- If the destructor sets the flag and notifies between the worker's test and its wait, and no
-- notification of a post is on its way, then the worker waits, the destructor joins it, and neither
-- goes on, unless another thread posts or the worker wakes without a notification.
pub stop_lost :
    (t : Threads)
    → t.worker ≡ decided
    → t.destructor ≡ alive
    → t.notifying ≡ 0
    → (u : Threads) × (run t (sets_flag ∷ notifies_stop ∷ blocks ∷ []) ≡ some u)
      × (u.worker ≡ waiting)
      × (u.destructor ≡ joining)
      × IsStuck u
unfolding run step
stop_lost t w d n = (
  record t { worker = waiting; b_stop = true; destructor = joining },
  rw (d, w),
  refl,
  refl,
  stuck,
)
  where
    stuck : IsStuck (record t { worker = waiting; b_stop = true; destructor = joining })
    stuck e u h = ground (arith, n)
