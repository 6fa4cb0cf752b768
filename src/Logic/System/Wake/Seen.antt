-- ===== src/Logic/System/Wake/Seen.antt =====
-- When the destructor reaches the worker.
use asio_learn.Base.{◌≡◌, ◌≢◌, refl, true, some, [], ◌∷◌}
use asio_learn.Logic.System.Wake.{
  Worker, ready, decided, waiting, stopping, alive, joining, Threads, started, tests, sets_flag,
  notifies_stop, Reach, step, run,
}
use asio_learn.Logic.System.Wake.Posted.{IsAwake, Reach-IsAwake}

seen_by :
    (t : Threads) (w : Worker)
    → t.worker ≡ w
    → IsAwake t
    → t.destructor ≡ alive
    → t.worker ≢ decided
    → (u : Threads) × (run t (sets_flag ∷ notifies_stop ∷ tests ∷ []) ≡ some u)
      × (u.worker ≡ stopping)
      × (u.destructor ≡ joining)
unfolding run step
seen_by t ready w v d n =
    (record t { worker = stopping; b_stop = true; destructor = joining }, rw (d, w), refl, refl)
seen_by t waiting w v d n =
    (record t { worker = stopping; b_stop = true; destructor = joining }, rw (d, w), refl, refl)
seen_by t decided w v d n = absurd (n w)
seen_by t stopping w v d n = absurd (cc (v.seen w, v.unflagged d))

-- In every state that any steps lead to: unless the worker stands between its test and its wait, the
-- flag and the notification of the destructor reach it, so that its next test finds the flag set,
-- whether it was waiting or not and whatever is in the queue.
stop_seen :
    (t : Threads)
    → Reach started t
    → t.destructor ≡ alive
    → t.worker ≢ decided
    → (u : Threads) × (run t (sets_flag ∷ notifies_stop ∷ tests ∷ []) ≡ some u)
      × (u.worker ≡ stopping)
      × (u.destructor ≡ joining)
stop_seen t r d n = seen_by t t.worker refl (Reach-IsAwake r) d n
