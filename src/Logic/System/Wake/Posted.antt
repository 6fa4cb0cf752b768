-- ===== src/Logic/System/Wake/Posted.antt =====
-- No posted message is forgotten.
use asio_learn.Base.{
  ℕ, zero, suc, ◌-◌, ◌<◌, ◌≡◌, refl, true, false, some, arith, inl, inr, ◌⊎◌, List, [], ◌∷◌,
}
use asio_learn.Logic.System.Wake.{
  Worker, ready, decided, waiting, stopping, alive, Threads, started, Step, tests, notifies, step,
  Reach, here, next, run,
}

-- While the worker is about to wait, no one can post; while it waits on a queue that is not empty, a
-- notification is on its way.
pub record IsAwake (t : Threads) : Type 0 where
  pub locked : t.worker ≡ decided → t.que ≡ 0
  pub noticed : t.worker ≡ waiting → 0 < t.que → 0 < t.notifying
  pub unflagged : t.destructor ≡ alive → t.b_stop ≡ false
  pub seen : t.worker ≡ stopping → t.b_stop ≡ true

pub step-IsAwake :
    (t : Threads) (e : Step) {u : Threads} → IsAwake t → step t e ≡ some u → IsAwake u
unfolding step
step-IsAwake t e v h = ground arith

pub Reach-IsAwake : {t : Threads} → Reach started t → IsAwake t
Reach-IsAwake here = ground arith
Reach-IsAwake (next {t = t} e r h) = step-IsAwake t e (Reach-IsAwake r) h

-- The steps that the worker and the posting threads make of themselves: no wake-up without a
-- notification, and no further post.
abbrev pub IsOwn : Step → Type 0
IsOwn e = (e ≡ tests) ⊎ (e ≡ notifies)

abbrev pub AllOwn : List Step → Type 0
AllOwn [] = Unit
AllOwn (e ∷ es) = IsOwn e × AllOwn es

worker-progress :
    (t : Threads) (w : Worker) (n m : ℕ)
    → t.worker ≡ w
    → t.que ≡ suc n
    → t.notifying ≡ m
    → IsAwake t
    → t.b_stop ≡ false
    → (es : List Step) × (u : Threads) × AllOwn es × (run t es ≡ some u) × (suc u.que ≡ t.que)
unfolding run step
worker-progress t ready n m w q k v on =
    (tests ∷ [], record t { worker = ready; que = n }, (inl refl, tt), rw (w, on, q), rw q)
worker-progress t waiting n (suc m) w q k v on = (
  notifies ∷ tests ∷ [],
  record t { worker = ready; que = n; notifying = m },
  (inr refl, (inl refl, tt)),
  rw (k, w, on, q),
  rw q,
)
worker-progress t waiting n zero w q k v on = absurd (omega (arith, v.noticed w (omega arith)))
worker-progress t decided n m w q k v on = absurd (omega (arith, v.locked w))
worker-progress t stopping n m w q k v on = absurd (cc (v.seen w, on))

-- In every state that any steps of the worker, of posting threads and of the destructor lead to: if a
-- message is in the queue and the flag is not set, then the worker and the notification that is on
-- its way lead on to a state with one message fewer, without a further post and without a wake-up of
-- its own accord. So no post is lost, although only the post into an empty queue notifies.
pub post_served :
    (t : Threads)
    → Reach started t
    → t.b_stop ≡ false
    → 0 < t.que
    → (es : List Step) × (u : Threads) × AllOwn es × (run t es ≡ some u) × (suc u.que ≡ t.que)
post_served t r on some_left =
    worker-progress t t.worker (t.que - 1) t.notifying refl (omega arith) refl (Reach-IsAwake r) on
