-- ===== src/Logic/System/Wake.antt =====
-- `LogicSystem` as threads, example/logicServer/LogicSystem.cc: the worker at its condition variable,
-- the threads that post, and the destructor. One step is what a thread does without another in
-- between; a thread that needs `_mutex` makes no step while another holds it. Of the queue only the
-- length is kept here.
pub mod Posted
pub mod Lost
pub mod Seen
use asio_learn.Base.{
  ℕ, zero, suc, ◌+◌, Bool, true, false, List, [], ◌∷◌, Option, none, some, if◌then◌else◌, ◌==◌, ◌≡◌,
}
use asio_learn.Base.Optional.{◌>>=◌}

-- The worker is about to test the queue and the flag with the lock; it found the queue empty and the
-- flag not set, and still has the lock; it waits, without the lock; or it has seen the flag.
pub data Worker : Type 0 where
  ready decided waiting stopping : Worker

-- The destructor has not started; has set the flag; has notified, and joins.
pub data Destructor : Type 0 where
  alive flagged joining : Destructor

-- `notifying` counts the threads that are between their `unlock` and their `notify_one`.
pub record Threads : Type 0 where
  pub worker : Worker
  pub que : ℕ
  pub b_stop : Bool
  pub notifying : ℕ
  pub destructor : Destructor

abbrev pub started : Threads
started = record { worker = ready; que = 0; b_stop = false; notifying = 0; destructor = alive }

-- The worker tests; it blocks; it wakes without being notified; a thread posts; one notifies; the
-- destructor sets the flag; it notifies.
pub data Step : Type 0 where
  tests blocks wakes posts notifies sets_flag notifies_stop : Step

-- `notify_one` wakes the worker if it waits.
abbrev pub notified : Worker → Worker
notified waiting = ready
notified w = w

-- The test at the top of a turn: with a message in the queue and the flag not set, one message is
-- handled under the lock.
abbrev pub test : Threads → Bool → ℕ → Threads
test t true que = record t { worker = stopping }
test t false zero = record t { worker = decided }
test t false (suc que) = record t { worker = ready; que = que }

abbrev pub test_at : Threads → Worker → Option Threads
test_at t ready = some (test t t.b_stop t.que)
test_at t _ = none

abbrev pub block_at : Threads → Worker → Option Threads
block_at t decided = some (record t { worker = waiting })
block_at t _ = none

abbrev pub wake_at : Threads → Worker → Option Threads
wake_at t waiting = some (record t { worker = ready })
wake_at t _ = none

-- `PostMsgToQue` up to its `unlock`: it notifies where the queue was empty.
abbrev pub post_at : Threads → Worker → Option Threads
post_at t decided = none
post_at t _ =
    some (record t {
      que = suc t.que;
      notifying = if t.que == 0 then suc t.notifying else t.notifying;
    })

abbrev pub notify_at : Threads → ℕ → Option Threads
notify_at t zero = none
notify_at t (suc n) = some (record t { notifying = n; worker = notified t.worker })

-- The destructor takes no lock.
abbrev pub flag_at : Threads → Destructor → Option Threads
flag_at t alive = some (record t { b_stop = true; destructor = flagged })
flag_at t _ = none

abbrev pub notify_stop_at : Threads → Destructor → Option Threads
notify_stop_at t flagged = some (record t { destructor = joining; worker = notified t.worker })
notify_stop_at t _ = none

-- A step, where it can be made.
unfoldable pub step : Threads → Step → Option Threads
step t tests = test_at t t.worker
step t blocks = block_at t t.worker
step t wakes = wake_at t t.worker
step t posts = post_at t t.worker
step t notifies = notify_at t t.notifying
step t sets_flag = flag_at t t.destructor
step t notifies_stop = notify_stop_at t t.destructor

-- The states that steps lead to.
pub data Reach (s : Threads) : Threads → Type 0 where
  here : Reach s s
  next : {t u : Threads} (e : Step) → Reach s t → step t e ≡ some u → Reach s u

-- Some steps, one after the other.
unfoldable pub run : Threads → List Step → Option Threads
run t [] = some t
run t (e ∷ es) = do u ← step t e; run u es
