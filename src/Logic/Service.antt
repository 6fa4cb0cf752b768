-- ===== src/Logic/Service.antt =====
-- The `io_context`s that the pools run, and how the pools end: example/logicServer/AsioServicePool.cc
-- (`Stop`), AsioThreadPool.cc and logicServer.cc. Of an `io_context` (Boost.Asio) the model has what
-- decides when `run` returns: it was stopped, or it has neither a work guard nor work left.
use asio_learn.Base.{
  ℕ, ◌≡◌, refl, Bool, true, false, not, ◌&&◌, ◌||◌, List, [], ◌∷◌, ◌==◌, map, replicate,
}
use asio_learn.Wire.{Result, ok, faults, ◌>>=◌}

-- `pending` counts the asynchronous operations that have not completed.
pub record Service : Type 0 where
  pub guarded : Bool
  pub stopped : Bool
  pub pending : ℕ

abbrev pub run_returns : Service → Bool
run_returns s = s.stopped || (not s.guarded && s.pending == 0)

-- The joins of all threads return.
abbrev pub joins : List Service → Bool
joins [] = true
joins (s ∷ ss) = run_returns s && joins ss

-- The constructor: each service gets a guard, and a thread that runs it.
unfoldable pub start_services : ℕ → List Service
start_services size = replicate size (record { guarded = true; stopped = false; pending = 0 })

-- `work->get_io_context().stop(); work.reset();` A guard that was reset before is a null pointer.
abbrev pub stop_service : Service → Bool → Result Service
stop_service s true = ok (record s { stopped = true; guarded = false })
stop_service s false = faults

-- `AsioServicePool::Stop` up to its joins.
unfoldable pub stop : List Service → Result (List Service)
stop [] = ok []
stop (s ∷ ss) = do stopped ← stop_service s s.guarded; rest ← stop ss; ok (stopped ∷ rest)

-- `AsioThreadPool`: one service, with a guard, that all threads run.
unfoldable pub new_shared : Service
new_shared = record { guarded = true; stopped = false; pending = 0 }

-- `AsioThreadPool`: one service for all threads; `Stop` up to its joins.
unfoldable pub stop_shared : Service → Service
stop_shared s = record s { stopped = true; guarded = false }

-- The signal handler of `main`: its own `io_context` is stopped, and then the pool.
unfoldable pub on_signal : Service → List Service → Result (Service × List Service)
unfolding stop
on_signal own pool = do rest ← stop pool; ok (record own { stopped = true }, rest)

-- The operations that sessions have started on the services.
abbrev pub with_pending : List ℕ → List Service
with_pending ns = map (λ n. record { guarded = true; stopped = false; pending = n }) ns

abbrev pub ended : List ℕ → List Service
ended ns = map (λ n. record { guarded = false; stopped = true; pending = n }) ns

stop-with_pending : (ns : List ℕ) → stop (with_pending ns) ≡ ok (ended ns)
unfolding stop
stop-with_pending [] = refl
stop-with_pending (n ∷ ns) = rw (stop-with_pending ns)

joins-ended : (ns : List ℕ) → joins (ended ns) ≡ true
joins-ended [] = refl
joins-ended (n ∷ ns) = joins-ended ns

-- Whatever operations are pending on the services of a running pool, the signal handler's `Stop`
-- stops all of them, `main`'s own `run` returns, and so do all the joins. A second `Stop` of a pool
-- that is not empty dereferences a null pointer.
on_signal-joins :
    (own : Service) (n : ℕ) (ns : List ℕ)
    → (on_signal own (with_pending (n ∷ ns)) ≡ ok (record own { stopped = true }, ended (n ∷ ns)))
      × (joins (ended (n ∷ ns)) ≡ true)
      × (run_returns (record own { stopped = true }) ≡ true)
      × (stop (ended (n ∷ ns)) ≡ faults)
unfolding on_signal stop
on_signal-joins own n ns = (rw (stop-with_pending (n ∷ ns)), joins-ended (n ∷ ns), refl, refl)
