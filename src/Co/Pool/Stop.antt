-- ===== src/Co/Pool/Stop.antt =====
-- `AsioServicePool::Stop` of example/BoostCoServer/AsioServicePool.cc, which gives up the work guards
-- and does not stop the services, and the signal handler of boostCouroutineServer.cc. The services
-- are those of Logic/Service.
use asio_learn.Base.{ℕ, ◌≡◌, refl, Bool, true, false, ◌&&◌, List, [], ◌∷◌, ◌==◌, ap, map}
use asio_learn.Logic.Service.{Service, joins, with_pending}

-- `work.reset()`
unfoldable pub stop : List Service → List Service
stop ss = map (λ (s : Service). record s { guarded = false }) ss

-- The signal handler.
unfoldable pub on_signal : Service → List Service → Service × List Service
unfolding stop
on_signal own pool = (record own { stopped = true }, stop pool)

abbrev pub all_done : List ℕ → Bool
all_done [] = true
all_done (n ∷ ns) = n == 0 && all_done ns

-- The joins return exactly if no operation is pending on any service: every session that still reads
-- keeps the handler, and with it `main`, waiting.
on_signal-waits :
    (own : Service) (ns : List ℕ) → joins (on_signal own (with_pending ns)).1 ≡ all_done ns
unfolding on_signal
on_signal-waits own [] = refl
on_signal-waits own (n ∷ ns) = ap (λ b. (n == 0) && b) (on_signal-waits own ns)
