-- ===== src/Beast/Main.antt =====
-- `main` of example/beastHttpServer/beastHttpServer.cc: the accept loop, all connections and the
-- counter on one `io_context`. Connections are numbered in the order of their accepts; what completes,
-- and in which order, is the input of a run. An exception of a handler leaves `run` and is caught.
pub mod Serves
pub mod Finish
pub mod Ends
use asio_learn.Base.{
  ℕ, zero, suc, Bool, true, false, not, ◌&&◌, List, [], ◌∷◌, ◌++◌, Option, none, some,
  if◌then◌else◌, update,
}
use asio_learn.Beast.{Json, Request, Response, process_request}
use asio_learn.Beast.Connection as Connections
use asio_learn.Beast.Connection.{
  Connection, Phase, Timer, Event, reading, writing, idle, cancelled, start, read_done, write_done,
  deadline, none_waits,
}
use asio_learn.Http.Main.{Exit, fails, returns}

-- `opened` connections have been started; `thrown` says that an exception has left `run`.
pub record Server : Type 0 where
  pub accepting : Bool
  pub opened : ℕ
  pub connection : ℕ → Connection
  pub count : ℕ
  pub responses : List Response
  pub thrown : Bool

-- What completes: an accept, by whether it failed; a read of a connection, by whether it failed, at a
-- time, with a request; its write; or its deadline.
pub data Happening : Type 0 where
  arrives : Bool → Happening
  reads : ℕ → Bool → ℕ → Request → Happening
  writes : ℕ → Happening
  expires : ℕ → Happening

-- A connection that is not there: nothing of it completes.
abbrev pub not_there : Connection
not_there = record { phase = idle; timer = cancelled; shut = true; closed = false; in_time = false }

abbrev pub new_server : Server
new_server = record {
  accepting = true;
  opened = 0;
  connection = λ u. not_there;
  count = 0;
  responses = [];
  thrown = false;
}

abbrev pub is_reading : Phase → Bool
is_reading reading = true
is_reading writing = false
is_reading idle = false

abbrev pub own : Server → ℕ → Event → Server
own s u e = record s { connection = update s.connection u (Connections.step (s.connection u) e) }

-- The response that was made is written, or there is none but an exception.
abbrev pub answer : Server → ℕ → Option (Response × ℕ) → Server
answer s u none = record s { thrown = true }
answer s u (some (r, next)) = record (own s u (read_done false)) {
  count = next;
  responses = s.responses ++ r ∷ [];
}

-- The handler of an accept, while one waits.
abbrev pub accepted : Server → Bool → Server
accepted s true = record s { accepting = false }
accepted s false = record s {
  opened = suc s.opened;
  connection = update s.connection s.opened start;
}

module _ (j : Json) where
  unfoldable pub handle : Server → Happening → Server
  handle s (arrives failed) = if s.accepting then accepted s failed else s
  handle s (reads u true now req) = own s u (read_done true)
  handle s (reads u false now req) =
      if is_reading (s.connection u).phase
      then answer s u (process_request j now s.count req)
      else s
  handle s (writes u) = own s u write_done
  handle s (expires u) = own s u deadline

  unfoldable pub step : Server → Happening → Server
  unfolding handle
  step s h = if s.thrown then s else handle s h

  unfoldable pub run : Server → List Happening → Server
  run s [] = s
  run s (h ∷ hs) = run (step s h) hs

  -- No handler of the first connections waits.
  abbrev pub all_released : ℕ → (ℕ → Connection) → Bool
  all_released zero f = true
  all_released (suc n) f = none_waits (f n).phase (f n).timer && all_released n f

  -- `run` of the `io_context` throws, or returns when no handler waits.
  abbrev pub exit_of : Server → Option Exit
  exit_of s =
      if s.thrown
      then some fails
      else if not s.accepting && all_released s.opened s.connection
      then some returns
      else none

  -- `main`, by whether making the acceptor throws: how it ended, if it did.
  unfoldable pub main : Bool → List Happening → Option Exit
  main true hs = some fails
  main false hs = exit_of (run new_server hs)
