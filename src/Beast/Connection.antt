-- ===== src/Beast/Connection.antt =====
-- The life of an `http_connection` and the accept loop, example/beastHttpServer/beastHttpServer.cc:
-- the completions of its read, of its write and of its deadline, in any order. What the response is
-- says Beast. A handler that waits keeps the connection alive (Boost.Asio). The timer expires and its
-- handler runs in one step. An exception of `process_request` ends the server (Beast), and no step
-- follows it.
use asio_learn.Base.{
  ℕ, ◌≡◌, ◌≢◌, refl, Bool, true, false, not, ◌||◌, List, [], ◌∷◌, ◌++◌, Option, none, some, arith,
  map, ap,
}

-- The read or the write that has not completed, if any.
pub data Phase : Type 0 where
  reading writing idle : Phase

-- `_dead_time`
pub data Timer : Type 0 where
  armed cancelled expired : Timer

-- `shut` and `closed` are the socket's; `in_time` says that the write ended before the deadline.
pub record Connection : Type 0 where
  pub phase : Phase
  pub timer : Timer
  pub shut : Bool
  pub closed : Bool
  pub in_time : Bool

-- `start`: `read_request` and `check_deadline`.
unfoldable pub start : Connection
start = record { phase = reading; timer = armed; shut = false; closed = false; in_time = false }

-- The read completes, by whether it failed; the write completes, whether it failed or not; the
-- deadline is reached.
pub data Event : Type 0 where
  read_done : Bool → Event
  write_done : Event
  deadline : Event

-- The handler of `read_request`: without an error `process_request` starts the write.
abbrev pub on_read : Connection → Bool → Phase → Connection
on_read c true reading = record c { phase = idle }
on_read c false reading = record c { phase = writing }
on_read c failed _ = c

-- `cancel`: a timer that has expired stays so.
abbrev pub cancel : Timer → Timer
cancel armed = cancelled
cancel t = t

-- The handler of `write_response`.
abbrev pub on_write : Connection → Phase → Connection
on_write c writing = record c {
  phase = idle;
  shut = true;
  in_time = not c.closed;
  timer = cancel c.timer;
}
on_write c _ = c

-- The handler of `check_deadline`; a cancelled timer calls it with an error.
abbrev pub on_deadline : Connection → Timer → Connection
on_deadline c armed = record c { timer = expired; closed = true }
on_deadline c _ = c

unfoldable pub step : Connection → Event → Connection
step c (read_done failed) = on_read c failed c.phase
step c write_done = on_write c c.phase
step c deadline = on_deadline c c.timer

unfoldable pub run : Connection → List Event → Connection
run c [] = c
run c (e ∷ es) = run (step c e) es

-- No handler waits any more, so that the connection is destroyed.
abbrev pub none_waits : Phase → Timer → Bool
none_waits idle cancelled = true
none_waits idle expired = true
none_waits _ _ = false

-- The socket is closed by the deadline alone; it is shut down exactly when a write has ended; and the
-- timer is cancelled by that alone.
pub record IsTimed (c : Connection) : Type 0 where
  pub closes : c.closed ≡ true → c.timer ≢ armed
  pub expires : c.timer ≡ expired → c.closed ≡ true
  pub cancels : c.timer ≡ cancelled → c.shut ≡ true
  pub ends : c.shut ≡ true → c.phase ≡ idle
  pub punctual : c.in_time ≡ true → c.timer ≡ cancelled
  pub opens : c.timer ≡ armed → c.closed ≡ false
  pub busy : c.shut ≡ true → c.timer ≢ armed

step-IsTimed : (c : Connection) (e : Event) → IsTimed c → IsTimed (step c e)
unfolding step
step-IsTimed c e v = ground arith

run-IsTimed : (c : Connection) (es : List Event) → IsTimed c → IsTimed (run c es)
unfolding run
run-IsTimed c [] v = v
run-IsTimed c (e ∷ es) v = run-IsTimed (step c e) es (step-IsTimed c e v)

-- Once the deadline has come, the connection waits for no timer; one more completion ends what it
-- waits for.
abbrev pub finish : List Event
finish = deadline ∷ read_done true ∷ write_done ∷ []

pub finish-releases : (c : Connection) → none_waits (run c finish).phase (run c finish).timer ≡ true
unfolding run step
finish-releases c = ground arith

run-append : (c : Connection) (es fs : List Event) → run c (es ++ fs) ≡ run (run c es) fs
unfolding run
run-append c [] fs = refl
run-append c (e ∷ es) fs = run-append (step c e) es fs

abbrev pub is_cancelled : Timer → Bool
is_cancelled cancelled = true
is_cancelled _ = false

start-IsTimed : IsTimed start
unfolding start
start-IsTimed = ground arith

-- Whatever the order in which the read, the write and the deadline of a connection complete: when no
-- handler waits any more, the socket was shut down behind the response, or the deadline closed it; a
-- write that ended before the deadline leaves the timer cancelled, so that no deadline follows; and at
-- any time the deadline, with a read that then fails and a write that then ends, releases the
-- connection.
start-released :
    (es : List Event)
    → let c = run start es in
      let d = run start (es ++ finish) in
      ((not (none_waits c.phase c.timer) || (c.shut || c.closed)) ≡ true)
      × ((not c.in_time || is_cancelled c.timer) ≡ true)
      × (none_waits d.phase d.timer ≡ true)
start-released es =
    let v = run-IsTimed start es start-IsTimed in
    (
      ends_well (run start es) v,
      in_time_well (run start es) v,
      rw (run-append start es finish) (finish-releases (run start es)),
    )
  where
    ends_well :
        (c : Connection)
        → IsTimed c
        → (not (none_waits c.phase c.timer) || (c.shut || c.closed)) ≡ true
    ends_well c v = ground arith

    in_time_well : (c : Connection) → IsTimed c → (not c.in_time || is_cancelled c.timer) ≡ true
    in_time_well c v = ground arith

-- The loop of `http_server` over the accepts, each a connection or an error.
unfoldable pub http_server : List (Option ℕ) → List ℕ
http_server [] = []
http_server (none ∷ accepts) = []
http_server (some c ∷ accepts) = c ∷ http_server accepts

-- Connections are started in order up to the first accept that fails, and none behind it, however
-- many there are.
http_server-ends :
    (cs : List ℕ) (more : List (Option ℕ)) → http_server (map some cs ++ none ∷ more) ≡ cs
unfolding http_server
http_server-ends [] more = refl
http_server-ends (c ∷ cs) more = ap (◌∷◌ c) (http_server-ends cs more)
