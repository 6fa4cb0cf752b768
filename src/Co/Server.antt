-- ===== src/Co/Server.antt =====
-- `CServer`, example/BoostCoServer/CServer.cc: the table of sessions. Its state, and the table's
-- operations, are those of Logic/Server; `ClearSession` takes the lock that guards the insertion, so
-- each of the two is one step.
use asio_learn.Base.{ℕ, ◌≡◌, refl, Bool, true, false, List, [], ◌∷◌, ◌==◌, ◌&&◌, ◌||◌, not}
use asio_learn.Logic.Server.{
  Server, has_session, insert, erase, has_session-erase, has_session-insert,
}

-- `ClearSession`
unfoldable pub clear_session : Server → ℕ → Server
clear_session s u = record s { sessions = erase u s.sessions }

-- `StartAccept`, with the uuid of the session that it makes.
unfoldable pub start_accept : Server → ℕ → Server
start_accept s fresh = record s { waiting = fresh }

-- The session's coroutine is started.
unfoldable pub start_session : Server → ℕ → Server
start_session s u = record s { started = u ∷ s.started }

-- The insertion under the lock.
unfoldable pub register : Server → ℕ → Server
register s u = record s { sessions = insert u s.sessions }

-- What happens to one server: a successful accept starts the waiting session, puts it into the table
-- and then starts the next accept; a failed one only starts the next; a session is cleared.
pub data Event : Type 0 where
  starts : ℕ → Event
  registers : ℕ → Event
  next_accept : ℕ → Event
  clears : ℕ → Event

unfoldable pub step : Server → Event → Server
unfolding clear_session start_accept start_session register
step s (starts u) = start_session s u
step s (registers u) = register s u
step s (next_accept fresh) = start_accept s fresh
step s (clears u) = clear_session s u

unfoldable pub run : Server → List Event → Server
run s [] = s
run s (e ∷ es) = run (step s e) es

-- `HandleAccept`, by whether the accept failed, as the steps that it makes.
abbrev pub handle_accept : ℕ → Bool → ℕ → List Event
handle_accept u true fresh = next_accept fresh ∷ []
handle_accept u false fresh = starts u ∷ registers u ∷ next_accept fresh ∷ []

-- Whether the last of the steps about a session left it in the table.
abbrev pub stays_in : ℕ → Bool → List Event → Bool
stays_in u b [] = b
stays_in u b (registers v ∷ es) = stays_in u (v == u || b) es
stays_in u b (clears v ∷ es) = stays_in u (not (v == u) && b) es
stays_in u b (starts v ∷ es) = stays_in u b es
stays_in u b (next_accept v ∷ es) = stays_in u b es

-- Under any interleaving of accepts and clears, a session is in the table exactly if the last of the
-- steps that register or clear it registered it, or, without such a step, if it was there before.
run-stays_in :
    (es : List Event) (s : Server) (u : ℕ)
    → has_session u (run s es).sessions ≡ stays_in u (has_session u s.sessions) es
unfolding run step
run-stays_in [] s u = refl
run-stays_in (registers v ∷ es) s u =
    rw (run-stays_in es (register s v) u, register, has_session-insert u v s.sessions)
run-stays_in (clears v ∷ es) s u =
    rw (run-stays_in es (clear_session s v) u, clear_session, has_session-erase u v s.sessions)
run-stays_in (starts v ∷ es) s u = run-stays_in es (start_session s v) u
run-stays_in (next_accept v ∷ es) s u = run-stays_in es (start_accept s v) u
