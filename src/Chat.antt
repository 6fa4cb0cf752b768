-- ===== src/Chat.antt =====
-- The chat of example/webSocket: `shared_state` (shared_state.cc), the set of sessions, and
-- `websocket_session` (websocket_session.cc), each with its queue of texts to write. A session is a
-- number. What a handler posts to a session's strand runs later, in order; the websocket and its
-- handshake are Boost.Beast's.
pub mod Sound
pub mod Broadcast
pub mod Life
use asio_learn.Base.{
  ℕ, zero, suc, ◌+◌, Bool, true, false, not, List, [], ◌∷◌, ◌++◌, Option, none, some, ltb, ◌==◌,
  if◌then◌else◌, length, update,
}
use asio_learn.Logic.Server.{has_session, insert, erase}

abbrev pub Text : Type 0
Text = List ℕ

-- `queue_`; the posted calls of `on_send`; the text of the write in flight and those of the completed
-- writes; whether a read is waiting.
pub record Session : Type 0 where
  pub queue : List Text
  pub handlers : List Text
  pub flight : Option Text
  pub written : List Text
  pub reading : Bool

-- `websocket_session`'s constructor
abbrev pub new_session : Session
new_session = record { queue = []; handlers = []; flight = none; written = []; reading = false }

-- A write of the front of the queue.
abbrev pub front : List Text → Option Text
front [] = none
front (t ∷ q) = some t

-- `send`: `on_send` is posted.
unfoldable pub send : Session → Text → Session
send s ss = record s { handlers = s.handlers ++ ss ∷ [] }

-- `on_send`
unfoldable pub on_send : Session → Text → Session
on_send s ss =
    let q = s.queue ++ ss ∷ [] in
    if ltb 1 (length q) then record s { queue = q } else record s { queue = q; flight = front q }

-- The strand runs the next posted call.
abbrev pub run_posted : Session → List Text → Session
run_posted s [] = s
run_posted s (ss ∷ more) = on_send (record s { handlers = more }) ss

-- `queue_.erase(queue_.begin())` and the next write, if there is a text.
abbrev pub next_text : Session → List Text → Session
next_text s [] = s
next_text s (t ∷ q) = record s { queue = q; flight = front q }

-- `on_write`, by whether the write of `ss` failed.
unfoldable pub on_write : Session → Text → Bool → Session
on_write s ss true = record s { flight = none }
on_write s ss false = next_text (record s { flight = none; written = s.written ++ ss ∷ [] }) s.queue

abbrev pub end_write : Session → Bool → Option Text → Session
end_write s failed none = s
end_write s failed (some ss) = on_write s ss failed

-- A call of `shared_state::send` that has not returned: its text, and the weak pointers that are left.
abbrev pub Sending : Type 0
Sending = Option (Text × List ℕ)

abbrev pub is_sending : Sending → Bool
is_sending none = false
is_sending (some s) = true

-- `shared_state`, with the sessions that there are, and what their calls of `send` have left to do.
pub record State : Type 0 where
  pub sessions : List ℕ
  pub session : ℕ → Session
  pub sending : ℕ → Sending

unfoldable pub join : State → ℕ → State
join c u = record c { sessions = insert u c.sessions }

unfoldable pub leave : State → ℕ → State
leave c u = record c { sessions = erase u c.sessions }

abbrev pub reads_on : State → ℕ → Bool → State
reads_on c u more = record c {
  session = update c.session u (record (c.session u) { reading = more });
}

-- `on_accept` of a session, by whether the handshake failed.
unfoldable pub on_accept : State → ℕ → Bool → State
unfolding join
on_accept c u true = c
on_accept c u false = reads_on (join c u) u true

-- `shared_state::send` up to the end of its lock: the list of the weak pointers.
unfoldable pub send_all : State → ℕ → Text → State
send_all c u message = record c { sending = update c.sending u (some (message, c.sessions)) }

-- `on_read` up to there, by whether the read failed.
unfoldable pub on_read : State → ℕ → Bool → Text → State
unfolding send_all
on_read c u true text = reads_on c u false
on_read c u false text = send_all (reads_on c u false) u text

-- The next weak pointer of the loop in `send`, outside the lock; `alive` says which can still be locked.
-- Behind the last one `on_read` starts the next read.
abbrev pub send_next : State → ℕ → (ℕ → Bool) → Sending → State
send_next c u alive none = c
send_next c u alive (some (message, [])) =
    reads_on (record c { sending = update c.sending u none }) u true
send_next c u alive (some (message, v ∷ vs)) = record c {
  session = if alive v then update c.session v (send (c.session v) message) else c.session;
  sending = update c.sending u (some (message, vs));
}

-- The weak pointers to a session that is destroyed expire.
abbrev pub expire : ℕ → Sending → Sending
expire u none = none
expire u (some (message, vs)) = some (message, erase u vs)

-- What happens to the sessions, in the order of the strands and of the lock.
pub data Event : Type 0 where
  accepts : ℕ → Bool → Event
  reads : ℕ → Bool → Text → Event
  sends : ℕ → (ℕ → Bool) → Event
  runs : ℕ → Event
  ends_write : ℕ → Bool → Event
  destroys : ℕ → Event

unfoldable pub step : State → Event → State
step c (accepts u failed) = on_accept c u failed
step c (reads u failed text) = on_read c u failed text
step c (sends u alive) = send_next c u alive (c.sending u)
step c (runs u) = record c {
  session = update c.session u (run_posted (c.session u) (c.session u).handlers);
}
step c (ends_write u failed) = record c {
  session = update c.session u (end_write (c.session u) failed (c.session u).flight);
}
step c (destroys u) = record (leave c u) { sending = λ w. expire u (c.sending w) }
