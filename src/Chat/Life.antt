-- ===== src/Chat/Life.antt =====
-- The lives of the sessions of example/webSocket. A handler that has been started or posted holds a
-- `shared_from_this()` of its session; the destructor, which runs when no handler is left, takes the
-- session out of the set. The set itself holds plain pointers, and the address of a session that is
-- gone may be that of a new one.
pub mod Held
pub mod Safe
pub mod Tidy
pub mod Texts
pub mod Spread
pub mod Heard
pub mod Joined
pub mod Work
pub mod End
pub mod Delivered
use asio_learn.Base.{
  ℕ, Bool, true, false, not, ◌||◌, ◌&&◌, List, [], ◌∷◌, Option, none, some, if◌then◌else◌, update,
}
use asio_learn.Chat as Handlers
use asio_learn.Chat.{Text, Session, State, new_session, is_sending, on_accept, on_read, leave}

-- `accepting`: the handshake of a session has been started and has not ended.
pub record Life : Type 0 where
  pub chat : State
  pub lives : ℕ → Bool
  pub accepting : ℕ → Bool

pub data Event : Type 0 where
  creates : ℕ → Event
  accepts : ℕ → Bool → Event
  reads : ℕ → Bool → Text → Event
  sends : ℕ → Event
  runs : ℕ → Event
  ends_write : ℕ → Bool → Event
  destroys : ℕ → Event

abbrev pub is_some : Option Text → Bool
is_some none = false
is_some (some t) = true

abbrev pub is_posted : List Text → Bool
is_posted [] = false
is_posted (t ∷ ts) = true

-- A read, a write or a posted call of the session has not ended.
abbrev pub busy : Session → Bool
busy s = s.reading || (is_some s.flight || is_posted s.handlers)

-- Its handshake has not ended, or its `on_read` has not returned from `send`.
abbrev pub waits : Life → ℕ → Bool
waits l u = l.accepting u || is_sending (l.chat.sending u)

-- A handler holds the session: a weak pointer to it can be locked.
abbrev pub held : Life → ℕ → Bool
held l u = waits l u || busy (l.chat.session u)

-- What can happen: a session is created at a free address; what was started ends; and a session that
-- no handler holds is destroyed.
unfoldable pub enabled : Life → Event → Bool
enabled l (creates u) = not (l.lives u)
enabled l (accepts u failed) = l.accepting u
enabled l (reads u failed text) = (l.chat.session u).reading
enabled l (sends u) = is_sending (l.chat.sending u)
enabled l (runs u) = is_posted (l.chat.session u).handlers
enabled l (ends_write u failed) = is_some (l.chat.session u).flight
enabled l (destroys u) = l.lives u && not (held l u)

-- What it does: the constructor, a handler, or the destructor.
unfoldable pub perform : Life → Event → Life
perform l (creates u) = record {
  chat = record l.chat { session = update l.chat.session u new_session };
  lives = update l.lives u true;
  accepting = update l.accepting u true;
}
perform l (accepts u failed) = record l {
  chat = Handlers.step l.chat (Handlers.accepts u failed);
  accepting = update l.accepting u false;
}
perform l (reads u failed text) = record l {
  chat = Handlers.step l.chat (Handlers.reads u failed text);
}
perform l (sends u) = record l { chat = Handlers.step l.chat (Handlers.sends u (held l)) }
perform l (runs u) = record l { chat = Handlers.step l.chat (Handlers.runs u) }
perform l (ends_write u failed) = record l {
  chat = Handlers.step l.chat (Handlers.ends_write u failed);
}
perform l (destroys u) = record l {
  chat = Handlers.step l.chat (Handlers.destroys u);
  lives = update l.lives u false;
}

-- An event that cannot happen is left out.
unfoldable pub step : Life → Event → Life
unfolding enabled perform
step l e = if enabled l e then perform l e else l

unfoldable pub run : Life → List Event → Life
run l [] = l
run l (e ∷ es) = run (step l e) es

abbrev pub empty : Life
empty = record {
  chat = record { sessions = []; session = λ u. new_session; sending = λ u. none };
  lives = λ u. false;
  accepting = λ u. false;
}
