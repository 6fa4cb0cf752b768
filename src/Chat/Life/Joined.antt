-- ===== src/Chat/Life/Joined.antt =====
-- A session between its creation and the end of its handshake.
use asio_learn.Base.{
  arith, if◌then◌else◌, none, some, ℕ, ◌≡◌, refl, ap, Bool, true, false, not, ◌&&◌, List, [], ◌∷◌,
  ◌==◌, update, ==_iff, Bool-cases, inl, inr,
}
use asio_learn.Logic.Server.{has_session, has_session-insert, has_session-erase}
use asio_learn.Chat.{
  Text, Session, Sending, is_sending, new_session, send, send_all, send_next, on_accept, on_read,
  join, leave,
}
use asio_learn.Chat as Handlers
use asio_learn.Chat.Life.{
  Life, Event, creates, accepts, reads, sends, runs, ends_write, destroys, is_some, is_posted, held,
  enabled, perform, step, run,
}
use asio_learn.Chat.Life.Held.{IsSafe}
use asio_learn.Chat.Life.Safe.{step-IsSafe}
use asio_learn.Chat.Life.Tidy.{AreTidy, rest, step-AreTidy}
use asio_learn.Chat.Life.Texts.{stays}

-- It lives, is in its handshake and not in the set, and has heard nothing.
pub record IsJoining (v : ℕ) (l : Life) : Type 0 where
  pub alive : l.lives v ≡ true
  pub joining : l.accepting v ≡ true
  pub outside : has_session v l.chat.sessions ≡ false
  pub fresh : l.chat.session v ≡ new_session

-- Whether the handshake of a session ends.
abbrev pub ends_handshake : ℕ → Event → Bool
ends_handshake v (accepts u failed) = u == v
ends_handshake v _ = false

abbrev pub stays_joining : ℕ → List Event → Bool
stays_joining v [] = true
stays_joining v (e ∷ es) = not (ends_handshake v e) && stays_joining v es

-- Two sessions that a test tells apart.
apart : (P : ℕ → Bool) (u v : ℕ) → P u ≡ true → P v ≡ false → (u == v) ≡ false
apart P u v a b = elim (Bool-cases (u == v)) [
  | inl e ↦ absurd (cc (a, b, ap P ((==_iff u v).0 e)))
  | inr e ↦ e
]

module _ (v : ℕ) (l : Life) (safe : IsSafe l) (tidy : AreTidy l) (k : IsJoining v l) where
  -- A handler of another session that leaves the set as it is.
  other-IsJoining :
      (u : ℕ) (s : Session) (sending : ℕ → Sending)
      → (u == v) ≡ false
      → IsJoining v (record l {
        chat = record l.chat { session = update l.chat.session u s; sending = sending };
      })
  other-IsJoining u s sending other = record {
    alive = k.alive;
    joining = k.joining;
    outside = k.outside;
    fresh = rw other k.fresh;
  }

  -- No call of `send` posts to it.
  unsent : (u : ℕ) → has_session v (rest (l.chat.sending u)) ≡ false
  unsent u = elim (Bool-cases (has_session v (rest (l.chat.sending u)))) [
    | inr e ↦ e
    | inl e ↦ absurd (cc (k.outside, (tidy u).targets v e))
  ]

  sends-IsJoining :
      (u : ℕ) (s : Sending)
      → l.chat.sending u ≡ s
      → IsJoining v (record l { chat = send_next l.chat u (held l) s })
  sends-IsJoining u none e = k
  sends-IsJoining u (some (t, [])) e = other-IsJoining u _ (update l.chat.sending u none) (
      apart (λ w. has_session w l.chat.sessions) u v ((safe.each u).sender (ap is_sending e))
        k.outside)
  sends-IsJoining u (some (t, w ∷ ws)) e =
      let other : (w == v) ≡ false = ground (arith, rw e at (unsent u)) in by_held (held l w) other
    where
      by_held :
          (up : Bool)
          → (w == v) ≡ false
          → IsJoining v (record l {
            chat = record l.chat {
              session =
                  if up
                  then update l.chat.session w (send (l.chat.session w) t)
                  else l.chat.session;
              sending = update l.chat.sending u (some (t, ws));
            };
          })
      by_held true other = other-IsJoining w _ _ other
      by_held false other = record {
        alive = k.alive;
        joining = k.joining;
        outside = k.outside;
        fresh = k.fresh;
      }

  perform-IsJoining :
      (e : Event) → enabled l e ≡ true → ends_handshake v e ≡ false → IsJoining v (perform l e)
  unfolding enabled perform Handlers.step on_accept on_read join leave send_all
  perform-IsJoining (creates u) on going =
      let other = apart (λ w. not (l.lives w)) u v on (rw k.alive refl) in
      record {
        alive = rw other k.alive;
        joining = rw other k.joining;
        outside = k.outside;
        fresh = rw other k.fresh;
      }
  perform-IsJoining (accepts u true) on going = record {
    alive = k.alive;
    joining = rw going k.joining;
    outside = k.outside;
    fresh = k.fresh;
  }
  perform-IsJoining (accepts u false) on going = record {
    alive = k.alive;
    joining = rw going k.joining;
    outside = rw (has_session-insert v u l.chat.sessions, going) k.outside;
    fresh = rw going k.fresh;
  }
  perform-IsJoining (reads u failed text) on going =
      let other =
        apart (λ w. (l.chat.session w).reading) u v on (ap (λ (s : Session). s.reading) k.fresh) in
      by_failed failed other
    where
      by_failed : (failed : Bool) → (u == v) ≡ false → IsJoining v (perform l (reads u failed text))
      by_failed true other = other-IsJoining u _ l.chat.sending other
      by_failed false other = other-IsJoining u _ _ other
  perform-IsJoining (sends u) on going = sends-IsJoining u (l.chat.sending u) refl
  perform-IsJoining (runs u) on going =
      let other =
        apart (λ w. is_posted (l.chat.session w).handlers) u v on
          (ap (λ (s : Session). is_posted s.handlers) k.fresh) in
      other-IsJoining u _ l.chat.sending other
  perform-IsJoining (ends_write u failed) on going =
      let other =
        apart (λ w. is_some (l.chat.session w).flight) u v on
          (ap (λ (s : Session). is_some s.flight) k.fresh) in
      other-IsJoining u _ l.chat.sending other
  perform-IsJoining (destroys u) on going =
      let other = apart (λ w. l.lives w && not (held l w)) u v on (rw (k.alive, k.joining)) in
      record {
        alive = rw other k.alive;
        joining = k.joining;
        outside = rw (has_session-erase v u l.chat.sessions, other) k.outside;
        fresh = k.fresh;
      }

  step-IsJoining : (e : Event) → ends_handshake v e ≡ false → IsJoining v (step l e)
  unfolding step
  step-IsJoining e going = elim (Bool-cases (enabled l e)) [
    | inl on ↦ rw on (perform-IsJoining e on going)
    | inr off ↦ rw off k
  ]

pub run-IsJoining :
    (es : List Event) (v : ℕ) (l : Life)
    → IsSafe l
    → AreTidy l
    → IsJoining v l
    → stays_joining v es ≡ true
    → IsJoining v (run l es)
unfolding run
run-IsJoining [] v l safe tidy k n = k
run-IsJoining (e ∷ es) v l safe tidy k n =
    let (now, later) = stays (ends_handshake v e) (stays_joining v es) n in
    run-IsJoining es v (step l e) (step-IsSafe l e safe) (step-AreTidy l safe tidy e)
      (step-IsJoining v l safe tidy k e now) later
