-- ===== src/Chat/Life/Held.antt =====
-- What holds a session, and which handlers leave its reading as it is.
use asio_learn.Base.{
  ℕ, ◌≡◌, refl, Bool, true, false, ◌||◌, List, [], ◌∷◌, Option, none, some, if◌then◌else◌, update,
  by_key, ==_refl, arith,
}
use asio_learn.Logic.Server.{has_session}
use asio_learn.Chat.{
  Text, Session, send, on_send, on_write, run_posted, end_write, next_text, Sending, is_sending,
  expire,
}
use asio_learn.Chat.Broadcast.{IsSound}
use asio_learn.Chat.Life.{Life, busy}

-- For one session, by whether it is in the set, exists, is in its handshake and in a call of `send`: if
-- its pointer is in the set or in a handler, it exists; and while it reads or sends, it is in the set.
pub record IsHeld (member lives accepting sending : Bool) (s : Session) : Type 0 where
  pub in_set : member ≡ true → lives ≡ true
  pub in_handler : (accepting || sending) || busy s ≡ true → lives ≡ true
  pub reader : s.reading ≡ true → member ≡ true
  pub sender : sending ≡ true → member ≡ true

pub record IsSafe (l : Life) : Type 0 where
  pub sound : IsSound l.chat
  pub each :
      (u : ℕ)
      → IsHeld
          (has_session u l.chat.sessions)
          (l.lives u)
          (l.accepting u)
          (is_sending (l.chat.sending u))
          (l.chat.session u)

pub living :
    (member lives accepting sending : Bool) (s : Session)
    → lives ≡ true
    → (s.reading ≡ true → member ≡ true)
    → (sending ≡ true → member ≡ true)
    → IsHeld member lives accepting sending s
living member lives accepting sending s alive r k = record {
  in_set = λ e. alive;
  in_handler = λ e. alive;
  reader = r;
  sender = k;
}

pub expire-sending : (u : ℕ) (s : Sending) → is_sending (expire u s) ≡ is_sending s
expire-sending u none = refl
expire-sending u (some (t, vs)) = refl

pub send-reading :
    (b : Bool) (f : ℕ → Session) (u : ℕ) (t : Text) (v : ℕ)
    → ((if b then update f u (send (f u) t) else f) v).reading ≡ (f v).reading
unfolding send
send-reading false f u t v = refl
send-reading true f u t v =
    by_key (λ v. (update f u (send (f u) t) v).reading ≡ (f v).reading) u v (rw (==_refl u) refl)
      (λ other. rw other refl)

pub run_posted-reading : (s : Session) (hs : List Text) → (run_posted s hs).reading ≡ s.reading
unfolding on_send
run_posted-reading s [] = refl
run_posted-reading s (t ∷ ts) = ground arith

next_text-reading : (s : Session) (q : List Text) → (next_text s q).reading ≡ s.reading
next_text-reading s [] = refl
next_text-reading s (t ∷ q) = refl

pub end_write-reading :
    (s : Session) (failed : Bool) (w : Option Text) → (end_write s failed w).reading ≡ s.reading
unfolding on_write
end_write-reading s failed none = refl
end_write-reading s true (some t) = refl
end_write-reading s false (some t) = next_text-reading _ s.queue
