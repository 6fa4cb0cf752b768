-- ===== src/Chat/Broadcast.antt =====
-- Every step keeps the set and the queues sound.
use asio_learn.Base.{
  update, ℕ, ◌≡◌, ap, ◌∙◌, Bool, true, false, [], ◌∷◌, ◌==◌, Bool-cases, inl, inr, none, some,
  if◌then◌else◌, ==_iff,
}
use asio_learn.Chat.{
  Text, Session, State, send, join, leave, send_all, on_accept, on_read, Event, accepts, reads,
  runs, ends_write, destroys, step, Sending, send_next, sends,
}
use asio_learn.Chat.Sound.{
  Unique, insert-Unique, erase-Unique, Flies, heard, run_posted-Flies, end_write-Flies,
}

pub record IsSound (c : State) : Type 0 where
  pub once : Unique c.sessions
  pub flies : (u : ℕ) → Flies (c.session u)

update-All :
    (P : Session → Type 0) (f : ℕ → Session) (u : ℕ) (s : Session)
    → ((v : ℕ) → P (f v))
    → P s
    → (v : ℕ) → P (update f u s v)
update-All P f u s fs h v = elim (Bool-cases (u == v)) [ inl e ↦ rw e h | inr e ↦ rw e (fs v) ]

update-other : (f : ℕ → Session) (u v : ℕ) (s : Session) → (u == v) ≡ false → update f u s v ≡ f v
update-other f u v s e = rw e

send-Flies :
    (b : Bool) (f : ℕ → Session) (u : ℕ) (t : Text)
    → ((v : ℕ) → Flies (f v))
    → (v : ℕ) → Flies ((if b then update f u (send (f u) t) else f) v)
unfolding send
send-Flies true f u t fs = update-All Flies f u _ fs (fs u)
send-Flies false f u t fs = fs

-- Every step keeps the set and the queues sound.
pub step-IsSound : (c : State) (e : Event) → IsSound c → IsSound (step c e)
unfolding step on_accept on_read join leave send_all
step-IsSound c (accepts u true) v = v
step-IsSound c (accepts u false) v = record {
  once = insert-Unique u c.sessions v.once;
  flies = update-All Flies c.session u _ v.flies (v.flies u);
}
step-IsSound c (reads u true t) v = record {
  once = v.once;
  flies = update-All Flies c.session u _ v.flies (v.flies u);
}
step-IsSound c (reads u false t) v = record {
  once = v.once;
  flies = update-All Flies c.session u _ v.flies (v.flies u);
}
step-IsSound c (sends u alive) v = sent (c.sending u)
  where
    sent : (s : Sending) → IsSound (send_next c u alive s)
    sent none = v
    sent (some (t, [])) = record {
      once = v.once;
      flies = update-All Flies c.session u _ v.flies (v.flies u);
    }
    sent (some (t, w ∷ ws)) = record {
      once = v.once;
      flies = send-Flies (alive w) c.session w t v.flies;
    }
step-IsSound c (runs u) v = record {
  once = v.once;
  flies =
      update-All Flies c.session u _ v.flies
        (run_posted-Flies (c.session u) (c.session u).handlers (v.flies u));
}
step-IsSound c (ends_write u failed) v = record {
  once = v.once;
  flies =
      update-All Flies c.session u _ v.flies
        (end_write-Flies (c.session u) failed (c.session u).queue (c.session u).flight (v.flies u));
}
step-IsSound c (destroys u) v = record { once = erase-Unique u c.sessions v.once; flies = v.flies }

-- A change that moves no text of a session.
pub update-heard :
    (f : ℕ → Session) (u v : ℕ) (s : Session)
    → heard s ≡ heard (f u)
    → heard (update f u s v) ≡ heard (f v)
update-heard f u v s h = elim (Bool-cases (u == v)) [
  | inl e ↦ rw e (h ∙ ap (λ w. heard (f w)) ((==_iff u v).0 e))
  | inr e ↦ rw e
]
