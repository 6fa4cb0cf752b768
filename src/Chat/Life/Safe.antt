-- ===== src/Chat/Life/Safe.antt =====
-- No pointer dangles: neither in the set nor in a handler.
use asio_learn.Base.{
  ℕ, ◌≡◌, refl, ap, Bool, true, false, List, [], ◌∷◌, ◌==◌, none, some, if◌then◌else◌, update,
  by_key, ==_refl, ==_iff, arith, Bool-cases, inl, inr,
}
use asio_learn.Logic.Server.{has_session, insert, erase, has_session-insert, has_session-erase}
use asio_learn.Chat.{
  Text, Session, State, Sending, is_sending, send, send_all, send_next, expire, on_send, on_write,
  on_accept, on_read, join, leave, run_posted, end_write, next_text,
}
use asio_learn.Chat as Handlers
use asio_learn.Chat.Sound.{Flies}
use asio_learn.Chat.Broadcast.{step-IsSound}
use asio_learn.Chat.Life.{
  Life, Event, creates, accepts, reads, sends, runs, ends_write, destroys, busy, held, enabled,
  perform, step, run, empty,
}
use asio_learn.Chat.Life.Held.{
  IsHeld, IsSafe, living, send-reading, run_posted-reading, end_write-reading, expire-sending,
}

module _ (l : Life) (safe : IsSafe l) where
  abbrev Stays : Event → Type 0
  Stays e = enabled l e ≡ true → IsSafe (perform l e)

  -- What holds of a session, with some of its parts changed.
  abbrev Kept : List ℕ → (ℕ → Bool) → (ℕ → Bool) → (ℕ → Sending) → (ℕ → Session) → ℕ → Type 0
  Kept us lives accepting sending f u =
      IsHeld (has_session u us) (lives u) (accepting u) (is_sending (sending u)) (f u)

  lives_on : (v : ℕ) → held l v ≡ true → l.lives v ≡ true
  lives_on v = (safe.each v).in_handler

  busy_lives : (v : ℕ) → busy (l.chat.session v) ≡ true → l.lives v ≡ true
  busy_lives v e = lives_on v (rw e (ground arith))

  creates-Stays : (v : ℕ) → Stays (creates v)
  unfolding enabled perform
  creates-Stays v free = record {
    sound = record {
      once = safe.sound.once;
      flies = λ u.
          by_key (λ u. Flies (update l.chat.session v Handlers.new_session u)) v u
            (rw (==_refl v) (inl refl)) (λ other. rw other (safe.sound.flies u));
    };
    each = λ u.
        by_key
          (Kept l.chat.sessions (update l.lives v true) (update l.accepting v true) l.chat.sending
            (update l.chat.session v Handlers.new_session))
          v u (rw (==_refl v) (living _ _ _ _ _ refl (λ e. cc e) (safe.each v).sender))
          (λ other. rw other (safe.each u));
  }

  accepts-Stays : (v : ℕ) (failed : Bool) → Stays (accepts v failed)
  unfolding enabled perform Handlers.step on_accept join
  accepts-Stays v true on = record {
    sound = safe.sound;
    each = λ u.
        by_key
          (Kept l.chat.sessions l.lives (update l.accepting v false) l.chat.sending l.chat.session)
          v u
          (rw (==_refl v)
            (living _ _ _ _ _ (lives_on v (rw on refl)) (safe.each v).reader (safe.each v).sender))
          (λ other. rw other (safe.each u));
  }
  accepts-Stays v false on = record {
    sound = step-IsSound l.chat (Handlers.accepts v false) safe.sound;
    each = λ u.
        by_key
          (Kept (insert v l.chat.sessions) l.lives (update l.accepting v false) l.chat.sending
            (update l.chat.session v (record (l.chat.session v) { reading = true })))
          v u
          (rw (==_refl v) (
            living _ _ _ _ _ (lives_on v (rw on refl))
              (λ e. rw (has_session-insert v v l.chat.sessions, ==_refl v))
              (λ e. rw (has_session-insert v v l.chat.sessions, ==_refl v))))
          (λ other. rw (other, has_session-insert u v l.chat.sessions, other) (safe.each u));
  }

  -- A handler of session `v` that changes its session only, and not whether it reads.
  own-Stays :
      (v : ℕ) (s : Session) (e : Handlers.Event)
      → Handlers.step l.chat e ≡ record l.chat { session = update l.chat.session v s }
      → s.reading ≡ (l.chat.session v).reading
      → l.lives v ≡ true
      → IsSafe (record l { chat = Handlers.step l.chat e })
  own-Stays v s e stepped same alive = record {
    sound = step-IsSound l.chat e safe.sound;
    each = rw stepped (λ u.
        by_key (Kept l.chat.sessions l.lives l.accepting l.chat.sending (update l.chat.session v s))
          v u
          (rw (==_refl v)
            (living _ _ _ _ _ alive (rw same (safe.each v).reader) (safe.each v).sender))
          (λ other. rw other (safe.each u)));
  }

  runs-Stays : (v : ℕ) → Stays (runs v)
  unfolding enabled perform Handlers.step
  runs-Stays v on =
      own-Stays v (run_posted (l.chat.session v) (l.chat.session v).handlers) (Handlers.runs v) refl
        (run_posted-reading (l.chat.session v) (l.chat.session v).handlers)
        (busy_lives v (rw on (ground arith)))

  ends_write-Stays : (v : ℕ) (failed : Bool) → Stays (ends_write v failed)
  unfolding enabled perform Handlers.step
  ends_write-Stays v failed on =
      own-Stays v (end_write (l.chat.session v) failed (l.chat.session v).flight)
        (Handlers.ends_write v failed) refl
        (end_write-reading (l.chat.session v) failed (l.chat.session v).flight)
        (busy_lives v (rw on (ground arith)))

  reads-Stays : (v : ℕ) (failed : Bool) (text : Text) → Stays (reads v failed text)
  unfolding enabled perform Handlers.step on_read send_all
  reads-Stays v true text on = record {
    sound = step-IsSound l.chat (Handlers.reads v true text) safe.sound;
    each = λ u.
        by_key
          (Kept l.chat.sessions l.lives l.accepting l.chat.sending
            (update l.chat.session v (record (l.chat.session v) { reading = false })))
          v u
          (rw (==_refl v)
            (living _ _ _ _ _ (busy_lives v (rw on refl)) (λ e. cc e) (safe.each v).sender))
          (λ other. rw other (safe.each u));
  }
  reads-Stays v false text on = record {
    sound = step-IsSound l.chat (Handlers.reads v false text) safe.sound;
    each = λ u.
        by_key
          (Kept l.chat.sessions l.lives l.accepting
            (update l.chat.sending v (some (text, l.chat.sessions)))
            (update l.chat.session v (record (l.chat.session v) { reading = false })))
          v u
          (rw (==_refl v) (
            living _ _ _ _ _ (busy_lives v (rw on refl)) (λ e. cc e)
              (λ e. (safe.each v).reader on)))
          (λ other. rw other (safe.each u));
  }

  -- A post leaves a session as it is that no handler holds.
  unheld :
      (w u : ℕ) (s : Session)
      → held l u ≡ false
      → (if held l w then update l.chat.session w s else l.chat.session) u ≡ l.chat.session u
  unheld w u s down = elim (Bool-cases (held l w)) [
    | inr off ↦ rw off refl
    | inl up ↦ elim (Bool-cases (w == u)) [
      | inl e ↦ absurd (cc (up, down, ap (held l) ((==_iff w u).0 e)))
      | inr e ↦ rw (up, e)
    ]
  ]

  reached :
      (w : ℕ) (t : Text) (u : ℕ)
      → Kept l.chat.sessions l.lives l.accepting l.chat.sending
          (if held l w then update l.chat.session w (send (l.chat.session w) t) else l.chat.session)
          u
  reached w t u = elim (Bool-cases (held l u)) [
    | inl up ↦
        living _ _ _ _ _ (lives_on u up)
          (rw (send-reading (held l w) l.chat.session w t u) (safe.each u).reader)
          (safe.each u).sender
    | inr down ↦ rw (unheld w u (send (l.chat.session w) t) down) (safe.each u)
  ]

  sent-Kept :
      (v : ℕ) (s : Sending)
      → l.chat.sending v ≡ s
      → let c : State = send_next l.chat v (held l) s in
        (u : ℕ) → Kept c.sessions l.lives l.accepting c.sending c.session u
  sent-Kept v none e u = safe.each u
  sent-Kept v (some (t, [])) e u =
      by_key
        (Kept l.chat.sessions l.lives l.accepting (update l.chat.sending v none)
          (update l.chat.session v (record (l.chat.session v) { reading = true })))
        v u
        (rw (==_refl v) (
          living _ _ _ _ _ (lives_on v (rw e (ground arith)))
            (λ r. (safe.each v).sender (ap is_sending e)) (λ r. cc r)))
        (λ other. rw other (safe.each u))
  sent-Kept v (some (t, w ∷ ws)) e u =
      by_key
        (Kept l.chat.sessions l.lives l.accepting (update l.chat.sending v (some (t, ws))) (
          if held l w then update l.chat.session w (send (l.chat.session w) t) else l.chat.session))
        v u (rw (==_refl v) (rw e at (reached w t v))) (λ other. rw other (reached w t u))

  sends-Stays : (v : ℕ) → Stays (sends v)
  unfolding enabled perform Handlers.step
  sends-Stays v on = record {
    sound = step-IsSound l.chat (Handlers.sends v (held l)) safe.sound;
    each = sent-Kept v (l.chat.sending v) refl;
  }

  destroys-Stays : (v : ℕ) → Stays (destroys v)
  unfolding enabled perform Handlers.step leave
  destroys-Stays v on = record {
    sound = step-IsSound l.chat (Handlers.destroys v) safe.sound;
    each = λ u.
        by_key
          (Kept (erase v l.chat.sessions) (update l.lives v false) l.accepting
            (λ w. expire v (l.chat.sending w)) l.chat.session)
          v u
          (rw (==_refl v, expire-sending v (l.chat.sending v))
            (record {
              in_set = λ e. rw (has_session-erase v v l.chat.sessions, ==_refl v) at e;
              in_handler = λ e. ground (arith, on, e);
              reader = λ e. ground (arith, on, e);
              sender = λ e. ground (arith, on, e);
            }))
          (λ other.
            rw
              (
                other,
                has_session-erase u v l.chat.sessions,
                other,
                expire-sending v (l.chat.sending u),
              )
              (safe.each u));
  }

pub step-IsSafe : (l : Life) (e : Event) → IsSafe l → IsSafe (step l e)
unfolding step
step-IsSafe l e safe = elim (Bool-cases (enabled l e)) [
  | inr off ↦ rw off safe
  | inl on ↦ rw on (perform-IsSafe e on)
]
  where
    perform-IsSafe : (e : Event) → enabled l e ≡ true → IsSafe (perform l e)
    perform-IsSafe (creates u) on = creates-Stays l safe u on
    perform-IsSafe (accepts u failed) on = accepts-Stays l safe u failed on
    perform-IsSafe (reads u failed text) on = reads-Stays l safe u failed text on
    perform-IsSafe (sends u) on = sends-Stays l safe u on
    perform-IsSafe (runs u) on = runs-Stays l safe u on
    perform-IsSafe (ends_write u failed) on = ends_write-Stays l safe u failed on
    perform-IsSafe (destroys u) on = destroys-Stays l safe u on

pub run_from-IsSafe : (es : List Event) (l : Life) → IsSafe l → IsSafe (run l es)
unfolding run
run_from-IsSafe [] l safe = safe
run_from-IsSafe (e ∷ es) l safe = run_from-IsSafe es (step l e) (step-IsSafe l e safe)

pub run-IsSafe : (es : List Event) → IsSafe (run empty es)
run-IsSafe es = run_from-IsSafe es empty (record {
  sound = record { once = tt; flies = λ u. inl refl };
  each = λ u. record {
    in_set = λ e. cc e;
    in_handler = λ e. cc e;
    reader = λ e. cc e;
    sender = λ e. cc e;
  };
})
