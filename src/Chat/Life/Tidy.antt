-- ===== src/Chat/Life/Tidy.antt =====
-- The calls of `send` that have not returned: whom they still have to post to.
use asio_learn.Base.{
  ℕ, ◌≡◌, refl, ap, Bool, true, false, not, ◌&&◌, ◌||◌, List, [], ◌∷◌, ◌==◌, none, some, update,
  by_key, ==_refl, arith, Bool-cases, inl, inr,
}
use asio_learn.Logic.Server.{has_session, insert, erase, has_session-insert, has_session-erase}
use asio_learn.Chat.{
  Text, Session, State, Sending, is_sending, send, send_all, send_next, expire, on_accept, on_read,
  join, leave, run_posted, end_write,
}
use asio_learn.Chat as Handlers
use asio_learn.Chat.Sound.{Unique, erase-Unique}
use asio_learn.Chat.Life.{
  Life, Event, creates, accepts, reads, sends, runs, ends_write, destroys, enabled, perform, step,
  run, empty, held,
}
use asio_learn.Chat.Life.Held.{
  IsSafe, send-reading, run_posted-reading, end_write-reading, expire-sending,
}
use asio_learn.Chat.Life.Safe.{step-IsSafe}

-- The weak pointers that a call of `send` has left.
abbrev pub rest : Sending → List ℕ
rest none = []
rest (some (t, vs)) = vs

pub rest-expire : (u : ℕ) (s : Sending) → rest (expire u s) ≡ erase u (rest s)
rest-expire u none = refl
rest-expire u (some (t, vs)) = refl

-- For one session: its call of `send` has members of the set left, each once; while it reads it is in no
-- call; and in its handshake it neither reads nor sends.
pub record IsTidy (us vs : List ℕ) (accepting reading sending : Bool) : Type 0 where
  pub targets : (v : ℕ) → has_session v vs ≡ true → has_session v us ≡ true
  pub once : Unique vs
  pub alone : reading ≡ true → sending ≡ false
  pub calm : accepting ≡ true → reading || sending ≡ false

abbrev pub AreTidy : Life → Type 0
AreTidy l =
    (u : ℕ)
    → IsTidy l.chat.sessions (rest (l.chat.sending u)) (l.accepting u) (l.chat.session u).reading
        (is_sending (l.chat.sending u))

module _ (l : Life) (safe : IsSafe l) (tidy : AreTidy l) where
  abbrev Stays : Event → Type 0
  Stays e = enabled l e ≡ true → AreTidy (perform l e)

  -- What holds of a session, with some of its parts changed.
  abbrev Kept : List ℕ → (ℕ → Bool) → (ℕ → Sending) → (ℕ → Session) → ℕ → Type 0
  Kept us accepting sending f u =
      IsTidy us (rest (sending u)) (accepting u) (f u).reading (is_sending (sending u))

  unborn : (v : ℕ) → not (l.lives v) ≡ true → is_sending (l.chat.sending v) ≡ false
  unborn v free = elim (Bool-cases (is_sending (l.chat.sending v))) [
    | inr e ↦ e
    | inl e ↦
        let alive = (safe.each v).in_handler (rw e (ground arith)) in
        absurd (ground (arith, free, alive))
  ]

  creates-Stays : (v : ℕ) → Stays (creates v)
  unfolding enabled perform
  creates-Stays v free u =
      by_key
        (Kept l.chat.sessions (update l.accepting v true) l.chat.sending
          (update l.chat.session v Handlers.new_session))
        v u
        (rw (==_refl v) (record {
          targets = (tidy v).targets;
          once = (tidy v).once;
          alone = λ e. cc e;
          calm = λ e. unborn v free;
        }))
        (λ other. rw other (tidy u))

  accepts-Stays : (v : ℕ) (failed : Bool) → Stays (accepts v failed)
  unfolding enabled perform Handlers.step on_accept join
  accepts-Stays v true on u =
      by_key (Kept l.chat.sessions (update l.accepting v false) l.chat.sending l.chat.session) v u
        (rw (==_refl v) (record {
          targets = (tidy v).targets;
          once = (tidy v).once;
          alone = (tidy v).alone;
          calm = λ e. cc e;
        }))
        (λ other. rw other (tidy u))
  accepts-Stays v false on u =
      by_key
        (Kept (insert v l.chat.sessions) (update l.accepting v false) l.chat.sending
          (update l.chat.session v (record (l.chat.session v) { reading = true })))
        v u
        (rw (==_refl v) (record {
          targets = wider v;
          once = (tidy v).once;
          alone = λ e. ground (arith, (tidy v).calm on);
          calm = λ e. cc e;
        }))
        (λ other. rw other (record {
          targets = wider u;
          once = (tidy u).once;
          alone = (tidy u).alone;
          calm = (tidy u).calm;
        }))
    where
      wider :
          (u w : ℕ)
          → has_session w (rest (l.chat.sending u)) ≡ true
          → has_session w (insert v l.chat.sessions) ≡ true
      wider u w e = rw (has_session-insert w v l.chat.sessions, (tidy u).targets w e) (ground arith)

  -- A handler of session `v` that changes its session only, and not whether it reads.
  own-Stays :
      (v : ℕ) (s : Session)
      → s.reading ≡ (l.chat.session v).reading
      → (u : ℕ) → Kept l.chat.sessions l.accepting l.chat.sending (update l.chat.session v s) u
  own-Stays v s same u =
      by_key (Kept l.chat.sessions l.accepting l.chat.sending (update l.chat.session v s)) v u
        (rw (==_refl v, same) (tidy v)) (λ other. rw other (tidy u))

  reads-Stays : (v : ℕ) (failed : Bool) (text : Text) → Stays (reads v failed text)
  unfolding enabled perform Handlers.step on_read send_all
  reads-Stays v true text on u =
      by_key
        (Kept l.chat.sessions l.accepting l.chat.sending
          (update l.chat.session v (record (l.chat.session v) { reading = false })))
        v u
        (rw (==_refl v) (record {
          targets = (tidy v).targets;
          once = (tidy v).once;
          alone = λ e. cc e;
          calm = λ e. ground (arith, (tidy v).calm e);
        }))
        (λ other. rw other (tidy u))
  reads-Stays v false text on u =
      by_key
        (Kept l.chat.sessions l.accepting (update l.chat.sending v (some (text, l.chat.sessions)))
          (update l.chat.session v (record (l.chat.session v) { reading = false })))
        v u
        (rw (==_refl v) (record {
          targets = λ w e. e;
          once = safe.sound.once;
          alone = λ e. cc e;
          calm = λ e. absurd (ground (arith, on, (tidy v).calm e));
        }))
        (λ other. rw other (tidy u))

  sent-Kept :
      (v : ℕ) (s : Sending)
      → l.chat.sending v ≡ s
      → let c : State = send_next l.chat v (held l) s in
        (u : ℕ) → Kept c.sessions l.accepting c.sending c.session u
  sent-Kept v none e u = tidy u
  sent-Kept v (some (t, [])) e u =
      by_key
        (Kept l.chat.sessions l.accepting (update l.chat.sending v none)
          (update l.chat.session v (record (l.chat.session v) { reading = true })))
        v u
        (rw (==_refl v) (record {
          targets = λ w h. absurd (cc h);
          once = tt;
          alone = λ h. refl;
          calm = λ h. absurd (ground (arith, ap is_sending e, (tidy v).calm h));
        }))
        (λ other. rw other (tidy u))
  sent-Kept v (some (t, w ∷ ws)) e u = rw (send-reading (held l w) l.chat.session w t u) (
      by_key
        (Kept l.chat.sessions l.accepting (update l.chat.sending v (some (t, ws))) l.chat.session) v
        u
        (rw (==_refl v) (record {
          targets = λ x h. (rw e at ((tidy v).targets x)) (rw h (ground arith));
          once = (rw e at (tidy v).once).1;
          alone = λ h. rw e at ((tidy v).alone h);
          calm = λ h. rw e at ((tidy v).calm h);
        }))
        (λ other. rw other (tidy u)))

  destroys-Stays : (v : ℕ) → Stays (destroys v)
  unfolding enabled perform Handlers.step leave
  destroys-Stays v on u =
      rw (rest-expire v (l.chat.sending u), expire-sending v (l.chat.sending u))
        (record {
          targets = λ w h.
              rw (has_session-erase w v l.chat.sessions)
                (fewer w (has_session-erase w v (rest (l.chat.sending u))) h);
          once = erase-Unique v (rest (l.chat.sending u)) (tidy u).once;
          alone = (tidy u).alone;
          calm = (tidy u).calm;
        })
    where
      fewer :
          (w : ℕ)
          → has_session w (erase v (rest (l.chat.sending u)))
            ≡ (not (v == w) && has_session w (rest (l.chat.sending u)))
          → has_session w (erase v (rest (l.chat.sending u))) ≡ true
          → not (v == w) && has_session w l.chat.sessions ≡ true
      fewer w e h =
          let left : has_session w (rest (l.chat.sending u)) ≡ true = ground (arith, e, h) in
          ground (arith, e, h, (tidy u).targets w left)

  perform-AreTidy : (e : Event) → enabled l e ≡ true → AreTidy (perform l e)
  unfolding enabled perform Handlers.step
  perform-AreTidy (creates v) on = creates-Stays v on
  perform-AreTidy (accepts v failed) on = accepts-Stays v failed on
  perform-AreTidy (reads v failed text) on = reads-Stays v failed text on
  perform-AreTidy (sends v) on = sent-Kept v (l.chat.sending v) refl
  perform-AreTidy (runs v) on =
      own-Stays v (run_posted (l.chat.session v) (l.chat.session v).handlers)
        (run_posted-reading (l.chat.session v) (l.chat.session v).handlers)
  perform-AreTidy (ends_write v failed) on =
      own-Stays v (end_write (l.chat.session v) failed (l.chat.session v).flight)
        (end_write-reading (l.chat.session v) failed (l.chat.session v).flight)
  perform-AreTidy (destroys v) on = destroys-Stays v on

  pub step-AreTidy : (e : Event) → AreTidy (step l e)
  unfolding step
  step-AreTidy e = elim (Bool-cases (enabled l e)) [
    | inl on ↦ rw on (perform-AreTidy e on)
    | inr off ↦ rw off tidy
  ]

pub run-AreTidy : (es : List Event) (l : Life) → IsSafe l → AreTidy l → AreTidy (run l es)
unfolding run
run-AreTidy [] l safe tidy = tidy
run-AreTidy (e ∷ es) l safe tidy =
    run-AreTidy es (step l e) (step-IsSafe l e safe) (step-AreTidy l safe tidy e)

pub empty-AreTidy : AreTidy empty
empty-AreTidy u = record { targets = λ v e. e; once = tt; alone = λ e. refl; calm = λ e. refl }
