-- ===== src/Chat/Life/End.antt =====
-- How a session ends whose reads have failed.
use asio_learn.Base.{
  ℕ, zero, suc, ◌<◌, ◌≡◌, refl, sym, ap, ◌∙◌, Bool, true, false, not, ◌&&◌, List, [], ◌∷◌, ◌++◌,
  none, ◌==◌, if◌then◌else◌, update, update-update, update_self, ==_refl, ◌⊎◌, length, replicate,
}
use asio_learn.Logic.Server.{has_session, has_session-erase}
use asio_learn.Chat.{Text, Session, front, run_posted, end_write, on_send, on_write, leave}
use asio_learn.Chat as Handlers
use asio_learn.Chat.Sound.{heard, Flies}
use asio_learn.Chat.Life.{
  Life, Event, runs, ends_write, destroys, busy, enabled, perform, step, run, empty, is_posted,
  is_some,
}
use asio_learn.Chat.Life.Work.{times, run1, write1, no_call, no_write, worked_off, worked_off-Ended}
use asio_learn.Chat.Life.Safe.{run-IsSafe}

abbrev pub put : Life → ℕ → Session → Life
put l u s = record l { chat = record l.chat { session = update l.chat.session u s } }

-- A session's own event, which is left out where it changes nothing.
own-step :
    (l : Life) (u : ℕ) (s t : Session) (on : Bool)
    → (on ≡ false → s ≡ t)
    → (if on then put (put l u s) u t else put l u s) ≡ put l u t
own-step l u s t true same =
    ap (λ f. record l { chat = record l.chat { session = f } }) (update-update l.chat.session u s t)
own-step l u s t false same = ap (put l u) (same refl)

step-run1 : (l : Life) (u : ℕ) (s : Session) → step (put l u s) (runs u) ≡ put l u (run1 s)
unfolding step enabled perform Handlers.step
step-run1 l u s =
    rw (==_refl u) (own-step l u s (run1 s) (is_posted s.handlers) (no_call s s.handlers))

step-write1 :
    (l : Life) (u : ℕ) (s : Session) → step (put l u s) (ends_write u false) ≡ put l u (write1 s)
unfolding step enabled perform Handlers.step
step-write1 l u s =
    rw (==_refl u) (own-step l u s (write1 s) (is_some s.flight) (no_write s s.flight))

-- Some of a session's own events.
run-times :
    (l : Life) (u : ℕ) (e : Event) (f : Session → Session)
    → ((s : Session) → step (put l u s) e ≡ put l u (f s))
    → (n : ℕ) (s : Session) → run (put l u s) (replicate n e) ≡ put l u (times n f s)
unfolding run
run-times l u e f one zero s = refl
run-times l u e f one (suc n) s =
    ap (λ m. run m (replicate n e)) (one s) ∙ run-times l u e f one n (f s)

pub run-append : (l : Life) (es fs : List Event) → run l (es ++ fs) ≡ run (run l es) fs
unfolding run
run-append l [] fs = refl
run-append l (e ∷ es) fs = run-append (step l e) es fs

destroy-step :
    (l : Life) (u : ℕ) (s : Session)
    → l.lives u ≡ true
    → l.accepting u ≡ false
    → l.chat.sending u ≡ none
    → busy s ≡ false
    → step (put l u s) (destroys u) ≡ perform (put l u s) (destroys u)
unfolding step enabled perform Handlers.step
destroy-step l u s alive done sent calm = rw (==_refl u, alive, done, sent, calm)

-- What a session has to do: its posted calls run, and its writes end without an error.
abbrev pub work_events : Session → ℕ → List Event
work_events s u =
    replicate (length s.handlers) (runs u) ++ replicate (length (heard s)) (ends_write u false)

pub run_work :
    (l : Life) (u : ℕ)
    → run l (work_events (l.chat.session u) u) ≡ put l u (worked_off (l.chat.session u))
run_work l u =
    let s = l.chat.session u in
    let calls = replicate (length s.handlers) (runs u) in
    let writes = replicate (length (heard s)) (ends_write u false) in
    let same : put l u s ≡ l =
      ap (λ f. record l { chat = record l.chat { session = f } }) (update_self l.chat.session u) in
    run-append l calls writes
    ∙ ap (λ m. run m writes)
        (ap (λ m. run m calls) (sym same)
          ∙ run-times l u (runs u) run1 (step-run1 l u) (length s.handlers) s)
    ∙ run-times l u (ends_write u false) write1 (step-write1 l u) (length (heard s))
        (times (length s.handlers) run1 s)

-- What a session that lives, and whose handshake, last broadcast and last read have ended, does until it is destroyed.
abbrev pub last_events : Session → ℕ → List Event
last_events s u = work_events s u ++ destroys u ∷ []

run_last :
    (l : Life) (u : ℕ)
    → l.lives u ≡ true
    → l.accepting u ≡ false
    → l.chat.sending u ≡ none
    → (l.chat.session u).reading ≡ false
    → Flies (l.chat.session u)
    → run l (last_events (l.chat.session u) u)
      ≡ perform (put l u (worked_off (l.chat.session u))) (destroys u)
unfolding run
run_last l u alive done sent idle f =
    let s = l.chat.session u in
    let w = worked_off-Ended s f in
    run-append l (work_events s u) (destroys u ∷ [])
    ∙ ap (λ m. step m (destroys u)) (run_work l u)
    ∙ destroy-step l u (worked_off s) alive done sent (rw (w.reads, w.idle, w.no_calls, idle))

-- A session that lives, and whose handshake, last broadcast and last read have ended, is destroyed once
-- its posted calls have run and its writes have ended: the set then has the other members and no more. By then everything
-- it had heard has been written, unless a write of it had failed before: then nothing was in flight
-- although texts were queued.
pub run-ends :
    (before : List Event) (u : ℕ)
    → (run empty before).lives u ≡ true
    → (run empty before).accepting u ≡ false
    → (run empty before).chat.sending u ≡ none
    → ((run empty before).chat.session u).reading ≡ false
    → let l = run empty before in
      let s = l.chat.session u in
      let m = run l (last_events s u) in
      (m.lives u ≡ false)
      × ((v : ℕ) → has_session v m.chat.sessions ≡ (not (u == v) && has_session v l.chat.sessions))
      × (((m.chat.session u).written ≡ heard s) ⊎ ((s.flight ≡ none) × (0 < length s.queue)))
unfolding perform Handlers.step leave
run-ends before u alive done sent idle =
    let l = run empty before in
    let s = l.chat.session u in
    let f = (run-IsSafe before).sound.flies u in
    rw (run_last l u alive done sent idle f) (
      rw (==_refl u),
      λ v. has_session-erase v u l.chat.sessions,
      rw (==_refl u) (worked_off-Ended s f).result,
    )
