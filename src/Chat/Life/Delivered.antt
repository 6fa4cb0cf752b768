-- ===== src/Chat/Life/Delivered.antt =====
-- What a session writes, from its creation on.
use asio_learn.Base.{
  ℕ, ◌<◌, ◌≡◌, refl, sym, ap, ◌∙◌, subst, Bool, true, false, not, ◌&&◌, List, [], ◌∷◌, ◌++◌, Option,
  none, some, ◌==◌, update, ==_refl, ==_iff, arith, length, Bool-cases, inl, inr,
}
use asio_learn.Chat.{
  Text, Session, Sending, new_session, front, send, send_all, send_next, on_accept, on_read, join,
  leave, run_posted, end_write, on_write,
}
use asio_learn.Logic.Server.{has_session}
use asio_learn.Chat as Handlers
use asio_learn.Chat.Sound.{heard}
use asio_learn.Chat.Life.{
  Life, Event, creates, accepts, reads, sends, runs, ends_write, destroys, held, enabled, perform,
  step, run, empty,
}
use asio_learn.Chat.Life.Held.{IsSafe}
use asio_learn.Chat.Life.Safe.{step-IsSafe, run-IsSafe, run_from-IsSafe}
use asio_learn.Chat.Life.Tidy.{AreTidy, rest, step-AreTidy, run-AreTidy, empty-AreTidy}
use asio_learn.Chat.Life.Texts.{
  never_quits, stays, spoken_by, pending, pending-none, texts, texts_by,
}
use asio_learn.Chat.Life.Heard.{run_from-Spread}
use asio_learn.Chat.Life.Work.{run_posted-front, worked_off, worked_off-Ended}
use asio_learn.Chat.Life.End.{work_events, run_work}
use asio_learn.Chat.Life.Joined.{IsJoining, stays_joining, run-IsJoining}

-- Whether a write of a session fails.
abbrev pub breaks : ℕ → Event → Bool
breaks v (ends_write u failed) = u == v && failed
breaks v _ = false

abbrev pub never_breaks : ℕ → List Event → Bool
never_breaks v [] = true
never_breaks v (e ∷ es) = not (breaks v e) && never_breaks v es

-- The text in flight is the front of the queue.
abbrev Sends : Session → Type 0
Sends s = s.flight ≡ front s.queue

Sends-update :
    (f : ℕ → Session) (u v : ℕ) (s : Session)
    → ((u == v) ≡ true → Sends s)
    → Sends (f v)
    → Sends (update f u s v)
Sends-update f u v s own other = elim (Bool-cases (u == v)) [
  | inl e ↦ rw e (own e)
  | inr e ↦ rw e other
]

end_write-Sends :
    (s : Session) (q : List Text) (w : Option Text)
    → s.queue ≡ q
    → Sends s
    → Sends (end_write s false w)
unfolding on_write
end_write-Sends s q none e k = k
end_write-Sends s [] (some t) e k = rw e
end_write-Sends s (x ∷ q) (some t) e k = rw e

module _ (v : ℕ) (l : Life) (k : Sends (l.chat.session v)) where
  own : (u : ℕ) → (u == v) ≡ true → Sends (l.chat.session u)
  own u e = subst (λ w. Sends (l.chat.session w)) (sym ((==_iff u v).0 e)) k

  perform-Sends : (e : Event) → breaks v e ≡ false → Sends ((perform l e).chat.session v)
  unfolding perform Handlers.step on_accept on_read join leave send_all send
  perform-Sends (creates u) b = Sends-update l.chat.session u v _ (λ e. refl) k
  perform-Sends (accepts u true) b = k
  perform-Sends (accepts u false) b = Sends-update l.chat.session u v _ (own u) k
  perform-Sends (reads u true text) b = Sends-update l.chat.session u v _ (own u) k
  perform-Sends (reads u false text) b = Sends-update l.chat.session u v _ (own u) k
  perform-Sends (sends u) b = sent (l.chat.sending u)
    where
      sent : (s : Sending) → Sends ((send_next l.chat u (held l) s).session v)
      sent none = k
      sent (some (t, [])) = Sends-update l.chat.session u v _ (own u) k
      sent (some (t, w ∷ ws)) = elim (Bool-cases (held l w)) [
        | inl up ↦ rw up (Sends-update l.chat.session w v _ (own w) k)
        | inr down ↦ rw down k
      ]
  perform-Sends (runs u) b =
      let s = l.chat.session u in
      Sends-update l.chat.session u v _ (λ e. run_posted-front s s.queue s.handlers refl (own u e))
        k
  perform-Sends (ends_write u true) b =
      Sends-update l.chat.session u v _ (λ e. absurd (ground (arith, e, b))) k
  perform-Sends (ends_write u false) b =
      let s = l.chat.session u in
      Sends-update l.chat.session u v _ (λ e. end_write-Sends s s.queue s.flight refl (own u e)) k
  perform-Sends (destroys u) b = k

  step-Sends : (e : Event) → breaks v e ≡ false → Sends ((step l e).chat.session v)
  unfolding step
  step-Sends e b = elim (Bool-cases (enabled l e)) [
    | inl on ↦ rw on (perform-Sends e b)
    | inr off ↦ rw off k
  ]

run-Sends :
    (es : List Event) (v : ℕ) (l : Life)
    → Sends (l.chat.session v)
    → never_breaks v es ≡ true
    → Sends ((run l es).chat.session v)
unfolding run
run-Sends [] v l k n = k
run-Sends (e ∷ es) v l k n =
    let (now, later) = stays (breaks v e) (never_breaks v es) n in
    run-Sends es v (step l e) (step-Sends v l k e now) later

worked_off-written : (s : Session) → Sends s → (worked_off s).written ≡ heard s
worked_off-written s k = elim ((worked_off-Ended s (inl k)).result) [
  | inl e ↦ e
  | inr (idle, waits) ↦ absurd (no_front s.queue (sym k ∙ idle) waits)
]
  where
    no_front : (q : List Text) → front q ≡ none → 0 < length q → ⊥
    no_front [] e l = omega (arith, l)
    no_front (t ∷ q) e l = cc e

joins :
    (m : Life) (v : ℕ)
    → IsJoining v m
    → (step m (accepts v false)).chat.session v ≡ record new_session { reading = true }
unfolding step enabled perform Handlers.step on_accept join
joins m v j = rw (j.joining, ==_refl v) (ap (λ (s : Session). record s { reading = true }) j.fresh)

created : (l : Life) (v : ℕ) → IsSafe l → l.lives v ≡ false → IsJoining v (step l (creates v))
unfolding step enabled perform
created l v safe free =
    let outside : has_session v l.chat.sessions ≡ false =
      elim (Bool-cases (has_session v l.chat.sessions)) [
        | inl e ↦ absurd (cc (free, (safe.each v).in_set e))
        | inr e ↦ e
      ] in
    rw free (record {
      alive = rw (==_refl v);
      joining = rw (==_refl v);
      outside = outside;
      fresh = rw (==_refl v);
    })

-- At the end of the handshake no call of `send` has a text left for it.
nothing :
    (m : Life) (v u : ℕ)
    → IsJoining v m
    → AreTidy m
    → pending v ((step m (accepts v false)).chat.sending u) ≡ []
unfolding step enabled perform Handlers.step on_accept join
nothing m v u j tidy = rw j.joining (
    pending-none v (m.chat.sending u)
      (unsent (has_session v (rest (m.chat.sending u))) ((tidy u).targets v) j.outside))
  where
    unsent :
        (b : Bool)
        → (b ≡ true → has_session v m.chat.sessions ≡ true)
        → has_session v m.chat.sessions ≡ false
        → b ≡ false
    unsent true f e = absurd (cc (e, f refl))
    unsent false f e = refl

-- A session that is created at a free address and whose handshake succeeds, whatever happened before and
-- whatever the others do meanwhile: from then on, as long as none of its reads and writes fails, it
-- lives, and what it has written, has queued and is about to queue are texts of which each comes from
-- the read of one session: from every session, itself included, they are those that it has read since
-- that handshake, each once and in the order of its reads, less the one that it has still to post. The
-- broadcasts of several sessions interleave freely, so that nothing is said on the order of their texts
-- among each other. Once the session's posted calls have run and its writes have ended, it has written
-- just these texts.
pub run-delivered :
    (before mid after : List Event) (v : ℕ)
    → (run empty before).lives v ≡ false
    → stays_joining v mid ≡ true
    → never_quits v after ≡ true
    → never_breaks v after ≡ true
    → let k = step (run (step (run empty before) (creates v)) mid) (accepts v false) in
      let l = run k after in
      let s = l.chat.session v in
      (l.lives v ≡ true)
      × ((posted : List (ℕ × Text)) × ((heard s ≡ texts posted)
            × ((u : ℕ) → texts_by u posted ++ pending v (l.chat.sending u) ≡ spoken_by u k after)
            × (((run l (work_events s v)).chat.session v).written ≡ texts posted)))
unfolding run
run-delivered before mid after v free joining quiet sound =
    let a = run empty before in
    let b = step a (creates v) in
    let m = run b mid in
    let k = step m (accepts v false) in
    let l = run k after in
    let s = l.chat.session v in
    let safe_a = run-IsSafe before in
    let tidy_a = run-AreTidy before empty (run-IsSafe []) empty-AreTidy in
    let safe_b = step-IsSafe a (creates v) safe_a in
    let tidy_b = step-AreTidy a safe_a tidy_a (creates v) in
    let safe_m = run_from-IsSafe mid b safe_b in
    let tidy_m = run-AreTidy mid b safe_b tidy_b in
    let safe_k = step-IsSafe m (accepts v false) safe_m in
    let joined = run-IsJoining mid v b safe_b tidy_b (created a v safe_a free) joining in
    let here = joins m v joined in
    let now_reads : (k.chat.session v).reading ≡ true = ap (λ (s : Session). s.reading) here in
    let spread =
      run_from-Spread after k v safe_k (step-AreTidy m safe_m tidy_m (accepts v false))
        (rw now_reads refl) quiet in
    let all = spread.hears ∙ ap (λ ts. ts ++ texts spread.posted) (ap heard here) in
    let sends = run-Sends after v k (subst Sends (sym here) refl) sound in
    let after_work =
      ap (λ (m : Life). m.chat.session v) (run_work l v) ∙ at_own l.chat.session (worked_off s) in
    (
      ((run_from-IsSafe after k safe_k).each v).in_handler (ground (arith, spread.present)),
      (
        spread.posted,
        (
          all,
          λ u.
              spread.by_reader u
              ∙ ap (λ ts. ts ++ spoken_by u k after) (nothing m v u joined tidy_m),
          ap (λ (s : Session). s.written) after_work ∙ worked_off-written s sends ∙ all,
        ),
      ),
    )
  where
    at_own : (f : ℕ → Session) (s : Session) → update f v s v ≡ s
    at_own f s = rw (==_refl v) refl
