-- ===== src/Chat/Sound.antt =====
-- The set has each session once, and each session writes one text at a time.
use asio_learn.Base.{
  ℕ, suc, ◌<◌, ◌≡◌, refl, sym, ap, ◌∙◌, Bool, true, false, List, [], ◌∷◌, ◌++◌, Option, none, some,
  ltb, ◌==◌, if◌then◌else◌, length, arith, Bool-cases, inl, inr, ◌⊎◌, append_assoc, lt→ltb,
  length-append,
}
use asio_learn.Logic.Server.{has_session, insert, erase, has_session-erase}
use asio_learn.Chat.{Text, Session, front, on_send, run_posted, on_write, end_write}

abbrev pub Unique : List ℕ → Type 0
Unique [] = Unit
Unique (u ∷ us) = (has_session u us ≡ false) × Unique us

pub insert-Unique : (u : ℕ) (us : List ℕ) → Unique us → Unique (insert u us)
insert-Unique u us v = elim (Bool-cases (has_session u us)) [
  | inl old ↦ rw old v
  | inr new ↦ rw new (new, v)
]

pub erase-Unique : (u : ℕ) (us : List ℕ) → Unique us → Unique (erase u us)
erase-Unique u [] v = v
erase-Unique u (w ∷ us) v = elim (Bool-cases (w == u)) [
  | inl same ↦ rw same (erase-Unique u us v.1)
  | inr other ↦ rw other (rw (has_session-erase w u us, v.0) (ground arith), erase-Unique u us v.1)
]

-- The front of the queue is in flight; after a write that failed nothing is, and the queue is not
-- empty, so that no write starts again.
abbrev pub Flies : Session → Type 0
Flies s = (s.flight ≡ front s.queue) ⊎ ((s.flight ≡ none) × (0 < length s.queue))

-- All that was posted to a session, in the order of the posts: it is written, queued, or still to be
-- queued.
abbrev pub heard : Session → List Text
heard s = (s.written ++ s.queue) ++ s.handlers

pub on_send-Flies : (s : Session) (ss : Text) → Flies s → Flies (on_send s ss)
unfolding on_send
on_send-Flies s ss f = on_queue s.queue s.flight f
  where
    on_queue :
        (q : List Text) (w : Option Text)
        → (w ≡ front q) ⊎ ((w ≡ none) × (0 < length q))
        → Flies (
            if ltb 1 (length (q ++ ss ∷ []))
            then record s { queue = q ++ ss ∷ []; flight = w }
            else record s { queue = q ++ ss ∷ []; flight = front (q ++ ss ∷ []) })
    on_queue [] w f = inl refl
    on_queue (t ∷ q) w f =
        let long : ltb 1 (suc (length (q ++ ss ∷ []))) ≡ true =
          lt→ltb 1 (suc (length (q ++ ss ∷ []))) (omega (arith, length-append q (ss ∷ []))) in
        rw long (elim f [ inl e ↦ inl e | inr (e, l) ↦ inr (e, omega arith) ])

pub run_posted-Flies : (s : Session) (hs : List Text) → Flies s → Flies (run_posted s hs)
run_posted-Flies s [] f = f
run_posted-Flies s (ss ∷ more) f = on_send-Flies (record s { handlers = more }) ss f

pub end_write-Flies :
    (s : Session) (failed : Bool) (q : List Text) (w : Option Text)
    → (w ≡ front q) ⊎ ((w ≡ none) × (0 < length q))
    → Flies (end_write (record s { queue = q; flight = w }) failed w)
unfolding on_write
end_write-Flies s failed q none f = f
end_write-Flies s true [] (some t) f = inl refl
end_write-Flies s true (r ∷ q) (some t) f = inr (refl, omega arith)
end_write-Flies s false [] (some t) f = inl refl
end_write-Flies s false (r ∷ q) (some t) f = inl refl

-- Neither moves a text out of its place.
pub run_posted-heard :
    (s : Session) (hs : List Text) → s.handlers ≡ hs → heard (run_posted s hs) ≡ heard s
unfolding on_send
run_posted-heard s [] e = refl
run_posted-heard s (ss ∷ more) e = elim (Bool-cases (ltb 1 (length (s.queue ++ ss ∷ [])))) [
  | inl long ↦ rw (long, e) (moved s.written s.queue)
  | inr one ↦ rw (one, e) (moved s.written s.queue)
]
  where
    moved : (w q : List Text) → (w ++ (q ++ ss ∷ [])) ++ more ≡ (w ++ q) ++ ss ∷ more
    moved w q =
        ap (λ l. l ++ more) (sym (append_assoc w q (ss ∷ [])))
        ∙ append_assoc (w ++ q) (ss ∷ []) more

pub end_write-heard :
    (s : Session) (failed : Bool) (q : List Text) (w : Option Text)
    → (w ≡ front q) ⊎ ((w ≡ none) × (0 < length q))
    → heard (end_write (record s { queue = q; flight = w }) failed w)
      ≡ heard (record s { queue = q; flight = w })
unfolding on_write
end_write-heard s failed q none f = refl
end_write-heard s true q (some t) f = refl
end_write-heard s false [] (some t) f = absurd (elim f [ inl e ↦ cc e | inr (e, l) ↦ cc e ])
end_write-heard s false (r ∷ q) (some t) f =
    let same : t ≡ r = elim f [ inl e ↦ cc e | inr (e, l) ↦ absurd (cc e) ] in
    rw same (ap (λ l. l ++ s.handlers) (append_assoc s.written (r ∷ []) q))
