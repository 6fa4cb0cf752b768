-- ===== src/Chat/Life/Work.antt =====
-- What a session works off once it reads no more: its posted calls, then its writes.
use asio_learn.Base.{
  ltb, lt→ltb, ℕ, zero, suc, ◌≤◌, ◌<◌, ◌≡◌, refl, sym, ap, ◌∙◌, true, false, List, [], ◌∷◌, ◌++◌,
  Option, none, some, arith, inl, inr, ◌⊎◌, append-nil, length, length-append,
}
use asio_learn.Chat.{Text, Session, front, run_posted, end_write, on_send, on_write}
use asio_learn.Chat.Sound.{
  heard, Flies, run_posted-heard, run_posted-Flies, end_write-heard, end_write-Flies,
}
use asio_learn.Chat.Life.{is_posted, is_some}
use asio_learn.Chat.Life.Held.{run_posted-reading, end_write-reading}

-- The next posted call, and the end of the write in flight.
abbrev pub run1 : Session → Session
run1 s = run_posted s s.handlers

abbrev pub write1 : Session → Session
write1 s = end_write s false s.flight

abbrev pub times : ℕ → (Session → Session) → Session → Session
times zero f s = s
times (suc n) f s = times n f (f s)

pub no_call : (s : Session) (hs : List Text) → is_posted hs ≡ false → s ≡ run_posted s hs
no_call s [] e = refl
no_call s (t ∷ ts) e = absurd (cc e)

pub no_write : (s : Session) (w : Option Text) → is_some w ≡ false → s ≡ end_write s false w
no_write s none e = refl
no_write s (some t) e = absurd (cc e)

-- What a session keeps while it only works off what it has.
record Keeps (s t : Session) : Type 0 where
  reads : t.reading ≡ s.reading
  hears : heard t ≡ heard s
  flies : Flies t

run1-Keeps : (s : Session) → Flies s → Keeps s (run1 s)
run1-Keeps s f = record {
  reads = run_posted-reading s s.handlers;
  hears = run_posted-heard s s.handlers refl;
  flies = run_posted-Flies s s.handlers f;
}

write1-Keeps : (s : Session) → Flies s → Keeps s (write1 s)
write1-Keeps s f = record {
  reads = end_write-reading s false s.flight;
  hears = end_write-heard s false s.queue s.flight f;
  flies = end_write-Flies s false s.queue s.flight f;
}

times-Keeps :
    (f : Session → Session)
    → ((s : Session) → Flies s → Keeps s (f s))
    → (n : ℕ) (s : Session) → Flies s
    → Keeps s (times n f s)
times-Keeps f one zero s fl = record { reads = refl; hears = refl; flies = fl }
times-Keeps f one (suc n) s fl =
    let k = one s fl in
    let rest = times-Keeps f one n (f s) k.flies in
    record { reads = rest.reads ∙ k.reads; hears = rest.hears ∙ k.hears; flies = rest.flies }

abbrev tail : List Text → List Text
tail [] = []
tail (t ∷ ts) = ts

run_posted-handlers :
    (s : Session) (hs : List Text) → s.handlers ≡ hs → (run_posted s hs).handlers ≡ tail hs
unfolding on_send
run_posted-handlers s [] e = e
run_posted-handlers s (t ∷ ts) e = ground arith

-- All posted calls are run.
runs_out :
    (n : ℕ) (s : Session) (hs : List Text)
    → s.handlers ≡ hs
    → length hs ≤ n
    → (times n run1 s).handlers ≡ []
runs_out zero s [] e l = e
runs_out zero s (t ∷ ts) e l = absurd (omega arith)
runs_out (suc n) s hs e l =
    runs_out n (run1 s) (tail hs) (run_posted-handlers s s.handlers refl ∙ ap tail e) (shorter hs l)
  where
    shorter : (hs : List Text) → length hs ≤ suc n → length (tail hs) ≤ n
    shorter [] l = omega arith
    shorter (t ∷ ts) l = omega (arith, l)

record Writes (s : Session) (q : List Text) : Type 0 where
  queues : s.queue ≡ q
  front_flies : s.flight ≡ front q
  no_calls : s.handlers ≡ []

end_write-Writes :
    (s : Session) (q : List Text) (w : Option Text)
    → s.flight ≡ w
    → Writes s q
    → Writes (end_write s false w) (tail q)
unfolding on_write
end_write-Writes s [] none e v = v
end_write-Writes s [] (some t) e v = absurd (cc (e, v.front_flies))
end_write-Writes s (t ∷ q) none e v = absurd (cc (e, v.front_flies))
end_write-Writes s (t ∷ q) (some w) e v =
    rw (v.queues) (record { queues = refl; front_flies = refl; no_calls = v.no_calls })

-- All writes end, if none has failed.
written_all :
    (n : ℕ) (s : Session) (q : List Text) → Writes s q → length q ≤ n → Writes (times n write1 s) []
written_all zero s [] v l = v
written_all zero s (t ∷ q) v l = absurd (omega arith)
written_all (suc n) s q v l =
    written_all n (write1 s) (tail q) (end_write-Writes s q s.flight refl v) (shorter q l)
  where
    shorter : (hs : List Text) → length hs ≤ suc n → length (tail hs) ≤ n
    shorter [] l = omega arith
    shorter (t ∷ ts) l = omega (arith, l)

-- After a write that failed there is none.
no_writes : (n : ℕ) (s : Session) → s.flight ≡ none → times n write1 s ≡ s
no_writes zero s e = refl
no_writes (suc n) s e =
    ap (times n write1) (sym (no_write s s.flight (ap is_some e))) ∙ no_writes n s e

pub run_posted-front :
    (s : Session) (q hs : List Text)
    → s.queue ≡ q
    → s.flight ≡ front q
    → (run_posted s hs).flight ≡ front (run_posted s hs).queue
unfolding on_send
run_posted-front s q [] e f = f ∙ ap front (sym e)
run_posted-front s [] (t ∷ ts) e f = rw e
run_posted-front s (x ∷ q) (t ∷ ts) e f =
    let long : ltb 1 (suc (length (q ++ t ∷ []))) ≡ true =
      lt→ltb 1 (suc (length (q ++ t ∷ []))) (omega (arith, length-append q (t ∷ []))) in
    rw (e, long) f

runs-front :
    (n : ℕ) (s : Session)
    → s.flight ≡ front s.queue
    → (times n run1 s).flight ≡ front (times n run1 s).queue
runs-front zero s f = f
runs-front (suc n) s f = runs-front n (run1 s) (run_posted-front s s.queue s.handlers refl f)

length-heard : (s : Session) → length s.queue ≤ length (heard s)
length-heard s =
    omega (arith, length-append (s.written ++ s.queue) s.handlers, length-append s.written s.queue)

-- A session that has worked off its calls and writes.
abbrev pub worked_off : Session → Session
worked_off s = times (length (heard s)) write1 (times (length s.handlers) run1 s)

pub record Ended (s t : Session) : Type 0 where
  pub reads : t.reading ≡ s.reading
  pub idle : t.flight ≡ none
  pub no_calls : t.handlers ≡ []
  pub result : (t.written ≡ heard s) ⊎ ((s.flight ≡ none) × (0 < length s.queue))

heard_all : (t : Session) → t.queue ≡ [] → t.handlers ≡ [] → heard t ≡ t.written
heard_all t q h = rw (q, h) (append-nil (t.written ++ []) ∙ append-nil t.written)

record Stuck (s : Session) : Type 0 where
  no_flight : s.flight ≡ none
  waits : 0 < length s.queue

run_posted-Stuck :
    (s : Session) (q hs : List Text) → s.queue ≡ q → Stuck s → Stuck (run_posted s hs)
unfolding on_send
run_posted-Stuck s q [] e k = k
run_posted-Stuck s [] (t ∷ ts) e k = absurd (omega (arith, k.waits, ap length e))
run_posted-Stuck s (x ∷ q) (t ∷ ts) e k =
    let long : ltb 1 (suc (length (q ++ t ∷ []))) ≡ true =
      lt→ltb 1 (suc (length (q ++ t ∷ []))) (omega (arith, length-append q (t ∷ []))) in
    rw (e, long) (record { no_flight = k.no_flight; waits = omega arith })

runs-Stuck : (n : ℕ) (s : Session) → Stuck s → Stuck (times n run1 s)
runs-Stuck zero s k = k
runs-Stuck (suc n) s k = runs-Stuck n (run1 s) (run_posted-Stuck s s.queue s.handlers refl k)

pub worked_off-Ended : (s : Session) → Flies s → Ended s (worked_off s)
worked_off-Ended s f =
    let a = times (length s.handlers) run1 s in
    let k = times-Keeps run1 run1-Keeps (length s.handlers) s f in
    let k' = times-Keeps write1 write1-Keeps (length (heard s)) a k.flies in
    let calm : a.handlers ≡ [] = runs_out (length s.handlers) s s.handlers refl (omega arith) in
    let few : length a.queue ≤ length (heard s) =
      omega (arith, length-heard a, ap length k.hears) in
    elim f [
      | inl e ↦
          let w =
            written_all (length (heard s)) a a.queue
              (record {
                queues = refl;
                front_flies = runs-front (length s.handlers) s e;
                no_calls = calm;
              })
              few in
          record {
            reads = k'.reads ∙ k.reads;
            idle = w.front_flies;
            no_calls = w.no_calls;
            result = inl (sym (heard_all (worked_off s) w.queues w.no_calls) ∙ k'.hears ∙ k.hears);
          }
      | inr (e, l) ↦
          let none_flies =
            (runs-Stuck (length s.handlers) s (record { no_flight = e; waits = l })).no_flight in
          let still = no_writes (length (heard s)) a none_flies in
          record {
            reads = k'.reads ∙ k.reads;
            idle = ap (λ (t : Session). t.flight) still ∙ none_flies;
            no_calls = ap (λ (t : Session). t.handlers) still ∙ calm;
            result = inr (e, l);
          }
    ]
