-- ===== src/Logic/Reader/Deliver.antt =====
-- A stream of messages, cut anywhere but inside a head, is reassembled.
use asio_learn.Base.{
  ℕ, zero, suc, ◌<◌, ◌≡◌, refl, ap, ◌∙◌, Bool, true, false, Option, some, List, [], ◌∷◌, ◌++◌, map,
  arith, length, drop, length-append, length-drop, append_assoc,
}
use asio_learn.Wire.{RecvNode, clear}
use asio_learn.Wire.Endian.{Host}
use asio_learn.Logic.Reader.{
  Reader, Outcome, read_more, stop, finish, round, resume, read_loop, handle_read,
}
use asio_learn.Logic.Reader.Frames.{
  Message, Place, boundary, within, Carries, nothing, begins, holds, goes_on, ends, part_node,
  whole_node, head_node, idle, busy, Stands,
}
use asio_learn.Logic.Reader.Rounds.{
  head_round-framed, start_body-more, start_body-ends, body_round-more, body_round-ends,
}

-- A call that posted the messages `ms` behind those in `posted`, and reads on from the place `p`.
abbrev pub Delivered : List RecvNode → List Message → Place → Outcome → Type 0
Delivered posted ms p o =
    (o.posted ≡ posted ++ map whole_node ms) × (o.next ≡ read_more) × Stands o.reader p

Carries-nil :
    {h : Host} {c : List ℕ} {ms : List Message} {p : Place}
    → Carries h boundary c ms p
    → c ≡ []
    → (ms ≡ []) × (p ≡ boundary)
Carries-nil (nothing e) n = (refl, refl)
Carries-nil (begins m len v l k e) n = absurd (cc (e, n))
Carries-nil (holds m v e r) n = absurd (cc (e, n))

wiped : List ℕ → List ℕ
wiped buf = 0 ∷ 0 ∷ 0 ∷ 0 ∷ drop 4 buf

length-wiped : (buf : List ℕ) → length buf ≡ 5 → length (wiped buf) ≡ 5
unfolding wiped
length-wiped buf l = omega (arith, length-drop 4 buf)

-- The loop behind a message that is complete.
finish-Delivered :
    (h : Host) (fuel : ℕ) (buf : List ℕ) (parsed : Bool) (msg : Option RecvNode)
    (posted : List RecvNode) (m : Message) (rest : List ℕ) {ms : List Message} {p : Place}
    → length buf ≡ 5
    → Carries h boundary rest ms p
    → ((r : Reader)
        → Stands r boundary
        → 0 < length rest
        → Delivered
            (posted ++ whole_node m ∷ [])
            ms
            p
            (read_loop h fuel r rest (posted ++ whole_node m ∷ [])))
    → Delivered posted (m ∷ ms) p (
        resume (read_loop h fuel) posted (
          finish
            (record { head = head_node buf; head_parsed = parsed; msg = msg })
            (whole_node m)
            rest))
unfolding clear wiped
finish-Delivered h fuel buf parsed msg posted m [] l carries k =
    let (no_more, here) = Carries-nil carries refl in
    rw (no_more, here) (refl, refl, (wiped buf, some (whole_node m), length-wiped buf l, refl))
finish-Delivered h fuel buf parsed msg posted m (b ∷ rest) {ms} l carries k =
    let later =
      k (idle (wiped buf) (some (whole_node m)))
        (wiped buf, some (whole_node m), length-wiped buf l, refl) (omega arith) in
    (later.0 ∙ append_assoc posted (whole_node m ∷ []) (map whole_node ms), later.1, later.2)

pub read_loop-cons :
    (h : Host) (fuel : ℕ) (r : Reader) (c : List ℕ) (posted : List RecvNode)
    → 0 < length c
    → read_loop h (suc fuel) r c posted ≡ resume (read_loop h fuel) posted (round h r c)
unfolding read_loop
read_loop-cons h fuel r [] posted l = elim l [ ]
read_loop-cons h fuel r (b ∷ c) posted l = refl

stop-Delivered :
    (h : Host) (fuel : ℕ) (posted : List RecvNode) (r : Reader) (p : Place)
    → Stands r p
    → Delivered posted [] p (resume (read_loop h fuel) posted (stop r [] read_more))
stop-Delivered h fuel posted r p s = (refl, refl, s)

read_loop-Delivered :
    (h : Host) (fuel : ℕ) (posted : List RecvNode) (r : Reader) {c : List ℕ} {ms : List Message}
    {p q : Place}
    → Carries h p c ms q
    → Stands r p
    → 0 < length c
    → length c < fuel
    → Delivered posted ms q (read_loop h fuel r c posted)
unfolding round
read_loop-Delivered h zero posted r carries s some_left enough = elim enough [ ]
read_loop-Delivered h (suc fuel) posted r (nothing e) s some_left enough =
    absurd (omega (arith, ap length e))
read_loop-Delivered h (suc fuel) posted r {c} (begins m len v l k e) (buf, msg, lb, er) some_left
      enough =
    let (buf', lb', step) =
      head_round-framed h buf msg m.id len m.body lb v.short_id v.accepted k in
    rw
      (
        read_loop-cons h fuel r c posted some_left,
        e,
        er,
        step,
        start_body-more (idle buf' msg) m len l k,
      )
      (stop-Delivered h fuel posted (busy buf' m len) (within m len) (buf', lb', l, k, refl))
read_loop-Delivered h (suc fuel) posted r {c} (holds {rest = more} m v e carries) (buf, msg, lb, er)
      some_left enough =
    let (buf', lb', step) =
      head_round-framed h buf msg m.id (length m.body) (m.body ++ more) lb v.short_id v.accepted
        v.fits in
    rw
      (
        read_loop-cons h fuel r c posted some_left,
        e,
        er,
        step,
        start_body-ends (idle buf' msg) m more v.fits,
      )
      (finish-Delivered h fuel buf' false msg posted m more lb' carries (λ r' s' l'.
        read_loop-Delivered h fuel (posted ++ whole_node m ∷ []) r' carries s' l'
          (omega (arith, ap length e, length-append m.body more))))
read_loop-Delivered h (suc fuel) posted r {c} (goes_on m len l) (buf, lb, p, k, er) some_left
      enough =
    rw
      (read_loop-cons h fuel r c posted some_left, er, body_round-more (busy buf m len) m len c l k)
      (stop-Delivered h fuel posted (busy buf (record m { body = m.body ++ c }) len)
        (within (record m { body = m.body ++ c }) len) (buf, lb, l, k, refl))
read_loop-Delivered h (suc fuel) posted r {c} (ends {rest = rest} m len more l e carries)
      (buf, lb, p, k, er) some_left enough =
    rw
      (
        read_loop-cons h fuel r c posted some_left,
        e,
        er,
        body_round-ends (busy buf m len) m len more rest p l k,
      )
      (finish-Delivered h fuel buf true (some (part_node m len)) posted
        (record m { body = m.body ++ more }) rest lb carries
        (λ r' s' l'.
          read_loop-Delivered h fuel
            (posted ++ whole_node (record m { body = m.body ++ more }) ∷ []) r' carries s' l'
            (omega (arith, ap length e, l, p, length-append m.body more, length-append more rest))))

-- A call on bytes that hold the rest of a message, whole messages and the beginning of one posts the
-- messages completed, in order, and reads on.
pub handle_read-Delivered :
    (h : Host) (r : Reader) {c : List ℕ} {ms : List Message} {p q : Place}
    → Carries h p c ms q
    → Stands r p
    → 0 < length c
    → Delivered [] ms q (handle_read h r (some c))
unfolding handle_read
handle_read-Delivered h r {c} carries s l =
    read_loop-Delivered h (suc (length c)) [] r carries s l (omega arith)
