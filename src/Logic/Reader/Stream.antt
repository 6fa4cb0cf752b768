-- ===== src/Logic/Reader/Stream.antt =====
-- Chunks of a stream, one call of `HandleRead` for each.
use mathlib.Core.List.{map-append}
use asio_learn.Base.{
  ℕ, ◌<◌, ◌≡◌, refl, sym, ap, ap₂, ◌∙◌, some, List, [], ◌∷◌, ◌++◌, map, length, append_assoc,
}
use asio_learn.Wire.Endian.{Host}
use asio_learn.Logic.Reader.{Reader, Outcome, handle_read, follow, run_reads}
use asio_learn.Logic.Reader.Frames.{
  Message, framed, frames, Place, boundary, within, Carries, nothing, begins, holds, goes_on, ends,
  whole_node, Stands,
}
use asio_learn.Logic.Reader.Deliver.{Delivered, handle_read-Delivered}

-- A stream that arrives in chunks, each of which carries some messages.
pub data Arrives (h : Host) : Place → List (List ℕ) → List Message → Place → Type 0 where
  done : {p : Place} → Arrives h p [] [] p
  chunk :
      {c : List ℕ} {cs : List (List ℕ)} {ms ns : List Message} {p q s : Place}
      → 0 < length c
      → Carries h p c ms q
      → Arrives h q cs ns s
      → Arrives h p (c ∷ cs) (ms ++ ns) s

pub follow-Delivered :
    (o : Outcome) (ms ns : List Message) (q s : Place) (reads : Reader → Outcome)
    → Delivered [] ms q o
    → Delivered [] ns s (reads o.reader)
    → Delivered [] (ms ++ ns) s (follow o.next o reads)
follow-Delivered o ms ns q s reads d e =
    rw d.1 (ap₂ ◌++◌ d.0 e.0 ∙ sym (map-append whole_node ms ns), e.1, e.2)

-- Every message of the stream is posted once, in order, with its id and body, whatever the chunks
-- are in which it arrives, as long as no chunk ends inside a head.
pub run_reads-Delivered :
    (h : Host) {cs : List (List ℕ)} {ms : List Message} {p q : Place}
    → Arrives h p cs ms q
    → (r : Reader) → Stands r p
    → Delivered [] ms q (run_reads h r (map some cs))
unfolding run_reads
run_reads-Delivered h done r s = (refl, refl, s)
run_reads-Delivered h (chunk {c = c} {ms = ms} {ns = ns} {q = q} {s = place} l carries later) r s =
    let o = handle_read h r (some c) in
    let d = handle_read-Delivered h r carries s l in
    follow-Delivered o ms ns q place _ d (run_reads-Delivered h later o.reader d.2)

-- The bytes of the message that a place lies in.
abbrev pub pending : Host → Place → List ℕ
pending h boundary = []
pending h (within m len) = framed h m.id len m.body

-- What a chunk carries is what its bytes say: they continue the bytes before, and make up the frames
-- of the messages and the bytes pending behind them.
pub Carries-frames :
    {h : Host} {p q : Place} {c : List ℕ} {ms : List Message}
    → Carries h p c ms q
    → pending h p ++ c ≡ frames h ms ++ pending h q
Carries-frames (nothing e) = e
Carries-frames (begins m len v l k e) = e
Carries-frames {h} (holds m v e rest) =
    e
    ∙ ap (λ b. framed h m.id (length m.body) b)
        (ap (◌++◌ m.body) (Carries-frames rest) ∙ sym (append_assoc m.body _ _))
Carries-frames (goes_on m len l) = refl
Carries-frames {h} {q = q} (ends {ms = ms} m len more l e rest) =
    ap₂ (framed h m.id) (sym l) (ap (◌++◌ m.body) (e ∙ ap (◌++◌ more) (Carries-frames rest)))
    ∙ simp append_assoc
