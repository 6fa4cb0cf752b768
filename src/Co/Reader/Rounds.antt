-- ===== src/Co/Reader/Rounds.antt =====
-- One round of the coroutine's loop, on a message and on what ends the stream.
use asio_learn.Base.{
  ℕ, ◌+◌, ◌^◌, ◌≤◌, ◌<◌, ◌≡◌, true, false, List, [], ◌∷◌, ◌++◌, arith, length, length-append,
  lt→ltb, le→leb, take-append, drop-append, leb, ◌==◌,
}
use asio_learn.Wire.Endian.{Host, short_at-short_bytes}
use asio_learn.Wire.{MsgNode, max_length, clear}
use asio_learn.Logic.Reader.{above_max}
use asio_learn.Logic.Reader.Frames.{Message, IsMessage, framed, head_node}
use asio_learn.Co.Reader.{
  again, ends, Ending, cleared, read_head, closed, undefined, async_read, take_body, take_head,
  round,
}
use asio_learn.Co.Reader.Steps.{
  filled_node, head_of, round-framed, take_head-framed, new_recv_node-small, fill-filled_node,
  new_recv_node-throws, above_max-false, negative-above_max, new_recv_node-faults,
}

-- A message that is not empty.
abbrev pub Speaks : Message → Type 0
Speaks m = IsMessage m × (0 < length m.body)

abbrev pub AllSpeak : List Message → Type 0
AllSpeak [] = Unit
AllSpeak (m ∷ ms) = Speaks m × AllSpeak ms

-- What ends the stream for the server, and how the session ends: the peer closes within a head or
-- within a body; a message is empty; its id or its length is above the limit; its length is negative,
-- and -1 makes the node write before its allocation.
pub data Breaks (h : Host) : List ℕ → Ending → Type 0 where
  cut_head : (c : List ℕ) → length c < 4 → Breaks h c closed
  cut_body :
      (id len : ℕ) (body : List ℕ)
      → id < 2 ^ 16
      → above_max id ≡ false
      → len ≤ max_length
      → length body < len
      → Breaks h (framed h id len body) closed
  empty_message :
      (id : ℕ) (rest : List ℕ)
      → id < 2 ^ 16
      → above_max id ≡ false
      → Breaks h (framed h id 0 rest) closed
  large_id :
      (id len : ℕ) (rest : List ℕ)
      → id < 2 ^ 16
      → above_max id ≡ true
      → Breaks h (framed h id len rest) cleared
  large_length :
      (id len : ℕ) (rest : List ℕ)
      → id < 2 ^ 16
      → above_max id ≡ false
      → max_length < len
      → len < 2 ^ 15
      → Breaks h (framed h id len rest) cleared
  negative_length :
      (id len : ℕ) (rest : List ℕ)
      → id < 2 ^ 16
      → above_max id ≡ false
      → 2 ^ 15 ≤ len
      → len + 1 < 2 ^ 16
      → Breaks h (framed h id len rest) closed
  length_minus_one :
      (id : ℕ) (rest : List ℕ)
      → id < 2 ^ 16
      → above_max id ≡ false
      → Breaks h (framed h id 0xffff rest) undefined

-- A whole message that is not empty is posted, and the loop goes on behind it.
pub round-frame :
    (h : Host) (buf : List ℕ) (m : Message) (rest : List ℕ)
    → Speaks m
    → round h (head_node buf) (framed h m.id (length m.body) (m.body ++ rest))
      ≡ again (head_of h m.id (length m.body) buf) (filled_node m) rest
unfolding take_body async_read
round-frame h buf m rest (v, more) =
    let some_bytes : (length m.body == 0) ≡ false = ground arith in
    rw (
      round-framed h buf m.id (length m.body) (m.body ++ rest),
      take_head-framed h buf m.id (length m.body) (m.body ++ rest) v.short_id
          (omega (arith, v.fits)) v.accepted,
      above_max-false (length m.body) v.fits,
      new_recv_node-small m.id (length m.body) (omega (arith, v.fits)),
      le→leb (length m.body) (length (m.body ++ rest)) (omega (arith, length-append m.body rest)),
      take-append m.body rest,
      drop-append m.body rest,
      some_bytes,
      fill-filled_node m.id m.body,
    )

-- What breaks the stream ends the loop.
pub round-Breaks :
    (h : Host) (buf : List ℕ) {c : List ℕ} {e : Ending}
    → Breaks h c e
    → (head : MsgNode) × (round h (head_node buf) c ≡ ends head e)
unfolding round read_head take_body async_read clear take_head
round-Breaks h buf (cut_head c short) =
    (clear (head_node buf), let no : leb 4 (length c) ≡ false = ground arith in rw no)
round-Breaks h buf (cut_body id len body short ok_id fits cut) = (
  head_of h id len buf,
  let no : leb len (length body) ≡ false = ground arith in
      rw (
        round-framed h buf id len body,
        take_head-framed h buf id len body short (omega arith) ok_id,
        above_max-false len fits,
        new_recv_node-small id len (omega arith),
        no,
      ),
)
round-Breaks h buf (empty_message id rest short ok_id) = (
  head_of h id 0 buf,
  rw (
    round-framed h buf id 0 rest,
    take_head-framed h buf id 0 rest short (omega arith) ok_id,
    new_recv_node-small id 0 (omega arith),
    le→leb 0 (length rest) (omega arith),
  ),
)
round-Breaks h buf (large_id id len rest short large) = (
  head_of h id len buf,
  rw (round-framed h buf id len rest, take_head, short_at-short_bytes h id short, large),
)
round-Breaks h buf (large_length id len rest short ok_id large small) = (
  head_of h id len buf,
  rw (
    round-framed h buf id len rest,
    take_head-framed h buf id len rest short (omega arith) ok_id,
    lt→ltb max_length len large,
    lt→ltb len 0x8000 small,
  ),
)
round-Breaks h buf (negative_length id len rest short ok_id negative small) = (
  head_of h id len buf,
  rw (
    round-framed h buf id len rest,
    take_head-framed h buf id len rest short (omega arith) ok_id,
    negative-above_max len negative,
    new_recv_node-throws id len negative small,
  ),
)
round-Breaks h buf (length_minus_one id rest short ok_id) = (
  head_of h id 0xffff buf,
  rw (
    round-framed h buf id 0xffff rest,
    take_head-framed h buf id 0xffff rest short (omega arith) ok_id,
    new_recv_node-faults id,
  ),
)
