-- ===== src/Co/Reader/Steps.antt =====
-- The head, the node and the body of a message in a round of the coroutine.
use asio_learn.Base.{
  ℕ, suc, ◌+◌, ◌-◌, ◌^◌, ◌≤◌, ◌<◌, ◌≡◌, refl, false, List, [], ◌∷◌, ◌++◌, arith, length, replicate,
  le→ltb, lt→ltb, le→leb, drop, length-replicate, drop-replicate, if◌then◌else◌, ◌==◌,
}
use asio_learn.Wire.Endian.{Host, short_at-short_bytes}
use asio_learn.Wire.{
  ok, throws, faults, MsgNode, RecvNode, max_length, new_node, new_recv_node, write_at, clear,
}
use asio_learn.Wire.Buffer.{write_at-append}
use asio_learn.Logic.Reader.{above_max}
use asio_learn.Logic.Reader.Frames.{Message, framed, head_node}
use asio_learn.Co.Reader.{
  ends, cleared, read_head, async_read, attempt, fill, take_body, take_head, round,
}

-- The node of a message; its `_cur_len` stays 0.
abbrev pub filled_node : Message → RecvNode
filled_node m = record {
  node = record { cur_len = 0; total_len = length m.body; buf = m.body ++ 0 ∷ [] };
  msg_id = m.id;
}

-- The head is whole.
abbrev pub head_of : Host → ℕ → ℕ → List ℕ → MsgNode
head_of h id len buf = head_node (framed h id len (drop 4 buf))

pub round-framed :
    (h : Host) (buf : List ℕ) (id len : ℕ) (rest : List ℕ)
    → round h (head_node buf) (framed h id len rest) ≡ take_head h (head_of h id len buf) rest
unfolding round read_head async_read write_at clear
round-framed h buf id len rest = rw (
  le→leb 4 (length (framed h id len rest)) (omega arith),
  le→leb 4 (suc (suc (suc (suc (length (drop 4 buf)))))) (omega arith),
)

pub take_head-framed :
    (h : Host) (buf : List ℕ) (id len : ℕ) (rest : List ℕ)
    → id < 2 ^ 16
    → len < 2 ^ 16
    → above_max id ≡ false
    → take_head h (head_of h id len buf) rest ≡ (
        if above_max len
        then ends (head_of h id len buf) cleared
        else attempt
            (head_of h id len buf)
            (new_recv_node len id)
            (λ node. take_body (head_of h id len buf) node rest))
unfolding take_head
take_head-framed h buf id len rest short small ok_id =
    rw (short_at-short_bytes h id short, short_at-short_bytes h len small, ok_id)

pub new_recv_node-small :
    (id len : ℕ)
    → len < 2 ^ 15
    → new_recv_node len id
      ≡ ok (record {
        node = record { cur_len = 0; total_len = len; buf = replicate (len + 1) 0 };
        msg_id = id;
      })
unfolding new_recv_node new_node
new_recv_node-small id len small = rw (lt→ltb len 0x8000 small)

pub fill-filled_node :
    (id : ℕ) (body : List ℕ)
    → fill
        (record {
          node = record {
            cur_len = 0;
            total_len = length body;
            buf = replicate (length body + 1) 0;
          };
          msg_id = id;
        })
        body
      ≡ ok (filled_node (record { id = id; body = body }))
unfolding fill
fill-filled_node id body =
    let one : length body + 1 - length body ≡ 1 = omega arith in
    rw (
      write_at-append [] (replicate (length body + 1) 0) body
          (omega (arith, length-replicate {A = ℕ} (length body + 1) 0)),
      drop-replicate {A = ℕ} (length body) (length body + 1) 0,
      one,
      write_at-append body (0 ∷ []) (0 ∷ []) (omega arith),
    )

pub above_max-false : (len : ℕ) → len ≤ max_length → above_max len ≡ false
above_max-false len fits = rw (le→ltb max_length len fits)

pub negative-above_max : (len : ℕ) → 2 ^ 15 ≤ len → above_max len ≡ false
negative-above_max len negative =
    rw (lt→ltb max_length len (omega arith), le→ltb len 0x8000 negative)

pub new_recv_node-throws :
    (id len : ℕ) → 2 ^ 15 ≤ len → len + 1 < 2 ^ 16 → new_recv_node len id ≡ throws
unfolding new_recv_node new_node
new_recv_node-throws id len negative small =
    let other : (len == 0xffff) ≡ false = ground arith in rw (le→ltb len 0x8000 negative, other)

pub new_recv_node-faults : (id : ℕ) → new_recv_node 0xffff id ≡ faults
unfolding new_recv_node new_node
new_recv_node-faults id = refl
