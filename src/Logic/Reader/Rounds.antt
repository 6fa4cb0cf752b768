-- ===== src/Logic/Reader/Rounds.antt =====
-- One round of the loop on the bytes of a message.
use asio_learn.Base.{
  drop-replicate, ℕ, ◌+◌, ◌-◌, ◌%◌, ◌^◌, ◌≤◌, ◌<◌, ◌≡◌, refl, true, false, Option, some, List, [],
  ◌∷◌, ◌++◌, arith, length, drop, replicate, length-append, length-replicate, length-drop,
  take-append, drop-append, append_assoc, lt→ltb, le→ltb, le→leb,
}
use asio_learn.Wire.{ok, ◌>>=◌, RecvNode, write_at, new_node, new_recv_node, max_length}
use asio_learn.Wire.Endian.{Host, short_at-short_bytes}
use asio_learn.Wire.Buffer.{write_at-append}
use asio_learn.Logic.Reader.{
  Reader, read_more, stop, above_max, finish, receive, terminate, start_body, take_head, head_round,
  remain_msg, body_round,
}
use asio_learn.Logic.Reader.Frames.{Message, framed, part_node, whole_node, idle}

-- What comes goes behind what is there.
receive-part_node :
    (m : Message) (len : ℕ) (more : List ℕ)
    → length m.body + length more ≤ len
    → len ≤ max_length
    → receive (part_node m len) more ≡ ok (part_node (record m { body = m.body ++ more }) len)
unfolding receive
receive-part_node m len more h k =
    let sum : (length m.body + length more) % 2 ^ 16 ≡ length m.body + length more = omega arith in
    let left : len + 1 - length m.body - length more ≡ len + 1 - (length m.body + length more) =
      omega arith in
    rw (
      write_at-append m.body (replicate (len + 1 - length m.body) 0) more
          (omega (arith, length-replicate {A = ℕ} (len + 1 - length m.body) 0)),
      drop-replicate {A = ℕ} (length more) (len + 1 - length m.body) 0,
      length-append m.body more,
      sum,
      left,
      append_assoc,
    )

terminate-part_node :
    (m : Message) (len : ℕ)
    → length m.body ≡ len
    → terminate (part_node m len) len ≡ ok (whole_node m)
unfolding terminate
terminate-part_node m len e =
    let one : length m.body + 1 - length m.body ≡ 1 = omega arith in
    rw (← e, one, write_at-append m.body (0 ∷ []) (0 ∷ []) (omega arith))

-- The rest of a body is received and terminated, at the index that either branch uses.
complete-part_node :
    (m : Message) (len : ℕ) (more : List ℕ) (index : RecvNode → ℕ)
    → length (m.body ++ more) ≡ len
    → len ≤ max_length
    → ((n : RecvNode) → n.cur_len ≡ n.total_len → index n ≡ n.total_len)
    → (receive (part_node m len) more >>= λ w. terminate w (index w))
      ≡ ok (whole_node (record m { body = m.body ++ more }))
complete-part_node m len more index e k at_end =
    let m' : Message = record m { body = m.body ++ more } in
    rw
      (
        receive-part_node m len more (omega (arith, length-append m.body more)) k,
        at_end (part_node m' len) e,
      )
      (terminate-part_node m' len e)

-- A body goes on and does not end.
pub body_round-more :
    (r : Reader) (m : Message) (len : ℕ) (more : List ℕ)
    → length (m.body ++ more) < len
    → len ≤ max_length
    → body_round r (part_node m len) more
      ≡ stop
          (record r { msg = some (part_node (record m { body = m.body ++ more }) len) })
          []
          read_more
unfolding body_round remain_msg
body_round-more r m len more h k =
    let l = length-append m.body more in
    rw (
      le→leb (length m.body) len (omega (arith, l)),
      lt→ltb (length more) (len - length m.body) (omega (arith, l)),
      receive-part_node m len more (omega (arith, l)) k,
    )

-- A body ends, and `rest` follows.
pub body_round-ends :
    (r : Reader) (m : Message) (len : ℕ) (more rest : List ℕ)
    → length m.body < len
    → length (m.body ++ more) ≡ len
    → len ≤ max_length
    → body_round r (part_node m len) (more ++ rest)
      ≡ finish r (whole_node (record m { body = m.body ++ more })) rest
unfolding body_round remain_msg
body_round-ends r m len more rest p e k =
    let l = length-append m.body more in
    let n : len - length m.body ≡ length more = omega (arith, l) in
    rw (
      le→leb (length m.body) len (omega arith),
      n,
      le→ltb (length (more ++ rest)) (length more) (omega (arith, length-append more rest)),
      take-append more rest,
      drop-append more rest,
      complete-part_node m len more (λ w. w.total_len) e k (λ w q. refl),
    )

-- The same two for the body behind a head.
pub start_body-more :
    (r : Reader) (m : Message) (len : ℕ)
    → length m.body < len
    → len ≤ max_length
    → start_body r (part_node (record m { body = [] }) len) len m.body
      ≡ stop (record r { head_parsed = true; msg = some (part_node m len) }) [] read_more
unfolding start_body
start_body-more r m len h k = rw (
  lt→ltb (length m.body) len h,
  receive-part_node (record m { body = [] }) len m.body (omega arith) k,
)

pub start_body-ends :
    (r : Reader) (m : Message) (rest : List ℕ)
    → length m.body ≤ max_length
    → start_body r
        (part_node (record m { body = [] }) (length m.body))
        (length m.body)
        (m.body ++ rest)
      ≡ finish r (whole_node m) rest
unfolding start_body
start_body-ends r m rest k = rw (
  le→ltb (length (m.body ++ rest)) (length m.body) (omega (arith, length-append m.body rest)),
  take-append m.body rest,
  drop-append m.body rest,
  complete-part_node (record m { body = [] }) (length m.body) m.body (λ w. w.cur_len) refl k
      (λ w q. q),
)

new_recv_node-part_node :
    (id len : ℕ)
    → len ≤ max_length
    → new_recv_node len id ≡ ok (part_node (record { id = id; body = [] }) len)
unfolding new_recv_node new_node
new_recv_node-part_node id len h =
    let e : len + 1 - 0 ≡ len + 1 = omega arith in rw (lt→ltb len 0x8000 (omega arith), e)

above_max-false : (len : ℕ) → len ≤ max_length → above_max len ≡ false
above_max-false len h = rw (le→ltb max_length len h)

-- A head whose numbers are accepted, and the body's bytes behind it.
pub head_round-framed :
    (h : Host) (buf : List ℕ) (msg : Option RecvNode) (id len : ℕ) (rest : List ℕ)
    → length buf ≡ 5
    → id < 2 ^ 16
    → above_max id ≡ false
    → len ≤ max_length
    → (buf' : List ℕ) × (length buf' ≡ 5)
      × (head_round h (idle buf msg) (framed h id len rest)
          ≡ start_body (idle buf' msg) (part_node (record { id = id; body = [] }) len) len rest)
unfolding head_round take_head write_at
head_round-framed h buf msg id len rest e short ok_id ok_len = (
  framed h id len [] ++ drop 4 buf,
  omega (arith, length-drop 4 buf),
  rw (
    le→ltb (length (framed h id len rest) + 0) 4 (omega arith),
    le→leb 4 (length buf) (omega arith),
    short_at-short_bytes h id short,
    short_at-short_bytes h len (omega arith),
    ok_id,
    above_max-false len ok_len,
    new_recv_node-part_node id len ok_len,
  ),
)
