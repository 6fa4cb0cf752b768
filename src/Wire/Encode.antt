-- ===== src/Wire/Encode.antt =====
-- What a `SendNode` holds.
use asio_learn.Base.{
  ℕ, ◌+◌, ◌-◌, ◌%◌, ◌^◌, ◌<◌, ◌≡◌, List, [], ◌∷◌, ◌++◌, arith, length, drop, replicate, lt→ltb,
  le→leb, length-append, length-replicate, take-append, drop-replicate, suc,
}
use asio_learn.Wire.Endian.{Host, short_bytes}
use asio_learn.Wire.{ok, SendNode, new_send_node}

-- The head's four bytes and the body: what `send_node` puts into its buffer.
abbrev pub wire_bytes : Host → ℕ → List ℕ → List ℕ
wire_bytes h id body = short_bytes h id ++ (short_bytes h (length body) ++ body)

abbrev pub sent_node : Host → ℕ → List ℕ → SendNode
sent_node h id body = record {
  node = record { cur_len = 0; total_len = length body + 4; buf = wire_bytes h id body ++ 0 ∷ [] };
  msg_id = id;
}

zeros : ℕ → List ℕ
zeros n = replicate n 0

zeros-five : (n : ℕ) → replicate (n + 4 + 1) 0 ≡ 0 ∷ 0 ∷ 0 ∷ 0 ∷ zeros (n + 1)
unfolding zeros
zeros-five n = let e : n + 4 + 1 ≡ suc (suc (suc (suc (n + 1)))) = omega arith in rw e

length-zeros : (n : ℕ) → length (zeros n) ≡ n
unfolding zeros
length-zeros n = length-replicate n 0

last-zero : (n : ℕ) → drop n (zeros (n + 1)) ≡ 0 ∷ []
unfolding zeros
last-zero n = let e : n + 1 - n ≡ 1 = omega arith in rw (drop-replicate {A = ℕ} n (n + 1) 0, e)

-- For a body of at most 32763 bytes the node holds head and body, and the terminator; `more` is
-- whatever lies behind the body in memory.
pub new_send_node_lem :
    (h : Host) (id : ℕ) (body more : List ℕ)
    → length body + 4 < 2 ^ 15
    → new_send_node h (body ++ more) (length body) id ≡ ok (sent_node h id body)
unfolding new_send_node
new_send_node_lem h id body more l =
    let sum : (length body + 4) % 2 ^ 16 ≡ length body + 4 = omega arith in
    let four : 4 + length body ≡ suc (suc (suc (suc (length body)))) = omega arith in
    let room = length-zeros (length body + 1) in
    rw (
      sum,
      lt→ltb (length body + 4) 0x8000 l,
      zeros-five (length body),
      le→leb 2 (suc (suc (suc (suc (length (zeros (length body + 1))))))) (omega arith),
      le→leb 4 (suc (suc (suc (suc (length (zeros (length body + 1))))))) (omega arith),
      le→leb (length body) (length (body ++ more)) (omega (arith, length-append body more)),
      take-append body more,
      le→leb (4 + length body) (suc (suc (suc (suc (length (zeros (length body + 1)))))))
          (omega arith),
      four,
      last-zero (length body),
    )
