-- ===== src/Logic/Reader/Memory.antt =====
-- The steps of a round on a node whose numbers are right: none of them writes out of range.
use asio_learn.Base.{
  ℕ, ◌+◌, ◌^◌, ◌≤◌, ◌<◌, ◌≡◌, refl, List, [], ◌∷◌, arith, length, take, length-take,
  length-replicate, ◌≢◌, inl, inr, Bool-cases, ltb, ltb→lt, ◌==◌,
}
use asio_learn.Wire.{Result, ok, throws, faults, ◌>>=◌, RecvNode, new_node, new_recv_node}
use asio_learn.Wire.Buffer.{write_at_fits}
use asio_learn.Logic.Reader.{add_short, receive, terminate}

-- A node that was made for a body of `total_len` bytes and holds `cur_len` of them.
pub record IsSized (n : RecvNode) : Type 0 where
  pub within : n.cur_len ≤ n.total_len
  pub small : n.total_len < 2 ^ 15
  pub allocated : length n.buf ≡ n.total_len + 1

abbrev received : RecvNode → List ℕ → List ℕ → RecvNode
received n bytes b = record n {
  node = record { cur_len = add_short n.cur_len (length bytes); total_len = n.total_len; buf = b };
}

pub receive_fits :
    (n : RecvNode) (bytes : List ℕ)
    → IsSized n
    → n.cur_len + length bytes ≤ n.total_len
    → (m : RecvNode) × (receive n bytes ≡ ok m)
      × IsSized m
      × (m.cur_len ≡ n.cur_len + length bytes)
      × (m.total_len ≡ n.total_len)
unfolding receive
receive_fits n bytes v h =
    let (b, e, l) = write_at_fits n.buf n.cur_len bytes (omega arith) in
    (received n bytes b, rw e, omega arith, omega arith, refl)

pub terminate_fits :
    (n : RecvNode) (i : ℕ) → IsSized n → i ≤ n.total_len → (m : RecvNode) × (terminate n i ≡ ok m)
unfolding terminate
terminate_fits n i v h =
    let (b, e, l) = write_at_fits n.buf i (0 ∷ []) (omega arith) in
    (record n { node = record { cur_len = n.cur_len; total_len = n.total_len; buf = b } }, rw e)

-- The `k` bytes that a body misses are there: they are received and terminated.
pub complete_fits :
    (n : RecvNode) (k : ℕ) (bytes : List ℕ) (index : RecvNode → ℕ)
    → IsSized n
    → n.cur_len + k ≤ n.total_len
    → ((w : RecvNode) → IsSized w → index w ≤ w.total_len)
    → (m : RecvNode) × ((receive n (take k bytes) >>= λ w. terminate w (index w)) ≡ ok m)
complete_fits n k bytes index v h inside =
    let (w, e, s, _, _) = receive_fits n (take k bytes) v (omega (arith, length-take k bytes)) in
    let (m, e') = terminate_fits w (index w) s (inside w s) in (m, rw e e')

-- Making the node for a body: it succeeds for a length that is not negative, faults at -1 and throws
-- below.
abbrev pub Made : ℕ → Result RecvNode → Type 0
Made l (ok n) = IsSized n × (n.cur_len ≡ 0) × (n.total_len ≡ l)
Made l throws = (0x8000 ≤ l) × (l ≢ 0xffff)
Made l faults = l ≡ 0xffff

pub new_recv_node-Made : (l i : ℕ) → Made l (new_recv_node l i)
unfolding new_recv_node new_node
new_recv_node-Made l i = elim (Bool-cases (ltb l 0x8000)) [
  | inl small ↦ rw small (
    record {
      within = omega arith;
      small = ltb→lt l 0x8000 small;
      allocated = length-replicate (l + 1) 0;
    },
    refl,
    refl,
  )
  | inr large ↦ elim (Bool-cases (l == 0xffff)) [
    | inl e ↦ rw (large, e) (ground arith)
    | inr e ↦ rw (large, e) (ground arith)
  ]
]
