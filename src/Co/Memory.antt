-- ===== src/Co/Memory.antt =====
-- The nodes of example/BoostCoServer, MsgNode.h and MsgNode.cc: their allocations are not cleared. What
-- `new char[n]` holds is a parameter; then the coroutine and `Send` over these nodes.
pub mod Unread
use asio_learn.Base.{
  ℕ, zero, suc, ◌+◌, ◌%◌, ◌^◌, List, [], ◌∷◌, ◌++◌, ◌≡◌, ltb, ◌==◌, if◌then◌else◌, length, get_or,
}
use asio_learn.Wire.Endian.{Host, short_at, short_bytes}
use asio_learn.Wire.{
  Result, ok, throws, faults, ◌>>=◌, MsgNode, RecvNode, SendNode, write_at, read_from, clear,
  head_total_len, max_sendque,
}
use asio_learn.Logic.Reader.{above_max}
use asio_learn.Logic.Sender.{Sender, Started, quiet, push_node}
use asio_learn.Co.Reader.{
  Round, ends, cleared, out_of_fuel, Session, attempt, take_body, read_head, resume,
}

-- The bytes of a new allocation of `n`.
pub record Heap : Type 0 where
  pub allocated : ℕ → List ℕ
  pub sized : (n : ℕ) → length (allocated n) ≡ n

module _ (heap : Heap) where
  -- `MsgNode(short max_len)`: only the last byte is written.
  unfoldable pub new_node : ℕ → Result MsgNode
  unfolding write_at
  new_node max_len =
      if ltb max_len 0x8000
      then (do
        ended ← write_at (heap.allocated (max_len + 1)) max_len (0 ∷ [])
        ok (record { cur_len = 0; total_len = max_len; buf = ended }))
      else if max_len == 0xffff
      then faults
      else throws

  -- `RecvNode(short max_len, short msg_id)`
  unfoldable pub new_recv_node : ℕ → ℕ → Result RecvNode
  unfolding new_node
  new_recv_node max_len msg_id = do m ← new_node max_len; ok (record { node = m; msg_id = msg_id })

  -- `SendNode(const char *msg, short max_len, short msg_id)`
  unfoldable pub new_send_node : Host → List ℕ → ℕ → ℕ → Result SendNode
  unfolding new_node write_at read_from
  new_send_node h msg max_len msg_id = do
    m ← new_node ((max_len + head_total_len) % 2 ^ 16)
    with_id ← write_at m.buf 0 (short_bytes h msg_id)
    with_len ← write_at with_id 2 (short_bytes h max_len)
    body ← read_from msg max_len
    filled ← write_at with_len 4 body
    ok (record { node = record m { buf = filled }; msg_id = msg_id })

  -- `Send`, and a round of `Start`, whose nodes are these.
  unfoldable pub send : Host → Sender → List ℕ → ℕ → ℕ → Result Started
  unfolding new_send_node
  send h s msg max_length msgid =
      if ltb max_sendque (length s.send_que)
      then ok (quiet s)
      else do node ← new_send_node h msg max_length msgid; ok (push_node s node)

  unfoldable pub take_head : Host → MsgNode → List ℕ → Round
  take_head h head stream =
      let msg_id = short_at h (get_or head.buf 0 0) (get_or head.buf 1 0) in
      let msg_len = short_at h (get_or head.buf 2 0) (get_or head.buf 3 0) in
      if above_max msg_id
      then ends head cleared
      else if above_max msg_len
      then ends head cleared
      else attempt head (new_recv_node msg_len msg_id) (λ node. take_body head node stream)

  unfoldable pub round : Host → MsgNode → List ℕ → Round
  unfolding take_head
  round h head stream =
      let blank = clear head in
      attempt blank (read_head blank stream) (λ read. take_head h read.0 read.1)

-- What an allocation holds may change with every round.
module _ (heaps : ℕ → Heap) where
  unfoldable pub read_loop : Host → ℕ → MsgNode → List ℕ → List RecvNode → Session
  read_loop h zero head stream posted = record {
    head = head;
    posted = posted;
    ending = out_of_fuel;
  }
  read_loop h (suc fuel) head stream posted =
      resume (read_loop h fuel) posted (round (heaps (length posted)) h head stream)

  unfoldable pub session_start : Host → MsgNode → List ℕ → Session
  unfolding read_loop
  session_start h head stream = read_loop h (suc (length stream)) head stream []
