-- ===== src/Co/Memory/Unread.antt =====
-- No byte of an allocation is read before it is written.
use asio_learn.Base.{
  ℕ, zero, suc, ◌+◌, ◌%◌, ◌^◌, ◌≤◌, ◌<◌, ◌≡◌, refl, sym, ap, ◌∙◌, true, List, [], ◌∷◌, ◌++◌, arith,
  length, leb, ltb, ◌==◌, if◌then◌else◌, take, drop, get_or, replicate, length-replicate,
  length-take, length-drop, length-append, take-append, drop-append, le→leb, lt→ltb, leb,
  Bool-cases, inl, inr,
}
use asio_learn.Wire.Endian.{Host, short_at}
use asio_learn.Wire.{Result, ok, throws, faults, ◌>>=◌, MsgNode, RecvNode, write_at, clear}
use asio_learn.Wire
use asio_learn.Wire.Buffer.{write_at-append, write_at_fits}
use asio_learn.Co.Reader.{
  Round, Session, again, ends, closed, attempt, async_read, fill, take_body, read_head, resume,
}
use asio_learn.Co.Reader
use asio_learn.Co.Sender as CoSender
use asio_learn.Logic.Sender.{Sender}
use asio_learn.Wire.Encode.{sent_node, new_send_node_lem}
use asio_learn.Co.Memory.{
  send, new_send_node, Heap, new_node, new_recv_node, take_head, round, read_loop, session_start,
}

-- A new node for a body.
abbrev body_node : List ℕ → ℕ → ℕ → RecvNode
body_node buf len id = record {
  node = record { cur_len = 0; total_len = len; buf = buf };
  msg_id = id;
}

last_byte : (buf : List ℕ) (n : ℕ) → length buf ≡ suc n → (x : ℕ) × (drop n buf ≡ x ∷ [])
last_byte [] zero e = absurd (omega arith)
last_byte [] (suc n) e = absurd (omega arith)
last_byte (x ∷ []) zero e = (x, refl)
last_byte (x ∷ y ∷ buf) zero e = absurd (omega arith)
last_byte (x ∷ buf) (suc n) e = last_byte buf n (omega (arith, e))

-- The body and the terminator replace all that the node held.
fill_lem :
    (buf got : List ℕ) (len id : ℕ)
    → length buf ≡ suc (length got)
    → fill (body_node buf len id) got ≡ ok (body_node (got ++ 0 ∷ []) len id)
unfolding fill
fill_lem buf got len id e =
    let (x, last) = last_byte buf (length got) e in
    rw (
      write_at-append [] buf got (omega (arith, e)),
      last,
      write_at-append got (x ∷ []) (0 ∷ []) (omega arith),
    )

-- What a round makes of the body, without the bytes that the node held.
take_body_lem :
    (head : MsgNode) (buf : List ℕ) (len id : ℕ) (stream : List ℕ)
    → length buf ≡ suc len
    → take_body head (body_node buf len id) stream ≡ (
        if leb len (length stream)
        then (if length (take len stream) == 0
            then ends head closed
            else again head (body_node (take len stream ++ 0 ∷ []) len id) (drop len stream))
        else ends head closed)
unfolding take_body async_read
take_body_lem head buf len id stream e = elim (Bool-cases (leb len (length stream))) [
  | inr short ↦ rw short
  | inl whole ↦
      let fits : len ≤ length stream = ground (arith, whole) in
      let size : length (take len stream) ≡ len = omega (arith, length-take len stream) in
      rw (whole, fill_lem buf (take len stream) len id (omega (arith, size, e)))
]

length-zero : (xs : List ℕ) → length xs ≡ 0 → xs ≡ []
length-zero [] e = refl
length-zero (x ∷ xs) e = absurd (omega (arith, e))

four_bytes :
    (buf : List ℕ) (n : ℕ)
    → length buf ≡ n + 4
    → (a b c d : ℕ) × (r : List ℕ) × (buf ≡ a ∷ b ∷ c ∷ d ∷ r) × (length r ≡ n)
four_bytes [] n e = absurd (omega (arith, e))
four_bytes (a ∷ []) n e = absurd (omega (arith, e))
four_bytes (a ∷ b ∷ []) n e = absurd (omega (arith, e))
four_bytes (a ∷ b ∷ c ∷ []) n e = absurd (omega (arith, e))
four_bytes (a ∷ b ∷ c ∷ d ∷ r) n e = (a, b, c, d, r, refl, omega (arith, e))

module _ (heap : Heap) where
  new_recv_node-sized :
      (len id : ℕ)
      → ltb len 0x8000 ≡ true
      → (buf : List ℕ) × (new_recv_node heap len id ≡ ok (body_node buf len id))
        × (length buf ≡ suc len)
  unfolding new_recv_node
  new_recv_node-sized len id small =
      let room : len + 1 ≤ length (heap.allocated (len + 1)) =
        omega (arith, heap.sized (len + 1)) in
      let (b, ended, size) = write_at_fits (heap.allocated (len + 1)) len (0 ∷ []) room in
      (b, rw (small, ended), omega (arith, size, heap.sized (len + 1)))

  take_new-same :
      (head : MsgNode) (len id : ℕ) (stream : List ℕ)
      → attempt head (new_recv_node heap len id) (λ node. take_body head node stream)
        ≡ attempt head (Wire.new_recv_node len id) (λ node. take_body head node stream)
  unfolding new_recv_node Wire.new_recv_node Wire.new_node
  take_new-same head len id stream = elim (Bool-cases (ltb len 0x8000)) [
    | inl small ↦
        let (b, made, size) = new_recv_node-sized len id small in
        let cleared : length (replicate {A = ℕ} (len + 1) 0) ≡ suc len =
          omega (arith, length-replicate {A = ℕ} (len + 1) 0) in
        ap (λ r. attempt head r (λ node. take_body head node stream)) made
        ∙ take_body_lem head b len id stream size
        ∙ sym (take_body_lem head (replicate (len + 1) 0) len id stream cleared)
        ∙ rw small
    | inr large ↦ rw large
  ]

  new_node-ended :
      (n : ℕ)
      → n < 0x8000
      → new_node heap n
        ≡ ok
            (record { cur_len = 0; total_len = n; buf = take n (heap.allocated (n + 1)) ++ 0 ∷ [] })
  unfolding new_node write_at
  new_node-ended n small =
      let fits : n + 1 ≤ length (heap.allocated (n + 1)) = omega (arith, heap.sized (n + 1)) in
      let none_left : drop (n + 1) (heap.allocated (n + 1)) ≡ [] =
        length-zero _
          (omega (arith, length-drop (n + 1) (heap.allocated (n + 1)), heap.sized (n + 1))) in
      rw (lt→ltb n 0x8000 small, le→leb (n + 1) (length (heap.allocated (n + 1))) fits, none_left)

  -- The head, the body and the terminator fill a node that is sent.
  new_send_node-sent :
      (h : Host) (body more : List ℕ) (id : ℕ)
      → length body + 4 < 2 ^ 15
      → new_send_node heap h (body ++ more) (length body) id ≡ ok (sent_node h id body)
  unfolding new_send_node
  new_send_node-sent h body more id short =
      let n = length body + 4 in
      let sum : n % 2 ^ 16 ≡ n = omega arith in
      let (a, b, c, d, r, whole, size) =
        four_bytes (take n (heap.allocated (n + 1))) (length body)
          (omega (arith, length-take n (heap.allocated (n + 1)), heap.sized (n + 1))) in
      let behind : drop (length body) (r ++ 0 ∷ []) ≡ 0 ∷ [] =
        ap (λ k. drop k (r ++ 0 ∷ [])) (sym size) ∙ drop-append r (0 ∷ []) in
      let room = length-append r (0 ∷ []) in
      let four : 4 + length body ≡ suc (suc (suc (suc (length body)))) = omega arith in
      rw (
        sum,
        new_node-ended n (omega arith),
        whole,
        le→leb 2 (suc (suc (suc (suc (length (r ++ 0 ∷ [])))))) (omega arith),
        le→leb 4 (suc (suc (suc (suc (length (r ++ 0 ∷ [])))))) (omega arith),
        le→leb (length body) (length (body ++ more)) (omega (arith, length-append body more)),
        take-append body more,
        le→leb (4 + length body) (suc (suc (suc (suc (length (r ++ 0 ∷ []))))))
            (omega (arith, room, size)),
        four,
        behind,
      )

  take_head-same :
      (h : Host) (head : MsgNode) (stream : List ℕ)
      → take_head heap h head stream ≡ Reader.take_head h head stream
  unfolding take_head Reader.take_head
  take_head-same h head stream = rw (
      take_new-same head (short_at h (get_or head.buf 2 0) (get_or head.buf 3 0))
        (short_at h (get_or head.buf 0 0) (get_or head.buf 1 0)) stream)

  read-same :
      (h : Host) (blank : MsgNode) (read : Result (MsgNode × List ℕ))
      → attempt blank read (λ r. take_head heap h r.0 r.1)
        ≡ attempt blank read (λ r. Reader.take_head h r.0 r.1)
  read-same h blank (ok r) = take_head-same h r.0 r.1
  read-same h blank throws = refl
  read-same h blank faults = refl

module _ (heaps : ℕ → Heap) where
  resume-same :
      (h : Host) (fuel : ℕ) (posted : List RecvNode) (r : Round)
      → ((head : MsgNode) (stream : List ℕ) (more : List RecvNode)
          → read_loop heaps h fuel head stream more ≡ Reader.read_loop h fuel head stream more)
      → resume (read_loop heaps h fuel) posted r ≡ resume (Reader.read_loop h fuel) posted r
  resume-same h fuel posted (again head node stream) k = k head stream (posted ++ node ∷ [])
  resume-same h fuel posted (ends head e) k = refl

  read_loop-same :
      (h : Host) (fuel : ℕ) (head : MsgNode) (stream : List ℕ) (posted : List RecvNode)
      → read_loop heaps h fuel head stream posted ≡ Reader.read_loop h fuel head stream posted
  unfolding read_loop round Reader.read_loop Reader.round
  read_loop-same h zero head stream posted = refl
  read_loop-same h (suc fuel) head stream posted =
      ap (resume (read_loop heaps h fuel) posted)
        (read-same (heaps (length posted)) h (clear head) (read_head (clear head) stream))
      ∙ resume-same h fuel posted (Reader.round h head stream) (read_loop-same h fuel)

  -- What an allocation holds when it is made is never read: on any stream, the session posts the same
  -- nodes, to the last byte, and ends in the same way as with allocations that are cleared; and a text
  -- that fits a message is sent as the same node.
  pub session_start-same :
      (h : Host) (head : MsgNode) (stream : List ℕ) (n : ℕ) (s : Sender) (body more : List ℕ)
      (id : ℕ)
      → length body + 4 < 2 ^ 15
      → (session_start heaps h head stream ≡ Reader.session_start h head stream)
        × (send (heaps n) h s (body ++ more) (length body) id
            ≡ CoSender.send h s (body ++ more) (length body) id)
  unfolding session_start send Reader.session_start CoSender.send
  session_start-same h head stream n s body more id short = (
    read_loop-same h (suc (length stream)) head stream [],
    rw (new_send_node-sent (heaps n) h body more id short, new_send_node_lem h id body more short),
  )
