-- ===== src/Logic/Reader.antt =====
-- The receiving half of `CSession`, example/logicServer/CSession.cc: `Start`, `HandleRead`. The bytes
-- `_data[copy_len .. copy_len + bytes_transferred)` that a call has not yet taken are a list; the
-- read that it starts at its end, the call of `ClearSession` and a caught exception are its outcome.
pub mod Memory
pub mod Valid
pub mod Safety
pub mod Frames
pub mod Rounds
pub mod Deliver
pub mod Stream
pub mod Lost
use asio_learn.Base.{
  ℕ, zero, suc, ◌+◌, ◌-◌, ◌%◌, ◌^◌, Bool, true, false, ◌&&◌, List, [], ◌∷◌, ◌++◌, Option, none,
  some, ltb, leb, if◌then◌else◌, length, get_or, take, drop,
}
use asio_learn.Wire.Endian.{Host, short_at}
use asio_learn.Wire.{
  new_node, Result, ok, throws, faults, ◌>>=◌, MsgNode, RecvNode, write_at, clear, new_recv_node,
  max_length, head_total_len,
}

-- `_recv_head_node`, `_b_head_parse` and `_recv_msg_node` (a pointer that starts as null).
pub record Reader : Type 0 where
  pub head : MsgNode
  pub head_parsed : Bool
  pub msg : Option RecvNode

-- The constructor of `CSession`.
unfoldable pub new_reader : Result Reader
unfolding new_node
new_reader = do
  m ← new_node head_total_len
  ok (record { head = m; head_parsed = false; msg = none })

-- How a call ends: with a new read; with no read and no call; with `ClearSession`; with `Close` and
-- `ClearSession`; by an exception that is caught and printed; outside the language's rules. The last
-- is the model's own: its fuel ran out.
pub data Next : Type 0 where
  read_more no_read cleared closed stalled undefined out_of_fuel : Next

pub record Outcome : Type 0 where
  pub reader : Reader
  pub posted : List RecvNode
  pub next : Next

-- One round of the `while`: it goes on with what it leaves of the bytes after posting a message, or it
-- returns from the call.
pub data Round : Type 0 where
  again : Reader → List ℕ → RecvNode → Round
  stop : Reader → List RecvNode → Next → Round

-- The rest of a round whose memory operations may fail; `r` is the state if they do.
abbrev pub attempt {ℓ} : {A : Type ℓ} → Reader → Result A → (A → Round) → Round
attempt r (ok a) f = f a
attempt r throws f = stop r [] stalled
attempt r faults f = stop r [] undefined

-- `short w > MAX_LENGTH`
abbrev pub above_max : ℕ → Bool
above_max w = ltb max_length w && ltb w 0x8000

abbrev pub add_short : ℕ → ℕ → ℕ
add_short a b = (a + b) % 2 ^ 16

-- A message is complete: it is posted to the logic system, and the head is cleared. With no byte left
-- the next read is started, else the loop goes on.
abbrev pub finish : Reader → RecvNode → List ℕ → Round
finish r node [] =
    stop (record r { head = clear r.head; head_parsed = false; msg = some node }) (node ∷ [])
      read_more
finish r node (b ∷ rest) =
    again (record r { head = clear r.head; head_parsed = false; msg = some node }) (b ∷ rest) node

-- `memcpy(_data + _cur_len, …); _cur_len += …`
pub receive : RecvNode → List ℕ → Result RecvNode
receive node bytes = do
  filled ← write_at node.buf node.cur_len bytes
  ok (record node {
    node = record {
      cur_len = add_short node.cur_len (length bytes);
      total_len = node.total_len;
      buf = filled;
    };
  })

-- `_data[i] = '\0'`
pub terminate : RecvNode → ℕ → Result RecvNode
terminate node i = do
  ended ← write_at node.buf i (0 ∷ [])
  ok (record node {
    node = record { cur_len = node.cur_len; total_len = node.total_len; buf = ended };
  })

-- The head is complete and its two numbers are accepted: the node for the body exists.
pub start_body : Reader → RecvNode → ℕ → List ℕ → Round
start_body r node msg_len rest =
    if ltb (length rest) msg_len
    then attempt r (receive node rest)
        (λ part. stop (record r { head_parsed = true; msg = some part }) [] read_more)
    else attempt r (do whole ← receive node (take msg_len rest); terminate whole whole.cur_len)
        (λ whole. finish r whole (drop msg_len rest))

-- The head is complete: `r` holds its bytes.
pub take_head : Host → Reader → List ℕ → Round
take_head h r rest =
    let msg_id = short_at h (get_or r.head.buf 0 0) (get_or r.head.buf 1 0) in
    let msg_len = short_at h (get_or r.head.buf 2 0) (get_or r.head.buf 3 0) in
    if above_max msg_id
    then stop r [] cleared
    else if above_max msg_len
    then stop r [] cleared
    else attempt r (new_recv_node msg_len msg_id) (λ node. start_body r node msg_len rest)

-- A round with `_b_head_parse` false. Fewer bytes than complete the head are copied behind its
-- `_cur_len`, which stays as it is.
pub head_round : Host → Reader → List ℕ → Round
head_round h r bytes =
    let cur = r.head.cur_len in
    let remain = head_total_len - cur in
    let put = λ (b : List ℕ). record r {
      head = record { cur_len = cur; total_len = r.head.total_len; buf = b };
    } in
    if ltb (length bytes + cur) head_total_len
    then attempt r (write_at r.head.buf cur bytes) (λ b. stop (put b) [] read_more)
    else attempt r (write_at r.head.buf cur (take remain bytes))
        (λ b. take_head h (put b) (drop remain bytes))

-- `_total_len - _cur_len` as it is compared with a `size_t`.
pub remain_msg : RecvNode → ℕ
remain_msg node =
    if leb node.cur_len node.total_len
    then node.total_len - node.cur_len
    else node.total_len + 2 ^ 64 - node.cur_len

-- A round with `_b_head_parse` true.
pub body_round : Reader → RecvNode → List ℕ → Round
body_round r node bytes =
    let remain = remain_msg node in
    if ltb (length bytes) remain
    then attempt r (receive node bytes) (λ part. stop (record r { msg = some part }) [] read_more)
    else attempt r (do whole ← receive node (take remain bytes); terminate whole whole.total_len)
        (λ whole. finish r whole (drop remain bytes))

-- The branch on `_b_head_parse`; a null `_recv_msg_node` is dereferenced by the second.
abbrev pub dispatch : Host → Reader → List ℕ → Bool → Option RecvNode → Round
dispatch h r bytes false msg = head_round h r bytes
dispatch h r bytes true none = stop r [] undefined
dispatch h r bytes true (some node) = body_round r node bytes

pub round : Host → Reader → List ℕ → Round
round h r bytes = dispatch h r bytes r.head_parsed r.msg

-- How the loop goes on after a round, with the messages posted so far.
abbrev pub resume : (Reader → List ℕ → List RecvNode → Outcome) → List RecvNode → Round → Outcome
resume loop posted (again r bytes node) = loop r bytes (posted ++ node ∷ [])
resume loop posted (stop r nodes next) = record {
  reader = r;
  posted = posted ++ nodes;
  next = next;
}

-- The `while (bytes_transferred > 0)`.
pub read_loop : Host → ℕ → Reader → List ℕ → List RecvNode → Outcome
read_loop h zero r bytes posted = record { reader = r; posted = posted; next = out_of_fuel }
read_loop h (suc fuel) r [] posted = record { reader = r; posted = posted; next = no_read }
read_loop h (suc fuel) r (b ∷ bytes) posted =
    resume (read_loop h fuel) posted (round h r (b ∷ bytes))

-- `HandleRead`: an error closes the session; otherwise the bytes that came are worked through.
pub handle_read : Host → Reader → Option (List ℕ) → Outcome
handle_read h r none = record { reader = r; posted = []; next = closed }
handle_read h r (some bytes) = read_loop h (suc (length bytes)) r bytes []

-- The calls of `HandleRead` for the reads that complete, one after the other, as long as each starts
-- the next.
abbrev pub follow : Next → Outcome → (Reader → Outcome) → Outcome
follow read_more o reads = let o' = reads o.reader in record o' { posted = o.posted ++ o'.posted }
follow _ o reads = o

pub run_reads : Host → Reader → List (Option (List ℕ)) → Outcome
run_reads h r [] = record { reader = r; posted = []; next = read_more }
run_reads h r (c ∷ cs) = let o = handle_read h r c in follow o.next o (λ r'. run_reads h r' cs)
