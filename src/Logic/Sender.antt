-- ===== src/Logic/Sender.antt =====
-- The sending half of `CSession`, example/logicServer/CSession.cc: the two `Send`, `HandleWrite` and
-- `Close`. A call gives the buffer of the `async_write` that it starts, if it starts one.
pub mod Line
pub mod Fifo
use asio_learn.Base.{
  ℕ, ◌+◌, ◌%◌, ◌^◌, Bool, true, false, List, [], ◌∷◌, ◌++◌, Option, none, some, ltb, if◌then◌else◌,
  length, take,
}
use asio_learn.Wire.Endian.{Host}
use asio_learn.Wire.{Result, ok, throws, faults, ◌>>=◌, SendNode, new_send_node, max_sendque}

-- `_send_que` and `_b_close`
pub record Sender : Type 0 where
  pub send_que : List SendNode
  pub b_close : Bool

pub record Started : Type 0 where
  pub sender : Sender
  pub write : Option (List ℕ)
  pub clears : Bool

-- `buffer(node->_data, node->_total_len)`
abbrev pub buffer : SendNode → List ℕ
buffer n = take n.total_len n.buf

-- A write of the front of the queue.
abbrev pub front_write : List SendNode → Option (List ℕ)
front_write [] = none
front_write (n ∷ q) = some (buffer n)

abbrev pub quiet : Sender → Started
quiet s = record { sender = s; write = none; clears = false }

-- The node is pushed; a write starts if the queue was empty.
abbrev pub push_node : Sender → SendNode → Started
push_node s node =
    let que = s.send_que ++ node ∷ [] in
    record {
      sender = record s { send_que = que };
      write = if ltb 0 (length s.send_que) then none else front_write que;
      clears = false;
    }

-- `Send(char *msg, short max_length, short msgid)`
unfoldable pub send : Host → Sender → List ℕ → ℕ → ℕ → Result Started
send h s msg max_length msgid =
    if ltb max_sendque (length s.send_que)
    then ok (quiet s)
    else do node ← new_send_node h msg max_length msgid; ok (push_node s node)

-- `Send(std::string msg, short msgid)`: the length is converted to `short`, and `c_str()` ends with a
-- null byte.
unfoldable pub send_string : Host → Sender → List ℕ → ℕ → Result Started
send_string h s msg msgid = if ltb max_sendque (length s.send_que) then ok (quiet s) else do
  node ← new_send_node h (msg ++ 0 ∷ []) (length msg % 2 ^ 16) msgid
  ok (push_node s node)

-- `Close`
unfoldable pub close : Sender → Sender
close s = record s { b_close = true }

-- `HandleWrite` after a write without error: `pop` on an empty queue is undefined.
abbrev pub pop_and_write : Sender → List SendNode → Result Started
pop_and_write s [] = faults
pop_and_write s (n ∷ que) =
    ok (record { sender = record s { send_que = que }; write = front_write que; clears = false })

-- `HandleWrite`, by whether the write had an error.
unfoldable pub handle_write : Sender → Bool → Result Started
unfolding close
handle_write s false = pop_and_write s s.send_que
handle_write s true = ok (record { sender = close s; write = none; clears = true })
