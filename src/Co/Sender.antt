-- ===== src/Co/Sender.antt =====
-- The sending half of `CSession`, example/BoostCoServer/CSession.cc: `Send`, `HandleWrite`. The state
-- and `Close` are those of example/logicServer.
pub mod Backlog
use asio_learn.Base.{
  ℕ, ◌+◌, ◌%◌, ◌^◌, Bool, true, false, List, [], ◌∷◌, ◌++◌, Option, none, some, ltb, if◌then◌else◌,
  length, take,
}
use asio_learn.Wire.Endian.{Host}
use asio_learn.Wire.{Result, ok, throws, faults, ◌>>=◌, SendNode, new_send_node, max_sendque}
use asio_learn.Logic.Sender.{Sender, Started, quiet, push_node, close}

-- `Send(const char *msg, short max_length, short msgid)`
unfoldable pub send : Host → Sender → List ℕ → ℕ → ℕ → Result Started
send h s msg max_length msgid =
    if ltb max_sendque (length s.send_que)
    then ok (quiet s)
    else do node ← new_send_node h msg max_length msgid; ok (push_node s node)

-- `Send(std::string &msg, short msgid)`
unfoldable pub send_string : Host → Sender → List ℕ → ℕ → Result Started
unfolding send
send_string h s msg msgid = send h s (msg ++ 0 ∷ []) (length msg % 2 ^ 16) msgid

-- `buffer(msg_node->_data, msg_node->_cur_len)`
abbrev pub rest_buffer : SendNode → List ℕ
rest_buffer n = take n.cur_len n.buf

abbrev pub next_write : List SendNode → Option (List ℕ)
next_write [] = none
next_write (n ∷ que) = some (rest_buffer n)

abbrev pub pop_and_write : Sender → List SendNode → Result Started
pop_and_write s [] = faults
pop_and_write s (n ∷ que) =
    ok (record { sender = record s { send_que = que }; write = next_write que; clears = false })

-- `HandleWrite`, by whether the write had an error.
unfoldable pub handle_write : Sender → Bool → Result Started
unfolding close
handle_write s false = pop_and_write s s.send_que
handle_write s true = ok (record { sender = close s; write = none; clears = true })
