-- ===== src/Logic/System.antt =====
-- `LogicSystem`, example/logicServer/LogicSystem.cc: the queue of received messages and its worker.
-- JsonCpp is a parameter: its parser, the operations that the callback uses, and its printer; an
-- operation that throws gives `none`. No caller of the callback catches an exception, so one ends the
-- process.
pub mod Order
pub mod Own
pub mod Stop
pub mod Wake
use asio_learn.Base.{
  ℕ, zero, suc, ◌+◌, ◌%◌, ◌^◌, Bool, true, false, List, [], ◌∷◌, ◌++◌, Option, none, some, ◌==◌,
  if◌then◌else◌, length, take,
}
use asio_learn.Base.Text.{bytes}
use asio_learn.Base.Optional.{◌>>=◌}
use asio_learn.Wire.{RecvNode}

-- A text is the list of its bytes; an `int` is its bit pattern. `member` is `root[key]`, which may
-- change the root, and `assign` is `root[key] = text`.
pub record Json : Type 1 where
  pub Value : Type 0
  pub parse : List ℕ → Value
  pub member : Value → List ℕ → Option (Value × Value)
  pub as_int : Value → Option ℕ
  pub as_string : Value → Option (List ℕ)
  pub assign : Value → List ℕ → List ℕ → Option Value
  pub to_styled_string : Value → List ℕ

-- `MSG_HELLO_WORD`, the only id with a callback.
abbrev pub msg_hello_word : ℕ
msg_hello_word = 1001

-- A message in the queue, with the session that it came from.
pub record LogicNode : Type 0 where
  pub session : ℕ
  pub recvnode : RecvNode

-- A call of `session->Send(text, msgid)`.
pub record Reply : Type 0 where
  pub session : ℕ
  pub text : List ℕ
  pub msgid : ℕ

pub record System : Type 0 where
  pub msg_que : List LogicNode
  pub b_stop : Bool
  pub replies : List Reply

-- What a handler, or a turn of the worker, comes to: it is done, an exception ends the process, the
-- worker waits for its condition, or it looks at the front of an empty queue.
pub data Turn {ℓ} (A : Type ℓ) : Type ℓ where
  goes_on : A → Turn A
  terminates : Turn A
  waits : Turn A
  undefined : Turn A

-- The keys, and the text in front of what is sent back.
abbrev pub key_id : List ℕ
key_id = bytes "id"

abbrev pub key_data : List ℕ
key_data = bytes "data"

abbrev pub reply_prefix : List ℕ
reply_prefix = bytes "server has received msg, msg data is "

module _ (j : Json) where
  -- `HelloWordCallBack`: the two members are read for the log, and again for the reply.
  unfoldable pub hello_word : ℕ → List ℕ → Option Reply
  hello_word session msg_data = do
    logged_id ← j.member (j.parse msg_data) key_id
    _ ← j.as_int logged_id.1
    logged_data ← j.member logged_id.0 key_data
    _ ← j.as_string logged_data.1
    data_read ← j.member logged_data.0 key_data
    text ← j.as_string data_read.1
    root ← j.assign data_read.0 key_data (reply_prefix ++ text)
    id_read ← j.member root key_id
    msgid ← j.as_int id_read.1
    some (record { session = session; text = j.to_styled_string root; msgid = msgid % 2 ^ 16 })

  -- The text that the callback gets is `std::string(_data, _cur_len)`.
  abbrev pub msg_text : LogicNode → List ℕ
  msg_text m = take m.recvnode.cur_len m.recvnode.buf

  abbrev pub answered : System → Option Reply → Turn System
  answered s none = terminates
  answered s (some r) = goes_on (record s { replies = s.replies ++ r ∷ [] })

  -- The front of the queue: its callback is looked up, called if there is one, and the node is popped.
  unfoldable pub handle_front : System → LogicNode → Turn System
  handle_front s m =
      if m.recvnode.msg_id == msg_hello_word
      then answered s (hello_word m.session (msg_text m))
      else goes_on s

  abbrev pub and_then : Turn System → (System → Turn System) → Turn System
  and_then (goes_on s) f = f s
  and_then terminates f = terminates
  and_then waits f = waits
  and_then undefined f = undefined

  -- The inner `while (!_msg_que.empty())` of a stopped worker.
  unfoldable pub drain : System → List LogicNode → Turn System
  drain s [] = goes_on (record s { msg_que = [] })
  drain s (m ∷ que) = and_then (handle_front s m) (λ t. drain t que)

  -- The part behind the wait, of a worker that is not stopped.
  unfoldable pub deal_front : System → List LogicNode → Turn System
  deal_front s [] = undefined
  deal_front s (m ∷ que) = and_then (handle_front s m) (λ t. goes_on (record t { msg_que = que }))

  -- One turn of `DealMsg`: it waits while the queue is empty and the system is not stopped. A stopped
  -- worker empties the queue and then goes on to its front.
  abbrev pub deal : System → Bool → List LogicNode → Turn System
  deal s false [] = waits
  deal s false (m ∷ que) = deal_front s (m ∷ que)
  deal s true que = and_then (drain s que) (λ t. deal_front t t.msg_que)

  unfoldable pub deal_msg : System → Turn System
  deal_msg s = deal s s.b_stop s.msg_que

-- `PostMsgToQue`, and whether it notifies the worker.
unfoldable pub post_msg : System → LogicNode → System × Bool
post_msg s m = let que = s.msg_que ++ m ∷ [] in (record s { msg_que = que }, length que == 1)

-- The destructor up to `join`.
unfoldable pub stop : System → System
stop s = record s { b_stop = true }

unfoldable pub fresh : System
fresh = record { msg_que = []; b_stop = false; replies = [] }
