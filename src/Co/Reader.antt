-- ===== src/Co/Reader.antt =====
-- The coroutine of `CSession::Start`, example/BoostCoServer/CSession.cc. What the peer sends is a list
-- of bytes, at whose end the connection ends. `async_read` (Boost.Asio) fills its whole buffer, gives
-- 0 at once for an empty one, and throws where the stream ends before. Closing the socket from
-- elsewhere is the end of the stream too.
pub mod Steps
pub mod Rounds
pub mod Stream
pub mod Total
pub mod Agree
use asio_learn.Base.{
  ℕ, zero, suc, ◌+◌, Bool, true, false, List, [], ◌∷◌, ◌++◌, Option, none, some, ltb, leb, ◌==◌,
  if◌then◌else◌, length, get_or, take, drop,
}
use asio_learn.Wire.Endian.{Host, short_at}
use asio_learn.Wire.{
  Result, ok, throws, faults, ◌>>=◌, MsgNode, RecvNode, write_at, clear, new_recv_node, new_node,
  head_total_len,
}
use asio_learn.Logic.Reader.{above_max}

-- How the coroutine ends: by `Close` and `ClearSession`, by `ClearSession` alone, or outside the
-- language's rules. The last is the model's own.
pub data Ending : Type 0 where
  closed cleared undefined out_of_fuel : Ending

pub record Session : Type 0 where
  pub head : MsgNode
  pub posted : List RecvNode
  pub ending : Ending

-- One round: it goes on with the head node, the posted message and the rest of the stream, or ends.
pub data Round : Type 0 where
  again : MsgNode → RecvNode → List ℕ → Round
  ends : MsgNode → Ending → Round

-- `async_read` of `n` bytes: those, and the rest of the stream.
unfoldable pub async_read : ℕ → List ℕ → Result (List ℕ × List ℕ)
async_read n stream = if leb n (length stream) then ok (take n stream, drop n stream) else throws

-- An exception is caught, and closes the session.
abbrev pub attempt {ℓ} : {A : Type ℓ} → MsgNode → Result A → (A → Round) → Round
attempt head (ok a) f = f a
attempt head throws f = ends head closed
attempt head faults f = ends head undefined

-- `_data[n] = '\0'` behind the `n` bytes that were read.
unfoldable pub fill : RecvNode → List ℕ → Result RecvNode
fill node bytes = do
  filled ← write_at node.buf 0 bytes
  ended ← write_at filled (length bytes) (0 ∷ [])
  ok (record node {
    node = record { cur_len = node.cur_len; total_len = node.total_len; buf = ended };
  })

-- The body: a read of 0 bytes counts as the end of the connection.
unfoldable pub take_body : MsgNode → RecvNode → List ℕ → Round
take_body head node stream = attempt head (async_read node.total_len stream) (λ got.
    if length got.0 == 0
    then ends head closed
    else attempt head (fill node got.0) (λ whole. again head whole got.1))

-- The head's two numbers, for a head node that holds its four bytes.
unfoldable pub take_head : Host → MsgNode → List ℕ → Round
take_head h head stream =
    let msg_id = short_at h (get_or head.buf 0 0) (get_or head.buf 1 0) in
    let msg_len = short_at h (get_or head.buf 2 0) (get_or head.buf 3 0) in
    if above_max msg_id
    then ends head cleared
    else if above_max msg_len
    then ends head cleared
    else attempt head (new_recv_node msg_len msg_id) (λ node. take_body head node stream)

-- The read of a head, into the node that was cleared.
unfoldable pub read_head : MsgNode → List ℕ → Result (MsgNode × List ℕ)
read_head blank stream = do
  got ← async_read head_total_len stream
  b ← write_at blank.buf 0 got.0
  ok (record blank { buf = b }, got.1)

-- A round of the loop.
unfoldable pub round : Host → MsgNode → List ℕ → Round
round h head stream =
    let blank = clear head in
    attempt blank (read_head blank stream) (λ read. take_head h read.0 read.1)

abbrev pub resume : (MsgNode → List ℕ → List RecvNode → Session) → List RecvNode → Round → Session
resume loop posted (again head node stream) = loop head stream (posted ++ node ∷ [])
resume loop posted (ends head e) = record { head = head; posted = posted; ending = e }

-- The `for (; !_b_close; )`.
unfoldable pub read_loop : Host → ℕ → MsgNode → List ℕ → List RecvNode → Session
read_loop h zero head stream posted = record { head = head; posted = posted; ending = out_of_fuel }
read_loop h (suc fuel) head stream posted = resume (read_loop h fuel) posted (round h head stream)

unfoldable pub session_start : Host → MsgNode → List ℕ → Session
session_start h head stream = read_loop h (suc (length stream)) head stream []
