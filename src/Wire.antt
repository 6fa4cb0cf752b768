-- ===== src/Wire.antt =====
-- The nodes that hold one message, example/logicServer/MsgNode.h and MsgNode.cc, and the constants of
-- const.h. A `short` is its bit pattern below 2 ^ 16, a byte a number, an allocation the list of its
-- bytes. A write outside an allocation is a fault, and `new` of a negative size throws.
pub mod Endian
pub mod Buffer
pub mod Encode
use asio_learn.Base.{
  ℕ, ◌+◌, ◌%◌, ◌^◌, Bool, ◌&&◌, List, [], ◌∷◌, ◌++◌, ltb, leb, ◌==◌, if◌then◌else◌, length, take,
  drop, replicate,
}
use asio_learn.Wire.Endian.{Host, short_bytes}

-- `MAX_LENGTH`, `HEAD_TOTAL_LEN` and `MAX_SENDQUE` of const.h.
abbrev pub max_length : ℕ
max_length = 2048

abbrev pub head_total_len : ℕ
head_total_len = 4

abbrev pub max_sendque : ℕ
max_sendque = 1000

-- What a piece of code that touches memory comes to.
pub data Result {ℓ} (A : Type ℓ) : Type ℓ where
  ok : A → Result A
  throws : Result A
  faults : Result A

infixl 5 ◌>>=◌
abbrev pub ◌>>=◌ {ℓ κ} : {A : Type ℓ} {B : Type κ} → Result A → (A → Result B) → Result B
ok a >>= f = f a
throws >>= f = throws
faults >>= f = faults

-- `MsgNode`
pub record MsgNode : Type 0 where
  pub cur_len : ℕ
  pub total_len : ℕ
  pub buf : List ℕ

-- `RecvNode` and `SendNode` add the message's id.
pub record RecvNode : Type 0 where
  pub node : MsgNode
  pub open node use *
  pub msg_id : ℕ

pub record SendNode : Type 0 where
  pub node : MsgNode
  pub open node use *
  pub msg_id : ℕ

-- `MsgNode(short max_len)`: `new char[_total_len + 1]()` and `_data[_total_len] = '\0'`. At -1 the
-- allocation is empty and the write lies before it; below that the size is negative.
unfoldable pub new_node : ℕ → Result MsgNode
new_node max_len =
    if ltb max_len 0x8000
    then ok (record { cur_len = 0; total_len = max_len; buf = replicate (max_len + 1) 0 })
    else if max_len == 0xffff
    then faults
    else throws

-- `memcpy(buf + off, src, length src)`
unfoldable pub write_at : List ℕ → ℕ → List ℕ → Result (List ℕ)
write_at buf off src =
    if leb (off + length src) (length buf)
    then ok (take off buf ++ (src ++ drop (off + length src) buf))
    else faults

-- The source of a `memcpy` of `n` bytes.
unfoldable pub read_from : List ℕ → ℕ → Result (List ℕ)
read_from src n = if leb n (length src) then ok (take n src) else faults

-- `MsgNode::Clear`
unfoldable pub clear : MsgNode → MsgNode
clear m = record m { buf = replicate m.total_len 0 ++ drop m.total_len m.buf; cur_len = 0 }

-- `RecvNode(short max_len, short msg_id)`
unfoldable pub new_recv_node : ℕ → ℕ → Result RecvNode
new_recv_node max_len msg_id = do m ← new_node max_len; ok (record { node = m; msg_id = msg_id })

-- `SendNode(const char *msg, short max_len, short msg_id)`; `msg` is the memory from the pointer on,
-- and reading past its end is a fault. The sum `max_len + HEAD_TOTAL_LEN` is converted to `short`.
unfoldable pub new_send_node : Host → List ℕ → ℕ → ℕ → Result SendNode
unfolding new_node write_at read_from
new_send_node h msg max_len msg_id = do
  m ← new_node ((max_len + head_total_len) % 2 ^ 16)
  with_id ← write_at m.buf 0 (short_bytes h msg_id)
  with_len ← write_at with_id 2 (short_bytes h max_len)
  body ← read_from msg max_len
  filled ← write_at with_len 4 body
  ok (record { node = record m { buf = filled }; msg_id = msg_id })
