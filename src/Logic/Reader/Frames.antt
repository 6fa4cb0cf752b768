-- ===== src/Logic/Reader/Frames.antt =====
-- The messages of the protocol, and how a received chunk of the stream carries them, apart from the
-- code that takes it in.
use asio_learn.Base.{
  ℕ, ◌+◌, ◌-◌, ◌^◌, ◌≤◌, ◌<◌, ◌≡◌, true, false, List, [], ◌∷◌, ◌++◌, Option, some, length,
  replicate,
}
use asio_learn.Wire.{MsgNode, RecvNode, max_length}
use asio_learn.Wire.Endian.{Host}
use asio_learn.Logic.Reader.{Reader, above_max}

pub record Message : Type 0 where
  pub id : ℕ
  pub body : List ℕ

-- The id is a `short` that is accepted (a negative one is), and the body is within the limit.
pub record IsMessage (m : Message) : Type 0 where
  pub short_id : m.id < 2 ^ 16
  pub accepted : above_max m.id ≡ false
  pub fits : length m.body ≤ max_length

-- The head and the bytes behind it.
abbrev pub framed : Host → ℕ → ℕ → List ℕ → List ℕ
framed h id len rest =
    h.first_byte (h.hton id)
    ∷ h.second_byte (h.hton id)
    ∷ h.first_byte (h.hton len)
    ∷ h.second_byte (h.hton len)
    ∷ rest

abbrev pub frame : Host → Message → List ℕ
frame h m = framed h m.id (length m.body) m.body

-- The frames of some messages, one behind the other.
abbrev pub frames : Host → List Message → List ℕ
frames h [] = []
frames h (m ∷ ms) = frame h m ++ frames h ms

-- Where in the stream a read begins: between two messages, or within the body of one of which `got`
-- has come.
pub data Place : Type 0 where
  boundary : Place
  within : Message → ℕ → Place

-- The bytes `c`, read from one place, hold the rest of a message, whole messages, and the beginning
-- of one, whose head is whole. The messages completed are `ms`.
pub data Carries (h : Host) : Place → List ℕ → List Message → Place → Type 0 where
  nothing : {c : List ℕ} → c ≡ [] → Carries h boundary c [] boundary
  begins :
      {c : List ℕ} (m : Message) (len : ℕ)
      → IsMessage m
      → length m.body < len
      → len ≤ max_length
      → c ≡ framed h m.id len m.body
      → Carries h boundary c [] (within m len)
  holds :
      {c rest : List ℕ} {ms : List Message} {p : Place} (m : Message)
      → IsMessage m
      → c ≡ framed h m.id (length m.body) (m.body ++ rest)
      → Carries h boundary rest ms p
      → Carries h boundary c (m ∷ ms) p
  goes_on :
      {c : List ℕ} (m : Message) (len : ℕ)
      → length (m.body ++ c) < len
      → Carries h (within m len) c [] (within (record m { body = m.body ++ c }) len)
  ends :
      {c rest : List ℕ} {ms : List Message} {p : Place} (m : Message) (len : ℕ) (more : List ℕ)
      → length (m.body ++ more) ≡ len
      → c ≡ more ++ rest
      → Carries h boundary rest ms p
      → Carries h (within m len) c (record m { body = m.body ++ more } ∷ ms) p

-- The node of a message of which `m.body` has come, and that of a whole message.
abbrev pub part_node : Message → ℕ → RecvNode
part_node m len = record {
  node = record {
    cur_len = length m.body;
    total_len = len;
    buf = m.body ++ replicate (len + 1 - length m.body) 0;
  };
  msg_id = m.id;
}

abbrev pub whole_node : Message → RecvNode
whole_node m = record {
  node = record { cur_len = length m.body; total_len = length m.body; buf = m.body ++ 0 ∷ [] };
  msg_id = m.id;
}

abbrev pub head_node : List ℕ → MsgNode
head_node buf = record { cur_len = 0; total_len = 4; buf = buf }

abbrev pub idle : List ℕ → Option RecvNode → Reader
idle buf msg = record { head = head_node buf; head_parsed = false; msg = msg }

abbrev pub busy : List ℕ → Message → ℕ → Reader
busy buf m len = record { head = head_node buf; head_parsed = true; msg = some (part_node m len) }

-- The reader stands at a place.
abbrev pub Stands : Reader → Place → Type 0
Stands r boundary = (buf : List ℕ) × (msg : Option RecvNode) × (length buf ≡ 5) × (r ≡ idle buf msg)
Stands r (within m len) =
    (buf : List ℕ) × (length buf ≡ 5)
    × (length m.body < len)
    × (len ≤ max_length)
    × (r ≡ busy buf m len)
