-- ===== src/Logic/Client.antt =====
-- The test clients, example/logicServer/jsonClient.cc and example/BoostCoServer/testClient.cc, which
-- differ in how many rounds and threads they have. The text of a request is what JsonCpp prints; a
-- blocking `write` and `read` (Boost.Asio) transfer the whole buffer or throw. The bytes that are
-- still to come from the server are a list.
pub mod Request
pub mod Answering
use asio_learn.Base.{
  ℕ, zero, suc, ◌+◌, ◌-◌, ◌%◌, ◌^◌, ◌<◌, ◌≡◌, Bool, true, false, List, [], ◌∷◌, ◌++◌, Option, none,
  some, ltb, leb, if◌then◌else◌, length, take, drop, replicate, get_or,
}
use asio_learn.Wire.Endian.{Host, short_at}
use asio_learn.Wire.{
  Result, ok, throws, faults, ◌>>=◌, write_at, read_from, max_length, head_total_len,
}

-- The clients copy the first two bytes of an `int`. These are the bytes of its low `short` where the
-- machine stores the low byte first: the only machines on which the clients work.
pub record IntHost : Type 0 where
  pub host : Host
  pub int_first : ℕ → ℕ
  pub int_second : ℕ → ℕ
  -- The `int` 0 with its first two bytes replaced.
  pub int_from : ℕ → ℕ → ℕ
  pub first-low : (v : ℕ) → v < 2 ^ 16 → int_first v ≡ host.first_byte v
  pub second-low : (v : ℕ) → v < 2 ^ 16 → int_second v ≡ host.second_byte v
  pub hton_small : (v : ℕ) → v < 2 ^ 16 → host.hton v < 2 ^ 16
  pub from-low : (a b : ℕ) → a < 256 → b < 256 → int_from a b ≡ host.from_bytes a b

-- `int v = host_to_network_short(…); memcpy(data, &v, 2)`
abbrev pub int_bytes : IntHost → ℕ → List ℕ
int_bytes h v = h.int_first (h.host.hton v) ∷ h.int_second (h.host.hton v) ∷ []

-- A request in an array of `size` bytes: the id, the length converted to `short`, and the text; the
-- part that is written to the socket.
unfoldable pub fill_request : IntHost → ℕ → ℕ → List ℕ → Result (List ℕ)
fill_request h size msgid request = do
  with_id ← write_at (replicate size 0) 0 (int_bytes h msgid)
  with_length ← write_at with_id 2 (int_bytes h (length request % 2 ^ 16))
  send_data ← write_at with_length 4 request
  read_from send_data (length request + 4)

unfoldable pub request_bytes : IntHost → List ℕ → Result (List ℕ)
unfolding fill_request
request_bytes h request = fill_request h max_length 1001 request

-- `boost::asio::read` of `n` bytes into an array of `size`: a buffer that is larger than the array is
-- out of range.
unfoldable pub read_into : ℕ → ℕ → List ℕ → Result (List ℕ × List ℕ)
read_into size n stream =
    if ltb size n
    then faults
    else if leb n (length stream)
    then ok (take n stream, drop n stream)
    else throws

-- A `short` as a `size_t`.
abbrev pub as_size : ℕ → ℕ
as_size v = if ltb v 0x8000 then v else v + (2 ^ 64 - 2 ^ 16)

-- The reply: its id and its text, and the stream behind it.
unfoldable pub receive_reply : IntHost → List ℕ → Result ((ℕ × List ℕ) × List ℕ)
unfolding read_into
receive_reply h stream = do
  head ← read_into head_total_len head_total_len stream
  let msgid = h.host.ntoh (h.int_from (get_or head.0 0 0) (get_or head.0 1 0))
  let msglen = short_at h.host (get_or head.0 2 0) (get_or head.0 3 0)
  msg ← read_into max_length (as_size msglen) head.1
  ok ((msgid, msg.0), msg.1)

-- Some rounds with a server, which is what it makes of the bytes that it reads, and what it writes for
-- them: the replies that the client reads.
unfoldable pub converse :
    {S : Type 0}
    → IntHost
    → (S → List ℕ → Result (S × List ℕ))
    → ℕ
    → List ℕ
    → S
    → Result (S × List (ℕ × List ℕ))
converse h serve zero request s = ok (s, [])
converse h serve (suc rounds) request s = do
  sent ← request_bytes h request
  answered ← serve s sent
  reply ← receive_reply h answered.1
  rest ← converse h serve rounds request answered.0
  ok (rest.0, reply.0 ∷ rest.1)
