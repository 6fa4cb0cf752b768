-- ===== src/Logic/Client/Request.antt =====
-- What a client writes, and what it reads of a reply.
use asio_learn.Base.{
  ℕ, suc, ◌+◌, ◌%◌, ◌^◌, ◌≤◌, ◌<◌, ◌≡◌, false, List, [], ◌∷◌, ◌++◌, arith, length, drop, replicate,
  length-replicate, length-append, take-append, drop-append, le→leb, lt→ltb, le→ltb, leb,
  if◌then◌else◌, Bool-cases, inl, inr,
}
use asio_learn.Wire.Endian.{short_at-short_bytes}
use asio_learn.Wire.{ok, faults, write_at, read_from, max_length}
use asio_learn.Wire.Buffer.{write_at-append}
use asio_learn.Logic.Reader.Frames.{frame, framed}
use asio_learn.Logic.Client.{IntHost, int_bytes, fill_request, request_bytes, receive_reply}

int_bytes-short :
    (h : IntHost) (v : ℕ)
    → v < 2 ^ 16
    → int_bytes h v ≡ h.host.first_byte (h.host.hton v) ∷ h.host.second_byte (h.host.hton v) ∷ []
int_bytes-short h v small = rw (
  h.first-low (h.host.hton v) (h.hton_small v small),
  h.second-low (h.host.hton v) (h.hton_small v small),
)

read_from-append : (xs ys : List ℕ) → read_from (xs ++ ys) (length xs) ≡ ok xs
unfolding read_from
read_from-append xs ys =
    rw (
      le→leb (length xs) (length (xs ++ ys)) (omega (arith, length-append xs ys)),
      take-append xs ys,
    )

-- The three copies into an array that has room for them.
fill_request-fits :
    (h : IntHost) (room id : ℕ) (text : List ℕ)
    → id < 2 ^ 16
    → length text < 2 ^ 16
    → length text ≤ room
    → fill_request h (suc (suc (suc (suc room)))) id text ≡ ok (framed h.host id (length text) text)
unfolding fill_request
fill_request-fits h room id text small_id small fits =
    let whole : length text % 2 ^ 16 ≡ length text = omega arith in
    let head = framed h.host id (length text) [] in
    let four : length text + 4 ≡ length (framed h.host id (length text) text) = omega arith in
    rw
      (
        whole,
        int_bytes-short h id small_id,
        int_bytes-short h (length text) small,
        write_at-append [] (0 ∷ 0 ∷ 0 ∷ 0 ∷ replicate room 0)
            (h.host.first_byte (h.host.hton id) ∷ h.host.second_byte (h.host.hton id) ∷ [])
            (omega arith),
        write_at-append
            (h.host.first_byte (h.host.hton id) ∷ h.host.second_byte (h.host.hton id) ∷ [])
            (0 ∷ 0 ∷ replicate room 0)
            (h.host.first_byte (h.host.hton (length text))
              ∷ h.host.second_byte (h.host.hton (length text))
              ∷ [])
            (omega arith),
        write_at-append head (replicate room 0) text
            (omega (arith, length-replicate {A = ℕ} room 0)),
        four,
      )
      (read_from-append (framed h.host id (length text) text)
        (drop (length text) (replicate room 0)))

write_at-past :
    (buf : List ℕ) (off : ℕ) (src : List ℕ)
    → length buf < off + length src
    → write_at buf off src ≡ faults
unfolding write_at
write_at-past buf off src over =
    let no : leb (off + length src) (length buf) ≡ false = ground (arith, over) in rw no

-- A text that the array has no room for is written past its end.
fill_request-faults :
    (h : IntHost) (room id : ℕ) (text : List ℕ)
    → room < length text
    → fill_request h (suc (suc (suc (suc room)))) id text ≡ faults
unfolding fill_request
fill_request-faults h room id text over =
    let id_bytes = int_bytes h id in
    let length_bytes = int_bytes h (length text % 2 ^ 16) in
    rw (
      write_at-append [] (0 ∷ 0 ∷ 0 ∷ 0 ∷ replicate room 0) id_bytes (omega arith),
      write_at-append id_bytes (0 ∷ 0 ∷ replicate room 0) length_bytes (omega arith),
      write_at-past (id_bytes ++ (length_bytes ++ replicate room 0)) 4 text
          (omega (arith, over, length-replicate {A = ℕ} room 0)),
    )

-- With a text of at most 2044 bytes a client writes the frame of a message with the id 1001; a longer
-- text is copied past the end of the array.
pub request_bytes_lem :
    (h : IntHost) (text : List ℕ)
    → request_bytes h text ≡ (
        if leb (length text) 2044
        then ok (frame h.host (record { id = 1001; body = text }))
        else faults)
unfolding request_bytes
request_bytes_lem h text = elim (Bool-cases (leb (length text) 2044)) [
  | inl fits ↦ rw (
    fits,
    fill_request-fits h 2044 1001 text (omega arith) (ground (arith, fits)) (ground (arith, fits)),
  )
  | inr over ↦ rw (over, fill_request-faults h 2044 1001 text (ground (arith, over)))
]

-- A reply that fits is read whole, and nothing else.
pub receive_reply-framed :
    (h : IntHost) (id : ℕ) (text more : List ℕ)
    → id < 2 ^ 16
    → length text ≤ max_length
    → receive_reply h (framed h.host id (length text) (text ++ more)) ≡ ok ((id, text), more)
unfolding receive_reply
receive_reply-framed h id text more small fits =
    let low : h.int_from (h.host.first_byte (h.host.hton id)) (h.host.second_byte (h.host.hton id))
        ≡ h.host.from_bytes (h.host.first_byte (h.host.hton id))
            (h.host.second_byte (h.host.hton id)) =
      h.from-low _ _ (omega (arith, h.host.first-hton id small))
        (omega (arith, h.host.second-hton id small)) in
    rw (
      le→leb 4 (length (framed h.host id (length text) (text ++ more))) (omega arith),
      low,
      short_at-short_bytes h.host id small,
      short_at-short_bytes h.host (length text) (omega (arith, fits)),
      lt→ltb (length text) 0x8000 (omega (arith, fits)),
      le→ltb 2048 (length text) fits,
      le→leb (length text) (length (text ++ more)) (omega (arith, length-append text more)),
      take-append text more,
      drop-append text more,
    )
