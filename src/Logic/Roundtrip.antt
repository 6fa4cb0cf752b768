-- ===== src/Logic/Roundtrip.antt =====
-- What one session sends, another takes in.
use asio_learn.Base.{
  ℕ, ◌+◌, ◌%◌, ◌^◌, ◌≡◌, refl, sym, ap, Bool, List, [], ◌∷◌, ◌++◌, some, arith, length, take-append,
  append-nil,
}
use asio_learn.Wire.{ok}
use asio_learn.Wire.Endian.{Host}
use asio_learn.Wire.Encode.{sent_node, new_send_node_lem}
use asio_learn.Logic.Sender.{Started, buffer, push_node, send_string}
use asio_learn.Logic.Reader.{Reader, handle_read}
use asio_learn.Logic.Reader.Frames.{
  Message, IsMessage, frame, framed, boundary, holds, nothing, Stands,
}
use asio_learn.Logic.Reader.Deliver.{Delivered, handle_read-Delivered}

pub buffer-sent_node : (h : Host) (m : Message) → buffer (sent_node h m.id m.body) ≡ frame h m
buffer-sent_node h m =
    let e : length m.body + 4 ≡ length (frame h m) = omega arith in
    rw e (take-append (frame h m) (0 ∷ []))

-- With nothing queued, `Send` of a text starts the write of a buffer at once; handed to a reader that
-- stands between two messages, that buffer posts one message, with the id and the text that were
-- sent. The id is one that the reader accepts, and the text has at most 2048 bytes.
pub send_string-handle_read :
    (h : Host) (m : Message) (closed : Bool) (r : Reader)
    → IsMessage m
    → Stands r boundary
    → (t : Started) × (w : List ℕ) × (send_string h
          (record { send_que = []; b_close = closed })
          m.body
          m.id
        ≡ ok t)
      × (t.write ≡ some w)
      × Delivered [] (m ∷ []) boundary (handle_read h r (some w))
unfolding send_string
send_string-handle_read h m closed r v s =
    let short : length m.body % 2 ^ 16 ≡ length m.body = omega (arith, v.fits) in
    let whole : frame h m ≡ framed h m.id (length m.body) (m.body ++ []) =
      sym (ap (framed h m.id (length m.body)) (append-nil m.body)) in
    (
      push_node (record { send_que = []; b_close = closed }) (sent_node h m.id m.body),
      frame h m,
      rw (short, new_send_node_lem h m.id m.body (0 ∷ []) (omega (arith, v.fits))),
      ap some (buffer-sent_node h m),
      handle_read-Delivered h r (holds m v whole (nothing refl)) s (omega arith),
    )
