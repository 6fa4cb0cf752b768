-- ===== src/Logic/Reader/Lost.antt =====
-- A read that ends inside a head.
use asio_learn.Base.{
  ℕ, ◌+◌, ◌<◌, ◌≡◌, refl, sym, ap, Option, some, List, [], ◌∷◌, ◌++◌, arith, length, append-nil,
  lt→ltb,
}
use asio_learn.Wire.{RecvNode}
use asio_learn.Wire.Buffer.{write_at_fits}
use asio_learn.Wire.Endian.{Host}
use asio_learn.Logic.Reader.{Reader, read_more, stop, head_round, round, handle_read, run_reads}
use asio_learn.Logic.Reader.Frames.{
  Message, IsMessage, frame, framed, boundary, nothing, holds, idle, Stands,
}
use asio_learn.Logic.Reader.Deliver.{Delivered, read_loop-cons}
use asio_learn.Logic.Reader.Stream.{chunk, done, follow-Delivered, run_reads-Delivered}

head_round-short :
    (h : Host) (buf : List ℕ) (msg : Option RecvNode) (c : List ℕ)
    → length buf ≡ 5
    → length c < 4
    → (buf' : List ℕ) × (length buf' ≡ 5)
      × (head_round h (idle buf msg) c ≡ stop (idle buf' msg) [] read_more)
unfolding head_round
head_round-short h buf msg c lb k =
    let (b, w, s) = write_at_fits buf 0 c (omega arith) in
    (b, omega arith, rw (lt→ltb (length c + 0) 4 (omega arith), w))

-- A fragment of a head, read where a message begins, is forgotten: the call keeps nothing of it.
lost_head :
    (h : Host) (r : Reader) (c : List ℕ)
    → Stands r boundary
    → 0 < length c
    → length c < 4
    → Delivered [] [] boundary (handle_read h r (some c))
unfolding handle_read round
lost_head h r c (buf, msg, lb, er) l k =
    let (buf', lb', step) = head_round-short h buf msg c lb k in
    rw (read_loop-cons h (length c) r c [] l, er, step) (refl, refl, (buf', msg, lb', refl))

-- A reader that stands where a message begins gets one, two or three bytes, and the next read gives
-- exactly one whole frame: whatever these bytes are, that message is posted, and it alone, and the reader
-- stands where a message begins again. So the beginning of a head that comes in a read of its own is
-- lost, and the bytes behind it are read as a new head.
pub split_head :
    (h : Host) (r : Reader) (c : List ℕ) (m : Message)
    → Stands r boundary
    → 0 < length c
    → length c < 4
    → IsMessage m
    → Delivered [] (m ∷ []) boundary (run_reads h r (some c ∷ some (frame h m) ∷ []))
unfolding run_reads
split_head h r c m s l k v =
    let o = handle_read h r (some c) in
    let d = lost_head h r c s l k in
    let whole : frame h m ≡ framed h m.id (length m.body) (m.body ++ []) =
      sym (ap (framed h m.id (length m.body)) (append-nil m.body)) in
    let next = chunk {c = frame h m} (omega arith) (holds m v whole (nothing refl)) done in
    follow-Delivered o [] (m ∷ []) boundary boundary _ d (run_reads-Delivered h next o.reader d.2)
