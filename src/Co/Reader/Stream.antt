-- ===== src/Co/Reader/Stream.antt =====
-- What the coroutine makes of a stream of messages.
use asio_learn.Base.{
  ℕ, zero, suc, ◌<◌, ◌≡◌, refl, ap, List, [], ◌∷◌, ◌++◌, map, arith, length, append_assoc,
  append-nil, length-append, drop,
}
use asio_learn.Wire.Endian.{Host}
use asio_learn.Wire.{RecvNode}
use asio_learn.Logic.Reader.Frames.{Message, frame, framed, frames, head_node}
use asio_learn.Co.Reader.{Ending, read_loop, session_start}
use asio_learn.Co.Reader.Steps.{filled_node}
use asio_learn.Co.Reader.Rounds.{AllSpeak, Breaks, round-frame, round-Breaks}

-- The loop, for enough fuel.
read_loop-frames :
    (h : Host) (ms : List Message) (fuel : ℕ) (buf : List ℕ) (c : List ℕ) (e : Ending)
    (posted : List RecvNode)
    → AllSpeak ms
    → Breaks h c e
    → length (frames h ms ++ c) < fuel
    → let s = read_loop h fuel (head_node buf) (frames h ms ++ c) posted in
      (s.posted ≡ posted ++ map filled_node ms) × (s.ending ≡ e)
unfolding read_loop
read_loop-frames h ms zero buf c e posted v b l = absurd (omega (arith, l))
read_loop-frames h [] (suc fuel) buf c e posted v b l =
    let (head, ended) = round-Breaks h buf b in rw (ended, append-nil) (refl, refl)
read_loop-frames h (m ∷ ms) (suc fuel) buf c e posted (v, vs) b l =
    let split : (frame h m ++ frames h ms) ++ c
        ≡ framed h m.id (length m.body) (m.body ++ (frames h ms ++ c)) =
      append_assoc (frame h m) (frames h ms) c in
    let size = length-append (frame h m) (frames h ms ++ c) in
    let same : length ((frame h m ++ frames h ms) ++ c) ≡ length (frame h m ++ (frames h ms ++ c)) =
      ap length (append_assoc (frame h m) (frames h ms) c) in
    let rest =
      read_loop-frames h ms fuel (framed h m.id (length m.body) (drop 4 buf)) c e
        (posted ++ filled_node m ∷ []) vs b (omega (arith, l, size, same)) in
    rw
      (
        split,
        round-frame h buf m (frames h ms ++ c) v,
        ← append_assoc posted (filled_node m ∷ []) (map filled_node ms),
      )
      rest

-- For any messages that are accepted and not empty, sent one behind the other and followed by what
-- breaks the stream: the session posts exactly these messages, each once, in their order and with
-- their bytes, and then ends, as the break says; it never runs on.
pub session_start-frames :
    (h : Host) (ms : List Message) (buf c : List ℕ) (e : Ending)
    → AllSpeak ms
    → Breaks h c e
    → let s = session_start h (head_node buf) (frames h ms ++ c) in
      (s.posted ≡ map filled_node ms) × (s.ending ≡ e)
unfolding session_start
session_start-frames h ms buf c e v b =
    read_loop-frames h ms (suc (length (frames h ms ++ c))) buf c e [] v b (omega arith)
