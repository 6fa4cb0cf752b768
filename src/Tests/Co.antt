-- ===== src/Tests/Co.antt =====
-- example/BoostCoServer on a little-endian machine.
use asio_learn.Tests.Data.{hello, hello-IsMessage}
use asio_learn.Base.{
  ℕ, ◌≡◌, refl, false, List, [], ◌∷◌, ◌++◌, map, some, none, arith, ◌%◌, ◌==◌, if◌then◌else◌,
  replicate, length-replicate,
}
use asio_learn.Wire.Endian.{little_endian}
use asio_learn.Wire.{ok}
use asio_learn.Wire.Encode.{sent_node}
use asio_learn.Logic.Sender.{Sender, front_write}
use asio_learn.Logic.Reader.Frames.{begins, ends, nothing, idle, Message, frames, framed, head_node}
use asio_learn.Co.Sender.Backlog.{queue_up, completions, cons_some, backlog_lost}
use asio_learn.Wire.Endian.{swap_bytes}
use asio_learn.Co.Reader.Rounds.{AllSpeak, Breaks}
use asio_learn.Logic.Reader.{Reader, run_reads, read_more}
use asio_learn.Logic.Reader.Stream.{chunk, done}
use asio_learn.Co.Reader.Agree.{content, whole_content, session_start-run_reads}
use asio_learn.Co.Reader.Total.{AllBytes, session_start-total}
use asio_learn.Co.Reader.{Ending, session_start, closed}
use asio_learn.Co.Reader.Steps.{filled_node}
use asio_learn.Co.Reader.Rounds.{empty_message}
use asio_learn.Co.Reader.Stream.{session_start-frames}
use asio_learn.Co.Memory
use asio_learn.Co.Memory.{Heap}
use asio_learn.Co.Memory.Unread.{session_start-same}
use asio_learn.Co.Sender as CoSender

abbrev bye : Message
bye = record { id = 7; body = 98 ∷ 121 ∷ 101 ∷ [] }

backlog_lost_example :
    (s : Sender) × (queue_up little_endian
        (record { send_que = []; b_close = false })
        (hello ∷ bye ∷ hello ∷ [])
      ≡ ok (s, cons_some (front_write (sent_node little_endian 1001 (104 ∷ 105 ∷ []) ∷ [])) []))
    × (s.send_que ≡ map (λ m. sent_node little_endian m.id m.body) (hello ∷ bye ∷ hello ∷ []))
    × (completions 3 s ≡ ok ([] ∷ [] ∷ []))
backlog_lost_example =
    backlog_lost little_endian hello (bye ∷ hello ∷ []) false
      (omega arith, (omega arith, (omega arith, tt))) (omega arith)

-- After `hello` an empty message comes, and then another `hello`, which is not taken in.
session_start-frames_example :
    let s = session_start little_endian (head_node (9 ∷ 9 ∷ 9 ∷ 9 ∷ 0 ∷ [])) (
      frames little_endian (hello ∷ [])
      ++ framed little_endian 1001 0 (frames little_endian (hello ∷ []))) in
    (s.posted ≡ filled_node hello ∷ []) × (s.ending ≡ closed)
session_start-frames_example =
    session_start-frames little_endian (hello ∷ []) (9 ∷ 9 ∷ 9 ∷ 9 ∷ 0 ∷ [])
      (framed little_endian 1001 0 (frames little_endian (hello ∷ []))) closed
      ((hello-IsMessage, omega arith), tt)
      (empty_message 1001 (frames little_endian (hello ∷ [])) (omega arith) refl)

-- A whole message and half of a head.
abbrev cut_stream : List ℕ
cut_stream = frames little_endian (hello ∷ []) ++ 3 ∷ 233 ∷ []

cut_stream-AllBytes : AllBytes cut_stream
unfolding swap_bytes
cut_stream-AllBytes = omega arith

session_start-total_example :
    let s = session_start little_endian (head_node (9 ∷ 9 ∷ 9 ∷ 9 ∷ 0 ∷ [])) cut_stream in
    (ms : List Message) × (c : List ℕ) × (e : Ending) × AllSpeak ms
    × (cut_stream ≡ frames little_endian ms ++ c)
    × Breaks little_endian c e
    × (s.posted ≡ map filled_node ms)
    × (s.ending ≡ e)
session_start-total_example =
    session_start-total little_endian (9 ∷ 9 ∷ 9 ∷ 9 ∷ 0 ∷ []) cut_stream cut_stream-AllBytes

abbrev start : Reader
start = idle (0 ∷ 0 ∷ 0 ∷ 0 ∷ 0 ∷ []) none

-- The body of `hello` is cut.
session_start-run_reads_example :
    let s =
      session_start little_endian (head_node []) (framed little_endian 1001 2 (104 ∷ 105 ∷ [])) in
    let o =
      run_reads little_endian start
        (some (framed little_endian 1001 2 (104 ∷ [])) ∷ some (105 ∷ []) ∷ []) in
    (map whole_content s.posted ≡ map content o.posted) × (s.ending ≡ closed) × (o.next ≡ read_more)
session_start-run_reads_example =
    session_start-run_reads little_endian
      (chunk {c = framed little_endian 1001 2 (104 ∷ [])} (omega arith)
        (begins (record { id = 1001; body = 104 ∷ [] }) 2
          (record { short_id = omega arith; accepted = refl; fits = omega arith }) (omega arith)
          (omega arith) refl)
        (chunk {c = 105 ∷ []} (omega arith)
          (ends (record { id = 1001; body = 104 ∷ [] }) 2 (105 ∷ []) refl refl (nothing refl))
          done))
      ((hello-IsMessage, omega arith), tt) start (0 ∷ 0 ∷ 0 ∷ 0 ∷ 0 ∷ [], none, refl, refl) []

-- Every new byte is 170, or 85 in the rounds with an odd number.
abbrev dirty : ℕ → Heap
dirty round = record {
  allocated = λ n. replicate n (if round % 2 == 0 then 170 else 85);
  sized = λ n. length-replicate n (if round % 2 == 0 then 170 else 85);
}

session_start-same_example :
    (Memory.session_start dirty little_endian (head_node []) cut_stream
      ≡ session_start little_endian (head_node []) cut_stream)
    × (Memory.send
          (dirty 7)
          little_endian
          (record { send_que = []; b_close = false })
          (104 ∷ 105 ∷ 0 ∷ [])
          2
          1001
        ≡ CoSender.send little_endian
            (record { send_que = []; b_close = false })
            (104 ∷ 105 ∷ 0 ∷ [])
            2
            1001)
session_start-same_example =
    session_start-same dirty little_endian (head_node []) cut_stream 7
      (record { send_que = []; b_close = false }) (104 ∷ 105 ∷ []) (0 ∷ []) 1001 (omega arith)
