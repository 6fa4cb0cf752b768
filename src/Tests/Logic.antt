-- ===== src/Tests/Logic.antt =====
-- example/logicServer on a little-endian machine.
use asio_learn.Tests.Data.{hello, hello-IsMessage}
use asio_learn.Base.{ℕ, ◌≡◌, ◌≢◌, refl, false, List, [], ◌∷◌, some, none, arith}
use asio_learn.Wire.Endian.{little_endian, swap_bytes}
use asio_learn.Wire.{Result, ok, new_send_node}
use asio_learn.Wire.Encode.{new_send_node_lem}
use asio_learn.Logic.Reader.{Reader, handle_read, run_reads, new_reader}
use asio_learn.Logic.Reader.Frames.{
  Message, IsMessage, frame, framed, boundary, begins, holds, nothing, ends, idle, Stands,
}
use asio_learn.Logic.Reader.Deliver.{Delivered}
use asio_learn.Logic.Reader.Valid.{IsValid, Explains}
use asio_learn.Logic.Reader.Safety.{handle_read-Explains}
use asio_learn.Logic.Reader.Stream.{chunk, done, run_reads-Delivered}
use asio_learn.Logic.Reader.Lost.{split_head}
use asio_learn.Logic.Sender.{send_string, Started}
use asio_learn.Logic.Sender.Line.{Event, sends, completes, run, fresh_line}
use asio_learn.Logic.Sender.Fifo.{IsFifo, line-IsFifo}
use asio_learn.Logic.Roundtrip.{send_string-handle_read}

abbrev bye : Message
bye = record { id = 7; body = 98 ∷ 121 ∷ 101 ∷ [] }

bye-IsMessage : IsMessage bye
bye-IsMessage = record { short_id = omega arith; accepted = refl; fits = omega arith }

abbrev start : Reader
start = idle (0 ∷ 0 ∷ 0 ∷ 0 ∷ 0 ∷ []) none

new_reader-start : new_reader ≡ ok start
unfolding new_reader
new_reader-start = refl

start-Stands : Stands start boundary
start-Stands = (0 ∷ 0 ∷ 0 ∷ 0 ∷ 0 ∷ [], none, refl, refl)

frame-hello : frame little_endian hello ≡ 3 ∷ 233 ∷ 0 ∷ 2 ∷ 104 ∷ 105 ∷ []
unfolding swap_bytes
frame-hello = refl

-- The body of `hello` is cut; the second chunk ends it and holds all of `bye`.
run_reads-Delivered_example : Delivered [] (hello ∷ bye ∷ []) boundary (
    run_reads little_endian start
      (some (framed little_endian 1001 2 (104 ∷ [])) ∷ some (105 ∷ frame little_endian bye) ∷ []))
run_reads-Delivered_example =
    run_reads-Delivered little_endian
      (chunk {c = framed little_endian 1001 2 (104 ∷ [])} (omega arith)
        (begins (record { id = 1001; body = 104 ∷ [] }) 2
          (record { short_id = omega arith; accepted = refl; fits = omega arith }) (omega arith)
          (omega arith) refl)
        (chunk {c = 105 ∷ frame little_endian bye} (omega arith)
          (ends (record { id = 1001; body = 104 ∷ [] }) 2 (105 ∷ []) refl refl
            (holds bye bye-IsMessage refl (nothing refl)))
          done))
      start start-Stands

start-IsValid : IsValid start
start-IsValid = record {
  head_ok = record { unmoved = refl; four = refl; allocated = refl };
  body_ok = tt;
}

-- A head with the length -1.
abbrev hostile : List ℕ
hostile = 3 ∷ 233 ∷ 255 ∷ 255 ∷ []

handle_read-Explains_example :
    let o = handle_read little_endian start (some hostile) in Explains little_endian o.reader o.next
handle_read-Explains_example =
    handle_read-Explains little_endian start hostile start-IsValid (omega arith)

split_head_example :
    Delivered []
      (hello ∷ [])
      boundary
      (run_reads little_endian start (some (3 ∷ 233 ∷ []) ∷ some (frame little_endian hello) ∷ []))
split_head_example =
    split_head little_endian start (3 ∷ 233 ∷ []) hello start-Stands (omega arith) (omega arith)
      hello-IsMessage

send_string-handle_read_example :
    (t : Started) × (w : List ℕ) × (send_string little_endian
        (record { send_que = []; b_close = false })
        hello.body
        1001
      ≡ ok t)
    × (t.write ≡ some w)
    × Delivered [] (hello ∷ []) boundary (handle_read little_endian start (some w))
send_string-handle_read_example =
    send_string-handle_read little_endian hello false start hello-IsMessage start-Stands

-- Two messages are sent, and both writes complete.
abbrev traffic : List Event
traffic =
    sends (104 ∷ 105 ∷ 0 ∷ []) 2 1001
    ∷ sends (98 ∷ 0 ∷ []) 1 7
    ∷ completes false
    ∷ completes false
    ∷ []

hi_sound : new_send_node little_endian (104 ∷ 105 ∷ 0 ∷ []) 2 1001 ≢ Result.faults
hi_sound e = cc (e, new_send_node_lem little_endian 1001 (104 ∷ 105 ∷ []) (0 ∷ []) (omega arith))

b_sound : new_send_node little_endian (98 ∷ 0 ∷ []) 1 7 ≢ Result.faults
b_sound e = cc (e, new_send_node_lem little_endian 7 (98 ∷ []) (0 ∷ []) (omega arith))

line-IsFifo_example : IsFifo (run little_endian fresh_line traffic)
line-IsFifo_example = line-IsFifo little_endian traffic (hi_sound, (b_sound, (tt, (tt, tt))))
