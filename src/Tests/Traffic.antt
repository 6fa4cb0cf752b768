-- ===== src/Tests/Traffic.antt =====
-- example/logicServer with two sessions that send at once.
use asio_learn.Tests.Data.{plain, hello, hello-IsMessage}
use asio_learn.Base.{
  ℕ, zero, suc, ◌≡◌, refl, ◌≤◌, true, false, List, [], ◌∷◌, ◌++◌, map, ◌==◌, some, none, arith,
  length, replicate,
}
use asio_learn.Wire.{max_sendque}
use asio_learn.Wire.Endian.{little_endian}
use asio_learn.Logic.Reader.{Reader}
use asio_learn.Logic.Reader.Frames.{
  Message, frame, framed, boundary, begins, ends, holds, nothing, idle, Stands,
}
use asio_learn.Logic.Reader.Stream.{chunk, done}
use asio_learn.Logic.Sender.{buffer}
use asio_learn.Logic.Sender.Fifo.{Flies}
use asio_learn.Logic.System.{goes_on, hello_word, reply_prefix}
use asio_learn.Logic.System.Order.{answers}
use asio_learn.Logic.System.Own.{own_messages}
use asio_learn.Logic.Traffic.{Running, Event, arrives, works, writes, begun, run}
use asio_learn.Logic.Traffic.Inbox.{logic_nodes}
use asio_learn.Logic.Traffic.Owed.{AllServable}
use asio_learn.Logic.Traffic.Served.{Sends, reply_frame, run-served}
use asio_learn.Logic.Traffic.Drained.{run-written}

abbrev readers : ℕ → Reader
readers u = idle (0 ∷ 0 ∷ 0 ∷ 0 ∷ 0 ∷ []) none

readers-Stands : (u : ℕ) → Stands (readers u) boundary
readers-Stands u = (0 ∷ 0 ∷ 0 ∷ 0 ∷ 0 ∷ [], none, refl, refl)

-- The message of session 1 comes in two reads; the write for session 0 fails.
abbrev busy_day : List Event
busy_day =
    arrives 1 (some (framed little_endian 1001 2 (104 ∷ [])))
    ∷ arrives 0 (some (frame little_endian hello))
    ∷ works
    ∷ arrives 1 (some (105 ∷ []))
    ∷ writes 0 true
    ∷ works
    ∷ works
    ∷ []

abbrev sent_by : ℕ → List Message
sent_by zero = hello ∷ []
sent_by (suc zero) = hello ∷ []
sent_by (suc (suc u)) = []

zero_other : (u : ℕ) → (0 == suc (suc u)) ≡ false
zero_other u = ground arith

one_other : (u : ℕ) → (1 == suc (suc u)) ≡ false
one_other u = ground arith

sent_by-Sends : (u : ℕ) → Sends little_endian plain u busy_day (sent_by u)
sent_by-Sends zero = (
  frame little_endian hello ∷ [],
  boundary,
  refl,
  chunk {c = frame little_endian hello} (omega arith)
      (holds hello hello-IsMessage refl (nothing refl)) done,
)
sent_by-Sends (suc zero) = (
  framed little_endian 1001 2 (104 ∷ []) ∷ (105 ∷ []) ∷ [],
  boundary,
  refl,
  chunk {c = framed little_endian 1001 2 (104 ∷ [])} (omega arith)
      (begins (record { id = 1001; body = 104 ∷ [] }) 2
        (record { short_id = omega arith; accepted = refl; fits = omega arith }) (omega arith)
        (omega arith) refl)
      (chunk {c = 105 ∷ []} (omega arith)
        (ends (record { id = 1001; body = 104 ∷ [] }) 2 (105 ∷ []) refl refl (nothing refl)) done),
)
sent_by-Sends (suc (suc u)) = ([], boundary, rw (zero_other u, one_other u), done)

sent_by-AllServable : (u : ℕ) → AllServable little_endian plain (logic_nodes u (sent_by u))
unfolding hello_word
sent_by-AllServable zero = (
  (λ known. (
    record { session = 0; text = reply_prefix ++ 104 ∷ 105 ∷ []; msgid = 1001 },
    refl,
    omega arith,
  )),
  tt,
)
sent_by-AllServable (suc zero) = (
  (λ known. (
    record { session = 1; text = reply_prefix ++ 104 ∷ 105 ∷ []; msgid = 1001 },
    refl,
    omega arith,
  )),
  tt,
)
sent_by-AllServable (suc (suc u)) = tt

sent_by-few : (u : ℕ) → length (sent_by u) ≤ max_sendque
sent_by-few zero = omega arith
sent_by-few (suc zero) = omega arith
sent_by-few (suc (suc u)) = omega arith

run-served_example :
    (s : Running) × (run little_endian plain (begun readers) busy_day ≡ goes_on s)
    × ((u : ℕ)
        → let l = s.line u in
          (l.misused ≡ false)
          × Flies l.sender.b_close l.in_flight l.sender.send_que
          × (l.written
                ++ map buffer l.sender.send_que
                ++ map
                    (reply_frame little_endian plain)
                    (answers plain (own_messages u s.system.msg_que))
              ≡ map (reply_frame little_endian plain) (answers plain (logic_nodes u (sent_by u)))))
run-served_example =
    run-served little_endian plain busy_day readers sent_by readers-Stands sent_by-Sends
      sent_by-AllServable sent_by-few

run-written_example :
    (turns : ℕ) × (t : Running) × (run little_endian plain
        (begun readers)
        (busy_day ++ (replicate turns works ++ replicate (length (sent_by 1)) (writes 1 false)))
      ≡ goes_on t)
    × ((t.line 1).written
        ≡ map (reply_frame little_endian plain) (answers plain (logic_nodes 1 (sent_by 1))))
run-written_example =
    run-written little_endian plain busy_day readers sent_by 1 readers-Stands sent_by-Sends
      sent_by-AllServable sent_by-few refl
