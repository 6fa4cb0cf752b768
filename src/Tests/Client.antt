-- ===== src/Tests/Client.antt =====
-- The TCP servers with their test clients, on a little-endian machine.
use asio_learn.Base.{
  ℕ, ◌+◌, ◌*◌, ◌%◌, ◌/◌, ◌^◌, ◌<◌, ◌≡◌, refl, false, true, List, [], ◌∷◌, some, none, arith,
  replicate, length,
}
use asio_learn.Base.Text.{bytes}
use asio_learn.Wire.Endian.{little_endian, swap_bytes}
use asio_learn.Wire.{ok}
use asio_learn.Logic.Reader.{Reader}
use asio_learn.Logic.Reader.Frames.{frame, head_node, boundary, idle, Stands}
use asio_learn.Logic.System.{Json, Reply, hello_word}
use asio_learn.Logic.Client.{IntHost, request_bytes, converse}
use asio_learn.Logic.Client.Request.{request_bytes_lem}
use asio_learn.Logic.Exchange.{serve}
use asio_learn.Logic.Exchange.Rounds.{resting, converse-replies}
use asio_learn.Co.Reader.{session_start, closed}
use asio_learn.Co.Exchange as CoExchange
use asio_learn.Co.Exchange.{Connection, answer_all, test_client}
use asio_learn.Co.Exchange.Served as CoServed
use asio_learn.Co.Exchange.Served.{quiet, test_client-served}

swap_bytes-small : (v : ℕ) → v < 2 ^ 16 → swap_bytes v < 2 ^ 16
unfolding swap_bytes
swap_bytes-small v h = omega arith

abbrev machine : IntHost
machine = record {
  host = little_endian;
  int_first = λ v. v % 256;
  int_second = λ v. v / 256;
  int_from = λ a b. a + b * 256;
  first-low = λ v h. refl;
  second-low = λ v h. refl;
  hton_small = swap_bytes-small;
  from-low = λ a b ha hb. refl;
}

request_bytes_lem_example :
    request_bytes machine (bytes "{}")
    ≡ ok (frame little_endian (record { id = 1001; body = bytes "{}" }))
request_bytes_lem_example = request_bytes_lem machine (bytes "{}")

abbrev plain : Json
plain = record {
  Value = List ℕ;
  parse = λ b. b;
  member = λ v _. some (v, v);
  as_int = λ _. some 1001;
  as_string = λ v. some v;
  assign = λ _ _ t. some t;
  to_styled_string = λ _. bytes "{hi}";
}

abbrev answer : Reply
answer = record { session = 3; text = bytes "{hi}"; msgid = 1001 }

plain-answer : hello_word plain 3 (bytes "{}") ≡ some answer
unfolding hello_word
plain-answer = refl

abbrev start : Reader
start = idle (0 ∷ 0 ∷ 0 ∷ 0 ∷ 0 ∷ []) none

start-Stands : Stands start boundary
start-Stands = (0 ∷ 0 ∷ 0 ∷ 0 ∷ 0 ∷ [], none, refl, refl)

converse-replies_example :
    (r : Reader) × Stands r boundary
    × (converse machine (serve machine plain) 500 (bytes "{}") (resting 3 false start)
        ≡ ok (resting 3 false r, replicate 500 (1001, bytes "{hi}")))
converse-replies_example =
    converse-replies machine plain 3 false (bytes "{}") answer (omega arith) plain-answer
      (omega arith) (omega arith) 500 start start-Stands

test_client-served_example :
    (requests replies : List ℕ) × (let s = session_start little_endian (head_node []) requests in
      (s.ending ≡ closed)
      × (length s.posted ≡ 50)
      × (answer_all little_endian plain 3 (quiet false) s.posted ≡ ok (quiet false, replies)))
    × (test_client machine true (bytes "{}") replies
        ≡ ok (requests, replicate 50 (1001, bytes "{hi}")))
    × ((c : Connection) × (converse machine
            (CoExchange.serve little_endian plain 3)
            50
            (bytes "{}")
            (CoServed.resting [] false)
          ≡ ok (c, replicate 50 (1001, bytes "{hi}"))))
test_client-served_example =
    test_client-served machine plain 3 false (bytes "{}") [] answer (omega arith) (omega arith)
      plain-answer (omega arith) (omega arith)
