-- ===== src/Co/Sender/Backlog.antt =====
-- What becomes of messages that are sent while a write is in flight.
use asio_learn.Base.{
  ℕ, zero, suc, ◌+◌, ◌%◌, ◌^◌, ◌≤◌, ◌<◌, ◌≡◌, refl, Bool, false, List, [], ◌∷◌, ◌++◌, map, Option,
  none, some, arith, length, replicate, append_assoc, append-nil, length-append, le→ltb, lt→ltb,
}
use asio_learn.Wire.Endian.{Host}
use asio_learn.Wire.{Result, ok, ◌>>=◌, SendNode, max_sendque}
use asio_learn.Wire.Encode.{sent_node, new_send_node_lem}
use asio_learn.Logic.Sender.{Sender, front_write}
use asio_learn.Logic.Reader.Frames.{Message}
use asio_learn.Co.Sender.{send, send_string, handle_write}

abbrev pub cons_some : Option (List ℕ) → List (List ℕ) → List (List ℕ)
cons_some none ws = ws
cons_some (some w) ws = w ∷ ws

-- The texts are sent one after the other, before any write completes: the sender, and the writes that
-- the calls start.
pub queue_up : Host → Sender → List Message → Result (Sender × List (List ℕ))
queue_up h s [] = ok (s, [])
queue_up h s (m ∷ ms) = do
  t ← send_string h s m.body m.id
  r ← queue_up h t.sender ms
  ok (r.0, cons_some t.write r.1)

-- The next `k` writes complete without error: the writes that `HandleWrite` starts.
pub completions : ℕ → Sender → Result (List (List ℕ))
completions zero s = ok []
completions (suc k) s = do
  t ← handle_write s false
  ws ← completions k t.sender
  ok (cons_some t.write ws)

abbrev pub AreShort : List Message → Type 0
AreShort [] = Unit
AreShort (m ∷ ms) = (length m.body + 4 < 2 ^ 15) × AreShort ms

abbrev node_of : Host → Message → SendNode
node_of h m = sent_node h m.id m.body

abbrev holding : List SendNode → Bool → Sender
holding que closed = record { send_que = que; b_close = closed }

send-behind :
    (h : Host) (m : Message) (n : SendNode) (que : List SendNode) (closed : Bool)
    → length m.body + 4 < 2 ^ 15
    → length (n ∷ que) ≤ max_sendque
    → send_string h (holding (n ∷ que) closed) m.body m.id
      ≡ ok (record {
        sender = holding (n ∷ (que ++ node_of h m ∷ [])) closed;
        write = none;
        clears = false;
      })
unfolding send_string send
send-behind h m n que closed short room =
    let e : length m.body % 2 ^ 16 ≡ length m.body = omega arith in
    rw (
      le→ltb max_sendque (length (n ∷ que)) room,
      e,
      new_send_node_lem h m.id m.body (0 ∷ []) short,
      lt→ltb 0 (suc (length que)) (omega arith),
    )

queue_up-behind :
    (h : Host) (ms : List Message) (n : SendNode) (que : List SendNode) (closed : Bool)
    → AreShort ms
    → length (n ∷ que) + length ms ≤ max_sendque + 1
    → queue_up h (holding (n ∷ que) closed) ms
      ≡ ok (holding (n ∷ (que ++ map (node_of h) ms)) closed, [])
unfolding queue_up
queue_up-behind h [] n que closed short room = rw append-nil
queue_up-behind h (m ∷ ms) n que closed short room = rw (
  send-behind h m n que closed short.0 (omega arith),
  queue_up-behind h ms n (que ++ node_of h m ∷ []) closed short.1
      (omega (arith, length-append que (node_of h m ∷ []))),
  append_assoc que (node_of h m ∷ []) (map (node_of h) ms),
)

completions-holding :
    (h : Host) (ms : List Message) (n : SendNode) (closed : Bool)
    → completions (suc (length ms)) (holding (n ∷ map (node_of h) ms) closed)
      ≡ ok (replicate (length ms) [])
unfolding completions handle_write
completions-holding h [] n closed = refl
completions-holding h (m ∷ ms) n closed = rw (completions-holding h ms (node_of h m) closed)

-- Of messages sent in a row to a session with an empty queue, as many as the queue takes, the first
-- is written at once and whole; each of the others is taken into the queue, and when the write before
-- it completes, a write of no byte is started in its place: `HandleWrite` passes the length
-- `_cur_len`, which is 0 in a new node.
pub backlog_lost :
    (h : Host) (m : Message) (ms : List Message) (closed : Bool)
    → AreShort (m ∷ ms)
    → length ms ≤ max_sendque
    → (s : Sender) × (queue_up h (holding [] closed) (m ∷ ms)
        ≡ ok (s, cons_some (front_write (node_of h m ∷ [])) []))
      × (s.send_que ≡ map (node_of h) (m ∷ ms))
      × (completions (length (m ∷ ms)) s ≡ ok (replicate (length ms) []))
unfolding queue_up send_string send
backlog_lost h m ms closed short room =
    let e : length m.body % 2 ^ 16 ≡ length m.body = omega (arith, short.0) in
    (
      holding (node_of h m ∷ map (node_of h) ms) closed,
      rw (
        e,
        new_send_node_lem h m.id m.body (0 ∷ []) short.0,
        queue_up-behind h ms (node_of h m) [] closed short.1 (omega arith),
      ),
      refl,
      completions-holding h ms (node_of h m) closed,
    )
