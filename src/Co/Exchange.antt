-- ===== src/Co/Exchange.antt =====
-- The test client of example/BoostCoServer, testClient.cc, and what the server writes for the
-- messages that its coroutine posts. A request and a reply are those of jsonClient.cc, whose text the
-- two clients share; the worker is Co/System, and each write completes before the next `Send`. A turn
-- of the worker that does not go on ends the run (`throws`).
pub mod Served
use asio_learn.Base.{ℕ, zero, suc, Bool, true, false, List, [], ◌∷◌, ◌++◌, Option, none, some}
use asio_learn.Wire.{Result, ok, throws, faults, ◌>>=◌, MsgNode, RecvNode}
use asio_learn.Wire.Endian.{Host}
use asio_learn.Logic.Sender.{Sender}
use asio_learn.Logic.System.{Json, Reply, System}
use asio_learn.Logic.Client.{IntHost, request_bytes, receive_reply}
use asio_learn.Logic.Exchange.{written}
use asio_learn.Co.Sender.{send_string, handle_write}
use asio_learn.Co.Reader.{Round, again, ends, round}
use asio_learn.Co.System.{Turn, goes_on, deal_msg, post_msg}

-- The rounds of the client, with the bytes that come from the server: the bytes that it writes, and
-- the replies that it reads.
unfoldable pub test_rounds : IntHost → ℕ → List ℕ → List ℕ → Result (List ℕ × List (ℕ × List ℕ))
test_rounds h zero request stream = ok ([], [])
test_rounds h (suc rounds) request stream = do
  sent ← request_bytes h request
  reply ← receive_reply h stream
  rest ← test_rounds h rounds request reply.1
  ok (sent ++ rest.0, reply.0 ∷ rest.1)

-- The thread, by whether it connects.
unfoldable pub test_client : IntHost → Bool → List ℕ → List ℕ → Result (List ℕ × List (ℕ × List ℕ))
unfolding test_rounds
test_client h false request stream = ok ([], [])
test_client h true request stream = test_rounds h 50 request stream

-- The replies are sent, and their writes complete.
unfoldable pub send_all : Host → Sender → List Reply → Result (Sender × List ℕ)
send_all h s [] = ok (s, [])
send_all h s (r ∷ rs) = do
  t ← send_string h s r.text r.msgid
  u ← handle_write t.sender false
  rest ← send_all h u.sender rs
  ok (rest.0, written t.write ++ rest.1)

-- The sender of the session and the logic system.
pub record Serving : Type 0 where
  pub sender : Sender
  pub system : System

abbrev pub finished : Host → Sender → Turn → Result (Serving × List ℕ)
finished h s (goes_on sys) = do
  sent ← send_all h s sys.replies
  ok (record { sender = sent.0; system = record sys { replies = [] } }, sent.1)
finished h s _ = throws

-- A posted message: a turn of the worker, and what it sends.
unfoldable pub answer : Host → Json → ℕ → Serving → RecvNode → Result (Serving × List ℕ)
answer h j session s node =
    finished h s.sender
      (deal_msg j (post_msg s.system (record { session = session; recvnode = node })).0)

unfoldable pub answer_all : Host → Json → ℕ → Serving → List RecvNode → Result (Serving × List ℕ)
answer_all h j session s [] = ok (s, [])
answer_all h j session s (n ∷ ns) = do
  first ← answer h j session s n
  rest ← answer_all h j session first.0 ns
  ok (rest.0, first.1 ++ rest.1)

-- A session of the server: the coroutine's head node, the bytes that it has not read, and what it
-- shares with the worker.
pub record Connection : Type 0 where
  pub head : MsgNode
  pub unread : List ℕ
  pub serving : Serving

-- A round of the coroutine, and the answer to what it posts; where the coroutine ends, the run does.
abbrev pub took : Host → Json → ℕ → Connection → Round → Result (Connection × List ℕ)
took h j session c (again head node rest) = do
  done ← answer h j session c.serving node
  ok (record { head = head; unread = rest; serving = done.0 }, done.1)
took h j session c (ends head e) = throws

-- The server of a client that writes whole requests: more bytes come, and the coroutine makes a round.
unfoldable pub serve : Host → Json → ℕ → Connection → List ℕ → Result (Connection × List ℕ)
unfolding answer
serve h j session c bytes = took h j session c (round h c.head (c.unread ++ bytes))
