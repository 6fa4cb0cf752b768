-- ===== src/Logic/Exchange.antt =====
-- A client and the server of example/logicServer together: the request that a client writes, the
-- calls of `HandleRead`, of the worker and of `Send` that it leads to, and the reply that the client
-- reads. Each request comes in one read, and each write of the
-- server completes before its next `Send`. A turn of the worker that does not go on ends the run (`throws`).
pub mod Rounds
use asio_learn.Base.{
  ℕ, zero, suc, ◌≡◌, Bool, true, false, List, [], ◌∷◌, ◌++◌, Option, none, some, length,
}
use asio_learn.Wire.{Result, ok, throws, faults, ◌>>=◌, RecvNode}
use asio_learn.Wire.Endian.{Host}
use asio_learn.Logic.Reader.{Reader, handle_read}
use asio_learn.Logic.Sender.{Sender, Started, send_string, handle_write}
use asio_learn.Logic.System.{
  Json, LogicNode, Reply, System, Turn, goes_on, terminates, waits, undefined, deal_msg, post_msg,
  and_then,
}
use asio_learn.Logic.Client.{IntHost, converse}

-- A session of the server, its number, and the logic system.
pub record Serving : Type 0 where
  pub session : ℕ
  pub reader : Reader
  pub sender : Sender
  pub system : System

-- The messages that a call of `HandleRead` posts.
unfoldable pub post_all : System → ℕ → List RecvNode → System
post_all s session [] = s
post_all s session (n ∷ ns) =
    post_all (post_msg s (record { session = session; recvnode = n })).0 session ns

abbrev pub written : Option (List ℕ) → List ℕ
written none = []
written (some w) = w

-- The replies are sent, and their writes complete: the bytes on the socket.
unfoldable pub send_all : Host → Sender → List Reply → Result (Sender × List ℕ)
send_all h s [] = ok (s, [])
send_all h s (r ∷ rs) = do
  t ← send_string h s r.text r.msgid
  u ← handle_write t.sender false
  rest ← send_all h u.sender rs
  ok (rest.0, written t.write ++ rest.1)

module _ (h : IntHost) (j : Json) where
  -- The worker makes a turn for each message.
  unfoldable pub work : ℕ → System → Turn System
  work zero s = goes_on s
  work (suc k) s = and_then j (deal_msg j s) (work k)

  abbrev pub finished : Serving → Reader → Turn System → Result (Serving × List ℕ)
  finished s r (goes_on sys) = do
    sent ← send_all h.host s.sender sys.replies
    ok (
      record {
        session = s.session;
        reader = r;
        sender = sent.0;
        system = record sys { replies = [] };
      },
      sent.1,
    )
  finished s r _ = throws

  -- The bytes of a read, and the bytes that the server writes for them.
  unfoldable pub serve : Serving → List ℕ → Result (Serving × List ℕ)
  serve s bytes =
      let o = handle_read h.host s.reader (some bytes) in
      let queued = post_all s.system s.session o.posted in
      finished s o.reader (work (length o.posted) queued)

-- `jsonClient.cc`: a connection that fails ends the thread, and each of the others makes 500 rounds;
-- `testClient.cc` makes 50. An exception ends the thread, too.
unfoldable pub json_client :
    IntHost → Json → Bool → List ℕ → Serving → Result (Serving × List (ℕ × List ℕ))
unfolding serve converse
json_client h j false request s = ok (s, [])
json_client h j true request s = converse h (serve h j) 500 request s
