-- ===== src/Co/Exchange/Served.antt =====
-- The client gets all its replies.
use asio_learn.Base.{
  ℕ, zero, suc, ◌%◌, ◌^◌, ◌≤◌, ◌<◌, ◌≡◌, refl, ap, Bool, true, List, [], ◌∷◌, some, map, arith,
  length, replicate, take-append, append-nil, ◌++◌, drop, le→leb,
}
use asio_learn.Wire.{ok}
use asio_learn.Wire.Endian.{Host}
use asio_learn.Wire.Encode.{new_send_node_lem}
use asio_learn.Logic.Reader.Frames.{Message, frame, framed, frames, head_node}
use asio_learn.Logic.System.{Json, Reply, hello_word}
use asio_learn.Logic.Roundtrip.{buffer-sent_node}
use asio_learn.Logic.Client.{IntHost, converse}
use asio_learn.Logic.Client.Answering.{Answering, request_of, converse-Answering}
use asio_learn.Logic.Client.Request.{request_bytes_lem, receive_reply-framed}
use asio_learn.Logic.Exchange.Rounds.{quiet_sender, quiet_system}
use asio_learn.Co.Sender.{send, send_string, handle_write}
use asio_learn.Co.System.{called, deal_msg, post_msg}
use asio_learn.Co.Reader.{closed, session_start}
use asio_learn.Co.Reader.Steps.{filled_node}
use asio_learn.Co.Reader.Rounds.{AllSpeak, Speaks, cut_head, round-frame}
use asio_learn.Co.Reader.Stream.{session_start-frames}
use asio_learn.Co.Exchange.{
  Connection, serve, Serving, test_rounds, test_client, send_all, answer, answer_all,
}

abbrev pub quiet : Bool → Serving
quiet b_close = record { sender = quiet_sender b_close; system = quiet_system }

abbrev pub reply_of : Reply → Message
reply_of reply = record { id = reply.msgid; body = reply.text }

send_all-reply :
    (h : Host) (b_close : Bool) (reply : Reply)
    → length reply.text ≤ 2048
    → send_all h (quiet_sender b_close) (reply ∷ [])
      ≡ ok (quiet_sender b_close, frame h (reply_of reply))
unfolding send_all send_string send handle_write
send_all-reply h b_close reply fits =
    let short : length reply.text % 2 ^ 16 ≡ length reply.text = omega (arith, fits) in
    rw (
      short,
      new_send_node_lem h reply.msgid reply.text (0 ∷ []) (omega (arith, fits)),
      buffer-sent_node h (reply_of reply),
      append-nil,
    )

answer-request :
    (h : Host) (j : Json) (session : ℕ) (b_close : Bool) (text : List ℕ) (reply : Reply)
    → hello_word j session text ≡ some reply
    → length reply.text ≤ 2048
    → answer h j session (quiet b_close) (filled_node (request_of text))
      ≡ ok (quiet b_close, frame h (reply_of reply))
unfolding answer deal_msg post_msg called
answer-request h j session b_close text reply e fits =
    rw (take-append text (0 ∷ []), e, send_all-reply h b_close reply fits)

answer_all-requests :
    (h : Host) (j : Json) (session : ℕ) (b_close : Bool) (text : List ℕ) (reply : Reply)
    → hello_word j session text ≡ some reply
    → length reply.text ≤ 2048
    → (n : ℕ)
    → answer_all h j session (quiet b_close) (map filled_node (replicate n (request_of text)))
      ≡ ok (quiet b_close, frames h (replicate n (reply_of reply)))
unfolding answer_all
answer_all-requests h j session b_close text reply e fits zero = refl
answer_all-requests h j session b_close text reply e fits (suc n) = rw (
  answer-request h j session b_close text reply e fits,
  answer_all-requests h j session b_close text reply e fits n,
)

test_rounds-replies :
    (h : IntHost) (text : List ℕ) (reply : Reply)
    → length text ≤ 2044
    → reply.msgid < 2 ^ 16
    → length reply.text ≤ 2048
    → (n : ℕ)
    → test_rounds h n text (frames h.host (replicate n (reply_of reply)))
      ≡ ok (frames h.host (replicate n (request_of text)), replicate n (reply.msgid, reply.text))
unfolding test_rounds
test_rounds-replies h text reply fits id_fits reply_fits zero = refl
test_rounds-replies h text reply fits id_fits reply_fits (suc n) = rw (
  request_bytes_lem h text,
  le→leb (length text) 2044 fits,
  receive_reply-framed h reply.msgid reply.text (frames h.host (replicate n (reply_of reply)))
      id_fits reply_fits,
  test_rounds-replies h text reply fits id_fits reply_fits n,
)

replicate-AllSpeak : (n : ℕ) (m : Message) → Speaks m → AllSpeak (replicate n m)
replicate-AllSpeak zero m v = tt
replicate-AllSpeak (suc n) m v = (v, replicate-AllSpeak n m v)

-- The server between two messages.
abbrev pub resting : List ℕ → Bool → Connection
resting buf b_close = record { head = head_node buf; unread = []; serving = quiet b_close }

answers-request :
    (h : IntHost) (j : Json) (session : ℕ) (b_close : Bool) (text : List ℕ) (reply : Reply)
    → Speaks (request_of text)
    → hello_word j session text ≡ some reply
    → length reply.text ≤ 2048
    → (c : Connection) (buf : List ℕ) → c ≡ resting buf b_close
    → (t : Connection) × ((buf' : List ℕ) × (t ≡ resting buf' b_close))
      × (serve h.host j session c (frame h.host (request_of text))
          ≡ ok (t, frame h.host (reply_of reply)))
unfolding serve
answers-request h j session b_close text reply v e reply_fits c buf rests =
    let m = request_of text in
    let whole : framed h.host 1001 (length text) (text ++ []) ≡ frame h.host m =
      ap (framed h.host 1001 (length text)) (append-nil text) in
    let turn = rw whole at (round-frame h.host buf m [] v) in
    let buf' = framed h.host 1001 (length text) (drop 4 buf) in
    (
      resting buf' b_close,
      (buf', refl),
      rw (rests, turn, answer-request h.host j session b_close text reply e reply_fits),
    )

-- The server of the test client, one request at a time.
abbrev answering :
    (h : IntHost) (j : Json) (session : ℕ) (b_close : Bool) (text : List ℕ) (reply : Reply)
    → Speaks (request_of text)
    → hello_word j session text ≡ some reply
    → length reply.text ≤ 2048
    → Answering h text (reply_of reply)
answering h j session b_close text reply v e reply_fits = record {
  State = Connection;
  serve = serve h.host j session;
  Ready = λ c. (buf : List ℕ) × (c ≡ resting buf b_close);
  answers =
      λ c ready. answers-request h j session b_close text reply v e reply_fits c ready.0 ready.1;
}

-- A client that connects, and the server, if each write of the server ends without an error before its
-- next `Send` for the session, so that no reply waits in its queue: the coroutine takes the bytes that the client writes in its
-- 50 rounds as 50 messages, and ends when the client closes; the bytes that the worker then sends are
-- 50 replies, and with these the client writes those bytes and reads the callback's id and text 50
-- times. The text of the request is not empty and has at most 2044 bytes, that of the reply at most
-- 2048, and JsonCpp does not throw on the request. If the client waits for each reply before its next
-- request, it reads the same.
pub test_client-served :
    (h : IntHost) (j : Json) (session : ℕ) (b_close : Bool) (text buf : List ℕ) (reply : Reply)
    → 0 < length text
    → length text ≤ 2044
    → hello_word j session text ≡ some reply
    → reply.msgid < 2 ^ 16
    → length reply.text ≤ 2048
    → (requests replies : List ℕ) × (let s = session_start h.host (head_node buf) requests in
        (s.ending ≡ closed)
        × (length s.posted ≡ 50)
        × (answer_all h.host j session (quiet b_close) s.posted ≡ ok (quiet b_close, replies)))
      × (test_client h true text replies ≡ ok (requests, replicate 50 (reply.msgid, reply.text)))
      × ((c : Connection) × (converse h (serve h.host j session) 50 text (resting buf b_close)
            ≡ ok (c, replicate 50 (reply.msgid, reply.text))))
unfolding test_client
test_client-served h j session b_close text buf reply some_text fits e id_fits reply_fits =
    let ms = replicate 50 (request_of text) in
    let v : Speaks (request_of text) =
      (record { short_id = omega arith; accepted = refl; fits = omega (arith, fits) }, some_text) in
    let ran =
      session_start-frames h.host ms buf [] closed (replicate-AllSpeak 50 (request_of text) v)
        (cut_head [] (omega arith)) in
    let (posted, ended) = rw (append-nil (frames h.host ms)) at ran in
    (
      frames h.host ms,
      frames h.host (replicate 50 (reply_of reply)),
      (
        ended,
        ap length posted,
        rw posted (answer_all-requests h.host j session b_close text reply e reply_fits 50),
      ),
      test_rounds-replies h text reply fits id_fits reply_fits 50,
      let (c, rests, ran) =
            converse-Answering h text (reply_of reply)
              (answering h j session b_close text reply v e reply_fits) fits id_fits reply_fits 50
              (resting buf b_close) (buf, refl) in
          (c, ran),
    )
