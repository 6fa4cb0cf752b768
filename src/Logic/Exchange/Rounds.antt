-- ===== src/Logic/Exchange/Rounds.antt =====
-- Every round of a client gets its reply.
use asio_learn.Base.{
  ℕ, ◌%◌, ◌^◌, ◌≤◌, ◌<◌, ◌≡◌, refl, sym, ap, Bool, false, List, [], ◌∷◌, ◌++◌, some, arith, length,
  replicate, take-append, append-nil,
}
use asio_learn.Wire.{ok}
use asio_learn.Wire.Endian.{Host}
use asio_learn.Wire.Encode.{new_send_node_lem}
use asio_learn.Logic.Reader.{Reader, handle_read}
use asio_learn.Logic.Reader.Frames.{
  Message, IsMessage, frame, framed, boundary, holds, nothing, Stands, whole_node,
}
use asio_learn.Logic.Reader.Deliver.{handle_read-Delivered}
use asio_learn.Logic.Sender.{Sender, send_string, handle_write}
use asio_learn.Logic.System.{
  Json, Reply, System, goes_on, deal_msg, deal_front, handle_front, post_msg, hello_word,
}
use asio_learn.Logic.Roundtrip.{buffer-sent_node}
use asio_learn.Logic.Client.{IntHost, converse}
use asio_learn.Logic.Client.Answering.{Answering, converse-Answering}
use asio_learn.Logic.Exchange.{Serving, post_all, send_all, work, serve}

-- Between two messages, with nothing queued.
abbrev pub quiet_sender : Bool → Sender
quiet_sender closed = record { send_que = []; b_close = closed }

abbrev pub quiet_system : System
quiet_system = record { msg_que = []; b_stop = false; replies = [] }

abbrev pub resting : ℕ → Bool → Reader → Serving
resting session closed r = record {
  session = session;
  reader = r;
  sender = quiet_sender closed;
  system = quiet_system;
}

-- The worker answers the one message.
work-reply :
    (h : IntHost) (j : Json) (session : ℕ) (text : List ℕ) (reply : Reply)
    → hello_word j session text ≡ some reply
    → work h j 1
        (post_all quiet_system session (whole_node (record { id = 1001; body = text }) ∷ []))
      ≡ goes_on (record { msg_que = []; b_stop = false; replies = reply ∷ [] })
unfolding work post_all deal_msg deal_front handle_front post_msg
work-reply h j session text reply e = rw (take-append text (0 ∷ []), e)

-- `Send` writes the reply's frame at once, and the queue is empty again when the write completes.
send_all-reply :
    (h : Host) (closed : Bool) (reply : Reply)
    → length reply.text ≤ 2048
    → send_all h (quiet_sender closed) (reply ∷ [])
      ≡ ok (quiet_sender closed, frame h (record { id = reply.msgid; body = reply.text }))
unfolding send_all send_string handle_write
send_all-reply h closed reply fits =
    let m : Message = record { id = reply.msgid; body = reply.text } in
    let short : length reply.text % 2 ^ 16 ≡ length reply.text = omega (arith, fits) in
    rw (
      short,
      new_send_node_lem h reply.msgid reply.text (0 ∷ []) (omega (arith, fits)),
      buffer-sent_node h m,
      append-nil,
    )

serve-reply :
    (h : IntHost) (j : Json) (session : ℕ) (closed : Bool) (r : Reader) (text : List ℕ)
    (reply : Reply)
    → Stands r boundary
    → length text ≤ 2044
    → hello_word j session text ≡ some reply
    → length reply.text ≤ 2048
    → (r' : Reader) × Stands r' boundary
      × (serve h j (resting session closed r) (frame h.host (record { id = 1001; body = text }))
          ≡ ok (
            resting session closed r',
            frame h.host (record { id = reply.msgid; body = reply.text }),
          ))
unfolding serve
serve-reply h j session closed r text reply stands fits answer reply_fits =
    let m : Message = record { id = 1001; body = text } in
    let v : IsMessage m = record { short_id = omega arith; accepted = refl; fits = omega arith } in
    let whole : frame h.host m ≡ framed h.host 1001 (length text) (text ++ []) =
      sym (ap (framed h.host 1001 (length text)) (append-nil text)) in
    let d = handle_read-Delivered h.host r (holds m v whole (nothing refl)) stands (omega arith) in
    (
      (handle_read h.host r (some (frame h.host m))).reader,
      d.2,
      rw (
        d.0,
        work-reply h j session text reply answer,
        send_all-reply h.host closed reply reply_fits,
      ),
    )

-- The server with its session, between two messages.
abbrev answering :
    (h : IntHost) (j : Json) (session : ℕ) (closed : Bool) (text : List ℕ) (reply : Reply)
    → length text ≤ 2044
    → hello_word j session text ≡ some reply
    → length reply.text ≤ 2048
    → Answering h text (record { id = reply.msgid; body = reply.text })
answering h j session closed text reply fits answer reply_fits = record {
  State = Serving;
  serve = serve h j;
  Ready = λ s. (r : Reader) × Stands r boundary × (s ≡ resting session closed r);
  answers = λ s ready.
      let (r, stands, e) = ready in
      let (r', stands', served) =
        serve-reply h j session closed r text reply stands fits answer reply_fits in
      (resting session closed r', (r', stands', refl), rw e served);
}

-- Whatever number of rounds a client makes with a server that has nothing queued for its session, if
-- each request reaches the server in one read and each write of the server ends without an error before
-- its next `Send`: each request is written, taken in as one message, answered by the callback, sent and read, so that
-- the client reads the callback's id and text in every round. The text of the request has at most
-- 2044 bytes and that of the reply at most 2048, and JsonCpp does not throw on the request.
pub converse-replies :
    (h : IntHost) (j : Json) (session : ℕ) (closed : Bool) (text : List ℕ) (reply : Reply)
    → length text ≤ 2044
    → hello_word j session text ≡ some reply
    → reply.msgid < 2 ^ 16
    → length reply.text ≤ 2048
    → (rounds : ℕ) (r : Reader) → Stands r boundary
    → (r' : Reader) × Stands r' boundary
      × (converse h (serve h j) rounds text (resting session closed r)
          ≡ ok (resting session closed r', replicate rounds (reply.msgid, reply.text)))
converse-replies h j session closed text reply fits answer id_fits reply_fits rounds r stands =
    let (t, (r', stands', e), ran) =
      converse-Answering h text (record { id = reply.msgid; body = reply.text })
        (answering h j session closed text reply fits answer reply_fits) fits id_fits reply_fits
        rounds (resting session closed r) (r, stands, refl) in
    (r', stands', rw (← e) ran)
