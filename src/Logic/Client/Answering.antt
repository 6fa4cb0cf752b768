-- ===== src/Logic/Client/Answering.antt =====
-- What a client needs of a server, and what it then gets.
use asio_learn.Base.{
  ℕ, zero, suc, ◌^◌, ◌≤◌, ◌<◌, ◌≡◌, refl, ap, List, [], ◌++◌, length, replicate, append-nil, le→leb,
}
use asio_learn.Wire.{Result, ok}
use asio_learn.Logic.Reader.Frames.{Message, frame, framed}
use asio_learn.Logic.Client.{IntHost, converse}
use asio_learn.Logic.Client.Request.{request_bytes_lem, receive_reply-framed}

abbrev pub request_of : List ℕ → Message
request_of text = record { id = 1001; body = text }

-- A server that answers a request by one reply, and is then ready for the next.
pub record Answering (h : IntHost) (text : List ℕ) (reply : Message) : Type 1 where
  pub State : Type 0
  pub serve : State → List ℕ → Result (State × List ℕ)
  pub Ready : State → Type 0
  pub answers :
      (s : State)
      → Ready s
      → (t : State) × Ready t
        × (serve s (frame h.host (request_of text)) ≡ ok (t, frame h.host reply))

module _ (h : IntHost) (text : List ℕ) (reply : Message) (server : Answering h text reply) where
  -- With any such server, each round gets its reply.
  pub converse-Answering :
      length text ≤ 2044
      → reply.id < 2 ^ 16
      → length reply.body ≤ 2048
      → (rounds : ℕ) (s : server.State) → server.Ready s
      → (t : server.State) × server.Ready t
        × (converse h server.serve rounds text s ≡ ok (t, replicate rounds (reply.id, reply.body)))
  unfolding converse
  converse-Answering fits id_fits reply_fits zero s ready = (s, ready, refl)
  converse-Answering fits id_fits reply_fits (suc rounds) s ready =
      let (t, ready', served) = server.answers s ready in
      let (u, ready'', later) = converse-Answering fits id_fits reply_fits rounds t ready' in
      let whole : framed h.host reply.id (length reply.body) (reply.body ++ [])
          ≡ frame h.host reply =
        ap (framed h.host reply.id (length reply.body)) (append-nil reply.body) in
      let got = rw whole at (receive_reply-framed h reply.id reply.body [] id_fits reply_fits) in
      (
        u,
        ready'',
        rw (request_bytes_lem h text, le→leb (length text) 2044 fits, served, got, later),
      )
