-- ===== src/Logic/Traffic/Owed.antt =====
-- What each session is owed, under any order of events.
use asio_learn.Base.{
  ℕ, ◌+◌, ◌%◌, ◌^◌, ◌≤◌, ◌<◌, ◌≡◌, refl, ap, ◌∙◌, true, false, List, [], ◌∷◌, ◌++◌, none, some, map,
  arith, length, ◌==◌, update, ==_refl, append_assoc, length-append, length-map, Bool-cases, ◌⊎◌,
  inl, inr, Option-cases, le→ltb,
}
use asio_learn.Wire.Endian.{Host}
use asio_learn.Wire.{ok, SendNode, max_sendque}
use asio_learn.Wire.Encode.{sent_node, new_send_node_lem}
use asio_learn.Logic.Sender.{buffer, push_node, send_string}
use asio_learn.Logic.Sender.Line.{Line, sent}
use asio_learn.Logic.Sender.Fifo.{IsFifo, made-IsFifo}
use asio_learn.Logic.System.{Json, LogicNode, Reply, goes_on, msg_hello_word, hello_word, msg_text}
use asio_learn.Logic.System.Order.{answer, answers, Answerable}
use asio_learn.Logic.System.Own.{own_messages, IsTo, hello_word-IsTo}
use asio_learn.Logic.Traffic.{deliver}
use asio_learn.Logic.Traffic.Socket.{sent-accepted}

module _ (h : Host) (j : Json) where
  -- The callback throws on no message, and its text fits a message.
  abbrev pub Servable : LogicNode → Type 0
  Servable m =
      (m.recvnode.msg_id == msg_hello_word) ≡ true
      → (r : Reply) × (hello_word j m.session (msg_text j m) ≡ some r)
        × (length r.text + 4 < 2 ^ 15)

  abbrev pub AllServable : List LogicNode → Type 0
  AllServable [] = Unit
  AllServable (m ∷ ms) = Servable m × AllServable ms

  pub Servable-Answerable : (m : LogicNode) → Servable m → Answerable j m
  Servable-Answerable m s known thrown = let (r, e, _) = s known in cc (e, thrown)

  pub AllServable-append :
      (ms ns : List LogicNode) → AllServable ms → AllServable ns → AllServable (ms ++ ns)
  AllServable-append [] ns a b = b
  AllServable-append (m ∷ ms) ns a b = (a.0, AllServable-append ms ns a.1 b)

  pub answer-reply :
      (m : LogicNode)
      → Servable m
      → (answer j m ≡ none)
        ⊎ ((r : Reply) × (answer j m ≡ some r)
            × (r.session ≡ m.session)
            × (length r.text + 4 < 2 ^ 15))
  answer-reply m s = elim (Bool-cases (m.recvnode.msg_id == msg_hello_word)) [
    | inr other ↦ inl (rw other refl)
    | inl known ↦
        let (r, e, short) = s known in
        let to : IsTo j m.session (some r) = rw e at (hello_word-IsTo j m.session (msg_text j m)) in
        inr (r, rw (known, e), to, short)
  ]

  length-answers : (ms : List LogicNode) → length (answers j ms) ≤ length ms
  length-answers [] = omega arith
  length-answers (m ∷ ms) = elim (Option-cases (answer j m)) [
    | inl e ↦ rw e (omega (arith, length-answers ms))
    | inr (r, e) ↦ rw e (omega (arith, length-answers ms))
  ]

  abbrev pub reply_node : Reply → SendNode
  reply_node r = sent_node h r.msgid r.text

  -- The nodes that a session's `Send` has accepted, and the replies to its messages in the queue, are
  -- the replies to the messages `made`, all that it has sent to the server.
  pub record Owed (l : Line) (que : List LogicNode) (u : ℕ) (made : List LogicNode) : Type 0 where
    pub fifo : IsFifo l
    pub account :
        l.accepted ++ map reply_node (answers j (own_messages u que))
        ≡ map reply_node (answers j made)

  pub Owed-room :
      (l : Line) (que : List LogicNode) (u : ℕ) (made : List LogicNode)
      → Owed l que u made
      → length l.sender.send_que ≤ length made
  Owed-room l que u made o =
      let rest = map reply_node (answers j (own_messages u que)) in
      let accepted = ap length o.fifo.in_order in
      let all = ap length o.account in
      omega (
        arith,
        accepted,
        all,
        length-map buffer l.accepted,
        length-append l.written (map buffer l.sender.send_que),
        length-map buffer l.sender.send_que,
        length-append l.accepted rest,
        length-map reply_node (answers j made),
        length-answers made,
      )

  pub popped-none :
      (l : Line) (m : LogicNode) (que : List LogicNode) (u : ℕ) (made : List LogicNode)
      → answer j m ≡ none
      → Owed l (m ∷ que) u made
      → Owed l que u made
  popped-none l m que u made e o = elim (Bool-cases (m.session == u)) [
    | inl own ↦ record { fifo = o.fifo; account = rw (own, e) at o.account }
    | inr foreign ↦ record { fifo = o.fifo; account = rw foreign at o.account }
  ]

  pub popped-foreign :
      (l : Line) (m : LogicNode) (que : List LogicNode) (u : ℕ) (made : List LogicNode)
      → (m.session == u) ≡ false
      → Owed l (m ∷ que) u made
      → Owed l que u made
  popped-foreign l m que u made foreign o = record {
    fifo = o.fifo;
    account = rw foreign at o.account;
  }

  -- `Send` of the reply to the front of the queue.
  pub popped-own :
      (l : Line) (m : LogicNode) (que made : List LogicNode) (r : Reply)
      → answer j m ≡ some r
      → length l.sender.send_que ≤ max_sendque
      → Owed l (m ∷ que) m.session made
      → Owed (sent l (ok (push_node l.sender (reply_node r)))) que m.session made
  popped-own l m que made r e room o =
      let replies = map reply_node (answers j (own_messages m.session que)) in
      let before = rw (==_refl m.session, e) at o.account in
      record {
        fifo = made-IsFifo l (ok (reply_node r)) (λ bad. cc bad) o.fifo room;
        account =
            ap (λ nodes. nodes ++ replies) (sent-accepted l (reply_node r))
            ∙ append_assoc l.accepted (reply_node r ∷ []) replies
            ∙ before;
      }

  pub deliver-reply :
      (lines : ℕ → Line) (r : Reply)
      → length (lines r.session).sender.send_que ≤ max_sendque
      → length r.text + 4 < 2 ^ 15
      → deliver h lines (r ∷ [])
        ≡ goes_on (
            update lines r.session
              (sent (lines r.session) (ok (push_node (lines r.session).sender (reply_node r)))))
  unfolding send_string
  deliver-reply lines r room fits =
      let short : length r.text % 2 ^ 16 ≡ length r.text = omega (arith, fits) in
      rw (
        le→ltb max_sendque (length (lines r.session).sender.send_que) room,
        short,
        new_send_node_lem h r.msgid r.text (0 ∷ []) fits,
      )
