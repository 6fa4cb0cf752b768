-- ===== src/Co/System/Stop.antt =====
-- The worker after the destructor has set `_b_stop`.
use asio_learn.Base.{
  ◌≡◌, ◌≢◌, refl, true, List, [], ◌∷◌, ◌++◌, Option, none, some, ◌==◌, if◌then◌else◌, append_assoc,
  append-nil, Bool-cases, inl, inr, Option-cases,
}
use asio_learn.Logic.System.{Json, LogicNode, Reply, System, msg_hello_word, hello_word}
use asio_learn.Co.System.{returns, msg_text, called, drain, deal_msg, stop}

module _ (j : Json) where
  -- The answer to one message: none for an id without callback, or where the callback throws.
  abbrev answer : LogicNode → Option Reply
  answer m =
      if m.recvnode.msg_id == msg_hello_word then hello_word j m.session (msg_text j m) else none

  abbrev cons_some : Option Reply → List Reply → List Reply
  cons_some none rs = rs
  cons_some (some r) rs = r ∷ rs

  abbrev pub answers : List LogicNode → List Reply
  answers [] = []
  answers (m ∷ ms) = cons_some (answer m) (answers ms)

  -- The callback throws on none of the messages.
  abbrev Answerable : LogicNode → Type 0
  Answerable m =
      (m.recvnode.msg_id == msg_hello_word) ≡ true → hello_word j m.session (msg_text j m) ≢ none

  abbrev pub AllAnswerable : List LogicNode → Type 0
  AllAnswerable [] = Unit
  AllAnswerable (m ∷ ms) = Answerable m × AllAnswerable ms

  called-answer :
      (s : System) (m : LogicNode)
      → Answerable m
      → called j s m ≡ some (record s { replies = s.replies ++ cons_some (answer m) [] })
  unfolding called
  called-answer s m a = elim (Bool-cases (m.recvnode.msg_id == msg_hello_word)) [
    | inr other ↦ rw (other, append-nil)
    | inl known ↦ elim (Option-cases (hello_word j m.session (msg_text j m))) [
      | inl e ↦ absurd (a known e)
      | inr (r, e) ↦ rw (known, e)
    ]
  ]

  cons_some-append : (o : Option Reply) (rs : List Reply) → cons_some o [] ++ rs ≡ cons_some o rs
  cons_some-append none rs = refl
  cons_some-append (some r) rs = refl

  drain-answers :
      (s : System) (que : List LogicNode)
      → AllAnswerable que
      → drain j s que ≡ returns (record s { msg_que = []; replies = s.replies ++ answers que })
  unfolding drain
  drain-answers s [] a = rw append-nil
  drain-answers s (m ∷ que) a = rw (
    called-answer s m a.0,
    drain-answers (record s { replies = s.replies ++ cons_some (answer m) [] }) que a.1,
    append_assoc s.replies (cons_some (answer m) []) (answers que),
    cons_some-append (answer m) (answers que),
  )

  -- Where the callback throws on none of the queued messages, the next turn of a stopped worker
  -- answers them all, in their order, and returns from `DealMsg` with an empty queue.
  stop-returns :
      (s : System)
      → AllAnswerable s.msg_que
      → deal_msg j (stop s)
        ≡ returns
            (record s { msg_que = []; b_stop = true; replies = s.replies ++ answers s.msg_que })
  unfolding deal_msg stop
  stop-returns s a = drain-answers (stop s) s.msg_que a
