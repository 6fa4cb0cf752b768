-- ===== src/Logic/System/Order.antt =====
-- The worker handles the messages in the order in which they were posted.
use asio_learn.Base.{
  ◌≡◌, ◌≢◌, refl, sym, ap, ◌∙◌, true, false, List, [], ◌∷◌, ◌++◌, Option, none, some, ◌==◌,
  if◌then◌else◌, append_assoc, append-nil, Bool-cases, inl, inr, Option-cases,
}
use asio_learn.Logic.System.{
  Json, LogicNode, Reply, System, Turn, goes_on, waits, msg_hello_word, hello_word, msg_text,
  handle_front, and_then, drain, deal_front, deal_msg, post_msg,
}

-- What other threads and the worker do, in the order in which they take the lock: a message is
-- posted, or the worker makes a turn (and leaves things as they are where it has to wait).
pub data Event : Type 0 where
  posts : LogicNode → Event
  works : Event

abbrev pub posted : List Event → List LogicNode
posted [] = []
posted (posts m ∷ es) = m ∷ posted es
posted (works ∷ es) = posted es

module _ (j : Json) where
  -- The answer to one message: none for an id without callback, or where the callback throws.
  abbrev pub answer : LogicNode → Option Reply
  answer m =
      if m.recvnode.msg_id == msg_hello_word then hello_word j m.session (msg_text j m) else none

  abbrev pub cons_some : Option Reply → List Reply → List Reply
  cons_some none rs = rs
  cons_some (some r) rs = r ∷ rs

  -- The answers to some messages, in their order.
  abbrev pub answers : List LogicNode → List Reply
  answers [] = []
  answers (m ∷ ms) = cons_some (answer m) (answers ms)

  -- The callback throws on none of the messages.
  abbrev pub Answerable : LogicNode → Type 0
  Answerable m =
      (m.recvnode.msg_id == msg_hello_word) ≡ true → hello_word j m.session (msg_text j m) ≢ none

  abbrev pub AllAnswerable : List LogicNode → Type 0
  AllAnswerable [] = Unit
  AllAnswerable (m ∷ ms) = Answerable m × AllAnswerable ms

  abbrev replied : System → List Reply → System
  replied s rs = record s { replies = s.replies ++ rs }

  pub handle_front-answer :
      (s : System) (m : LogicNode)
      → Answerable m
      → handle_front j s m ≡ goes_on (replied s (cons_some (answer m) []))
  unfolding handle_front
  handle_front-answer s m a = elim (Bool-cases (m.recvnode.msg_id == msg_hello_word)) [
    | inr other ↦ rw (other, append-nil)
    | inl known ↦ elim (Option-cases (hello_word j m.session (msg_text j m))) [
      | inl e ↦ absurd (a known e)
      | inr (r, e) ↦ rw (known, e)
    ]
  ]

  cons_some-append : (o : Option Reply) (rs : List Reply) → cons_some o [] ++ rs ≡ cons_some o rs
  cons_some-append none rs = refl
  cons_some-append (some r) rs = refl

  cons_some-append_assoc :
      (o : Option Reply) (rs qs : List Reply) → cons_some o (rs ++ qs) ≡ cons_some o rs ++ qs
  cons_some-append_assoc none rs qs = refl
  cons_some-append_assoc (some r) rs qs = refl

  pub answers-append : (ms ns : List LogicNode) → answers (ms ++ ns) ≡ answers ms ++ answers ns
  answers-append [] ns = refl
  answers-append (m ∷ ms) ns =
      ap (cons_some (answer m)) (answers-append ms ns)
      ∙ cons_some-append_assoc (answer m) (answers ms) (answers ns)

  -- A stopped worker answers all that is queued.
  pub drain_lem :
      (s : System) (que : List LogicNode)
      → AllAnswerable que
      → drain j s que ≡ goes_on (record s { msg_que = []; replies = s.replies ++ answers que })
  unfolding drain
  drain_lem s [] a = rw append-nil
  drain_lem s (m ∷ que) a = rw (
    handle_front-answer s m a.0,
    drain_lem (replied s (cons_some (answer m) [])) que a.1,
    append_assoc s.replies (cons_some (answer m) []) (answers que),
    cons_some-append (answer m) (answers que),
  )

  pub deal_front_lem :
      (s : System) (m : LogicNode) (que : List LogicNode)
      → Answerable m
      → deal_front j s (m ∷ que)
        ≡ goes_on (record s { msg_que = que; replies = s.replies ++ cons_some (answer m) [] })
  unfolding deal_front
  deal_front_lem s m que a = rw (handle_front-answer s m a)

  abbrev pub woken : System → Turn System → Turn System
  woken s waits = goes_on s
  woken s t = t

  unfoldable pub run : System → List Event → Turn System
  run s [] = goes_on s
  run s (posts m ∷ es) = run (post_msg s m).0 es
  run s (works ∷ es) = and_then j (woken s (deal_msg j s)) (λ t. run t es)

  -- The state is reached by answering the messages `done`, and `todo` is queued.
  abbrev pub Handled : List LogicNode → List LogicNode → Turn System → Type 0
  Handled done todo t =
      t ≡ goes_on (record { msg_que = todo; b_stop = false; replies = answers done })

  -- Under any order of posts and turns, as long as the callback throws on no message: the messages
  -- posted are those answered and then those queued, in the order of the posts; each is answered
  -- once, and a message whose id has no callback gets no answer.
  pub run-Handled :
      (es : List Event) (done todo : List LogicNode)
      → AllAnswerable (todo ++ posted es)
      → (done' : List LogicNode) × (todo' : List LogicNode) × (done' ++ todo'
          ≡ done ++ (todo ++ posted es))
        × Handled done' todo'
            (run (record { msg_que = todo; b_stop = false; replies = answers done }) es)
  unfolding run deal_msg post_msg
  run-Handled [] done todo a = (done, todo, ap (◌++◌ done) (sym (append-nil todo)), refl)
  run-Handled (posts m ∷ es) done todo a =
      let (d, t, e, r) =
        run-Handled es done (todo ++ m ∷ []) (rw (append_assoc todo (m ∷ []) (posted es)) a) in
      (d, t, e ∙ ap (◌++◌ done) (append_assoc todo (m ∷ []) (posted es)), r)
  run-Handled (works ∷ es) done [] a = run-Handled es done [] a
  run-Handled (works ∷ es) done (m ∷ todo) a =
      let (d, t, e, r) = run-Handled es (done ++ m ∷ []) todo a.1 in
      (
        d,
        t,
        e ∙ append_assoc done (m ∷ []) (todo ++ posted es),
        rw
            (
              deal_front_lem (record { msg_que = m ∷ todo; b_stop = false; replies = answers done })
                  m todo a.0,
              ← answers-append done (m ∷ []),
            )
            r,
      )
