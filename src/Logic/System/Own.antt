-- ===== src/Logic/System/Own.antt =====
-- What a session gets, apart from what the others post.
use asio_learn.Base.{
  ℕ, zero, suc, ◌≤◌, ◌≡◌, refl, ap, ◌∙◌, false, List, [], ◌∷◌, ◌++◌, Option, none, some, ◌==◌,
  if◌then◌else◌, append_assoc, append-nil, Bool-cases, inl, inr, arith, length, length-append,
  replicate,
}
use asio_learn.Logic.System.{
  Json, LogicNode, Reply, System, Turn, goes_on, terminates, waits, undefined, msg_hello_word,
  hello_word, msg_text, deal_msg, post_msg, and_then,
}
use asio_learn.Logic.System.Order.{
  Event, posts, works, posted, answer, answers, answers-append, cons_some, AllAnswerable,
  deal_front_lem, run, run-Handled, woken,
}

-- The replies to a session, and the messages of a session.
abbrev pub own_replies : ℕ → List Reply → List Reply
own_replies u [] = []
own_replies u (r ∷ rs) = let rest = own_replies u rs in if r.session == u then r ∷ rest else rest

abbrev pub own_messages : ℕ → List LogicNode → List LogicNode
own_messages u [] = []
own_messages u (m ∷ ms) = let rest = own_messages u ms in if m.session == u then m ∷ rest else rest

abbrev pub started : System
started = record { msg_que = []; b_stop = false; replies = [] }

module _ (j : Json) where
  then-run :
      (es fs : List Event) (t : Turn System)
      → ((s : System) → run j s (es ++ fs) ≡ and_then j (run j s es) (λ u. run j u fs))
      → and_then j t (λ s. run j s (es ++ fs))
        ≡ and_then j (and_then j t (λ s. run j s es)) (λ u. run j u fs)
  then-run es fs (goes_on s) h = h s
  then-run es fs terminates h = refl
  then-run es fs waits h = refl
  then-run es fs undefined h = refl

  run-append :
      (es fs : List Event) (s : System)
      → run j s (es ++ fs) ≡ and_then j (run j s es) (λ u. run j u fs)
  unfolding run
  run-append [] fs s = refl
  run-append (posts m ∷ es) fs s = run-append es fs (post_msg s m).0
  run-append (works ∷ es) fs s = then-run es fs (woken j s (deal_msg j s)) (run-append es fs)

  -- The reply of the callback, if there is one, goes to the session of the message.
  abbrev pub IsTo : ℕ → Option Reply → Type 0
  IsTo u none = Unit
  IsTo u (some r) = r.session ≡ u

  pub hello_word-IsTo : (u : ℕ) (text : List ℕ) → IsTo u (hello_word j u text)
  unfolding hello_word
  hello_word-IsTo u text = ground arith

  answer-IsTo : (m : LogicNode) → IsTo m.session (answer j m)
  answer-IsTo m = elim (Bool-cases (m.recvnode.msg_id == msg_hello_word)) [
    | inl known ↦ rw known (hello_word-IsTo m.session (msg_text j m))
    | inr other ↦ rw other tt
  ]

  own_replies-cons_some :
      (u v : ℕ) (o : Option Reply) (rs : List Reply)
      → IsTo v o
      → own_replies u (cons_some j o rs)
        ≡ (if v == u then cons_some j o (own_replies u rs) else own_replies u rs)
  own_replies-cons_some u v none rs t = ground arith
  own_replies-cons_some u v (some r) rs t = rw t refl

  own_replies-answers :
      (u : ℕ) (ms : List LogicNode) → own_replies u (answers j ms) ≡ answers j (own_messages u ms)
  own_replies-answers u [] = refl
  own_replies-answers u (m ∷ ms) = elim (Bool-cases (m.session == u)) [
    | inl own ↦ rw (
      own_replies-cons_some u m.session (answer j m) (answers j ms) (answer-IsTo m),
      own,
      own_replies-answers u ms,
    )
    | inr foreign ↦ rw (
      own_replies-cons_some u m.session (answer j m) (answers j ms) (answer-IsTo m),
      foreign,
      own_replies-answers u ms,
    )
  ]

  AllAnswerable-behind : (ms ns : List LogicNode) → AllAnswerable j (ms ++ ns) → AllAnswerable j ns
  AllAnswerable-behind [] ns a = a
  AllAnswerable-behind (m ∷ ms) ns a = AllAnswerable-behind ms ns a.1

  -- Turns of the worker empty the queue.
  run-works :
      (n : ℕ) (done todo : List LogicNode)
      → AllAnswerable j todo
      → length todo ≤ n
      → run j
          (record { msg_que = todo; b_stop = false; replies = answers j done })
          (replicate n works)
        ≡ goes_on (record { msg_que = []; b_stop = false; replies = answers j (done ++ todo) })
  unfolding run deal_msg
  run-works zero done [] a l = rw append-nil
  run-works zero done (m ∷ todo) a l = absurd (omega arith)
  run-works (suc n) done [] a l = run-works n done [] a (omega arith)
  run-works (suc n) done (m ∷ todo) a l = rw (
    deal_front_lem j (record { msg_que = m ∷ todo; b_stop = false; replies = answers j done }) m
        todo a.0,
    ← answers-append j done (m ∷ []),
    run-works n (done ++ m ∷ []) todo a.1 (omega arith),
    append_assoc done (m ∷ []) todo,
  )

  -- Whatever the order in which sessions post and the worker makes turns, as long as the callback
  -- throws on no message: as many further turns as there were posts empty the queue, and what has then
  -- been sent to a session is the answers to its own messages, in the order of its posts. It does not
  -- depend on what the other sessions post.
  pub run-own_replies :
      (es : List Event) (u : ℕ)
      → AllAnswerable j (posted es)
      → (s : System) × (run j started (es ++ replicate (length (posted es)) works) ≡ goes_on s)
        × (s.msg_que ≡ [])
        × (own_replies u s.replies ≡ answers j (own_messages u (posted es)))
  run-own_replies es u a =
      let (done, todo, order, ran) = run-Handled j es [] [] a in
      let size : length todo ≤ length (posted es) =
        omega (arith, length-append done todo, ap length order) in
      (
        record { msg_que = []; b_stop = false; replies = answers j (done ++ todo) },
        rw (run-append es (replicate (length (posted es)) works) started, ran)
            (run-works (length (posted es)) done todo (AllAnswerable-behind done todo (rw order a))
              size),
        refl,
        own_replies-answers u (done ++ todo) ∙ ap (λ ms. answers j (own_messages u ms)) order,
      )
