-- ===== src/Logic/Traffic/Atomic.antt =====
-- Turns of the worker between the posts of one call of `HandleRead`: `_mutex` is free between two of
-- these.
use asio_learn.Base.{
  ◌≡◌, refl, sym, ap, ◌∙◌, false, List, [], ◌∷◌, ◌++◌, ◌==◌, Bool-cases, Option-cases, inl, inr,
}
use asio_learn.Logic.System.{
  Json, LogicNode, Reply, System, Turn, goes_on, terminates, waits, undefined, msg_hello_word,
  hello_word, msg_text, handle_front, deal_front, deal_msg, post_msg, and_then,
}

module _ (j : Json) where
  abbrev pub queued : List LogicNode → List Reply → System
  queued que replies = record { msg_que = que; b_stop = false; replies = replies }

  abbrev pub post_all : List LogicNode → System → System
  post_all [] s = s
  post_all (n ∷ ns) s = post_all ns (post_msg s n).0

  turn-post :
      (m n : LogicNode) (que : List LogicNode) (replies : List Reply)
      → and_then j (deal_msg j (queued (m ∷ que) replies)) (λ t. goes_on (post_msg t n).0)
        ≡ deal_msg j (post_msg (queued (m ∷ que) replies) n).0
  unfolding deal_msg deal_front handle_front post_msg
  turn-post m n que replies = elim (Bool-cases (m.recvnode.msg_id == msg_hello_word)) [
    | inr other ↦ rw other
    | inl known ↦ elim (Option-cases (hello_word j m.session (msg_text j m))) [
      | inl e ↦ rw (known, e)
      | inr (r, e) ↦ rw (known, e)
    ]
  ]

  and_then_assoc :
      (t : Turn System) (f g : System → Turn System)
      → and_then j (and_then j t f) g ≡ and_then j t (λ s. and_then j (f s) g)
  and_then_assoc (goes_on s) f g = refl
  and_then_assoc terminates f g = refl
  and_then_assoc waits f g = refl
  and_then_assoc undefined f g = refl

  and_then-goes_on : (t : Turn System) → and_then j t goes_on ≡ t
  and_then-goes_on (goes_on s) = refl
  and_then-goes_on terminates = refl
  and_then-goes_on waits = refl
  and_then-goes_on undefined = refl

  -- Where a message waits and the system is not stopped, a turn of the worker before some posts does
  -- what it does behind them: it handles the same message and leaves the same queue, or it ends the
  -- process in both.
  pub turn-post_all :
      (ns : List LogicNode) (m : LogicNode) (que : List LogicNode) (replies : List Reply)
      → and_then j (deal_msg j (queued (m ∷ que) replies)) (λ t. goes_on (post_all ns t))
        ≡ deal_msg j (post_all ns (queued (m ∷ que) replies))
  unfolding post_msg
  turn-post_all [] m que replies = and_then-goes_on (deal_msg j (queued (m ∷ que) replies))
  turn-post_all (n ∷ ns) m que replies =
      sym (
        and_then_assoc (deal_msg j (queued (m ∷ que) replies)) (λ t. goes_on (post_msg t n).0)
          (λ t. goes_on (post_all ns t)))
      ∙ ap (λ x. and_then j x (λ t. goes_on (post_all ns t))) (turn-post m n que replies)
      ∙ turn-post_all ns m (que ++ n ∷ []) replies
