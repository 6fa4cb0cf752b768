-- ===== src/Logic/Traffic/Socket.antt =====
-- What `Send` and the end of a write leave as it is.
use asio_learn.Base.{
  ℕ, ◌≡◌, refl, ap, ◌∙◌, Bool, false, List, [], ◌∷◌, ◌++◌, Option, none, some, drop-append, inl,
  inr, Option-cases,
}
use asio_learn.Wire.{Result, ok, throws, faults, SendNode}
use asio_learn.Logic.Sender.{Sender, Started, front_write, push_node, handle_write}
use asio_learn.Logic.Sender.Line.{Line, sent, start, complete, finished}

start-accepted : (w : Option (List ℕ)) (l : Line) → (start w l).accepted ≡ l.accepted
start-accepted none l = refl
start-accepted (some w) l = elim (Option-cases l.in_flight) [
  | inl idle ↦ rw idle
  | inr (v, busy) ↦ rw busy
]

pub start-sender : (w : Option (List ℕ)) (l : Line) → (start w l).sender ≡ l.sender
start-sender none l = refl
start-sender (some w) l = elim (Option-cases l.in_flight) [
  | inl idle ↦ rw idle
  | inr (v, busy) ↦ rw busy
]

finished-accepted : (l : Line) (r : Result Started) → (finished l r).accepted ≡ l.accepted
finished-accepted l (ok t) = start-accepted t.write _
finished-accepted l throws = refl
finished-accepted l faults = refl

pub complete-accepted :
    (l : Line) (failed : Bool) (w : Option (List ℕ)) → (complete l failed w).accepted ≡ l.accepted
complete-accepted l failed none = refl
complete-accepted l failed (some w) = finished-accepted _ (handle_write l.sender failed)

pub complete-closed :
    (l : Line) (w : Option (List ℕ)) (que : List SendNode)
    → l.sender.send_que ≡ que
    → (complete l false w).sender.b_close ≡ l.sender.b_close
unfolding handle_write
complete-closed l none que e = refl
complete-closed l (some w) [] e = rw e refl
complete-closed l (some w) (n ∷ que) e =
    rw e (ap (λ (x : Sender). x.b_close) (start-sender (front_write que) _))

pub sent-accepted :
    (l : Line) (node : SendNode)
    → (sent l (ok (push_node l.sender node))).accepted ≡ l.accepted ++ node ∷ []
sent-accepted l node =
    start-accepted _ _ ∙ ap (λ new. l.accepted ++ new) (drop-append l.sender.send_que (node ∷ []))
