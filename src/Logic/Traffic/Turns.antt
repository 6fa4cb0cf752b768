-- ===== src/Logic/Traffic/Turns.antt =====
-- What a turn of the worker changes for each session.
use asio_learn.Base.{
  ℕ, ◌≤◌, ◌≡◌, refl, ap, Bool, List, [], ◌∷◌, arith, length, update, by_key, ==_refl, inl, inr,
}
use asio_learn.Wire.Endian.{Host}
use asio_learn.Wire.{max_sendque, ok}
use asio_learn.Logic.Reader.{Reader}
use asio_learn.Logic.Sender.{Sender, push_node}
use asio_learn.Logic.Sender.Line.{Line, sent}
use asio_learn.Logic.System.{Json, LogicNode, goes_on, deal_msg}
use asio_learn.Logic.System.Order.{deal_front_lem}
use asio_learn.Logic.Traffic.{works, step}
use asio_learn.Logic.Traffic.Inbox.{idle_system}
use asio_learn.Logic.Traffic.Socket.{start-sender}
use asio_learn.Logic.Traffic.Owed.{
  Servable, AllServable, Servable-Answerable, answer-reply, reply_node, Owed, Owed-room,
  popped-none, popped-foreign, popped-own, deliver-reply,
}
use asio_learn.Logic.Traffic.Steps.{at_rest, AllOwed, SameClosed}

module _ (h : Host) (j : Json) where
  -- A turn of the worker with a message in the queue.
  pub works-front :
      (readers : ℕ → Reader) (reading : ℕ → Bool) (lines : ℕ → Line) (m : LogicNode)
      (rest : List LogicNode) (made : ℕ → List LogicNode)
      → AllOwed h j lines (m ∷ rest) made
      → ((u : ℕ) → length (made u) ≤ max_sendque)
      → Servable h j m
      → (lines' : ℕ → Line) × (step h j (at_rest readers reading lines (m ∷ rest)) works
          ≡ goes_on (at_rest readers reading lines' rest))
        × AllOwed h j lines' rest made
        × SameClosed h j lines' lines
  unfolding step deal_msg
  works-front readers reading lines m rest made o few s =
      let front = deal_front_lem j (idle_system (m ∷ rest)) m rest (Servable-Answerable h j m s) in
      elim (answer-reply h j m s) [
        | inl e ↦ (
          lines,
          rw (front, e),
          λ u. popped-none h j (lines u) m rest u (made u) e (o u),
          λ u. refl,
        )
        | inr (r, e, to, fits) ↦
            let room : length (lines r.session).sender.send_que ≤ max_sendque =
              omega (arith, Owed-room h j _ _ _ _ (o r.session), few r.session) in
            let started = push_node (lines r.session).sender (reply_node h j r) in
            let line' = sent (lines r.session) (ok started) in
            (
              update lines r.session line',
              rw (front, e, deliver-reply h j lines r room fits),
              λ u.
                  by_key (λ u. Owed h j (update lines r.session line' u) rest u (made u)) r.session
                    u
                    (rw (==_refl r.session, to)
                      (popped-own h j (lines m.session) m rest (made m.session) r e (rw to at room)
                        (o m.session)))
                    (λ other.
                      rw other
                        (popped-foreign h j (lines u) m rest u (made u) (rw to at other) (o u))),
              λ u.
                  by_key
                    (λ u.
                      (update lines r.session line' u).sender.b_close ≡ (lines u).sender.b_close)
                    r.session u
                    (rw (==_refl r.session)
                      (ap (λ (x : Sender). x.b_close) (start-sender started.write _)))
                    (λ other. rw other refl),
            )
      ]

  pub works-Owed :
      (readers : ℕ → Reader) (reading : ℕ → Bool) (lines : ℕ → Line) (que : List LogicNode)
      (made : ℕ → List LogicNode)
      → AllOwed h j lines que made
      → ((u : ℕ) → length (made u) ≤ max_sendque)
      → AllServable h j que
      → (lines' : ℕ → Line) × (que' : List LogicNode) × (step h j
            (at_rest readers reading lines que)
            works
          ≡ goes_on (at_rest readers reading lines' que'))
        × AllServable h j que'
        × AllOwed h j lines' que' made
        × SameClosed h j lines' lines
  unfolding step deal_msg
  works-Owed readers reading lines [] made o few s = (lines, [], refl, tt, o, λ u. refl)
  works-Owed readers reading lines (m ∷ rest) made o few s =
      let (lines', stepped, o', same) = works-front readers reading lines m rest made o few s.0 in
      (lines', rest, stepped, s.1, o', same)
