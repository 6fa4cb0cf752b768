-- ===== src/Logic/Traffic/Drained.antt =====
-- Every reply is written in the end.
use asio_learn.Base.{
  ℕ, zero, suc, ◌-◌, ◌≤◌, ◌≡◌, refl, sym, ap, ◌∙◌, Bool, true, false, List, [], ◌∷◌, ◌++◌, Option,
  none, some, map, arith, length, replicate, append-nil, length-map,
}
use asio_learn.Wire.Endian.{Host}
use asio_learn.Wire.{SendNode, max_sendque}
use asio_learn.Logic.Reader.{Reader}
use asio_learn.Logic.Reader.Frames.{Message, boundary, Stands}
use asio_learn.Logic.Sender.{Sender, front_write, handle_write}
use asio_learn.Logic.Sender.Line as Socket
use asio_learn.Logic.Sender.Line.{Line, complete, fresh_line}
use asio_learn.Logic.Sender.Fifo.{Flies}
use asio_learn.Logic.System.{Json, LogicNode, Turn, goes_on, terminates, waits, undefined}
use asio_learn.Logic.System.Order.{answers}
use asio_learn.Logic.Traffic.{Running, Event, works, writes, begun, go_on, run}
use asio_learn.Logic.Traffic.Inbox.{fails, logic_node, logic_nodes}
use asio_learn.Logic.Traffic.Socket.{start-sender}
use asio_learn.Logic.Traffic.Owed.{AllServable, Owed, Owed-room}
use asio_learn.Logic.Traffic.Steps.{at_rest, AllOwed, writes-Owed}
use asio_learn.Logic.Traffic.Turns.{works-front}
use asio_learn.Logic.Traffic.Served.{begun-Owed, Sends, reply_frame, Owed-frames}

-- A write that completes takes the front off the queue.
complete-pops :
    (l : Line) (w : Option (List ℕ)) (que : List SendNode)
    → l.sender.send_que ≡ que
    → l.sender.b_close ≡ false
    → w ≡ front_write que
    → (length (complete l false w).sender.send_que ≡ length que - 1)
      × ((complete l false w).sender.b_close ≡ false)
unfolding handle_write
complete-pops l none [] e open_ f = rw e (refl, open_)
complete-pops l none (n ∷ que) e open_ f = absurd (cc f)
complete-pops l (some w) [] e open_ f = absurd (cc f)
complete-pops l (some w) (n ∷ que) e open_ f = rw e (
  ap (λ (x : Sender). length x.send_que) (start-sender (front_write que) _) ∙ omega arith,
  ap (λ (x : Sender). x.b_close) (start-sender (front_write que) _) ∙ open_,
)

flying :
    (closed : Bool) (w : Option (List ℕ)) (que : List SendNode)
    → Flies closed w que
    → closed ≡ false
    → w ≡ front_write que
flying false w que f e = f
flying true w que f e = absurd (cc e)

module _ (h : Host) (j : Json) where
  then-run :
      (x : Turn Running) (es fs : List Event)
      → ((s : Running) → run h j s (es ++ fs) ≡ go_on (run h j s es) (λ t. run h j t fs))
      → go_on x (λ s. run h j s (es ++ fs))
        ≡ go_on (go_on x (λ s. run h j s es)) (λ t. run h j t fs)
  then-run (goes_on s) es fs k = k s
  then-run terminates es fs k = refl
  then-run waits es fs k = refl
  then-run undefined es fs k = refl

  run-append :
      (es fs : List Event) (s : Running)
      → run h j s (es ++ fs) ≡ go_on (run h j s es) (λ t. run h j t fs)
  unfolding run
  run-append [] fs s = refl
  run-append (e ∷ es) fs s = then-run _ es fs (run-append es fs)

  module _ (readers : ℕ → Reader) (reading : ℕ → Bool) (made : ℕ → List LogicNode)
      (few : (u : ℕ) → length (made u) ≤ max_sendque) where
    -- The turns that empty the queue of the logic system.
    works-drain :
        (que : List LogicNode) (lines : ℕ → Line)
        → AllOwed h j lines que made
        → AllServable h j que
        → (lines' : ℕ → Line) × (run h j
              (at_rest readers reading lines que)
              (replicate (length que) works)
            ≡ goes_on (at_rest readers reading lines' []))
          × AllOwed h j lines' [] made
          × ((u : ℕ) → (lines' u).sender.b_close ≡ (lines u).sender.b_close)
    unfolding run
    works-drain [] lines o s = (lines, refl, o, λ u. refl)
    works-drain (m ∷ que) lines o s =
        let (lines', stepped, o', same) =
          works-front h j readers reading lines m que made o few s.0 in
        let (lines'', ran, o'', same') = works-drain que lines' o' s.1 in
        (lines'', rw stepped ran, o'', λ u. same' u ∙ same u)

    -- The writes that empty the queue of session `u`.
    writes-drain :
        (u n : ℕ) (lines : ℕ → Line)
        → AllOwed h j lines [] made
        → (lines u).sender.b_close ≡ false
        → length (lines u).sender.send_que ≤ n
        → (lines' : ℕ → Line) × (run h j
              (at_rest readers reading lines [])
              (replicate n (writes u false))
            ≡ goes_on (at_rest readers reading lines' []))
          × AllOwed h j lines' [] made
          × (length (lines' u).sender.send_que ≡ 0)
    unfolding run Socket.step
    writes-drain u zero lines o open_ l = (lines, refl, o, omega (arith, l))
    writes-drain u (suc n) lines o open_ l =
        let (lines', stepped, o', new) = writes-Owed h j readers reading lines [] made o u false in
        let line = lines u in
        let pops = complete-pops line line.in_flight line.sender.send_que refl open_ (
          flying line.sender.b_close line.in_flight line.sender.send_que (o u).fifo.one_write
            open_) in
        let fewer = ap (λ (x : Line). length x.sender.send_que) new ∙ pops.0 in
        let (lines'', ran, o'', empty) =
          writes-drain u n lines' o' (ap (λ (x : Line). x.sender.b_close) new ∙ pops.1)
            (omega (arith, l, fewer)) in
        (lines'', rw stepped ran, o'', empty)

  length-empty : (que : List SendNode) → length que ≡ 0 → que ≡ []
  length-empty [] e = refl
  length-empty (n ∷ que) e = absurd (omega (arith, e))

  Owed-written :
      (l : Line) (u : ℕ) (made : List LogicNode)
      → Owed h j l [] u made
      → length l.sender.send_que ≡ 0
      → l.written ≡ map (reply_frame h j) (answers j made)
  Owed-written l u made o empty =
      let frames = rw (length-empty l.sender.send_que empty) at (Owed-frames h j l [] u made o) in
      sym (append-nil l.written) ∙ sym (append-nil (l.written ++ [])) ∙ frames

  drain-all :
      (readers : ℕ → Reader) (reading : ℕ → Bool) (lines : ℕ → Line) (que : List LogicNode)
      (made : ℕ → List LogicNode) (u n : ℕ)
      → ((v : ℕ) → length (made v) ≤ max_sendque)
      → AllOwed h j lines que made
      → AllServable h j que
      → (lines u).sender.b_close ≡ false
      → length (made u) ≤ n
      → (t : Running) × (run h j
            (at_rest readers reading lines que)
            (replicate (length que) works ++ replicate n (writes u false))
          ≡ goes_on t)
        × ((t.line u).written ≡ map (reply_frame h j) (answers j (made u)))
  drain-all readers reading lines que made u n few o s open_ l =
      let (lines', worked, o', same) = works-drain readers reading made few que lines o s in
      let (lines'', written, o'', empty) =
        writes-drain readers reading made few u n lines' o' (same u ∙ open_)
          (omega (arith, Owed-room h j _ _ _ _ (o' u), l)) in
      (
        at_rest readers reading lines'' [],
        rw (run-append (replicate (length que) works) (replicate n (writes u false)), worked)
            written,
        Owed-written (lines'' u) u (made u) (o'' u) empty,
      )

  -- After any events in which no write of session `u` fails, the worker makes some more turns, and
  -- then writes of `u` complete, as many as it has sent messages: what has been written for `u` is the
  -- frames of the replies to all that it has sent, in order. No read fails or ends inside a head, a
  -- session sends at most 1000 messages, and the callback throws on none and its reply fits a message.
  pub run-written :
      (es : List Event) (readers : ℕ → Reader) (total : ℕ → List Message) (u : ℕ)
      → ((v : ℕ) → Stands (readers v) boundary)
      → ((v : ℕ) → Sends h j v es (total v))
      → ((v : ℕ) → AllServable h j (logic_nodes v (total v)))
      → ((v : ℕ) → length (total v) ≤ max_sendque)
      → fails u es ≡ false
      → (turns : ℕ) × (t : Running) × (run h j
            (begun readers)
            (es ++ (replicate turns works ++ replicate (length (total u)) (writes u false)))
          ≡ goes_on t)
        × ((t.line u).written ≡ map (reply_frame h j) (answers j (logic_nodes u (total u))))
  run-written es readers total u stands come serve few fine =
      let (s, que, ran, sys, front, owed, open_) =
        begun-Owed h j es readers total stands come serve few in
      let rest : s ≡ at_rest s.reader s.reading s.line que =
        ap (λ x. record s { system = x }) sys in
      let (t, drained, written) =
        drain-all s.reader s.reading s.line que (λ v. logic_nodes v (total v)) u (length (total u))
          (λ v. omega (arith, length-map (logic_node v) (total v), few v)) owed front (open_ u fine)
          (omega (arith, length-map (logic_node u) (total u))) in
      let tail = replicate (length que) works ++ replicate (length (total u)) (writes u false) in
      (
        length que,
        t,
        run-append es tail (begun readers)
            ∙ ap (λ x. go_on x (λ y. run h j y tail)) ran
            ∙ ap (λ x. run h j x tail) rest
            ∙ drained,
        written,
      )
