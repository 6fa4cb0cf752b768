-- ===== src/Logic/Traffic/Served.antt =====
-- The sessions of the server get their replies, whatever happens in between.
use mathlib.Core.List.{map-append}
use asio_learn.Base.{
  ℕ, ◌≤◌, ◌≡◌, ◌==◌, if◌then◌else◌, false, ◌||◌, refl, sym, ap, ap₂, ◌∙◌, Bool, true, false, List,
  [], ◌∷◌, ◌++◌, some, map, length, update, subst, append-nil,
}
use asio_learn.Wire.Endian.{Host}
use asio_learn.Wire.{max_sendque}
use asio_learn.Logic.Reader.{Reader, handle_read}
use asio_learn.Logic.Reader.Frames.{Message, Place, boundary, Stands, frame}
use asio_learn.Logic.Reader.Stream.{Arrives}
use asio_learn.Logic.Sender.{buffer}
use asio_learn.Logic.Sender.Line.{Line, fresh_line}
use asio_learn.Logic.Sender.Fifo.{Flies, fresh_line-IsFifo}
use asio_learn.Logic.System.{Json, LogicNode, Reply, goes_on}
use asio_learn.Logic.System.Order.{answers}
use asio_learn.Logic.System.Own.{own_messages}
use asio_learn.Logic.Roundtrip.{buffer-sent_node}
use asio_learn.Logic.Traffic.{Running, Event, arrives, works, writes, begun, run}
use asio_learn.Logic.Traffic.Inbox.{reads_of, fails, logic_nodes, idle_system}
use asio_learn.Logic.Traffic.Owed.{AllServable, AllServable-append, reply_node, Owed}
use asio_learn.Logic.Traffic.Steps.{
  at_rest, AllOwed, writes-Owed, arrives-Owed, arrives-step, writes-SameClosed, arrives-SameClosed,
}
use asio_learn.Logic.Traffic.Turns.{works-Owed}
use asio_learn.Logic.Traffic.Coming.{Coming, no_reads, made-few, next-Coming}

neither : (a b : Bool) → (a || b) ≡ false → (a ≡ false) × (b ≡ false)
neither true b e = absurd (cc e)
neither false b e = (refl, e)

module _ (h : Host) (j : Json) where
  -- A session without a failing write stays as open as it was.
  abbrev StaysOpen : List Event → (ℕ → Line) → (ℕ → Line) → Type 0
  StaysOpen es lines' lines =
      (u : ℕ) → fails u es ≡ false → (lines' u).sender.b_close ≡ (lines u).sender.b_close

  pub run-Owed :
      (es : List Event) (total : ℕ → List Message)
      → ((u : ℕ) → AllServable h j (logic_nodes u (total u)))
      → ((u : ℕ) → length (total u) ≤ max_sendque)
      → (readers : ℕ → Reader) (reading : ℕ → Bool) (lines : ℕ → Line) (que : List LogicNode)
        (made : ℕ → List LogicNode)
      → AllServable h j que
      → AllOwed h j lines que made
      → ((u : ℕ) → Coming h j (readers u) (reading u) (reads_of u es) u (made u) (total u))
      → (t : Running) × (que' : List LogicNode) × (run h j (at_rest readers reading lines que) es
          ≡ goes_on t)
        × (t.system ≡ idle_system que')
        × AllServable h j que'
        × AllOwed h j t.line que' (λ u. logic_nodes u (total u))
        × StaysOpen es t.line lines
  unfolding run
  run-Owed [] total serve few readers reading lines que made s o coming = (
    at_rest readers reading lines que,
    que,
    refl,
    refl,
    s,
    λ u.
        let (p, q, cs, ms, e, a, st, on, all) = coming u in
        let behind : ms ≡ [] = no_reads a e in
        subst (Owed h j (lines u) que u) (sym (append-nil (made u)) ∙ (rw behind at all)) (o u),
    λ u fine. refl,
  )
  run-Owed (works ∷ es) total serve few readers reading lines que made s o coming =
      let (lines', que', stepped, s', o', same) =
        works-Owed h j readers reading lines que made o
          (λ u.
            let (p, q, cs, ms, e, a, st, on, all) = coming u in
            made-few h j u (made u) ms (total u) all (few u))
          s in
      let (t, q, ran, sys, s'', owed, open_) =
        run-Owed es total serve few readers reading lines' que' made s' o' coming in
      (t, q, rw stepped ran, sys, s'', owed, λ u fine. open_ u fine ∙ same u)
  run-Owed (writes v failed ∷ es) total serve few readers reading lines que made s o coming =
      let (lines', stepped, o', new) = writes-Owed h j readers reading lines que made o v failed in
      let (t, q, ran, sys, s'', owed, open_) =
        run-Owed es total serve few readers reading lines' que made s o' coming in
      (
        t,
        q,
        rw stepped ran,
        sys,
        s'',
        owed,
        λ u fine.
            let (now, later) = neither (if v == u then failed else false) (fails u es) fine in
            open_ u later ∙ writes-SameClosed h j readers reading lines que made o v failed u now,
      )
  run-Owed (arrives v c ∷ es) total serve few readers reading lines que made s o coming =
      let (c0, ms, p, some_c, on, d, front, coming') =
        next-Coming h j readers reading made total v c es serve coming in
      let (t, que', ran, sys, s', owed, open_) =
        run-Owed es total serve few (update readers v (handle_read h (readers v) (some c0)).reader)
          (update reading v true) (update lines v (lines v)) (que ++ logic_nodes v ms)
          (update made v (made v ++ logic_nodes v ms))
          (AllServable-append h j que (logic_nodes v ms) s front)
          (arrives-Owed h j readers reading lines que made o v ms) coming' in
      (
        t,
        que',
        rw (arrives-step h j readers reading lines que v c c0 ms p on some_c d) ran,
        sys,
        s',
        owed,
        λ u fine. open_ u fine ∙ arrives-SameClosed h j readers reading lines que made o v u,
      )

  abbrev pub reply_frame : Reply → List ℕ
  reply_frame r = frame h (record { id = r.msgid; body = r.text })

  reply_frames : (rs : List Reply) → map buffer (map (reply_node h j) rs) ≡ map reply_frame rs
  reply_frames [] = refl
  reply_frames (r ∷ rs) =
      ap₂ ◌∷◌ (buffer-sent_node h (record { id = r.msgid; body = r.text })) (reply_frames rs)

  pub Owed-frames :
      (l : Line) (que : List LogicNode) (u : ℕ) (made : List LogicNode)
      → Owed h j l que u made
      → l.written
          ++ map buffer l.sender.send_que
          ++ map reply_frame (answers j (own_messages u que))
        ≡ map reply_frame (answers j made)
  Owed-frames l que u made o =
      let waiting = answers j (own_messages u que) in
      ap₂ ◌++◌ (sym o.fifo.in_order) (sym (reply_frames waiting))
      ∙ sym (map-append buffer l.accepted (map (reply_node h j) waiting))
      ∙ ap (map buffer) o.account
      ∙ reply_frames (answers j made)

  -- None of a session's reads fails, and they carry some messages.
  abbrev pub Sends : ℕ → List Event → List Message → Type 0
  Sends u es ms =
      (cs : List (List ℕ)) × (q : Place) × (reads_of u es ≡ map some cs)
      × Arrives h boundary cs ms q

  pub begun-Owed :
      (es : List Event) (readers : ℕ → Reader) (total : ℕ → List Message)
      → ((u : ℕ) → Stands (readers u) boundary)
      → ((u : ℕ) → Sends u es (total u))
      → ((u : ℕ) → AllServable h j (logic_nodes u (total u)))
      → ((u : ℕ) → length (total u) ≤ max_sendque)
      → (s : Running) × (que : List LogicNode) × (run h j (begun readers) es ≡ goes_on s)
        × (s.system ≡ idle_system que)
        × AllServable h j que
        × AllOwed h j s.line que (λ u. logic_nodes u (total u))
        × ((u : ℕ) → fails u es ≡ false → (s.line u).sender.b_close ≡ false)
  unfolding fresh_line
  begun-Owed es readers total stands come serve few =
      run-Owed es total serve few readers (λ u. true) (λ u. fresh_line) [] (λ u. []) tt
        (λ u. record { fifo = fresh_line-IsFifo; account = refl })
        (λ u. let (cs, q, e, a) = come u in (boundary, q, cs, total u, e, a, stands u, refl, refl))

  -- Whatever number of sessions there is, and in whatever order their reads complete, the worker makes
  -- its turns and their writes complete or fail: the server goes on, and for each session, what has
  -- been written, what is queued behind it and the replies to its messages that wait for the worker
  -- are, one after the other, the frames of the replies to all that the session has sent; one write at
  -- a time is in flight, and memory is not misused. No read fails or ends inside a head, a session
  -- sends at most 1000 messages, and the callback throws on none and its reply fits a message.
  pub run-served :
      (es : List Event) (readers : ℕ → Reader) (total : ℕ → List Message)
      → ((u : ℕ) → Stands (readers u) boundary)
      → ((u : ℕ) → Sends u es (total u))
      → ((u : ℕ) → AllServable h j (logic_nodes u (total u)))
      → ((u : ℕ) → length (total u) ≤ max_sendque)
      → (s : Running) × (run h j (begun readers) es ≡ goes_on s)
        × ((u : ℕ)
            → let l = s.line u in
              (l.misused ≡ false)
              × Flies l.sender.b_close l.in_flight l.sender.send_que
              × (l.written
                    ++ map buffer l.sender.send_que
                    ++ map reply_frame (answers j (own_messages u s.system.msg_que))
                  ≡ map reply_frame (answers j (logic_nodes u (total u)))))
  run-served es readers total stands come serve few =
      let (s, que, ran, sys, front, owed, open_) =
        begun-Owed es readers total stands come serve few in
      (
        s,
        ran,
        λ u.
            let l = s.line u in
            let o = owed u in
            (
              o.fifo.sane,
              o.fifo.one_write,
              rw sys (Owed-frames l que u (logic_nodes u (total u)) o),
            ),
      )
