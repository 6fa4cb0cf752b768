-- ===== src/Logic/Sender/Fifo.antt =====
-- One session's sending side under any order of sends and completed writes: the writes on the socket
-- are those of a queue, one at a time.
use mathlib.Core.List.{map-append}
use asio_learn.Base.{
  ℕ, suc, ◌+◌, ◌≤◌, ◌<◌, ◌≡◌, refl, sym, ◌∙◌, Bool, true, false, List, [], ◌∷◌, ◌++◌, map, Option,
  none, some, arith, ltb, if◌then◌else◌, length, drop, ◌≢◌, drop-length, drop-append, length-append,
  append_assoc, append-nil, Bool-cases, inl, inr, ltb→le, lt→ltb,
}
use asio_learn.Wire.Endian.{Host}
use asio_learn.Wire.{Result, ok, throws, faults, ◌>>=◌, SendNode, new_send_node, max_sendque}
use asio_learn.Logic.Sender.{buffer, front_write, quiet, push_node, send, close, handle_write}
use asio_learn.Logic.Sender.Line.{
  Line, Event, sends, completes, sent, complete, step, run, IsSound, AreSound, fresh_line,
}

-- While no write has failed, the front of the queue is in flight; after that nothing is.
abbrev pub Flies : Bool → Option (List ℕ) → List SendNode → Type 0
Flies false w que = w ≡ front_write que
Flies true w que = (w ≡ none) × (0 < length que)

pub record IsFifo (l : Line) : Type 0 where
  pub sane : l.misused ≡ false
  pub one_write : Flies l.sender.b_close l.in_flight l.sender.send_que
  pub in_order : map buffer l.accepted ≡ l.written ++ map buffer l.sender.send_que
  pub bounded : length l.sender.send_que ≤ max_sendque + 1

pub fresh_line-IsFifo : IsFifo fresh_line
unfolding fresh_line
fresh_line-IsFifo = record { sane = refl; one_write = refl; in_order = refl; bounded = omega arith }

-- A line by its parts, of which none is misused yet.
abbrev line : Bool → List SendNode → Option (List ℕ) → List (List ℕ) → List SendNode → Bool → Line
line closed que flight written accepted misused = record {
  sender = record { send_que = que; b_close = closed };
  in_flight = flight;
  written = written;
  accepted = accepted;
  misused = misused;
}

-- A node at the end of the queue.
in_order-push :
    (que accepted : List SendNode) (written : List (List ℕ)) (node : SendNode)
    → map buffer accepted ≡ written ++ map buffer que
    → map buffer (accepted ++ drop (length que) (que ++ node ∷ []))
      ≡ written ++ map buffer (que ++ node ∷ [])
in_order-push que accepted written node e =
    rw (drop-append que (node ∷ []), map-append buffer accepted, map-append buffer que, e)
      (append_assoc written (map buffer que) (buffer node ∷ []))

push-IsFifo :
    (node : SendNode) (closed : Bool) (que : List SendNode) (flight : Option (List ℕ))
    (written : List (List ℕ)) (accepted : List SendNode) (misused : Bool)
    → IsFifo (line closed que flight written accepted misused)
    → length que ≤ max_sendque
    → let l = line closed que flight written accepted misused in
      IsFifo (sent l (ok (push_node l.sender node)))
push-IsFifo node false [] none written accepted misused v b = record {
  sane = v.sane;
  one_write = refl;
  in_order = in_order-push [] accepted written node v.in_order;
  bounded = omega arith;
}
push-IsFifo node false (n ∷ que) flight written accepted misused v b =
    rw (lt→ltb 0 (suc (length que)) (omega arith)) (record {
      sane = v.sane;
      one_write = v.one_write;
      in_order = in_order-push (n ∷ que) accepted written node v.in_order;
      bounded = omega (arith, length-append que (node ∷ []));
    })
push-IsFifo node false [] (some w) written accepted misused v b = absurd (cc v.one_write)
push-IsFifo node true [] flight written accepted misused v b = absurd (omega (arith, v.one_write.1))
push-IsFifo node true (n ∷ que) flight written accepted misused v b =
    rw (lt→ltb 0 (suc (length que)) (omega arith)) (record {
      sane = v.sane;
      one_write = (v.one_write.0, omega arith);
      in_order = in_order-push (n ∷ que) accepted written node v.in_order;
      bounded = omega (arith, length-append que (node ∷ []));
    })

pub made-IsFifo :
    (l : Line) (made : Result SendNode)
    → made ≢ faults
    → IsFifo l
    → length l.sender.send_que ≤ max_sendque
    → IsFifo (sent l (made >>= λ node. ok (push_node l.sender node)))
made-IsFifo l (ok node) sound v room =
    push-IsFifo node l.sender.b_close l.sender.send_que l.in_flight l.written l.accepted l.misused v
      room
made-IsFifo l throws sound v room = v
made-IsFifo l faults sound v room = absurd (sound refl)

-- `Send`: the queue is full, or the node is made or `new` throws.
send-IsFifo :
    (l : Line) (made : Result SendNode)
    → made ≢ faults
    → IsFifo l
    → IsFifo (
        sent l (
          if ltb max_sendque (length l.sender.send_que)
          then ok (quiet l.sender)
          else (made >>= λ node. ok (push_node l.sender node))))
send-IsFifo l made sound v = elim (Bool-cases (ltb max_sendque (length l.sender.send_que))) [
  | inl full ↦ rw full (record {
    sane = v.sane;
    one_write = v.one_write;
    in_order = rw (drop-length l.sender.send_que, append-nil) v.in_order;
    bounded = v.bounded;
  })
  | inr room ↦ rw room (made-IsFifo l made sound v (ltb→le _ _ room))
]

-- The front of the queue has been written.
popped :
    (n : SendNode) (w : List ℕ) (que : List SendNode) (written : List (List ℕ))
    (accepted : List SendNode)
    → some w ≡ some (buffer n)
    → map buffer accepted ≡ written ++ map buffer (n ∷ que)
    → map buffer accepted ≡ (written ++ w ∷ []) ++ map buffer que
popped n w que written accepted e order =
    let same : w ≡ buffer n = cc e in
    rw same (order ∙ sym (append_assoc written (buffer n ∷ []) (map buffer que)))

complete-IsFifo :
    (failed closed : Bool) (que : List SendNode) (flight : Option (List ℕ))
    (written : List (List ℕ)) (accepted : List SendNode) (misused : Bool)
    → IsFifo (line closed que flight written accepted misused)
    → IsFifo (complete (line closed que flight written accepted misused) failed flight)
unfolding handle_write close
complete-IsFifo failed closed que none written accepted misused v = v
complete-IsFifo failed true que (some w) written accepted misused v = absurd (cc v.one_write.0)
complete-IsFifo failed false [] (some w) written accepted misused v = absurd (cc v.one_write)
complete-IsFifo true false (n ∷ que) (some w) written accepted misused v = record {
  sane = v.sane;
  one_write = (refl, omega arith);
  in_order = v.in_order;
  bounded = v.bounded;
}
complete-IsFifo false false (n ∷ []) (some w) written accepted misused v = record {
  sane = v.sane;
  one_write = refl;
  in_order = popped n w [] written accepted v.one_write v.in_order;
  bounded = omega arith;
}
complete-IsFifo false false (n ∷ m ∷ que) (some w) written accepted misused v = record {
  sane = v.sane;
  one_write = refl;
  in_order = popped n w (m ∷ que) written accepted v.one_write v.in_order;
  bounded = omega (arith, v.bounded);
}

module _ (h : Host) where
  pub step-IsFifo : (l : Line) (e : Event) → IsSound h e → IsFifo l → IsFifo (step h l e)
  unfolding step send
  step-IsFifo l (sends msg max_length msgid) sound v =
      send-IsFifo l (new_send_node h msg max_length msgid) sound v
  step-IsFifo l (completes failed) sound v =
      complete-IsFifo failed l.sender.b_close l.sender.send_que l.in_flight l.written l.accepted
        l.misused v

  pub run-IsFifo : (es : List Event) (l : Line) → AreSound h es → IsFifo l → IsFifo (run h l es)
  unfolding run
  run-IsFifo [] l sound v = v
  run-IsFifo (e ∷ es) l sound v = run-IsFifo es (step h l e) sound.1 (step-IsFifo l e sound.0 v)

  -- From a new session on, under any order of sends and completed writes: the completed writes, with
  -- the queue behind them, are the buffers of the accepted nodes in the order of the sends; while no
  -- write has failed, exactly the front of the queue is in flight, and after that nothing is; two
  -- writes are never in flight together; the queue holds at most 1001 nodes.
  pub line-IsFifo : (es : List Event) → AreSound h es → IsFifo (run h fresh_line es)
  line-IsFifo es sound = run-IsFifo es fresh_line sound fresh_line-IsFifo
