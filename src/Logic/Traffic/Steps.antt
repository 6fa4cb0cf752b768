-- ===== src/Logic/Traffic/Steps.antt =====
-- What an event changes for each session.
use mathlib.Core.List.{map-append}
use asio_learn.Base.{
  ℕ, ◌≡◌, refl, sym, Bool, true, List, [], ◌++◌, Option, some, map, update, false, ◌==◌,
  if◌then◌else◌, by_key, ==_refl, append_assoc, append-nil,
}
use asio_learn.Wire.Endian.{Host}
use asio_learn.Logic.Reader.{Reader, Outcome, handle_read}
use asio_learn.Logic.Reader.Frames.{Message, Place}
use asio_learn.Logic.Reader.Deliver.{Delivered}
use asio_learn.Logic.Sender.Line as Socket
use asio_learn.Logic.Sender.Line.{Line, sent}
use asio_learn.Logic.Sender.Fifo.{step-IsFifo}
use asio_learn.Logic.System.{Json, LogicNode, goes_on}
use asio_learn.Logic.System.Order.{answers, answers-append}
use asio_learn.Logic.System.Own.{own_messages}
use asio_learn.Logic.Traffic.{Running, arrives, writes, taken, step}
use asio_learn.Logic.Traffic.Inbox.{
  logic_nodes, own_messages-append, own_messages-own, own_messages-others, idle_system,
  post_all-nodes,
}
use asio_learn.Logic.Traffic.Socket.{complete-accepted, complete-closed}
use asio_learn.Logic.Traffic.Owed.{reply_node, Owed}

-- A state between two events.
abbrev pub at_rest : (ℕ → Reader) → (ℕ → Bool) → (ℕ → Line) → List LogicNode → Running
at_rest readers reading lines que = record {
  reader = readers;
  reading = reading;
  line = lines;
  system = idle_system que;
}

module _ (h : Host) (j : Json) where
  abbrev pub AllOwed : (ℕ → Line) → List LogicNode → (ℕ → List LogicNode) → Type 0
  AllOwed lines que made = (u : ℕ) → Owed h j (lines u) que u (made u)

  abbrev pub SameClosed : (ℕ → Line) → (ℕ → Line) → Type 0
  SameClosed lines' lines = (u : ℕ) → (lines' u).sender.b_close ≡ (lines u).sender.b_close

  module _ (readers : ℕ → Reader) (reading : ℕ → Bool) (lines : ℕ → Line) (que : List LogicNode)
      (made : ℕ → List LogicNode) (owed : AllOwed lines que made) where
    -- The end of a write of session `v`.
    pub writes-Owed :
        (v : ℕ) (failed : Bool)
        → (lines' : ℕ → Line) × (step h j (at_rest readers reading lines que) (writes v failed)
            ≡ goes_on (at_rest readers reading lines' que))
          × AllOwed lines' que made
          × (lines' v ≡ Socket.step h (lines v) (Socket.completes failed))
    unfolding step Socket.step
    writes-Owed v failed = (
      update lines v (Socket.step h (lines v) (Socket.completes failed)),
      refl,
      λ u.
          by_key
            (λ u.
              Owed h j (update lines v (Socket.step h (lines v) (Socket.completes failed)) u) que u
                (made u))
            v u
            (rw (==_refl v) (record {
              fifo = step-IsFifo h (lines v) (Socket.completes failed) tt (owed v).fifo;
              account =
                  rw (complete-accepted (lines v) failed (lines v).in_flight) (owed v).account;
            }))
            (λ other. rw other (owed u)),
      rw (==_refl v) refl,
    )

    pub writes-SameClosed :
        (v : ℕ) (failed : Bool) (u : ℕ)
        → (if v == u then failed else false) ≡ false
        → (((writes-Owed v failed).0) u).sender.b_close ≡ (lines u).sender.b_close
    unfolding writes-Owed Socket.step
    writes-SameClosed v failed u =
        by_key
          (λ u.
            (if v == u then failed else false) ≡ false
            → (((writes-Owed v failed).0) u).sender.b_close ≡ (lines u).sender.b_close)
          v u
          (rw (==_refl v) (λ fine.
            rw fine (complete-closed (lines v) (lines v).in_flight (lines v).sender.send_que refl)))
          (λ other. rw other (λ fine. refl))

    pub arrives-SameClosed : (v : ℕ) → SameClosed (update lines v (lines v)) lines
    arrives-SameClosed v u =
        by_key (λ u. (update lines v (lines v) u).sender.b_close ≡ (lines u).sender.b_close) v u
          (rw (==_refl v) refl) (λ other. rw other refl)

    -- The messages of session `v` that a read completes.
    pub arrives-Owed :
        (v : ℕ) (ms : List Message)
        → AllOwed
            (update lines v (lines v))
            (que ++ logic_nodes v ms)
            (update made v (made v ++ logic_nodes v ms))
    arrives-Owed v ms u =
        by_key
          (λ u.
            Owed h j (update lines v (lines v) u) (que ++ logic_nodes v ms) u
              (update made v (made v ++ logic_nodes v ms) u))
          v u
          (rw (==_refl v) (record {
            fifo = (owed v).fifo;
            account =
                let replies = map (reply_node h j) (answers j (logic_nodes v ms)) in
                rw
                  (
                    own_messages-append v que (logic_nodes v ms),
                    own_messages-own v ms,
                    answers-append j (own_messages v que) (logic_nodes v ms),
                    answers-append j (made v) (logic_nodes v ms),
                    map-append (reply_node h j) (answers j (own_messages v que)),
                    map-append (reply_node h j) (answers j (made v)),
                    ← (owed v).account,
                  )
                  (sym (append_assoc (lines v).accepted _ replies));
          }))
          (λ other. rw other (record {
            fifo = (owed u).fifo;
            account =
                rw
                  (
                    own_messages-append u que (logic_nodes v ms),
                    own_messages-others v u ms other,
                    append-nil,
                  )
                  (owed u).account;
          }))

  -- A read of session `v` that carries the messages `ms`.
  arrives-goes_on :
      (readers : ℕ → Reader) (reading : ℕ → Bool) (lines : ℕ → Line) (que : List LogicNode) (v : ℕ)
      (o : Outcome) (ms : List Message) (q : Place)
      → Delivered [] ms q o
      → taken (at_rest readers reading lines que) v o o.next
        ≡ goes_on (
            at_rest
              (update readers v o.reader)
              (update reading v true)
              (update lines v (lines v))
              (que ++ logic_nodes v ms))
  arrives-goes_on readers reading lines que v o ms q d = rw (d.1, d.0, post_all-nodes v que ms)

  pub arrives-step :
      (readers : ℕ → Reader) (reading : ℕ → Bool) (lines : ℕ → Line) (que : List LogicNode) (v : ℕ)
      (c : Option (List ℕ)) (c0 : List ℕ) (ms : List Message) (q : Place)
      → reading v ≡ true
      → c ≡ some c0
      → Delivered [] ms q (handle_read h (readers v) (some c0))
      → step h j (at_rest readers reading lines que) (arrives v c)
        ≡ goes_on (
            at_rest
              (update readers v (handle_read h (readers v) (some c0)).reader)
              (update reading v true)
              (update lines v (lines v))
              (que ++ logic_nodes v ms))
  unfolding step
  arrives-step readers reading lines que v c c0 ms q on e d =
      rw (on, e)
        (arrives-goes_on readers reading lines que v (handle_read h (readers v) (some c0)) ms q d)
