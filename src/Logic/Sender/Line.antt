-- ===== src/Logic/Sender/Line.antt =====
-- One session's sending side and its socket, under any order of sends and completed writes.
use asio_learn.Base.{
  ℕ, Bool, true, false, List, [], ◌∷◌, ◌++◌, Option, none, some, if◌then◌else◌, length, drop, ◌≢◌,
}
use asio_learn.Wire.Endian.{Host}
use asio_learn.Wire.{Result, ok, throws, faults, SendNode, new_send_node}
use asio_learn.Logic.Sender.{Sender, Started, send, handle_write}

-- A session and its socket: the write in flight, the writes that completed, and whether memory was
-- misused. `accepted` records the nodes that `Send` took into the queue.
pub record Line : Type 0 where
  pub sender : Sender
  pub in_flight : Option (List ℕ)
  pub written : List (List ℕ)
  pub accepted : List SendNode
  pub misused : Bool

-- A caller sends, or the socket reports the end of the write in flight, by whether it failed.
pub data Event : Type 0 where
  sends : List ℕ → ℕ → ℕ → Event
  completes : Bool → Event

-- A write that a call starts is in flight; one beside another would mix their bytes.
abbrev pub start : Option (List ℕ) → Line → Line
start none l = l
start (some w) l = elim l.in_flight [
  | none ↦ record l { in_flight = some w }
  | some _ ↦ record l { misused = true }
]

abbrev pub sent : Line → Result Started → Line
sent l (ok t) = start t.write (record l {
  sender = t.sender;
  accepted = l.accepted ++ drop (length l.sender.send_que) t.sender.send_que;
})
sent l throws = l
sent l faults = record l { misused = true }

abbrev pub finished : Line → Result Started → Line
finished l (ok t) = start t.write (record l { sender = t.sender })
finished l throws = l
finished l faults = record l { misused = true }

-- The end of a write, if there is one in flight.
abbrev pub complete : Line → Bool → Option (List ℕ) → Line
complete l failed none = l
complete l failed (some w) =
    finished
      (record l { in_flight = none; written = if failed then l.written else l.written ++ w ∷ [] })
      (handle_write l.sender failed)

module _ (h : Host) where
  unfoldable pub step : Line → Event → Line
  step l (sends msg max_length msgid) = sent l (send h l.sender msg max_length msgid)
  step l (completes failed) = complete l failed l.in_flight

  unfoldable pub run : Line → List Event → Line
  run l [] = l
  run l (e ∷ es) = run (step l e) es

  -- The caller's memory holds the bytes that it names.
  abbrev pub IsSound : Event → Type 0
  IsSound (sends msg max_length msgid) = new_send_node h msg max_length msgid ≢ faults
  IsSound (completes failed) = Unit

  abbrev pub AreSound : List Event → Type 0
  AreSound [] = Unit
  AreSound (e ∷ es) = IsSound e × AreSound es

unfoldable pub fresh_line : Line
fresh_line = record {
  sender = record { send_que = []; b_close = false };
  in_flight = none;
  written = [];
  accepted = [];
  misused = false;
}
