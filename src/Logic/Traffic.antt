-- ===== src/Logic/Traffic.antt =====
-- All of example/logicServer at work: every session with its reader and its socket, and the logic
-- system that they share. An event is a read that completes, a turn of the worker, or the end of a
-- write; in between, `HandleRead` posts its messages, and the worker sends its replies, which may go
-- to a session whose last write is still in flight. The posts of one call are one step (Atomic is
-- about turns between them). The table of sessions is Logic/Server.
pub mod Atomic
pub mod Inbox
pub mod Socket
pub mod Owed
pub mod Steps
pub mod Turns
pub mod Coming
pub mod Served
pub mod Drained
use asio_learn.Base.{
  ℕ, Bool, true, false, List, [], ◌∷◌, ◌++◌, Option, none, some, ◌==◌, if◌then◌else◌, update,
}
use asio_learn.Wire.Endian.{Host}
use asio_learn.Wire.{Result, ok, throws, faults}
use asio_learn.Logic.Reader.{
  Reader, Outcome, Next, read_more, no_read, cleared, stalled, out_of_fuel, handle_read,
}
use asio_learn.Logic.Reader
use asio_learn.Logic.Sender.{Started, send_string, close}
use asio_learn.Logic.Sender.Line.{Line, fresh_line, sent}
use asio_learn.Logic.Sender.Line
use asio_learn.Logic.System.{
  Json, Reply, System, Turn, goes_on, terminates, waits, undefined, deal_msg,
}
use asio_learn.Logic.Exchange.{post_all}

-- `reading`: whether a read of the session has been started and has not completed.
pub record Running : Type 0 where
  pub reader : ℕ → Reader
  pub reading : ℕ → Bool
  pub line : ℕ → Line
  pub system : System

pub data Event : Type 0 where
  arrives : ℕ → Option (List ℕ) → Event
  works : Event
  writes : ℕ → Bool → Event

-- Sessions that have been started, before anything has come.
abbrev pub begun : (ℕ → Reader) → Running
begun readers = record {
  reader = readers;
  reading = λ u. true;
  line = λ u. fresh_line;
  system = record { msg_que = []; b_stop = false; replies = [] };
}

-- Where a call of `HandleRead` ended: with a new read, or with `Close`.
abbrev pub reads_on : Next → Bool
reads_on read_more = true
reads_on _ = false

abbrev pub closing : Next → Line → Line
closing Reader.closed l = record l { sender = close l.sender }
closing _ l = l

abbrev pub taken : Running → ℕ → Outcome → Next → Turn Running
taken s u o Reader.undefined = undefined
taken s u o next = goes_on (record {
  reader = update s.reader u o.reader;
  reading = update s.reading u (reads_on next);
  line = update s.line u (closing next (s.line u));
  system = post_all s.system u o.posted;
})

abbrev pub go_on {ℓ} : {A B : Type ℓ} → Turn A → (A → Turn B) → Turn B
go_on (goes_on a) f = f a
go_on terminates f = terminates
go_on waits f = waits
go_on undefined f = undefined

-- A call of `session->Send`; no caller of the callback catches what it throws.
abbrev pub outgoing : Line → Result Started → Turn Line
outgoing l (ok t) = goes_on (sent l (ok t))
outgoing l throws = terminates
outgoing l faults = undefined

-- The replies of a turn.
abbrev pub deliver : Host → (ℕ → Line) → List Reply → Turn (ℕ → Line)
deliver h lines [] = goes_on lines
deliver h lines (r ∷ rs) =
    let l = lines r.session in
    go_on (outgoing l (send_string h l.sender r.text r.msgid))
      (λ t. deliver h (update lines r.session t) rs)

-- A worker that has to wait leaves things as they are.
abbrev pub worked : Host → Running → Turn System → Turn Running
worked h s (goes_on sys) =
    go_on (deliver h s.line sys.replies)
      (λ lines. goes_on (record s { line = lines; system = record sys { replies = [] } }))
worked h s terminates = terminates
worked h s waits = goes_on s
worked h s undefined = undefined

module _ (h : Host) (j : Json) where
  unfoldable pub step : Running → Event → Turn Running
  unfolding post_all close
  step s (arrives u c) =
      let o = handle_read h (s.reader u) c in if s.reading u then taken s u o o.next else goes_on s
  step s works = worked h s (deal_msg j s.system)
  step s (writes u failed) =
      goes_on (record s { line = update s.line u (Line.step h (s.line u) (Line.completes failed)) })

  unfoldable pub run : Running → List Event → Turn Running
  run s [] = goes_on s
  run s (e ∷ es) = go_on (step s e) (λ t. run t es)
