-- ===== src/Http/Whole.antt =====
-- The whole chat server of example/webSocket: the listener, the HTTP sessions and the websocket
-- sessions, with their handlers in any order. A connection keeps its number from its accept on.
pub mod Steps
pub mod Members
pub mod Projection
pub mod Joined
use asio_learn.Base.{
  ℕ, Bool, true, false, not, ◌&&◌, ◌||◌, List, [], ◌∷◌, ◌++◌, Option, none, some, if◌then◌else◌,
  update,
}
use asio_learn.Http.{
  Response, FileSystem, Next, reads_again, writes, hands_over, stops, shuts_down, on_read, on_write,
}
use asio_learn.Http.Listener.{Setup, Listener, new_listener, accepts}
use asio_learn.Http.Listener as Listeners
use asio_learn.Http.Upgrade.{Arrival, do_read}
use asio_learn.Chat.Life as Lives
use asio_learn.Chat.Life.{Life, empty}

-- `open`: the connections whose HTTP session reads; what was written on each.
pub record Whole : Type 0 where
  pub listener : Listener
  pub open_http : ℕ → Bool
  pub responses : ℕ → List Response
  pub life : Life

-- An accept ends; something arrives on a connection, with whether the write of its response fails; or
-- an event of the websocket sessions.
pub data Happening : Type 0 where
  connects : Option ℕ → Happening
  asks : ℕ → Arrival → Bool → Happening
  talks : Lives.Event → Happening

-- The listener and its `run`.
abbrev pub start : Setup → Whole
start setup = record {
  listener = Listeners.run (new_listener setup);
  open_http = λ u. false;
  responses = λ u. [];
  life = empty;
}

-- `on_accept` of the listener makes an HTTP session that reads.
abbrev pub connected : Whole → Option ℕ → ℕ → Bool
connected w none = w.open_http
connected w (some u) =
    if w.listener.accepting && w.listener.listening then update w.open_http u true else w.open_http

-- A number stands for one connection at a time.
abbrev pub in_use : Whole → Option ℕ → Bool
in_use w none = false
in_use w (some u) = w.open_http u || w.life.lives u

abbrev pub close : Whole → ℕ → Whole
close w u = record w { open_http = update w.open_http u false }

abbrev pub written : Whole → ℕ → Response → Whole
written w u r = record w { responses = update w.responses u (w.responses u ++ r ∷ []) }

-- `on_write` of the HTTP session.
abbrev pub after_write : Whole → ℕ → Response → Next → Whole
after_write w u r reads_again = written w u r
after_write w u r stops = close w u
after_write w u r _ = close (written w u r) u

-- `on_read` of the HTTP session: the websocket session is created, and its handshake is started.
abbrev pub after_read : Whole → ℕ → Bool → Next → Whole
after_read w u broken (writes r) = after_write w u r (on_write broken r.keep_alive)
after_read w u broken hands_over = record (close w u) { life = Lives.step w.life (Lives.creates u) }
after_read w u broken _ = close w u

-- A websocket session is created by an upgrade alone.
abbrev pub is_creates : Lives.Event → Bool
is_creates (Lives.creates u) = true
is_creates _ = false

module _ (fs : FileSystem) (doc_root : List ℕ) where
  unfoldable pub step : Whole → Happening → Whole
  step w (connects a) =
      if in_use w a
      then w
      else record w { listener = accepts w.listener (a ∷ []); open_http = connected w a }
  step w (asks u a broken) =
      if w.open_http u then after_read w u broken (on_read fs doc_root (do_read a)) else w
  step w (talks e) = if is_creates e then w else record w { life = Lives.step w.life e }

  unfoldable pub run : Whole → List Happening → Whole
  run w [] = w
  run w (h ∷ hs) = run (step w h) hs
