-- ===== src/Http/Upgrade.antt =====
-- An `http_session`, http_session.cc, from its first read to the websocket session that takes over its
-- socket: `do_read` with the limit of the body, and `websocket_session::run` of websocket_session.hpp,
-- whose handshake leads to `on_accept` of the chat.
use asio_learn.Base.{
  ℕ, ◌≤◌, ◌<◌, ◌≡◌, refl, Bool, true, false, not, ◌&&◌, ◌||◌, ◌==◌, List, [], ◌∷◌, ◌++◌, map, ltb,
  if◌then◌else◌, lt→ltb, le→ltb, append-nil,
}
use asio_learn.Http.{
  Request, Response, FileSystem, handle_request, Read, end_of_stream, read_failed, upgrades,
  requests, Next, hands_over, stops, on_read, on_write,
}
use asio_learn.Http.Answer.{Connection, connection, handle_request-keep_alive}
use asio_learn.Logic.Server.{has_session, has_session-insert}
use asio_learn.Chat.{State, on_accept, join}

-- What comes next on the connection: its end, bytes that are no request or an error, or a request, with
-- whether it asks for an upgrade and how many bytes its body has.
pub data Arrival : Type 0 where
  ends breaks : Arrival
  comes : Bool → ℕ → Request → Arrival

-- `do_read`: each message gets a parser with `body_limit(10000)`, for which a larger body is an error
-- (Boost.Beast).
unfoldable pub do_read : Arrival → Read
do_read ends = end_of_stream
do_read breaks = read_failed
do_read (comes upgrade size req) =
    if ltb 10000 size then read_failed else if upgrade then upgrades else requests req

-- `websocket_session::run`: the handshake, which may fail, and its handler.
unfoldable pub websocket_run : State → ℕ → Bool → State
websocket_run chat u failed = on_accept chat u failed

-- The end of `on_read`: the number of the websocket session is `u`.
abbrev pub taken_over : Next → State → ℕ → Bool → State
taken_over hands_over chat u failed = websocket_run chat u failed
taken_over next chat u failed = chat

-- `run`: what arrives, each with whether the write of a response fails; the responses, and the chat.
unfoldable pub http_run :
    FileSystem → List ℕ → State → ℕ → Bool → List (Arrival × Bool) → Connection × State
http_run fs doc_root chat u failed arrivals =
    let c = connection fs doc_root (map (λ a. (do_read a.0, a.1)) arrivals) in
    (c, taken_over c.last chat u failed)

-- Requests with the sizes of their bodies, each within the limit.
abbrev pub AllFit : List (ℕ × Request) → Type 0
AllFit [] = Unit
AllFit (r ∷ rs) = (r.0 ≤ 10000) × (r.1.keep_alive ≡ true) × AllFit rs

abbrev pub plain : List (ℕ × Request) → List (Arrival × Bool)
plain rs = map (λ r. (comes false r.0 r.1, false)) rs

abbrev pub reads_of : List (Arrival × Bool) → List (Read × Bool)
reads_of arrivals = map (λ a. (do_read a.0, a.1)) arrivals

module _ (fs : FileSystem) (doc_root : List ℕ) where
  abbrev pub responses_to : List (ℕ × Request) → List Response
  responses_to rs = map (λ r. handle_request fs doc_root r.1) rs

  connection-plain :
      (rs : List (ℕ × Request)) (more : List (Arrival × Bool))
      → AllFit rs
      → let c = connection fs doc_root (reads_of more) in
        connection fs doc_root (reads_of (plain rs ++ more))
        ≡ record { responses = responses_to rs ++ c.responses; last = c.last }
  unfolding connection on_read on_write do_read
  connection-plain [] more fit = refl
  connection-plain ((size, r) ∷ rs) more (small, kept, fit) = rw (
    le→ltb 10000 size small,
    connection-plain rs more fit,
    handle_request-keep_alive fs doc_root r,
    kept,
  )

  -- Requests that keep the connection get their responses, in order, and then: an upgrade whose body is
  -- within the limit puts the session into the chat, unless the handshake fails, and leaves the others
  -- as they are; and a request with a larger body, whether it asks for an upgrade or not, ends the
  -- connection without a response and leaves the chat as it is. What arrives later has no effect.
  pub http_run-upgraded :
      (chat : State) (u : ℕ) (failed : Bool) (rs : List (ℕ × Request)) (size large : ℕ)
      (upgrade broken : Bool) (r : Request) (more : List (Arrival × Bool))
      → AllFit rs
      → size ≤ 10000
      → 10000 < large
      → let taken =
          http_run fs doc_root chat u failed (plain rs ++ (comes true size r, broken) ∷ more) in
        let refused =
          http_run fs doc_root chat u failed (plain rs ++ (comes upgrade large r, broken) ∷ more) in
        (taken.0 ≡ record { responses = responses_to rs; last = hands_over })
        × ((v : ℕ)
            → has_session v taken.1.sessions
              ≡ ((not failed && u == v) || has_session v chat.sessions))
        × (refused ≡ (record { responses = responses_to rs; last = stops }, chat))
  unfolding http_run websocket_run connection on_read do_read on_accept join
  http_run-upgraded chat u failed rs size large upgrade broken r more fit small over = (
    rw (
      connection-plain rs ((comes true size r, broken) ∷ more) fit,
      le→ltb 10000 size small,
      append-nil,
    ),
    λ v.
        rw (connection-plain rs ((comes true size r, broken) ∷ more) fit, le→ltb 10000 size small)
          (joined v failed),
    rw (
      connection-plain rs ((comes upgrade large r, broken) ∷ more) fit,
      lt→ltb 10000 large over,
      append-nil,
    ),
  )
    where
      joined :
          (v : ℕ) (b : Bool)
          → has_session v (on_accept chat u b).sessions
            ≡ ((not b && u == v) || has_session v chat.sessions)
      joined v true = refl
      joined v false = has_session-insert v u chat.sessions
