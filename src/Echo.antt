-- ===== src/Echo.antt =====
-- The two echo servers: example/coExample/coServer.cc, whose coroutine writes back what each read
-- gives, and example/webSocket/websocket_server_coro.cc, the same over websockets, with its listener.
-- The results of the asynchronous operations (Boost.Asio, Boost.Beast) are the input of a run.
pub mod Client
pub mod Main
pub mod Blocking
use asio_learn.Base.{ℕ, ◌≡◌, refl, ap, Bool, true, false, List, [], ◌∷◌, ◌++◌, map}

-- A read gives bytes, or an error: that the peer has closed, or another.
pub data Read : Type 0 where
  received : List ℕ → Read
  peer_closed : Read
  read_failed : Read

-- How a session stands: it waits for a read, left its loop, reported a failure, or caught an exception.
pub data Standing : Type 0 where
  waits leaves fails catches : Standing

-- What was written without error, and how the session stands.
pub record Session : Type 0 where
  pub written : List (List ℕ)
  pub standing : Standing

abbrev pub behind : List ℕ → Session → Session
behind message rest = record rest { written = message ∷ rest.written }

abbrev pub ended : Standing → Session
ended s = record { written = []; standing = s }

-- `echo`: any error throws. Each read comes with whether the write after it fails.
unfoldable pub echo : List (Read × Bool) → Session
echo [] = ended waits
echo ((received message, true) ∷ reads) = ended catches
echo ((received message, false) ∷ reads) = behind message (echo reads)
echo ((peer_closed, broken) ∷ reads) = ended catches
echo ((read_failed, broken) ∷ reads) = ended catches

-- The loop of `do_session`.
unfoldable pub session_loop : List (Read × Bool) → Session
session_loop [] = ended waits
session_loop ((received message, true) ∷ reads) = ended fails
session_loop ((received message, false) ∷ reads) = behind message (session_loop reads)
session_loop ((peer_closed, broken) ∷ reads) = ended leaves
session_loop ((read_failed, broken) ∷ reads) = ended fails

-- `do_session`, by whether the handshake failed.
unfoldable pub do_session : Bool → List (Read × Bool) → Session
unfolding session_loop
do_session true reads = ended fails
do_session false reads = session_loop reads

-- The loop of `do_listen`: a connection is given to a session, and a failed accept is reported.
pub data Accept : Type 0 where
  connects : ℕ → Accept
  accept_failed : Accept

unfoldable pub listen_loop : List Accept → List ℕ
listen_loop [] = []
listen_loop (connects c ∷ rest) = c ∷ listen_loop rest
listen_loop (accept_failed ∷ rest) = listen_loop rest

-- The four steps before it, each with whether it failed.
pub record Setup : Type 0 where
  pub open_fails : Bool
  pub set_option_fails : Bool
  pub bind_fails : Bool
  pub listen_fails : Bool

-- `do_listen`: the connections that are given to sessions.
unfoldable pub do_listen : Setup → List Accept → List ℕ
unfolding listen_loop
do_listen s accepts = elim s.open_fails [
  | true ↦ []
  | false ↦ elim s.set_option_fails [
    | true ↦ []
    | false ↦ elim s.bind_fails [
      | true ↦ []
      | false ↦ elim s.listen_fails [ true ↦ [] | false ↦ listen_loop accepts ]
    ]
  ]
]

-- Messages that are read, with writes that succeed.
abbrev pub messages : List (List ℕ) → List (Read × Bool)
messages ds = map (λ d. (received d, false)) ds
