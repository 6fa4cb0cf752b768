-- ===== src/Echo/Client.antt =====
-- `do_session` of example/webSocket/websocket_client_coro.cc: one message to a websocket server and
-- its answer. The results of the asynchronous operations (Boost.Beast) are the input of a run.
use asio_learn.Base.{ℕ, ◌≡◌, refl, Bool, true, false, List, [], ◌∷◌, ◌++◌, Option, none, some}
use asio_learn.Base.Text.{bytes}
use asio_learn.Beast.{decimal}
use asio_learn.Echo.{received, peer_closed, leaves, do_session}

-- The step that failed, as it is reported.
pub data Failure : Type 0 where
  resolve connect handshake write read close : Failure

-- What the operations give: whether each fails, the port of the endpoint, and the message that is
-- read.
pub record Network : Type 0 where
  pub resolve_fails : Bool
  pub connect_fails : Bool
  pub port : ℕ
  pub handshake_fails : Bool
  pub write_fails : Bool
  pub reply : Option (List ℕ)
  pub close_fails : Bool

-- The host of the handshake, the message that was sent, whether the connection was closed, and what
-- was printed or reported.
pub record Client : Type 0 where
  pub host : Option (List ℕ)
  pub sent : Option (List ℕ)
  pub closes : Bool
  pub outcome : List ℕ × Option Failure

abbrev pub reported : Option (List ℕ) → Option (List ℕ) → Bool → Failure → Client
reported host sent closes f = record {
  host = host;
  sent = sent;
  closes = closes;
  outcome = ([], some f);
}

-- `host += ':' + std::to_string(ep.port())`
unfoldable pub host_header : List ℕ → ℕ → List ℕ
host_header host port = host ++ (bytes ":" ++ decimal port [])

abbrev pub after_read : Network → List ℕ → List ℕ → Option (List ℕ) → Client
after_read net host text none = reported (some host) (some text) false read
after_read net host text (some message) = elim net.close_fails [
  | true ↦ reported (some host) (some text) true close
  | false ↦ record { host = some host; sent = some text; closes = true; outcome = (message, none) }
]

abbrev pub after_connect : Network → List ℕ → List ℕ → Client
after_connect net host text = elim net.handshake_fails [
  | true ↦ reported (some host) none false handshake
  | false ↦ elim net.write_fails [
    | true ↦ reported (some host) none false write
    | false ↦ after_read net host text net.reply
  ]
]

unfoldable pub client_session : Network → List ℕ → List ℕ → Client
unfolding host_header
client_session net host text = elim net.resolve_fails [
  | true ↦ reported none none false resolve
  | false ↦ elim net.connect_fails [
    | true ↦ reported none none false connect
    | false ↦ after_connect net (host_header host net.port) text
  ]
]

-- A network between the client and a session of the echo server: the client reads the first message
-- that the session writes for the one that it gets.
abbrev pub first_message : List (List ℕ) → Option (List ℕ)
first_message [] = none
first_message (m ∷ ms) = some m

abbrev pub echoing : List ℕ → ℕ → Network
echoing text port = record {
  resolve_fails = false;
  connect_fails = false;
  port = port;
  handshake_fails = false;
  write_fails = false;
  reply =
      first_message (do_session false ((received text, false) ∷ (peer_closed, false) ∷ [])).written;
  close_fails = false;
}

-- With the echo server of the same directory the client sends its text, prints the same text, and
-- closes; the server's session leaves its loop.
client_session-echo :
    (host text : List ℕ) (port : ℕ)
    → (client_session (echoing text port) host text ≡ record {
      host = some (host_header host port);
      sent = some text;
      closes = true;
      outcome = (text, none);
    })
      × ((do_session false ((received text, false) ∷ (peer_closed, false) ∷ [])).standing ≡ leaves)
unfolding client_session do_session
client_session-echo host text port = (refl, refl)

-- The first of some steps that fails.
abbrev pub first_failing : List (Bool × Failure) → Option Failure
first_failing [] = none
first_failing ((true, f) ∷ steps) = some f
first_failing ((false, f) ∷ steps) = first_failing steps

abbrev pub is_none : Option (List ℕ) → Bool
is_none none = true
is_none (some m) = false

abbrev pub until_sent : Network → List (Bool × Failure)
until_sent net =
    (net.resolve_fails, resolve)
    ∷ (net.connect_fails, connect)
    ∷ (net.handshake_fails, handshake)
    ∷ (net.write_fails, write)
    ∷ []

abbrev pub all_steps : Network → List (Bool × Failure)
all_steps net = until_sent net ++ (is_none net.reply, read) ∷ (net.close_fails, close) ∷ []

abbrev pub unless_failed : Option Failure → List ℕ → Option (List ℕ)
unless_failed none text = some text
unless_failed (some f) text = none

abbrev network : ℕ → Bool → Bool → Bool → Bool → Option (List ℕ) → Bool → Network
network port r c h w m d = record {
  resolve_fails = r;
  connect_fails = c;
  port = port;
  handshake_fails = h;
  write_fails = w;
  reply = m;
  close_fails = d;
}

-- On every network: what the session reports is the first of its six steps that fails, and it reports
-- nothing if none does; the text is sent if none of the first four fails, and not sent otherwise.
pub client_session-first_failing :
    (net : Network) (host text : List ℕ)
    → ((client_session net host text).outcome.1 ≡ first_failing (all_steps net))
      × ((client_session net host text).sent ≡ unless_failed (first_failing (until_sent net)) text)
unfolding client_session
client_session-first_failing net host text =
    by_steps net.resolve_fails net.connect_fails net.handshake_fails net.write_fails net.reply
      net.close_fails
  where
    by_steps :
        (r c h w : Bool) (m : Option (List ℕ)) (d : Bool)
        → ((client_session (network net.port r c h w m d) host text).outcome.1
            ≡ first_failing (all_steps (network net.port r c h w m d)))
          × ((client_session (network net.port r c h w m d) host text).sent
              ≡ unless_failed (first_failing (until_sent (network net.port r c h w m d))) text)
    by_steps true c h w m d = (refl, refl)
    by_steps false true h w m d = (refl, refl)
    by_steps false false true w m d = (refl, refl)
    by_steps false false false true m d = (refl, refl)
    by_steps false false false false none d = (refl, refl)
    by_steps false false false false (some t) true = (refl, refl)
    by_steps false false false false (some t) false = (refl, refl)
