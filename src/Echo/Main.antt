-- ===== src/Echo/Main.antt =====
-- The `main`s of example/webSocket/websocket_server_coro.cc and websocket_client_coro.cc. As in
-- Http/Main, `make_address` and `std::atoi` are parameters.
use asio_learn.Base.{
  ℕ, ◌^◌, ◌≡◌, ◌<◌, refl, ap, Bool, true, false, ◌==◌, ◌||◌, List, [], ◌∷◌, Option, none, some,
  if◌then◌else◌, length, map, concat,
}
use asio_learn.Base.Int.{ℤ}
use asio_learn.Http.Main.{Text, Exit, fails, returns, throws, port_of, port_of-lt}
use asio_learn.Echo.{Setup, Accept, connects, accept_failed, do_listen, listen_loop}
use asio_learn.Echo.Client.{
  Network, Client, client_session, first_failing, all_steps, client_session-first_failing,
}

-- `do_listen` returns if a step before its loop fails; the loop has no end.
abbrev pub listen_returns : Setup → Bool
listen_returns s = s.open_fails || (s.set_option_fails || (s.bind_fails || s.listen_fails))

-- The server that runs: `exit` is how it ended, if it did.
pub record Server (Address : Type 0) : Type 0 where
  pub address : Address
  pub port : ℕ
  pub sessions : List ℕ
  pub exit : Option Exit

-- `main` of the server ends before it listens, or runs `do_listen`.
pub data Outcome (Address : Type 0) : Type 0 where
  ends : Exit → Outcome Address
  serves : Server Address → Outcome Address

-- `run` of the `io_context` returns once no coroutine is left.
abbrev pub exit_of : Bool → Option Exit
exit_of true = some returns
exit_of false = none

-- `main` of the client: what its session did, if there was one, and how it ended.
unfoldable pub client_main : Network → List Text → Option Client × Exit
client_main net (program ∷ host ∷ port ∷ text ∷ []) = (some (client_session net host text), returns)
client_main net _ = (none, fails)

abbrev pub connection : Accept → List ℕ
connection (connects c) = c ∷ []
connection accept_failed = []

-- The connections of the accepts that do not fail.
abbrev pub connected : List Accept → List ℕ
connected accepts = concat (map connection accepts)

listen_loop_lem : (accepts : List Accept) → listen_loop accepts ≡ connected accepts
unfolding listen_loop
listen_loop_lem [] = refl
listen_loop_lem (connects c ∷ rest) = ap (◌∷◌ c) (listen_loop_lem rest)
listen_loop_lem (accept_failed ∷ rest) = listen_loop_lem rest

abbrev setup_of : Bool → Bool → Bool → Bool → Setup
setup_of o p b l = record { open_fails = o; set_option_fails = p; bind_fails = b; listen_fails = l }

do_listen_lem :
    (s : Setup) (accepts : List Accept)
    → do_listen s accepts ≡ (if listen_returns s then [] else connected accepts)
unfolding do_listen
do_listen_lem s accepts = by_setup s.open_fails s.set_option_fails s.bind_fails s.listen_fails
  where
    by_setup :
        (o p b l : Bool)
        → do_listen (setup_of o p b l) accepts
          ≡ (if listen_returns (setup_of o p b l) then [] else connected accepts)
    by_setup true p b l = refl
    by_setup false true b l = refl
    by_setup false false true l = refl
    by_setup false false false true = refl
    by_setup false false false false = listen_loop_lem accepts

module _ {Address : Type 0} (make_address : Text → Option Address) (atoi : Text → ℤ) where
  -- The part of the server's `main` behind `make_address`.
  abbrev pub listen : Option Address → Text → Setup → List Accept → Outcome Address
  listen none port setup accepts = ends throws
  listen (some address) port setup accepts = serves (record {
    address = address;
    port = port_of (atoi port);
    sessions = do_listen setup accepts;
    exit = exit_of (listen_returns setup);
  })

  unfoldable pub server_main : List Text → Setup → List Accept → Outcome Address
  server_main (program ∷ address ∷ port ∷ []) setup accepts =
      listen (make_address address) port setup accepts
  server_main _ setup accepts = ends fails

  -- The server gives every connection that is accepted to a session, whatever accepts fail between
  -- them, and runs on; but if a step of its set-up fails it has no session, and ends with success. The
  -- client ends with success whatever fails in its session, which reports the first step that failed.
  -- An address that cannot be read ends the server by an exception, and another number of arguments ends
  -- either with failure.
  server_main-client_main :
      (program a port host text bad : Text) (others : List Text) (address : Address) (setup : Setup)
      (accepts : List Accept) (net : Network)
      → make_address a ≡ some address
      → make_address bad ≡ none
      → ((length others == 3) || (length others == 4)) ≡ false
      → (server_main (program ∷ a ∷ port ∷ []) setup accepts
          ≡ serves (record {
            address = address;
            port = port_of (atoi port);
            sessions = if listen_returns setup then [] else connected accepts;
            exit = exit_of (listen_returns setup);
          }))
        × (port_of (atoi port) < 2 ^ 16)
        × (client_main net (program ∷ host ∷ port ∷ text ∷ [])
            ≡ (some (client_session net host text), returns))
        × ((client_session net host text).outcome.1 ≡ first_failing (all_steps net))
        × (server_main (program ∷ bad ∷ port ∷ []) setup accepts ≡ ends throws)
        × (server_main others setup accepts ≡ ends fails)
        × (client_main net others ≡ (none, fails))
  unfolding server_main client_main
  server_main-client_main program a port host text bad others address setup accepts net good e
        wrong =
      (
        rw (good, do_listen_lem setup accepts) refl,
        port_of-lt (atoi port),
        refl,
        (client_session-first_failing net host text).0,
        rw e,
        (by_count others wrong).0,
        (by_count others wrong).1,
      )
    where
      by_count :
          (others : List Text)
          → ((length others == 3) || (length others == 4)) ≡ false
          → (server_main others setup accepts ≡ ends fails)
            × (client_main net others ≡ (none, fails))
      by_count [] w = (refl, refl)
      by_count (p ∷ []) w = (refl, refl)
      by_count (p ∷ q ∷ []) w = (refl, refl)
      by_count (p ∷ q ∷ r ∷ []) w = absurd (cc w)
      by_count (p ∷ q ∷ r ∷ s ∷ []) w = absurd (cc w)
      by_count (p ∷ q ∷ r ∷ s ∷ t ∷ more) w = (refl, refl)
