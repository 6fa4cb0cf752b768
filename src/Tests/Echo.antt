-- ===== src/Tests/Echo.antt =====
-- Two messages and an error.
use asio_learn.Echo.Blocking.{request_of}
use asio_learn.Base.Text.{bytes}
use asio_learn.Base.Int.{ℤ, pos}
use asio_learn.Beast.Decimal.{value}
use asio_learn.Http.Main.{returns, port_of}
use asio_learn.Echo.Main.{server_main, client_main, serves}
use asio_learn.Echo.Client.{Network, client_session, reported, connect}
use asio_learn.Base.{ℕ, List, Option, none, some, true, concat, ◌≡◌, refl, false, [], ◌∷◌}
use asio_learn.Echo.{Setup, connects, accept_failed, do_listen}

-- An accept that fails does not end the listener.
three_accepts :
    do_listen
      (record {
        open_fails = false;
        set_option_fails = false;
        bind_fails = false;
        listen_fails = false;
      })
      (connects 4 ∷ accept_failed ∷ connects 9 ∷ [])
    ≡ 4 ∷ 9 ∷ []
unfolding do_listen
three_accepts = refl

whole_line : concat (bytes "he" ∷ bytes "llo" ∷ []) ≡ request_of (bytes "hello")
unfolding request_of
whole_line = refl

-- A server that cannot listen, and a client that finds no server.
abbrev port_taken : Setup
port_taken = record {
  open_fails = false;
  set_option_fails = false;
  bind_fails = true;
  listen_fails = false;
}

abbrev no_server : Network
no_server = record {
  resolve_fails = false;
  connect_fails = true;
  port = 0;
  handshake_fails = false;
  write_fails = false;
  reply = none;
  close_fails = false;
}

abbrev as_address : List ℕ → Option (List ℕ)
as_address [] = none
as_address (c ∷ cs) = some (c ∷ cs)

abbrev number_of : List ℕ → ℤ
number_of t = pos (value 0 t)

quiet_exits :
    (server_main as_address number_of
        (bytes "echo" ∷ bytes "::" ∷ bytes "8080" ∷ [])
        port_taken
        (connects 4 ∷ [])
      ≡ serves (record { address = bytes "::"; port = 8080; sessions = []; exit = some returns }))
    × (client_main no_server (bytes "echo" ∷ bytes "localhost" ∷ bytes "8080" ∷ bytes "hi" ∷ [])
        ≡ (some (reported none none false connect), returns))
unfolding server_main client_main do_listen port_of client_session
quiet_exits = (refl, refl)
