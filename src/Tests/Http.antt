-- ===== src/Tests/Http.antt =====
-- example/webSocket/http_session.cc on a small file system.
use asio_learn.Logic.Server.{has_session}
use asio_learn.Chat.{State, new_session}
use asio_learn.Http.Listener.{Setup}
use asio_learn.Http.Main
use asio_learn.Http.Main.{
  main, arrives, signals, serves, returns, throws, fails, port_of, main-serves,
}
use asio_learn.Base.Int.{ℤ, pos}
use asio_learn.Http.Upgrade.{ends, comes, plain, http_run, http_run-upgraded}
use asio_learn.Base.{
  List, Option, none, some, ◌%◌, ℕ, arith, ◌||◌, ◌==◌, ◌≡◌, refl, false, true, [], ◌∷◌, ◌++◌, map,
  if◌then◌else◌,
}
use asio_learn.Base.Text.{bytes}
use asio_learn.Beast.Decimal.{value}
use asio_learn.Http.{
  Request, FileSystem, found, missing, get, head, starts_with, handle_request, mime_type, requests,
  shuts_down, hands_over, stops,
}
use asio_learn.Http.Confined.{handle_request-confined}
use asio_learn.Http.Answer.{connection, asked, connection-kept}

icon_mime : mime_type (bytes "www/Logo.ICO") ≡ bytes "image/vnd.microsoft.icon"
unfolding mime_type
icon_mime = refl

abbrev disk : FileSystem
disk = λ _. found (104 ∷ 105 ∷ [])

-- The same files, but none whose path starts with an "x".
abbrev locked_disk : FileSystem
locked_disk = λ p. if starts_with 120 p then missing else found (104 ∷ 105 ∷ [])

abbrev index_request : Request
index_request = record { method = get; version = 11; target = bytes "/"; keep_alive = true }

abbrev last_request : Request
last_request = record { method = head; version = 11; target = bytes "/a.css"; keep_alive = false }

index_response : (handle_request disk (bytes "www/") index_request).content_type ≡ bytes "text/html"
unfolding handle_request
index_response = refl

handle_request-confined_example :
    handle_request disk (bytes "www/") index_request
    ≡ handle_request locked_disk (bytes "www/") index_request
handle_request-confined_example =
    handle_request-confined disk locked_disk (bytes "www/") index_request (λ p inside. refl)

connection-kept_example :
    connection disk (bytes "www") (
      asked disk (bytes "www") (index_request ∷ [])
      ++ (requests last_request, false) ∷ (requests index_request, false) ∷ [])
    ≡ record {
      responses = map (handle_request disk (bytes "www")) (index_request ∷ last_request ∷ []);
      last = shuts_down;
    }
connection-kept_example =
    connection-kept disk (bytes "www") (index_request ∷ []) last_request
      ((requests index_request, false) ∷ []) (refl, tt) refl

abbrev lobby : State
lobby = record { sessions = 4 ∷ []; session = λ _. new_session; sending = λ _. none }

http_run-upgraded_example :
    let taken = http_run disk (bytes "www") lobby 7 false (
      plain ((0, index_request) ∷ [])
      ++ (comes true 0 index_request, false) ∷ (ends, false) ∷ []) in
    let refused = http_run disk (bytes "www") lobby 7 false (
      plain ((0, index_request) ∷ [])
      ++ (comes false 10001 index_request, false) ∷ (ends, false) ∷ []) in
    (taken.0 ≡ record {
      responses = handle_request disk (bytes "www") index_request ∷ [];
      last = hands_over;
    })
    × ((v : ℕ) → has_session v taken.1.sessions ≡ (7 == v || has_session v (4 ∷ [])))
    × (refused ≡ (
      record { responses = handle_request disk (bytes "www") index_request ∷ []; last = stops },
      lobby,
    ))
http_run-upgraded_example =
    http_run-upgraded disk (bytes "www") lobby 7 false ((0, index_request) ∷ []) 0 10001 false false
      index_request ((ends, false) ∷ []) (omega arith, refl, tt) (omega arith) (omega arith)

-- `main` of the chat server, asked for the port 70000 and for five threads. Any text that is not
-- empty is an address here.
abbrev as_address : List ℕ → Option (List ℕ)
as_address [] = none
as_address (c ∷ cs) = some (c ∷ cs)

-- A text of digits.
abbrev number_of : List ℕ → ℤ
number_of t = pos (value 0 t)

abbrev sound_setup : Setup
sound_setup = record {
  open_fails = false;
  set_option_fails = false;
  bind_fails = false;
  listen_fails = false;
}

main-serves_example :
    (main as_address number_of
        (bytes "chat" ∷ bytes "0.0.0.0" ∷ bytes "70000" ∷ bytes "." ∷ bytes "5" ∷ [])
        sound_setup
        (arrives (some 4) ∷ arrives (some 9) ∷ signals ∷ arrives (some 5) ∷ [])
      ≡ serves (record {
        address = bytes "0.0.0.0";
        port = 4464;
        doc_root = bytes ".";
        threads = 5;
        sessions = 4 ∷ 9 ∷ [];
        exit = some returns;
      }))
    × (4464 ≡ 70000 % 65536)
    × (main as_address number_of
          (bytes "chat" ∷ [] ∷ bytes "70000" ∷ bytes "." ∷ bytes "5" ∷ [])
          sound_setup
          (arrives (some 4) ∷ arrives (some 9) ∷ signals ∷ arrives (some 5) ∷ [])
        ≡ Main.ends throws)
    × (main as_address number_of
          (bytes "chat" ∷ [])
          sound_setup
          (arrives (some 4) ∷ arrives (some 9) ∷ signals ∷ arrives (some 5) ∷ [])
        ≡ Main.ends fails)
unfolding port_of
main-serves_example =
    main-serves as_address number_of (bytes "chat") (bytes "0.0.0.0") (bytes "70000") (bytes ".")
      (bytes "5") [] (bytes "chat" ∷ []) (bytes "0.0.0.0") sound_setup
      (arrives (some 4) ∷ arrives (some 9) ∷ signals ∷ arrives (some 5) ∷ []) refl refl refl
