-- ===== src/Tests/Whole.antt =====
-- The whole chat server with two connections.
use asio_learn.Base.{ℕ, ◌≡◌, refl, false, true, List, [], ◌∷◌, ◌++◌, some, none}
use asio_learn.Base.Text.{bytes}
use asio_learn.Logic.Server.{has_session}
use asio_learn.Http.{FileSystem, Request, found, get, on_read, on_write, handle_request}
use asio_learn.Http.Listener as Listeners
use asio_learn.Http.Listener.{Setup, new_listener, accepts}
use asio_learn.Http.Upgrade.{comes, breaks, do_read}
use asio_learn.Chat as Handlers
use asio_learn.Chat.Life as Lives
use asio_learn.Http.Whole.Joined.{upgrade, handshake, begun, run-joined}
use asio_learn.Base.{arith}
use asio_learn.Chat.{Text}
use asio_learn.Chat.Life.Texts.{pending, spoken_by, texts, texts_by}
use asio_learn.Chat.Sound.{heard}
use asio_learn.Http.Whole.{Whole, Happening, connects, asks, talks, start, step, run}
use asio_learn.Http.Whole.Steps.{upgrades, shakes, any}
use asio_learn.Http.Whole.Members.{run-members}
use asio_learn.Http.Whole.Projection.{run-life, life_events}

abbrev disk : FileSystem
disk = λ _. found (104 ∷ 105 ∷ [])

abbrev sound_setup : Setup
sound_setup = record {
  open_fails = false;
  set_option_fails = false;
  bind_fails = false;
  listen_fails = false;
}

abbrev index_request : Request
index_request = record { method = get; version = 11; target = bytes "/"; keep_alive = true }

-- Connection 4 asks for a page and then for an upgrade, and talks; connection 9 sends no request.
abbrev evening : List Happening
evening =
    connects (some 4)
    ∷ asks 4 (comes false 0 index_request) false
    ∷ connects (some 9)
    ∷ asks 4 (comes true 0 index_request) false
    ∷ talks (Lives.accepts 4 false)
    ∷ asks 9 breaks false
    ∷ talks (Lives.reads 4 false (104 ∷ []))
    ∷ talks (Lives.sends 4)
    ∷ connects none
    ∷ []

run-life_example :
    (run disk (bytes "www") (start sound_setup) evening).life
    ≡ Lives.run Lives.empty (
        Lives.creates 4
        ∷ Lives.accepts 4 false
        ∷ Lives.reads 4 false (104 ∷ [])
        ∷ Lives.sends 4
        ∷ [])
unfolding run step on_read on_write handle_request do_read Listeners.run new_listener accepts
run-life_example = run-life disk (bytes "www") sound_setup evening

run-members_example :
    ((run disk (bytes "www") (start sound_setup) evening).life.lives 4 ≡ true)
    × (has_session 4 (run disk (bytes "www") (start sound_setup) evening).listener.sessions ≡ true)
    × (any (upgrades 4) evening ≡ true)
    × (any (shakes 4) evening ≡ true)
unfolding run step on_read on_write handle_request do_read Listeners.run new_listener accepts
    Lives.step Lives.enabled Lives.perform Handlers.step Handlers.on_accept Handlers.on_read
    Handlers.join Handlers.leave Handlers.send_all Handlers.send
run-members_example = run-members disk (bytes "www") sound_setup evening 4 refl

-- Connection 9 is in the chat before connection 4 asks for an upgrade.
abbrev early : List Happening
early =
    connects (some 4)
    ∷ connects (some 9)
    ∷ asks 9 (comes true 0 index_request) false
    ∷ talks (Lives.accepts 9 false)
    ∷ []

abbrev in_between : List Happening
in_between =
    talks (Lives.reads 9 false (103 ∷ [])) ∷ talks (Lives.sends 9) ∷ talks (Lives.sends 9) ∷ []

abbrev late : List Happening
late =
    talks (Lives.reads 9 false (104 ∷ []))
    ∷ connects none
    ∷ talks (Lives.reads 4 false (105 ∷ []))
    ∷ talks (Lives.sends 9)
    ∷ talks (Lives.sends 4)
    ∷ talks (Lives.runs 4)
    ∷ []

abbrev joined : Whole
joined =
    handshake disk (bytes "www")
      (upgrade disk (bytes "www") (begun disk (bytes "www") sound_setup early) 4 0 index_request
        false)
      in_between 4

run-joined_example :
    ((run disk (bytes "www") joined late).life.lives 4 ≡ true)
    × ((posted : List (ℕ × Text)) × ((heard
              ((run disk (bytes "www") joined late).life.chat.session 4)
            ≡ texts posted)
          × ((u : ℕ)
              → texts_by u posted
                  ++ pending 4 ((run disk (bytes "www") joined late).life.chat.sending u)
                ≡ spoken_by u joined.life (life_events disk (bytes "www") joined late))))
unfolding run step on_read on_write handle_request do_read Listeners.run new_listener accepts
    Lives.step Lives.enabled Lives.perform Handlers.step Handlers.on_accept Handlers.on_read
    Handlers.join Handlers.leave Handlers.send_all Handlers.send Handlers.on_send Handlers.on_write
run-joined_example =
    run-joined disk (bytes "www") sound_setup early in_between late 4 0 index_request false refl
      refl (omega arith) refl refl refl
