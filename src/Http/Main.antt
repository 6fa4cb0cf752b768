-- ===== src/Http/Main.antt =====
-- `main` of the chat server, example/webSocket/main.cc, with the listener of Http/Listener. What it
-- takes from the libraries are parameters: `make_address` of Boost.Asio, which throws on a text that is
-- no address, and `std::atoi`. What happens to the `io_context` while it runs is the input of a run.
use asio_learn.Base.{
  ℕ, zero, suc, ◌+◌, ◌-◌, ◌%◌, ◌^◌, ◌≡◌, ◌<◌, refl, ap, ◌∙◌, Bool, true, false, ◌==◌, List, [], ◌∷◌,
  Option, none, some, if◌then◌else◌, length, arith,
}
use asio_learn.Base.Int.{ℤ, pos, negsuc, to_ℕ, max}
use asio_learn.Http.Listener.{
  Setup, Listener, new_listener, run, accepts, on_accept, all_succeed, before_error,
  new_listener-sessions, accepts-stopped,
}

abbrev pub Text : Type 0
Text = List ℕ

-- How a `main` ends: with `EXIT_FAILURE`, with `EXIT_SUCCESS`, or by an exception.
pub data Exit : Type 0 where
  fails returns throws : Exit

-- `static_cast<unsigned short>(atoi(port))` and `max<int>(1, atoi(threads))`.
unfoldable pub port_of : ℤ → ℕ
port_of (pos n) = n % 2 ^ 16
port_of (negsuc n) = 2 ^ 16 - 1 - n % 2 ^ 16

abbrev pub at_least_one : ℤ → ℕ
at_least_one (pos zero) = 1
at_least_one (pos (suc n)) = suc n
at_least_one (negsuc n) = 1

-- The threads that run the `io_context`: those that are started, and `main` itself.
unfoldable pub running_threads : ℤ → ℕ
running_threads threads = (at_least_one threads - 1) + 1

-- What happens to the `io_context`: an accept ends, or a signal comes.
pub data Happening : Type 0 where
  arrives : Option ℕ → Happening
  signals : Happening

pub record Context : Type 0 where
  pub listener : Listener
  pub stopped : Bool

abbrev pub handle : Context → Happening → Context
handle c (arrives a) = record c { listener = accepts c.listener (a ∷ []) }
handle c signals = record c { stopped = true }

-- `run` of the `io_context`: nothing is handled once it is stopped.
unfoldable pub run_context : Context → List Happening → Context
run_context c [] = c
run_context c (h ∷ hs) = let rest = run_context (handle c h) hs in if c.stopped then c else rest

-- The running server: `exit` is how it ended, if it did.
pub record Server (Address : Type 0) : Type 0 where
  pub address : Address
  pub port : ℕ
  pub doc_root : Text
  pub threads : ℕ
  pub sessions : List ℕ
  pub exit : Option Exit

-- `main` ends before the server is made, or makes one.
pub data Outcome (Address : Type 0) : Type 0 where
  ends : Exit → Outcome Address
  serves : Server Address → Outcome Address

-- Every thread returns from `run`, and is joined, once the `io_context` is stopped.
abbrev pub exit_of : Bool → Option Exit
exit_of true = some returns
exit_of false = none

abbrev pub before_signal : List Happening → List (Option ℕ)
before_signal [] = []
before_signal (arrives a ∷ hs) = a ∷ before_signal hs
before_signal (signals ∷ hs) = []

abbrev pub signalled : List Happening → Bool
signalled [] = false
signalled (arrives a ∷ hs) = signalled hs
signalled (signals ∷ hs) = true

accepts-cons :
    (l : Listener) (a : Option ℕ) (later : List (Option ℕ))
    → accepts (accepts l (a ∷ [])) later ≡ accepts l (a ∷ later)
unfolding accepts
accepts-cons l a later = by_accepting l.accepting refl
  where
    by_accepting :
        (b : Bool)
        → l.accepting ≡ b
        → accepts (if b then on_accept l l.listening a else l) later
          ≡ (if b then accepts (on_accept l l.listening a) later else l)
    by_accepting true e = refl
    by_accepting false e = accepts-stopped l later e

run_context-stopped : (hs : List Happening) (c : Context) → c.stopped ≡ true → run_context c hs ≡ c
unfolding run_context
run_context-stopped [] c e = refl
run_context-stopped (h ∷ hs) c e = rw e

-- The listener has handled the accepts before the first signal.
run_context_lem :
    (hs : List Happening) (l : Listener)
    → run_context (record { listener = l; stopped = false }) hs
      ≡ record { listener = accepts l (before_signal hs); stopped = signalled hs }
unfolding run_context accepts
run_context_lem [] l = refl
run_context_lem (arrives a ∷ hs) l =
    run_context_lem hs (accepts l (a ∷ []))
    ∙ ap (λ m. record { listener = m; stopped = signalled hs })
        (accepts-cons l a (before_signal hs))
run_context_lem (signals ∷ hs) l =
    run_context-stopped hs (record { listener = l; stopped = true }) refl

pub port_of-lt : (n : ℤ) → port_of n < 2 ^ 16
unfolding port_of
port_of-lt (pos n) = omega arith
port_of-lt (negsuc n) = omega arith

-- The 16 low bits of a number, which may be negative.
abbrev pub IsPort : ℤ → ℕ → Type 0
IsPort (pos n) port = port ≡ n % 65536
IsPort (negsuc n) port = (port < 65536) × ((port + suc n) % 65536 ≡ 0)

port_of-IsPort : (n : ℤ) → IsPort n (port_of n)
unfolding port_of
port_of-IsPort (pos n) = refl
port_of-IsPort (negsuc n) = omega arith

running_threads_lem : (n : ℤ) → running_threads n ≡ max 1 (to_ℕ n)
unfolding running_threads
running_threads_lem (pos zero) = refl
running_threads_lem (pos (suc n)) = omega arith
running_threads_lem (negsuc n) = refl

module _ {Address : Type 0} (make_address : Text → Option Address) (atoi : Text → ℤ) where
  -- The part of `main` behind `make_address`.
  abbrev pub start : Option Address → Text → Text → Text → Setup → List Happening → Outcome Address
  start none port doc_root threads setup hs = ends throws
  start (some address) port doc_root threads setup hs =
      let c = run_context (record { listener = run (new_listener setup); stopped = false }) hs in
      serves (record {
        address = address;
        port = port_of (atoi port);
        doc_root = doc_root;
        threads = running_threads (atoi threads);
        sessions = c.listener.sessions;
        exit = exit_of c.stopped;
      })

  unfoldable pub main : List Text → Setup → List Happening → Outcome Address
  main (program ∷ address ∷ port ∷ doc_root ∷ threads ∷ []) setup hs =
      start (make_address address) port doc_root threads setup hs
  main _ setup hs = ends fails

  wrong_count :
      (args : List Text) (setup : Setup) (hs : List Happening)
      → (length args == 5) ≡ false
      → main args setup hs ≡ ends fails
  unfolding main
  wrong_count [] setup hs e = refl
  wrong_count (a ∷ []) setup hs e = refl
  wrong_count (a ∷ b ∷ []) setup hs e = refl
  wrong_count (a ∷ b ∷ c ∷ []) setup hs e = refl
  wrong_count (a ∷ b ∷ c ∷ d ∷ []) setup hs e = refl
  wrong_count (a ∷ b ∷ c ∷ d ∷ f ∷ []) setup hs e = absurd (cc e)
  wrong_count (a ∷ b ∷ c ∷ d ∷ f ∷ g ∷ more) setup hs e = refl

  -- With five arguments whose second is an address: the server is made for that address and the
  -- 16 low bits of the port, runs on as many threads as were asked for, or on one if that is less than
  -- one, and gives the connections that
  -- are accepted before the first signal and before the first accept that fails to sessions, in order, or
  -- none if a step of the listener's set-up fails; and it ends, with success, exactly if a signal comes.
  -- An address that cannot be read ends it by an exception, and another number of arguments with failure,
  -- before a server is made.
  pub main-serves :
      (program a port doc_root threads bad : Text) (others : List Text) (address : Address)
      (setup : Setup) (hs : List Happening)
      → make_address a ≡ some address
      → make_address bad ≡ none
      → (length others == 5) ≡ false
      → (main (program ∷ a ∷ port ∷ doc_root ∷ threads ∷ []) setup hs
          ≡ serves (record {
            address = address;
            port = port_of (atoi port);
            doc_root = doc_root;
            threads = max 1 (to_ℕ (atoi threads));
            sessions = if all_succeed setup then before_error (before_signal hs) else [];
            exit = exit_of (signalled hs);
          }))
        × IsPort (atoi port) (port_of (atoi port))
        × (main (program ∷ bad ∷ port ∷ doc_root ∷ threads ∷ []) setup hs ≡ ends throws)
        × (main others setup hs ≡ ends fails)
  unfolding main
  main-serves program a port doc_root threads bad others address setup hs good e wrong =
      let same = running_threads_lem (atoi threads) in
      (
        rw (
          good,
          run_context_lem hs (run (new_listener setup)),
          same,
          new_listener-sessions setup (before_signal hs),
        ),
        port_of-IsPort (atoi port),
        rw e,
        wrong_count others setup hs wrong,
      )
