-- ===== src/Http/Listener.antt =====
-- The listener of the chat server, example/webSocket/listener.cc. The results of opening,
-- binding and accepting are the input of a run.
use asio_learn.Base.{
  ℕ, ◌≡◌, refl, Bool, true, false, not, ◌&&◌, List, [], ◌∷◌, ◌++◌, Option, none, some,
  if◌then◌else◌, ap, append-nil, append_assoc, ◌∙◌,
}

-- Which of the four steps of the constructor fail.
pub record Setup : Type 0 where
  pub open_fails : Bool
  pub set_option_fails : Bool
  pub bind_fails : Bool
  pub listen_fails : Bool

-- Whether the acceptor listens; whether an accept waits; and the connections given to an HTTP session.
pub record Listener : Type 0 where
  pub listening : Bool
  pub accepting : Bool
  pub sessions : List ℕ

-- The constructor: it returns at the first step that fails.
unfoldable pub new_listener : Setup → Listener
new_listener s = record {
  listening = elim s.open_fails [
    | true ↦ false
    | false ↦ elim s.set_option_fails [
      | true ↦ false
      | false ↦ elim s.bind_fails [ true ↦ false | false ↦ not s.listen_fails ]
    ]
  ];
  accepting = false;
  sessions = [];
}

-- `run`
unfoldable pub run : Listener → Listener
run l = record l { accepting = true }

-- `on_accept` with a connection, or with an error; an acceptor that does not listen gives an error.
abbrev pub on_accept : Listener → Bool → Option ℕ → Listener
on_accept l true (some socket) = record l { sessions = l.sessions ++ socket ∷ [] }
on_accept l _ _ = record l { accepting = false }

-- The completions of accepts: there is one only while an accept waits.
unfoldable pub accepts : Listener → List (Option ℕ) → Listener
accepts l [] = l
accepts l (a ∷ later) =
    let more = accepts (on_accept l l.listening a) later in if l.accepting then more else l

abbrev pub all_succeed : Setup → Bool
all_succeed s =
    not s.open_fails && (not s.set_option_fails && (not s.bind_fails && not s.listen_fails))

-- The connections before the first error.
abbrev pub before_error : List (Option ℕ) → List ℕ
before_error [] = []
before_error (none ∷ later) = []
before_error (some c ∷ later) = c ∷ before_error later

pub accepts-stopped : (l : Listener) (cs : List (Option ℕ)) → l.accepting ≡ false → accepts l cs ≡ l
unfolding accepts
accepts-stopped l [] e = refl
accepts-stopped l (c ∷ cs) e = rw e

accepts-listening :
    (cs : List (Option ℕ)) (done : List ℕ)
    → (accepts (record { listening = true; accepting = true; sessions = done }) cs).sessions
      ≡ done ++ before_error cs
unfolding accepts
accepts-listening [] done = rw append-nil
accepts-listening (none ∷ cs) done = rw (
  accepts-stopped (record { listening = true; accepting = false; sessions = done }) cs refl,
  append-nil,
)
accepts-listening (some c ∷ cs) done =
    accepts-listening cs (done ++ c ∷ []) ∙ append_assoc done (c ∷ []) (before_error cs)

accepts-deaf :
    (cs : List (Option ℕ))
    → (accepts (record { listening = false; accepting = true; sessions = [] }) cs).sessions ≡ []
unfolding accepts
accepts-deaf [] = refl
accepts-deaf (c ∷ cs) =
    ap (λ (l : Listener). l.sessions)
      (accepts-stopped (record { listening = false; accepting = false; sessions = [] }) cs refl)

-- A listener that is made and run gives the connections before the first failed accept to sessions,
-- in order, and none behind it; if a step of its set-up failed, it gives none.
pub new_listener-sessions :
    (s : Setup) (cs : List (Option ℕ))
    → (accepts (run (new_listener s)) cs).sessions ≡ (if all_succeed s then before_error cs else [])
unfolding run new_listener
new_listener-sessions s cs = by_setup s.open_fails s.set_option_fails s.bind_fails s.listen_fails
  where
    by_setup :
        (o p b l : Bool)
        → (accepts
            (run (
              new_listener (record {
                open_fails = o;
                set_option_fails = p;
                bind_fails = b;
                listen_fails = l;
              })))
            cs).sessions
          ≡ (if all_succeed
                (record { open_fails = o; set_option_fails = p; bind_fails = b; listen_fails = l })
              then before_error cs
              else [])
    by_setup true p b l = accepts-deaf cs
    by_setup false true b l = accepts-deaf cs
    by_setup false false true l = accepts-deaf cs
    by_setup false false false true = accepts-deaf cs
    by_setup false false false false = accepts-listening cs []
