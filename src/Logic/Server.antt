-- ===== src/Logic/Server.antt =====
-- `CServer`, example/logicServer/CServer.cc: the table of sessions by their uuid. A uuid is a number;
-- the generator (Boost.Uuid) is the caller's.
use asio_learn.Base.{
  ℕ, Bool, true, false, List, [], ◌∷◌, ◌==◌, if◌then◌else◌, ◌≡◌, refl, arith, ◌||◌, not, ◌&&◌,
  ==_iff, Bool-cases, inl, inr, ap, sym, ◌∙◌,
}

-- The uuids in `_sessions`, the one of the session that waits for a connection, and those of the
-- sessions that read.
pub record Server : Type 0 where
  pub sessions : List ℕ
  pub waiting : ℕ
  pub started : List ℕ

abbrev pub has_session : ℕ → List ℕ → Bool
has_session u [] = false
has_session u (v ∷ vs) = v == u || has_session u vs

-- `_sessions.insert`: a uuid that is there keeps its session.
abbrev pub insert : ℕ → List ℕ → List ℕ
insert u vs = if has_session u vs then vs else u ∷ vs

-- `_sessions.erase(uuid)`
abbrev pub erase : ℕ → List ℕ → List ℕ
erase u [] = []
erase u (v ∷ vs) = if v == u then erase u vs else v ∷ erase u vs

-- `ClearSession`
pub clear_session : Server → ℕ → Server
clear_session s u = record s { sessions = erase u s.sessions }

-- `StartAccept`, with the uuid of the session that it makes.
pub start_accept : Server → ℕ → Server
start_accept s fresh = record s { waiting = fresh }

-- The two parts of a successful `HandleAccept`: the session is started, and then put into the table.
-- Between the two another thread may run the session's first `HandleRead`.
pub start_session : Server → ℕ → Server
start_session s u = record s { started = u ∷ s.started }

pub register : Server → ℕ → Server
register s u = record s { sessions = insert u s.sessions }

-- `HandleAccept`, by whether the accept failed; `fresh` is the uuid of the next session.
pub handle_accept : Server → ℕ → Bool → ℕ → Server
unfolding start_accept start_session register
handle_accept s u true fresh = start_accept s fresh
handle_accept s u false fresh = start_accept (register (start_session s u) u) fresh

pub has_session-erase :
    (u v : ℕ) (vs : List ℕ) → has_session u (erase v vs) ≡ (not (v == u) && has_session u vs)
has_session-erase u v [] = ground arith
has_session-erase u v (w ∷ vs) = ground (arith, has_session-erase u v vs)

pub has_session-insert :
    (u v : ℕ) (vs : List ℕ) → has_session u (insert v vs) ≡ (v == u || has_session u vs)
has_session-insert u v vs = elim (Bool-cases (has_session v vs)) [
  | inl old ↦
      rw old (kept (v == u) (λ e. ap (λ w. has_session w vs) (sym ((==_iff v u).0 e)) ∙ old))
  | inr new ↦ rw new
]
  where
    kept :
        (b : Bool)
        → (b ≡ true → has_session u vs ≡ true)
        → has_session u vs ≡ (b || has_session u vs)
    kept true h = h refl
    kept false h = refl

-- `ClearSession` takes out the session of the uuid and no other.
clear_session_lem :
    (s : Server) (u v : ℕ)
    → has_session u (clear_session s v).sessions ≡ (not (v == u) && has_session u s.sessions)
unfolding clear_session
clear_session_lem s u v = has_session-erase u v s.sessions

-- After a successful accept the table has the new session and those that it had; after a failed one
-- it is as it was. Either way the next accept is started, with the next session.
handle_accept_lem :
    (s : Server) (u v fresh : ℕ) (failed : Bool)
    → (has_session u (handle_accept s v failed fresh).sessions
        ≡ ((not failed && v == u) || has_session u s.sessions))
      × ((handle_accept s v failed fresh).waiting ≡ fresh)
unfolding handle_accept
handle_accept_lem s u v fresh true = (refl, refl)
handle_accept_lem s u v fresh false = (has_session-insert u v s.sessions, refl)

-- A session that is cleared between its start and its registration stays in the table.
early_clear :
    (s : Server) (u : ℕ)
    → has_session u (register (clear_session (start_session s u) u) u).sessions ≡ true
unfolding register clear_session start_session
early_clear s u = rw (has_session-insert u u (erase u s.sessions)) (ground arith)
