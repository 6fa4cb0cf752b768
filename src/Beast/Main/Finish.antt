-- ===== src/Beast/Main/Finish.antt =====
-- What the connections have started ends.
use asio_learn.Base.{
  ℕ, zero, suc, ◌<◌, ◌≡◌, refl, sym, ap, ◌∙◌, subst, Bool, true, false, List, [], ◌∷◌, ◌++◌,
  Bool-cases, inl, inr, ◌⊎◌, update, update-update, update_self, ltb, ltb→lt, ltb→le, by_key,
  ==_refl, ==_iff, arith,
}
use asio_learn.Beast.{Json, Request, get}
use asio_learn.Beast.Connection as Connections
use asio_learn.Beast.Connection.{
  Connection, none_waits, start, finish, finish-releases, deadline, read_done, write_done,
}
use asio_learn.Beast.Main.{Server, Happening, reads, writes, expires, own, handle, step, run}
use asio_learn.Beast.Main.Serves.{step-goes}

-- A read that fails has no request; what stands there is not looked at.
abbrev pub no_request : Request
no_request = record { method = get; method_string = []; version = 0; target = []; body = [] }

-- The deadlines of the first connections are reached, and their reads and writes end.
abbrev pub finish_one : ℕ → List Happening
finish_one u = expires u ∷ reads u true 0 no_request ∷ writes u ∷ []

abbrev pub finish_all : ℕ → List Happening
finish_all zero = []
finish_all (suc n) = finish_one n ++ finish_all n

abbrev pub released : Server → ℕ → Bool
released s v = none_waits (s.connection v).phase (s.connection v).timer

-- How a server stands to an earlier one when only what was started has ended, and that of the first
-- connections has.
pub record Finished (n : ℕ) (s t : Server) : Type 0 where
  pub accepts : t.accepting ≡ s.accepting
  pub goes : t.thrown ≡ false
  pub as_many : t.opened ≡ s.opened
  pub each : (v : ℕ) → (v < n) ⊎ (released s v ≡ true) → released t v ≡ true

sooner : (v n : ℕ) → v < suc n → (v < n) ⊎ (v ≡ n)
sooner v n l = elim (Bool-cases (ltb v n)) [
  | inl e ↦ inl (ltb→lt v n e)
  | inr e ↦ inr (omega (arith, l, ltb→le v n e))
]

module _ (j : Json) where
  pub run-append :
      (hs gs : List Happening) (s : Server) → run j s (hs ++ gs) ≡ run j (run j s hs) gs
  unfolding run
  run-append [] gs s = refl
  run-append (h ∷ hs) gs s = run-append hs gs (step j s h)

  abbrev put : Server → ℕ → Connection → Server
  put s u c = record s { connection = update s.connection u c }

  -- What only one connection does.
  step-own :
      (s : Server) (u : ℕ) (c : Connection) (h : Happening) (e : Connections.Event)
      → s.thrown ≡ false
      → ((t : Server) → handle j t h ≡ own t u e)
      → step j (put s u c) h ≡ put s u (Connections.step c e)
  step-own s u c h e alive one =
      step-goes j (put s u c) h alive
      ∙ one (put s u c)
      ∙ ap (λ f. record s { connection = f })
          (ap (λ d. update (update s.connection u c) u (Connections.step d e))
              (at_own s.connection u c)
            ∙ update-update s.connection u c (Connections.step c e))
    where
      at_own : (f : ℕ → Connection) (u : ℕ) (c : Connection) → update f u c u ≡ c
      at_own f u c = rw (==_refl u) refl

  run-finish_one :
      (s : Server) (u : ℕ)
      → s.thrown ≡ false
      → run j s (finish_one u) ≡ put s u (Connections.run (s.connection u) finish)
  unfolding run Connections.run handle
  run-finish_one s u alive =
      let c = s.connection u in
      let d = Connections.step c deadline in
      let e = Connections.step d (read_done true) in
      ap (λ f. run j (record s { connection = f }) (finish_one u))
        (sym (update_self s.connection u))
      ∙ ap (λ t. run j t (reads u true 0 no_request ∷ writes u ∷ []))
          (step-own s u c (expires u) deadline alive (λ t. refl))
      ∙ ap (λ t. run j t (writes u ∷ []))
          (step-own s u d (reads u true 0 no_request) (read_done true) alive (λ t. refl))
      ∙ step-own s u e (writes u) write_done alive (λ t. refl)

  released-finish_one :
      (s : Server) (u v : ℕ)
      → (u ≡ v) ⊎ (released s v ≡ true)
      → released (put s u (Connections.run (s.connection u) finish)) v ≡ true
  released-finish_one s u v e =
      let f = update s.connection u (Connections.run (s.connection u) finish) in
      by_key (λ v. (u ≡ v) ⊎ (released s v ≡ true) → none_waits (f v).phase (f v).timer ≡ true) u v
        (λ _. rw (==_refl u) (finish-releases (s.connection u)))
        (λ other.
          λ e. elim e [ inl same ↦ absurd (cc (other, (==_iff u v).1 same)) | inr r ↦ rw other r ])
        e

  pub run-finish_all :
      (n : ℕ) (s : Server) → s.thrown ≡ false → Finished n s (run j s (finish_all n))
  unfolding run
  run-finish_all zero s alive = record {
    accepts = refl;
    goes = alive;
    as_many = refl;
    each = λ v e. elim e [ inl l ↦ absurd (omega (arith, l)) | inr r ↦ r ];
  }
  run-finish_all (suc n) s alive =
      let t = put s n (Connections.run (s.connection n) finish) in
      let rest = run-finish_all n t alive in
      let same =
        run-append (finish_one n) (finish_all n) s
        ∙ ap (λ t. run j t (finish_all n)) (run-finish_one s n alive) in
      subst (Finished (suc n) s) (sym same) (record {
        accepts = rest.accepts;
        goes = rest.goes;
        as_many = rest.as_many;
        each = λ v e. rest.each v (elim e [
          | inl l ↦ elim (sooner v n l) [
            | inl before ↦ inl before
            | inr last ↦ inr (released-finish_one s n v (inl (sym last)))
          ]
          | inr r ↦ inr (released-finish_one s n v (inr r))
        ]);
      })
