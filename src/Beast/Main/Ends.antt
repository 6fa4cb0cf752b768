-- ===== src/Beast/Main/Ends.antt =====
-- How the whole server ends.
use asio_learn.Base.{
  ℕ, zero, suc, ◌<◌, ◌≡◌, refl, sym, ap, ◌∙◌, Bool, true, false, ◌||◌, List, [], ◌∷◌, ◌++◌, Option,
  none, some, if◌then◌else◌, Bool-cases, inl, inr, arith,
}
use asio_learn.Beast.{Json, Response, process_request}
use asio_learn.Beast.Main.{
  Server, Happening, arrives, reads, writes, expires, new_server, is_reading, accepted, answer,
  handle, step, run, all_released, exit_of, main,
}
use asio_learn.Beast.Main.Serves.{step-goes, step-thrown, run-thrown}
use asio_learn.Http.Main.{fails, returns}
use asio_learn.Beast.Main.Finish.{finish_all, released, run-append, run-finish_all}

-- An accept fails.
abbrev pub any_failed : List Happening → Bool
any_failed [] = false
any_failed (arrives failed ∷ hs) = failed || any_failed hs
any_failed (_ ∷ hs) = any_failed hs

module _ (j : Json) where
  all_released-each :
      (n : ℕ) (s : Server)
      → ((v : ℕ) → v < n → released s v ≡ true)
      → all_released j n s.connection ≡ true
  all_released-each zero s r = refl
  all_released-each (suc n) s r =
      rw (r n (omega arith), all_released-each n s (λ v l. r v (omega (arith, l))))

  -- A failed accept, and the end of what the connections have started.
  closing :
      (s : Server)
      → exit_of j (run j s (arrives true ∷ finish_all s.opened))
        ≡ some (if s.thrown then fails else returns)
  unfolding run handle
  closing s = elim (Bool-cases s.thrown) [
    | inl e ↦ ap (exit_of j) (run-thrown j (arrives true ∷ finish_all s.opened) s e) ∙ rw e
    | inr e ↦
        let t = accepted s true in
        let w = run-finish_all j s.opened t e in
        let end = run j t (finish_all s.opened) in
        let go : step j s (arrives true) ≡ t =
          step-goes j s (arrives true) e ∙ no_more s s.accepting refl in
        let all : all_released j end.opened end.connection ≡ true =
          ap (λ n. all_released j n end.connection) w.as_many
          ∙ all_released-each s.opened end (λ v l. w.each v (inl l)) in
        ap (λ t. exit_of j (run j t (finish_all s.opened))) go ∙ rw (w.goes, w.accepts, all, e)
  ]
    where
      no_more :
          (s : Server) (b : Bool)
          → s.accepting ≡ b
          → (if b then accepted s true else s) ≡ accepted s true
      no_more s true e = refl
      no_more s false e = ap (λ b. record s { accepting = b }) e

  answer-accepting :
      (s : Server) (u : ℕ) (o : Option (Response × ℕ)) → (answer s u o).accepting ≡ s.accepting
  answer-accepting s u none = refl
  answer-accepting s u (some p) = refl

  handle-accepting :
      (s : Server) (h : Happening)
      → s.accepting ≡ true
      → any_failed (h ∷ []) ≡ false
      → (handle j s h).accepting ≡ true
  unfolding handle
  handle-accepting s (arrives true) e ok = absurd (cc ok)
  handle-accepting s (arrives false) e ok =
      ap (λ b. (if b then accepted s false else s).accepting) e ∙ e
  handle-accepting s (reads u true now req) e ok = e
  handle-accepting s (reads u false now req) e ok =
      elim (Bool-cases (is_reading (s.connection u).phase)) [
        | inl r ↦ rw r (answer-accepting s u (process_request j now s.count req) ∙ e)
        | inr r ↦ rw r e
      ]
  handle-accepting s (writes u) e ok = e
  handle-accepting s (expires u) e ok = e

  step-accepting :
      (s : Server) (h : Happening)
      → s.accepting ≡ true
      → any_failed (h ∷ []) ≡ false
      → (step j s h).accepting ≡ true
  step-accepting s h e ok = elim (Bool-cases s.thrown) [
    | inl t ↦ ap (λ (x : Server). x.accepting) (step-thrown j s h t) ∙ e
    | inr t ↦ ap (λ (x : Server). x.accepting) (step-goes j s h t) ∙ handle-accepting s h e ok
  ]

  any_failed-cons :
      (h : Happening) (hs : List Happening)
      → any_failed (h ∷ hs) ≡ (any_failed (h ∷ []) || any_failed hs)
  any_failed-cons (arrives true) hs = refl
  any_failed-cons (arrives false) hs = refl
  any_failed-cons (reads u failed now req) hs = refl
  any_failed-cons (writes u) hs = refl
  any_failed-cons (expires u) hs = refl

  run-accepting :
      (hs : List Happening) (s : Server)
      → s.accepting ≡ true
      → any_failed hs ≡ false
      → (run j s hs).accepting ≡ true
  unfolding run
  run-accepting [] s e ok = e
  run-accepting (h ∷ hs) s e ok =
      let (one, more) =
        neither (any_failed (h ∷ [])) (any_failed hs) (sym (any_failed-cons h hs) ∙ ok) in
      run-accepting hs (step j s h) (step-accepting s h e one) more
    where
      neither : (a b : Bool) → (a || b) ≡ false → (a ≡ false) × (b ≡ false)
      neither true b e = absurd (cc e)
      neither false b e = (refl, e)

  -- As long as no accept fails, `main` does not return, unless JsonCpp throws: then it ends with failure.
  -- Whatever has happened, when an accept fails and then the deadlines of the connections are reached,
  -- their reads fail and their writes end, it has returned, with 0 if nothing was thrown. And if the
  -- acceptor cannot be made, it ends with failure.
  pub main-ends :
      (hs going : List Happening)
      → any_failed going ≡ false
      → let s = run j new_server hs in
        let t = run j new_server going in
        (main j false (hs ++ arrives true ∷ finish_all s.opened)
          ≡ some (if s.thrown then fails else returns))
        × (main j false going ≡ (if t.thrown then some fails else none))
        × (main j true hs ≡ some fails)
  unfolding main
  main-ends hs going ok =
      let s = run j new_server hs in
      let on = run-accepting going new_server refl ok in
      (
        ap (exit_of j) (run-append j hs (arrives true ∷ finish_all s.opened) new_server)
            ∙ closing s,
        rw on,
        refl,
      )
