-- ===== src/Beast/Main/Serves.antt =====
-- What the whole server answers.
use mathlib.Core.Option
use asio_learn.Base.{
  ℕ, ◌≡◌, refl, sym, ap, ap₂, ◌∙◌, subst, arith, Bool, true, false, List, [], ◌∷◌, ◌++◌, Option,
  none, some, if◌then◌else◌, Bool-cases, inl, inr, append_assoc, append-nil,
}
use asio_learn.Base.Optional.{◌>>=◌}
use asio_learn.Beast.{Json, Request, Response, process_request, serve}
use asio_learn.Beast.Count.{Served, serve-Served}
use asio_learn.Beast.Main.{
  Server, Happening, arrives, reads, writes, expires, new_server, is_reading, answer, accepted,
  handle, step, run,
}

-- The request of a read without error, by a connection that waits for it.
abbrev pub asked_now : Server → Happening → List (ℕ × Request)
asked_now s (reads u false now req) =
    if is_reading (s.connection u).phase then (now, req) ∷ [] else []
asked_now s _ = []

module _ (j : Json) where
  -- The requests that are read, up to an exception.
  abbrev pub asked : Server → List Happening → List (ℕ × Request)
  asked s [] = []
  asked s (h ∷ hs) = (if s.thrown then [] else asked_now s h) ++ asked (step j s h) hs

  abbrev pub result : Server → Option (List Response × ℕ)
  result s = if s.thrown then none else some (s.responses, s.count)

  abbrev behind : List Response → Option (List Response × ℕ) → Option (List Response × ℕ)
  behind rs o = Option.map (λ (p : List Response × ℕ). (rs ++ p.0, p.1)) o

  pub step-thrown : (s : Server) (h : Happening) → s.thrown ≡ true → step j s h ≡ s
  unfolding step
  step-thrown s h e = ap (λ b. if b then s else handle j s h) e

  pub step-goes : (s : Server) (h : Happening) → s.thrown ≡ false → step j s h ≡ handle j s h
  unfolding step
  step-goes s h e = ap (λ b. if b then s else handle j s h) e

  pub run-thrown : (hs : List Happening) (s : Server) → s.thrown ≡ true → run j s hs ≡ s
  unfolding run
  run-thrown [] s e = refl
  run-thrown (h ∷ hs) s e = ap (λ t. run j t hs) (step-thrown s h e) ∙ run-thrown hs s e

  -- Nothing is answered.
  record Silent (s t : Server) : Type 0 where
    goes : t.thrown ≡ false
    answers : t.responses ≡ s.responses
    counts : t.count ≡ s.count

  Goal : Server → List Happening → Type 0
  Goal s hs = behind s.responses (serve j s.count (asked s hs)) ≡ result (run j s hs)

  -- A step that answers nothing, where no request is read.
  Silent-Goal :
      (s : Server) (h : Happening) (hs : List Happening)
      → s.thrown ≡ false
      → asked_now s h ≡ []
      → Silent s (handle j s h)
      → Goal (handle j s h) hs
      → Goal s (h ∷ hs)
  unfolding Goal run
  Silent-Goal s h hs e none_read v rest =
      let go = step-goes s h e in
      let no_more : asked s (h ∷ hs) ≡ asked (handle j s h) hs =
        ap (λ b. (if b then [] else asked_now s h) ++ asked (step j s h) hs) e
        ∙ ap₂ (λ l t. l ++ asked t hs) none_read go in
      ap (λ l. behind s.responses (serve j s.count l)) no_more
      ∙ ap₂ (λ r c. behind r (serve j c (asked (handle j s h) hs))) (sym v.answers) (sym v.counts)
      ∙ rest
      ∙ ap (λ t. result (run j t hs)) (sym go)

  behind-behind :
      (rs : List Response) (r : Response) (o : Option (List Response × ℕ))
      → behind rs (do rest ← o; some (r ∷ rest.0, rest.1)) ≡ behind (rs ++ r ∷ []) o
  behind-behind rs r none = refl
  behind-behind rs r (some (ss, n)) = ap (λ l. some (l, n)) (sym (append_assoc rs (r ∷ []) ss))

  answer-Goal :
      (s : Server) (u now : ℕ) (req : Request) (hs : List Happening) (o : Option (Response × ℕ))
      → s.thrown ≡ false
      → ((t : Server) → t.thrown ≡ false → Goal t hs)
      → process_request j now s.count req ≡ o
      → behind s.responses (serve j s.count ((now, req) ∷ asked (answer s u o) hs))
        ≡ result (run j (answer s u o) hs)
  unfolding Goal serve
  answer-Goal s u now req hs none alive later e =
      rw e (sym (ap result (run-thrown hs (answer s u none) refl)))
  answer-Goal s u now req hs (some (r, next)) alive later e = rw e (
      behind-behind s.responses r (serve j next (asked (answer s u (some (r, next))) hs))
      ∙ later (answer s u (some (r, next))) alive)

  handle-reading :
      (s : Server) (u now : ℕ) (req : Request)
      → is_reading (s.connection u).phase ≡ true
      → handle j s (reads u false now req) ≡ answer s u (process_request j now s.count req)
  unfolding handle
  handle-reading s u now req r =
      ap (λ b. if b then answer s u (process_request j now s.count req) else s) r

  reads-Goal :
      (s : Server) (u now : ℕ) (req : Request) (hs : List Happening)
      → s.thrown ≡ false
      → is_reading (s.connection u).phase ≡ true
      → ((t : Server) → t.thrown ≡ false → Goal t hs)
      → Goal s (reads u false now req ∷ hs)
  unfolding Goal run
  reads-Goal s u now req hs alive r later =
      let h = reads u false now req in
      let o = process_request j now s.count req in
      let go : step j s h ≡ answer s u o = step-goes s h alive ∙ handle-reading s u now req r in
      let one : asked s (h ∷ hs) ≡ (now, req) ∷ asked (answer s u o) hs =
        ap (λ b. (if b then [] else asked_now s h) ++ asked (step j s h) hs) alive
        ∙ ap₂ (λ b t. (if b then (now, req) ∷ [] else []) ++ asked t hs) r go in
      ap (λ l. behind s.responses (serve j s.count l)) one
      ∙ answer-Goal s u now req hs o alive later refl
      ∙ ap (λ t. result (run j t hs)) (sym go)

  accepts-Silent :
      (s : Server) (failed : Bool) → s.thrown ≡ false → Silent s (handle j s (arrives failed))
  unfolding handle
  accepts-Silent s failed alive = by_accepting s.accepting failed
    where
      by_accepting : (b failed : Bool) → Silent s (if b then accepted s failed else s)
      by_accepting true true = record { goes = alive; answers = refl; counts = refl }
      by_accepting true false = record { goes = alive; answers = refl; counts = refl }
      by_accepting false failed = record { goes = alive; answers = refl; counts = refl }

  ignored-Silent :
      (s : Server) (u now : ℕ) (req : Request)
      → s.thrown ≡ false
      → is_reading (s.connection u).phase ≡ false
      → Silent s (handle j s (reads u false now req))
  unfolding handle
  ignored-Silent s u now req alive r = rw r (record { goes = alive; answers = refl; counts = refl })

  cons-Goal :
      (h : Happening) (hs : List Happening) (s : Server)
      → s.thrown ≡ false
      → ((t : Server) → t.thrown ≡ false → Goal t hs)
      → Goal s (h ∷ hs)
  unfolding handle
  cons-Goal h hs s alive later = by_happening h
    where
      silent : (h : Happening) → asked_now s h ≡ [] → Silent s (handle j s h) → Goal s (h ∷ hs)
      silent h none_read v = Silent-Goal s h hs alive none_read v (later (handle j s h) v.goes)

      by_happening : (h : Happening) → Goal s (h ∷ hs)
      by_happening (arrives failed) = silent (arrives failed) refl (accepts-Silent s failed alive)
      by_happening (reads u true now req) =
          silent (reads u true now req) refl
            (record { goes = alive; answers = refl; counts = refl })
      by_happening (reads u false now req) = elim (Bool-cases (is_reading (s.connection u).phase)) [
        | inl r ↦ reads-Goal s u now req hs alive r later
        | inr r ↦ silent (reads u false now req) (rw r) (ignored-Silent s u now req alive r)
      ]
      by_happening (writes u) =
          silent (writes u) refl (record { goes = alive; answers = refl; counts = refl })
      by_happening (expires u) =
          silent (expires u) refl (record { goes = alive; answers = refl; counts = refl })

  run-Goal : (hs : List Happening) (s : Server) → s.thrown ≡ false → Goal s hs
  unfolding Goal run serve
  run-Goal [] s alive =
      ap (λ l. some (l, s.count)) (append-nil s.responses)
      ∙ ap (λ b. if b then none else some (s.responses, s.count)) (sym alive)
  run-Goal (h ∷ hs) s alive = cons-Goal h hs s alive (run-Goal hs)

  behind-nil : (o : Option (List Response × ℕ)) → behind [] o ≡ o
  behind-nil none = refl
  behind-nil (some p) = refl

  -- Whatever completes, and in whatever order: the server answers the requests that its connections
  -- read, each once, in the order in which the reads complete, as if one connection had asked them one
  -- after another. So each response has the status of its page and its whole length, a count page shows
  -- the number of the views before it and itself, and the server throws only if JsonCpp throws on the
  -- body of one of the requests.
  pub run-Served :
      (hs : List Happening)
      → (result (run j new_server hs) ≡ serve j 0 (asked new_server hs))
        × Served j 0 (asked new_server hs) (result (run j new_server hs))
  unfolding Goal
  run-Served hs =
      let same = sym (run-Goal hs new_server refl) ∙ behind-nil (serve j 0 (asked new_server hs)) in
      (
        same,
        subst (Served j 0 (asked new_server hs)) (sym same)
            (serve-Served j 0 (asked new_server hs) (omega arith)),
      )
