-- ===== src/Http/Whole/Projection.antt =====
-- The websocket sessions of the whole server.
use asio_learn.Base.{
  ℕ, ◌≡◌, refl, sym, ap, ◌∙◌, Bool, true, false, List, [], ◌∷◌, ◌++◌, if◌then◌else◌, ltb,
  Bool-cases, inl, inr,
}
use asio_learn.Http.{
  Response, FileSystem, Next, reads_again, writes, hands_over, stops, shuts_down, on_read, on_write,
  handle_request,
}
use asio_learn.Http.Listener.{Setup}
use asio_learn.Http.Upgrade.{Arrival, ends, breaks, comes, do_read}
use asio_learn.Chat.Life as Lives
use asio_learn.Chat.Life.{Life}
use asio_learn.Chat.Life.End.{run-append}
use asio_learn.Http.Whole.{
  Whole, Happening, connects, asks, talks, start, after_write, after_read, in_use, is_creates, step,
  run,
}
use asio_learn.Http.Whole.Steps.{is_upgrade}

-- What it is for the websocket sessions: an upgrade of an open connection creates one.
abbrev pub life_event : Whole → Happening → List Lives.Event
life_event w (connects a) = []
life_event w (asks v a broken) =
    if w.open_http v then if is_upgrade a then Lives.creates v ∷ [] else [] else []
life_event w (talks e) = if is_creates e then [] else e ∷ []

after_write-life :
    (w : Whole) (v : ℕ) (r : Response) (n : Next) → (after_write w v r n).life ≡ w.life
after_write-life w v r reads_again = refl
after_write-life w v r stops = refl
after_write-life w v r (writes x) = refl
after_write-life w v r hands_over = refl
after_write-life w v r shuts_down = refl

module _ (fs : FileSystem) (doc_root : List ℕ) where
  abbrev pub life_events : Whole → List Happening → List Lives.Event
  life_events w [] = []
  life_events w (h ∷ hs) = life_event w h ++ life_events (step fs doc_root w h) hs

  asks-life :
      (w : Whole) (v : ℕ) (a : Arrival) (broken : Bool)
      → (after_read w v broken (on_read fs doc_root (do_read a))).life
        ≡ Lives.run w.life (if is_upgrade a then Lives.creates v ∷ [] else [])
  unfolding on_read do_read Lives.run
  asks-life w v ends broken = refl
  asks-life w v breaks broken = refl
  asks-life w v (comes true size req) broken = elim (Bool-cases (ltb 10000 size)) [
    | inl large ↦ rw large
    | inr small ↦ rw small
  ]
  asks-life w v (comes false size req) broken = elim (Bool-cases (ltb 10000 size)) [
    | inl large ↦ rw large
    | inr small ↦ rw small (
        after_write-life w v (handle_request fs doc_root req)
          (on_write broken (handle_request fs doc_root req).keep_alive))
  ]

  pub step-life :
      (w : Whole) (h : Happening) → (step fs doc_root w h).life ≡ Lives.run w.life (life_event w h)
  unfolding step Lives.run
  step-life w (connects a) = elim (Bool-cases (in_use w a)) [ inl e ↦ rw e | inr e ↦ rw e ]
  step-life w (asks v a broken) = elim (Bool-cases (w.open_http v)) [
    | inl e ↦ rw e (asks-life w v a broken)
    | inr e ↦ rw e
  ]
  step-life w (talks e) = elim (Bool-cases (is_creates e)) [ inl c ↦ rw c | inr c ↦ rw c ]

  pub run_from-life :
      (hs : List Happening) (w : Whole)
      → (run fs doc_root w hs).life ≡ Lives.run w.life (life_events w hs)
  unfolding run Lives.run
  run_from-life [] w = refl
  run_from-life (h ∷ hs) w =
      run_from-life hs (step fs doc_root w h)
      ∙ ap (λ l. Lives.run l (life_events (step fs doc_root w h) hs)) (step-life w h)
      ∙ sym (run-append w.life (life_event w h) (life_events (step fs doc_root w h) hs))

  -- The websocket sessions of the whole server do what they do by themselves, in the run in which one is
  -- created wherever an open connection asks for an upgrade with a body within the limit. Neither the
  -- listener nor any other request on any connection changes the chat.
  pub run-life :
      (setup : Setup) (hs : List Happening)
      → (run fs doc_root (start setup) hs).life
        ≡ Lives.run Lives.empty (life_events (start setup) hs)
  run-life setup hs = run_from-life hs (start setup)
