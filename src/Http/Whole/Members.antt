-- ===== src/Http/Whole/Members.antt =====
-- Who is in the chat.
use asio_learn.Base.{
  ℕ, ◌≡◌, refl, sym, ap, ◌∙◌, subst, Bool, true, false, List, [], ◌∷◌, ◌++◌, Option, none, some,
  update, ==_refl, ==_iff, Bool-cases, inl, inr, append_assoc, append-nil,
}
use asio_learn.Logic.Server.{has_session}
use asio_learn.Http.{
  Response, FileSystem, Next, reads_again, writes, hands_over, stops, shuts_down, on_read, on_write,
}
use asio_learn.Http.Listener.{Setup, accepts}
use asio_learn.Http.Upgrade.{do_read}
use asio_learn.Chat.Life as Lives
use asio_learn.Chat.Life.{Life}
use asio_learn.Chat.Life.Held.{IsSafe}
use asio_learn.Chat.Life.Safe.{step-IsSafe, run-IsSafe}
use asio_learn.Http.Whole.{
  Whole, Happening, connects, asks, talks, start, connected, in_use, after_write, after_read,
  is_creates, step, run,
}
use asio_learn.Http.Whole.Steps.{
  later, now, upgrade_asked, accepts-one, new_connection, upgrades, shakes, any, closed, lives-step,
  lives-creates, members-step,
}

-- What is known of every connection after some events.
record Known (done : List Happening) (w : Whole) : Type 0 where
  safe : IsSafe w.life
  opens : (u : ℕ) → w.open_http u ≡ true → has_session u w.listener.sessions ≡ true
  lives : (u : ℕ) → w.life.lives u ≡ true → has_session u w.listener.sessions ≡ true
  asked : (u : ℕ) → w.life.lives u ≡ true → any (upgrades u) done ≡ true
  shook : (u : ℕ) → has_session u w.life.chat.sessions ≡ true → any (shakes u) done ≡ true

module _ (done : List Happening) (h : Happening) (w : Whole) (k : Known done w) where
  -- An HTTP session goes on or closes.
  quiet-Known :
      (o : ℕ → Bool) (r : ℕ → List Response)
      → ((u : ℕ) → o u ≡ true → w.open_http u ≡ true)
      → Known (done ++ h ∷ []) (record w { open_http = o; responses = r })
  quiet-Known o r less = record {
    safe = k.safe;
    opens = λ u e. k.opens u (less u e);
    lives = k.lives;
    asked = λ u e. later (upgrades u) done h (k.asked u e);
    shook = λ u e. later (shakes u) done h (k.shook u e);
  }

  closes-Known :
      (r : ℕ → List Response) (v : ℕ)
      → Known (done ++ h ∷ []) (record w { open_http = update w.open_http v false; responses = r })
  closes-Known r v = quiet-Known (update w.open_http v false) r (λ u e. closed w.open_http v u e)

  after_write-Known :
      (v : ℕ) (r : Response) (n : Next) → Known (done ++ h ∷ []) (after_write w v r n)
  after_write-Known v r reads_again =
      quiet-Known w.open_http (update w.responses v (w.responses v ++ r ∷ [])) (λ u e. e)
  after_write-Known v r stops = closes-Known w.responses v
  after_write-Known v r (writes x) = closes-Known (update w.responses v (w.responses v ++ r ∷ [])) v
  after_write-Known v r hands_over = closes-Known (update w.responses v (w.responses v ++ r ∷ [])) v
  after_write-Known v r shuts_down = closes-Known (update w.responses v (w.responses v ++ r ∷ [])) v

  -- The HTTP session of an open connection is taken over.
  takes_over-Known :
      (v : ℕ)
      → w.open_http v ≡ true
      → upgrades v h ≡ true
      → Known (done ++ h ∷ []) (after_read w v false hands_over)
  takes_over-Known v o up = record {
    safe = step-IsSafe w.life (Lives.creates v) k.safe;
    opens = λ u e. k.opens u (closed w.open_http v u e);
    lives = λ u e. elim (lives-creates w.life v u e) [
      | inl old ↦ k.lives u old
      | inr same ↦
          subst (λ u. has_session u w.listener.sessions ≡ true) ((==_iff v u).0 same) (k.opens v o)
    ];
    asked = λ u e. elim (lives-creates w.life v u e) [
      | inl old ↦ later (upgrades u) done h (k.asked u old)
      | inr same ↦
          subst (λ u. any (upgrades u) (done ++ h ∷ []) ≡ true) ((==_iff v u).0 same)
            (now (upgrades v) done h up)
    ];
    shook = λ u e. elim (members-step w.life (Lives.creates v) u e) [
      | inl old ↦ later (shakes u) done h (k.shook u old)
      | inr never ↦ absurd (cc never)
    ];
  }

  after_read-Known :
      (v : ℕ) (broken : Bool) (n : Next)
      → w.open_http v ≡ true
      → (n ≡ hands_over → upgrades v h ≡ true)
      → Known (done ++ h ∷ []) (after_read w v broken n)
  after_read-Known v broken (writes r) o up = after_write-Known v r (on_write broken r.keep_alive)
  after_read-Known v broken hands_over o up = takes_over-Known v o (up refl)
  after_read-Known v broken stops o up = closes-Known w.responses v
  after_read-Known v broken shuts_down o up = closes-Known w.responses v
  after_read-Known v broken reads_again o up = closes-Known w.responses v

  connected-has :
      (a : Option ℕ) (u : ℕ)
      → connected w a u ≡ true
      → has_session u (accepts w.listener (a ∷ [])).sessions ≡ true
  unfolding accepts
  connected-has none u e = accepts-one w.listener none u (k.opens u e)
  connected-has (some v) u e =
      new_connection w.open_http w.listener u v w.listener.accepting w.listener.listening
        (k.opens u) e

  connects-Known :
      (a : Option ℕ)
      → Known
          (done ++ h ∷ [])
          (record w { listener = accepts w.listener (a ∷ []); open_http = connected w a })
  connects-Known a = record {
    safe = k.safe;
    opens = λ u e. connected-has a u e;
    lives = λ u e. accepts-one w.listener a u (k.lives u e);
    asked = λ u e. later (upgrades u) done h (k.asked u e);
    shook = λ u e. later (shakes u) done h (k.shook u e);
  }

  talks-Known :
      (e : Lives.Event)
      → h ≡ talks e
      → is_creates e ≡ false
      → Known (done ++ h ∷ []) (record w { life = Lives.step w.life e })
  talks-Known e same c = record {
    safe = step-IsSafe w.life e k.safe;
    opens = k.opens;
    lives = λ u a. k.lives u (lives-step w.life e u c a);
    asked = λ u a. later (upgrades u) done h (k.asked u (lives-step w.life e u c a));
    shook = λ u a. elim (members-step w.life e u a) [
      | inl old ↦ later (shakes u) done h (k.shook u old)
      | inr new ↦ now (shakes u) done h (ap (shakes u) same ∙ new)
    ];
  }

module _ (fs : FileSystem) (doc_root : List ℕ) where
  step-Known :
      (done : List Happening) (h : Happening) (w : Whole)
      → Known done w
      → Known (done ++ h ∷ []) (step fs doc_root w h)
  unfolding step
  step-Known done (connects a) w k = elim (Bool-cases (in_use w a)) [
    | inl e ↦ rw e (quiet-Known done (connects a) w k w.open_http w.responses (λ u e. e))
    | inr e ↦ rw e (connects-Known done (connects a) w k a)
  ]
  step-Known done (asks v a broken) w k = elim (Bool-cases (w.open_http v)) [
    | inl e ↦ rw e (
        after_read-Known done (asks v a broken) w k v broken (on_read fs doc_root (do_read a)) e
          (λ over. rw (==_refl v) (upgrade_asked fs doc_root a over)))
    | inr e ↦ rw e (quiet-Known done (asks v a broken) w k w.open_http w.responses (λ u e. e))
  ]
  step-Known done (talks e) w k = elim (Bool-cases (is_creates e)) [
    | inl c ↦ rw c (quiet-Known done (talks e) w k w.open_http w.responses (λ u e. e))
    | inr c ↦ rw c (talks-Known done (talks e) w k e refl c)
  ]

  run-Known :
      (hs done : List Happening) (w : Whole)
      → Known done w
      → Known (done ++ hs) (run fs doc_root w hs)
  unfolding run
  run-Known [] done w k = subst (λ ds. Known ds w) (sym (append-nil done)) k
  run-Known (h ∷ hs) done w k =
      subst (λ ds. Known ds (run fs doc_root (step fs doc_root w h) hs))
        (append_assoc done (h ∷ []) hs)
        (run-Known hs (done ++ h ∷ []) (step fs doc_root w h) (step-Known done h w k))

  -- Whatever happens to the whole server, in whatever order: a websocket session that is in the chat
  -- lives, and its connection was given to an HTTP session by the listener, has asked for an upgrade with
  -- a body within the limit, and has completed its handshake.
  pub run-members :
      (setup : Setup) (hs : List Happening) (u : ℕ)
      → has_session u (run fs doc_root (start setup) hs).life.chat.sessions ≡ true
      → let w = run fs doc_root (start setup) hs in
        (w.life.lives u ≡ true)
        × (has_session u w.listener.sessions ≡ true)
        × (any (upgrades u) hs ≡ true)
        × (any (shakes u) hs ≡ true)
  unfolding Lives.run
  run-members setup hs u e =
      let k = run-Known hs [] (start setup) (record {
        safe = run-IsSafe [];
        opens = λ u e. cc e;
        lives = λ u e. cc e;
        asked = λ u e. cc e;
        shook = λ u e. cc e;
      }) in
      let alive = (k.safe.each u).in_set e in (alive, k.lives u alive, k.asked u alive, k.shook u e)
