-- ===== src/Http/Whole/Joined.antt =====
-- What a client hears that comes over HTTP.
use asio_learn.Base.{ℕ, ◌≤◌, ◌≡◌, refl, sym, ap, ◌∙◌, Bool, true, false, List, ◌++◌, le→ltb}
use asio_learn.Http.{FileSystem, Request}
use asio_learn.Http.Listener.{Setup}
use asio_learn.Http.Upgrade.{comes}
use asio_learn.Chat.{Text}
use asio_learn.Chat.Sound.{heard}
use asio_learn.Chat.Life as Lives
use asio_learn.Chat.Life.{Life}
use asio_learn.Chat.Life.Texts.{never_quits, spoken_by, pending, texts, texts_by}
use asio_learn.Chat.Life.Joined.{stays_joining}
use asio_learn.Chat.Life.Delivered.{never_breaks, run-delivered}
use asio_learn.Http.Whole.{Whole, Happening, asks, talks, start, step, run}
use asio_learn.Http.Whole.Projection.{life_events, run-life, run_from-life, step-life}

module _ (fs : FileSystem) (doc_root : List ℕ) where
  -- The upgrade of an open connection.
  upgraded-life :
      (w : Whole) (v size : ℕ) (req : Request) (broken : Bool)
      → w.open_http v ≡ true
      → size ≤ 10000
      → (step fs doc_root w (asks v (comes true size req) broken)).life
        ≡ Lives.step w.life (Lives.creates v)
  unfolding Lives.run
  upgraded-life w v size req broken is_open small =
      step-life fs doc_root w (asks v (comes true size req) broken)
      ∙ rw (is_open, le→ltb 10000 size small)

  handshake-life :
      (w : Whole) (v : ℕ)
      → (step fs doc_root w (talks (Lives.accepts v false))).life
        ≡ Lives.step w.life (Lives.accepts v false)
  unfolding step
  handshake-life w v = refl

  -- The state behind an upgrade, and that behind its handshake.
  abbrev pub upgrade : Whole → ℕ → ℕ → Request → Bool → Whole
  upgrade w v size req broken = step fs doc_root w (asks v (comes true size req) broken)

  abbrev pub handshake : Whole → List Happening → ℕ → Whole
  handshake m mid v = step fs doc_root (run fs doc_root m mid) (talks (Lives.accepts v false))

  abbrev pub begun : Setup → List Happening → Whole
  begun setup before = run fs doc_root (start setup) before

  -- On the whole server: a connection that is open, and to which no websocket session belongs yet, asks
  -- for an upgrade with a body within the limit, and its handshake succeeds later. From then on, whatever
  -- the other connections do, as long as none of its reads and writes fails, its session lives, and what
  -- it has written, has queued and is about to queue are texts of which each comes from the read of one
  -- session: from every session they are those that it has read since, each once and in the order of its
  -- reads, less the one that it has still to post.
  pub run-joined :
      (setup : Setup) (before mid after : List Happening) (v size : ℕ) (req : Request)
      (broken : Bool)
      → (begun setup before).open_http v ≡ true
      → (begun setup before).life.lives v ≡ false
      → size ≤ 10000
      → stays_joining v
          (life_events fs doc_root (upgrade (begun setup before) v size req broken) mid)
        ≡ true
      → never_quits v (
          life_events fs doc_root
            (handshake (upgrade (begun setup before) v size req broken) mid v)
            after)
        ≡ true
      → never_breaks v (
          life_events fs doc_root
            (handshake (upgrade (begun setup before) v size req broken) mid v)
            after)
        ≡ true
      → let k = handshake (upgrade (begun setup before) v size req broken) mid v in
        ((run fs doc_root k after).life.lives v ≡ true)
        × ((posted : List (ℕ × Text)) × ((heard ((run fs doc_root k after).life.chat.session v)
                ≡ texts posted)
              × ((u : ℕ)
                  → texts_by u posted ++ pending v ((run fs doc_root k after).life.chat.sending u)
                    ≡ spoken_by u k.life (life_events fs doc_root k after))))
  run-joined setup before mid after v size req broken is_open free small joining quiet sound =
      let w = begun setup before in
      let m = upgrade w v size req broken in
      let n = run fs doc_root m mid in
      let k = handshake m mid v in
      let past = life_events fs doc_root (start setup) before in
      let meanwhile = life_events fs doc_root m mid in
      let future = life_events fs doc_root k after in
      let made : m.life ≡ Lives.step (Lives.run Lives.empty past) (Lives.creates v) =
        upgraded-life w v size req broken is_open small
        ∙ ap (λ l. Lives.step l (Lives.creates v)) (run-life fs doc_root setup before) in
      let shaken =
        handshake-life n v
        ∙ ap (λ l. Lives.step l (Lives.accepts v false))
            (run_from-life fs doc_root mid m ∙ ap (λ l. Lives.run l meanwhile) made) in
      let last = run_from-life fs doc_root after k ∙ ap (λ l. Lives.run l future) shaken in
      let (alive, (posted, (all, by_reader, written))) =
        run-delivered past meanwhile future v
          (ap (λ (l : Life). l.lives v) (sym (run-life fs doc_root setup before)) ∙ free) joining
          quiet sound in
      (
        ap (λ (l : Life). l.lives v) last ∙ alive,
        (
          posted,
          (
            ap (λ (l : Life). heard (l.chat.session v)) last ∙ all,
            λ u.
                ap (λ (l : Life). texts_by u posted ++ pending v (l.chat.sending u)) last
                ∙ by_reader u
                ∙ ap (λ l. spoken_by u l future) (sym shaken),
          ),
        ),
      )
