-- ===== src/Chat/Life/Spread.antt =====
-- Who is posted what, with the sessions that are there.
use asio_learn.Base.{
  ℕ, ◌≡◌, refl, sym, ap, ◌∙◌, Bool, true, false, not, ◌&&◌, ◌||◌, List, [], ◌∷◌, ◌++◌, ◌==◌, none,
  some, if◌then◌else◌, update, by_key, ==_refl, ==_iff, arith, Bool-cases, inl, inr, append_assoc,
  append-nil, subst,
}
use asio_learn.Logic.Server.{has_session}
use asio_learn.Chat.{
  Text, Session, State, Sending, is_sending, expire, on_accept, on_read, join, leave, send,
  send_all, send_next, run_posted, end_write,
}
use asio_learn.Chat as Handlers
use asio_learn.Chat.Sound.{heard, run_posted-heard, end_write-heard}
use asio_learn.Chat.Broadcast.{update-heard}
use asio_learn.Chat.Life.{
  Life, Event, creates, accepts, reads, sends, runs, ends_write, destroys, held, enabled, perform,
  step,
}
use asio_learn.Chat.Life.Held.{
  IsSafe, send-reading, run_posted-reading, end_write-reading, expire-sending,
}
use asio_learn.Chat.Life.Tidy.{AreTidy, rest}
use asio_learn.Chat.Life.Texts.{
  quits, said_by, pending, texts, texts_by, pending-none, pending-idle, pending-expire,
}

-- Session `v` reads, or is in a call of `send`.
abbrev pub Present : ℕ → (ℕ → Session) → (ℕ → Sending) → Type 0
Present v f sending = (f v).reading || is_sending (sending v) ≡ true

module _ (l : Life) (safe : IsSafe l) (tidy : AreTidy l) (v : ℕ)
    (here : Present v l.chat.session l.chat.sending) where
  -- The posts `ds` are those to session `v` in a step in which the sessions read `said`.
  abbrev pub Spreads : (ℕ → Session) → (ℕ → Sending) → List (ℕ × Text) → (ℕ → List Text) → Type 0
  Spreads f sending ds said =
      (Present v f sending)
      × (heard (f v) ≡ heard (l.chat.session v) ++ texts ds)
      × ((u : ℕ) → texts_by u ds ++ pending v (sending u) ≡ pending v (l.chat.sending u) ++ said u)

  in_set : has_session v l.chat.sessions ≡ true
  in_set = elim (Bool-cases (l.chat.session v).reading) [
    | inl e ↦ (safe.each v).reader e
    | inr e ↦ (safe.each v).sender (rw e at here)
  ]

  is_held : held l v ≡ true
  is_held = ground (arith, here)

  -- Nothing is posted or read.
  silent :
      (f : ℕ → Session) (sending : ℕ → Sending)
      → Present v f sending
      → heard (f v) ≡ heard (l.chat.session v)
      → ((u : ℕ) → pending v (sending u) ≡ pending v (l.chat.sending u))
      → Spreads f sending [] (λ u. [])
  silent f sending p h same = (
    p,
    h ∙ sym (append-nil (heard (l.chat.session v))),
    λ u. same u ∙ sym (append-nil (pending v (l.chat.sending u))),
  )

  -- Session `u` changes, without a text, and the calls of `send` stay.
  own :
      (u : ℕ) (s : Session)
      → heard s ≡ heard (l.chat.session u)
      → ((u == v) ≡ true → (l.chat.session v).reading ≡ true → s.reading ≡ true)
      → Spreads (update l.chat.session u s) l.chat.sending [] (λ u. [])
  own u s h r =
      silent (update l.chat.session u s) l.chat.sending present
        (update-heard l.chat.session u v s h) (λ w. refl)
    where
      present : Present v (update l.chat.session u s) l.chat.sending
      present = elim (Bool-cases (u == v)) [
        | inr e ↦ rw e here
        | inl e ↦ elim (Bool-cases (l.chat.session v).reading) [
          | inl on ↦ rw (e, r e on)
          | inr off ↦ rw e (ground (arith, here, off))
        ]
      ]

  -- A handler of it that leaves its reading as it is.
  keeps :
      (u : ℕ) (s : Session)
      → heard s ≡ heard (l.chat.session u)
      → s.reading ≡ (l.chat.session u).reading
      → Spreads (update l.chat.session u s) l.chat.sending [] (λ u. [])
  keeps u s h r =
      own u s h (λ e on. r ∙ ap (λ w. (l.chat.session w).reading) ((==_iff u v).0 e) ∙ on)

  other-than : (P : ℕ → Bool) (u : ℕ) → P u ≡ true → P v ≡ false → (u == v) ≡ false
  other-than P u a b = elim (Bool-cases (u == v)) [
    | inl e ↦ absurd (cc (a, b, ap P ((==_iff u v).0 e)))
    | inr e ↦ e
  ]

  reads-Spreads :
      (u : ℕ) (t : Text)
      → (l.chat.session u).reading ≡ true
      → Spreads
          (update l.chat.session u (record (l.chat.session u) { reading = false }))
          (update l.chat.sending u (some (t, l.chat.sessions)))
          []
          (λ w. if (u == w) && (l.chat.session u).reading then t ∷ [] else [])
  reads-Spreads u t on = (
    elim (Bool-cases (u == v)) [ inl e ↦ rw e | inr e ↦ rw e here ],
    update-heard l.chat.session u v _ refl ∙ sym (append-nil (heard (l.chat.session v))),
    λ w.
        by_key
          (λ w.
            pending v (update l.chat.sending u (some (t, l.chat.sessions)) w)
            ≡ pending v (l.chat.sending w)
              ++ (if (u == w) && (l.chat.session u).reading then t ∷ [] else []))
          u w
          (rw (==_refl u, in_set, on, pending-idle v (l.chat.sending u) ((tidy u).alone on)) refl)
          (λ other. rw other (sym (append-nil (pending v (l.chat.sending w))))),
  )

  -- The end of the loop in `send`, and a post.
  end-Spreads :
      (u : ℕ)
      → rest (l.chat.sending u) ≡ []
      → Spreads
          (update l.chat.session u (record (l.chat.session u) { reading = true }))
          (update l.chat.sending u none)
          []
          (λ w. [])
  end-Spreads u done =
      silent (update l.chat.session u (record (l.chat.session u) { reading = true }))
        (update l.chat.sending u none)
        (elim (Bool-cases (u == v)) [ inl e ↦ rw e | inr e ↦ rw e here ])
        (update-heard l.chat.session u v _ refl)
        (λ w.
          by_key (λ w. pending v (update l.chat.sending u none w) ≡ pending v (l.chat.sending w)) u
            w (rw (==_refl u) (sym (pending-none v (l.chat.sending u) (rw done refl))))
            (λ other. rw other refl))

  posted-Present :
      (u w : ℕ) (t x : Text) (vs : List ℕ)
      → Present v
          (if held l w then update l.chat.session w (send (l.chat.session w) t) else l.chat.session)
          (update l.chat.sending u (some (x, vs)))
  posted-Present u w t x vs =
      rw (send-reading (held l w) l.chat.session w t v)
        (elim (Bool-cases (u == v)) [ inl e ↦ rw e (ground arith) | inr e ↦ rw e here ])

  -- A post to session `v` itself: it is the one that the call had left for it.
  own-post :
      (u w : ℕ) (t : Text) (ws : List ℕ)
      → l.chat.sending u ≡ some (t, w ∷ ws)
      → (w == v) ≡ true
      → Spreads
          (if held l w then update l.chat.session w (send (l.chat.session w) t) else l.chat.session)
          (update l.chat.sending u (some (t, ws)))
          ((u, t) ∷ [])
          (λ w. [])
  unfolding send
  own-post u w t ws e same =
      let w_v : w ≡ v = (==_iff w v).0 same in
      let last : has_session v ws ≡ false =
        subst (λ x. has_session x ws ≡ false) w_v (rw e at (tidy u).once).0 in
      let up : held l w ≡ true = subst (λ x. held l x ≡ true) (sym w_v) is_held in
      (
        posted-Present u w t t ws,
        rw (up, same)
            (ap (λ x. heard (send (l.chat.session x) t)) w_v
              ∙ sym (
                  append_assoc ((l.chat.session v).written ++ (l.chat.session v).queue)
                    (l.chat.session v).handlers (t ∷ []))),
        λ x.
            by_key
              (λ x.
                ((if u == x then t ∷ [] else []) ++ [])
                  ++ pending v (update l.chat.sending u (some (t, ws)) x)
                ≡ pending v (l.chat.sending x) ++ [])
              u x (rw (==_refl u, e, last, same) refl)
              (λ other. rw other (sym (append-nil (pending v (l.chat.sending x))))),
      )

  other-post :
      (u w : ℕ) (t : Text) (ws : List ℕ)
      → l.chat.sending u ≡ some (t, w ∷ ws)
      → (w == v) ≡ false
      → Spreads
          (if held l w then update l.chat.session w (send (l.chat.session w) t) else l.chat.session)
          (update l.chat.sending u (some (t, ws)))
          []
          (λ w. [])
  other-post u w t ws e other =
      silent
        (if held l w then update l.chat.session w (send (l.chat.session w) t) else l.chat.session)
        (update l.chat.sending u (some (t, ws))) (posted-Present u w t t ws)
        (elim (Bool-cases (held l w)) [ inl up ↦ rw (up, other) refl | inr down ↦ rw down refl ])
        (λ x.
          by_key
            (λ x.
              pending v (update l.chat.sending u (some (t, ws)) x) ≡ pending v (l.chat.sending x))
            u x (rw (==_refl u, e, other) refl) (λ apart. rw apart refl))

  -- The posts to session `v` in a step of a call of `send`.
  abbrev posts : ℕ → Sending → List (ℕ × Text)
  posts u none = []
  posts u (some (t, [])) = []
  posts u (some (t, w ∷ ws)) = if w == v then (u, t) ∷ [] else []

  sends-Spreads :
      (u : ℕ) (s : Sending)
      → l.chat.sending u ≡ s
      → let c : State = send_next l.chat u (held l) s in
        Spreads c.session c.sending (posts u s) (λ w. [])
  sends-Spreads u none e = silent l.chat.session l.chat.sending here refl (λ w. refl)
  sends-Spreads u (some (t, [])) e = end-Spreads u (ap rest e)
  sends-Spreads u (some (t, w ∷ ws)) e = elim (Bool-cases (w == v)) [
    | inl same ↦ rw same (own-post u w t ws e same)
    | inr other ↦ rw other (other-post u w t ws e other)
  ]

  destroys-Spreads :
      (u : ℕ)
      → l.lives u && not (held l u) ≡ true
      → Spreads l.chat.session (λ w. expire u (l.chat.sending w)) [] (λ w. [])
  destroys-Spreads u on =
      let other = other-than (λ w. not (held l w)) u (ground (arith, on)) (rw is_held) in
      silent l.chat.session (λ w. expire u (l.chat.sending w))
        (rw (expire-sending u (l.chat.sending v)) here) refl
        (λ w. pending-expire u v (l.chat.sending w) other)

  abbrev pub StepSpreads : Life → (ℕ → List Text) → Type 0
  StepSpreads m said = (ds : List (ℕ × Text)) × Spreads m.chat.session m.chat.sending ds said

  perform-Spreads :
      (e : Event)
      → enabled l e ≡ true
      → quits v e ≡ false
      → StepSpreads (perform l e) (λ u. said_by u l e)
  unfolding enabled perform Handlers.step on_accept on_read join leave send_all
  perform-Spreads (creates u) on q =
      let other = other-than (λ w. not (l.lives w)) u on (rw ((safe.each v).in_handler is_held)) in
      (
        [],
        silent (update l.chat.session u Handlers.new_session) l.chat.sending (rw other here)
            (rw other refl) (λ w. refl),
      )
  perform-Spreads (accepts u true) on q =
      ([], silent l.chat.session l.chat.sending here refl (λ w. refl))
  perform-Spreads (accepts u false) on q = ([], own u _ refl (λ e r. refl))
  perform-Spreads (reads u true text) on q =
      ([], own u _ refl (λ e r. absurd (ground (arith, e, q))))
  perform-Spreads (reads u false text) on q = ([], reads-Spreads u text on)
  perform-Spreads (sends u) on q =
      (posts u (l.chat.sending u), sends-Spreads u (l.chat.sending u) refl)
  perform-Spreads (runs u) on q =
      let s = l.chat.session u in
      (
        [],
        keeps u (run_posted s s.handlers) (run_posted-heard s s.handlers refl)
            (run_posted-reading s s.handlers),
      )
  perform-Spreads (ends_write u failed) on q =
      let s = l.chat.session u in
      (
        [],
        keeps u (end_write s failed s.flight)
            (end_write-heard s failed s.queue s.flight (safe.sound.flies u))
            (end_write-reading s failed s.flight),
      )
  perform-Spreads (destroys u) on q = ([], destroys-Spreads u on)

  said-disabled : (e : Event) → enabled l e ≡ false → (u : ℕ) → said_by u l e ≡ []
  unfolding enabled
  said-disabled (creates w) off u = refl
  said-disabled (accepts w failed) off u = refl
  said-disabled (reads w true text) off u = refl
  said-disabled (reads w false text) off u = rw off (ground arith)
  said-disabled (sends w) off u = refl
  said-disabled (runs w) off u = refl
  said-disabled (ends_write w failed) off u = refl
  said-disabled (destroys w) off u = refl

  pub step-Spreads : (e : Event) → quits v e ≡ false → StepSpreads (step l e) (λ u. said_by u l e)
  unfolding step
  step-Spreads e q = elim (Bool-cases (enabled l e)) [
    | inl on ↦ rw on (perform-Spreads e on q)
    | inr off ↦
        let (p, h, s) = silent l.chat.session l.chat.sending here refl (λ w. refl) in
        rw off (
          [],
          (
            p,
            h,
            λ u. s u ∙ ap (λ ts. pending v (l.chat.sending u) ++ ts) (sym (said-disabled e off u)),
          ),
        )
  ]
