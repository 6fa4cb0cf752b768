-- ===== src/Http/Whole/Steps.antt =====
-- What a step does to the connections that live and to the members of the chat.
use asio_learn.Base.{
  ℕ, ◌≡◌, refl, ◌∙◌, Bool, true, false, not, ◌&&◌, ◌||◌, List, [], ◌∷◌, ◌++◌, Option, none, some,
  if◌then◌else◌, update, ◌==◌, ltb, arith, Bool-cases, inl, inr, ◌⊎◌,
}
use asio_learn.Logic.Server.{has_session, has_session-insert, has_session-erase}
use asio_learn.Http.{FileSystem, hands_over, on_read}
use asio_learn.Http.Listener.{Listener, accepts, on_accept}
use asio_learn.Http.Upgrade.{Arrival, ends, breaks, comes, do_read}
use asio_learn.Chat as Handlers
use asio_learn.Chat.{Sending, send_next, join, leave}
use asio_learn.Chat.Life as Lives
use asio_learn.Chat.Life.{Life}
use asio_learn.Http.Whole.{Happening, asks, talks, is_creates}

-- A request for an upgrade, with a body within the limit.
abbrev pub is_upgrade : Arrival → Bool
is_upgrade (comes upgrade size req) = not (ltb 10000 size) && upgrade
is_upgrade _ = false

-- Connection `u` asks for an upgrade; its handshake succeeds.
abbrev pub upgrades : ℕ → Happening → Bool
upgrades u (asks v a broken) = v == u && is_upgrade a
upgrades u _ = false

abbrev pub shakes_life : ℕ → Lives.Event → Bool
shakes_life u (Lives.accepts v failed) = v == u && not failed
shakes_life u _ = false

abbrev pub shakes : ℕ → Happening → Bool
shakes u (talks e) = shakes_life u e
shakes u _ = false

abbrev pub any : (Happening → Bool) → List Happening → Bool
any p [] = false
any p (h ∷ hs) = p h || any p hs

pub any-snoc :
    (p : Happening → Bool) (hs : List Happening) (h : Happening)
    → any p (hs ++ h ∷ []) ≡ (any p hs || p h)
any-snoc p [] h = ground arith
any-snoc p (g ∷ hs) h = rw (any-snoc p hs h) (ground arith)

pub has_session-append :
    (u : ℕ) (xs ys : List ℕ) → has_session u (xs ++ ys) ≡ (has_session u xs || has_session u ys)
has_session-append u [] ys = refl
has_session-append u (x ∷ xs) ys = rw (has_session-append u xs ys) (ground arith)

pub closed : (f : ℕ → Bool) (v u : ℕ) → update f v false u ≡ true → f u ≡ true
closed f v u h = elim (Bool-cases (v == u)) [
  | inl e ↦ absurd (ground (arith, e, h))
  | inr e ↦ (rw e at h)
]

-- What an event does to who lives, and to who is in the set.
lives-perform :
    (l : Life) (e : Lives.Event) (u : ℕ)
    → is_creates e ≡ false
    → (Lives.perform l e).lives u ≡ true
    → l.lives u ≡ true
unfolding Lives.perform
lives-perform l (Lives.creates v) u c h = absurd (cc c)
lives-perform l (Lives.accepts v failed) u c h = h
lives-perform l (Lives.reads v failed text) u c h = h
lives-perform l (Lives.sends v) u c h = h
lives-perform l (Lives.runs v) u c h = h
lives-perform l (Lives.ends_write v failed) u c h = h
lives-perform l (Lives.destroys v) u c h = closed l.lives v u h

pub lives-step :
    (l : Life) (e : Lives.Event) (u : ℕ)
    → is_creates e ≡ false
    → (Lives.step l e).lives u ≡ true
    → l.lives u ≡ true
unfolding Lives.step
lives-step l e u c h = by_enabled (Lives.enabled l e) h
  where
    by_enabled : (b : Bool) → (if b then Lives.perform l e else l).lives u ≡ true → l.lives u ≡ true
    by_enabled true h = lives-perform l e u c h
    by_enabled false h = h

pub lives-creates :
    (l : Life) (v u : ℕ)
    → (Lives.step l (Lives.creates v)).lives u ≡ true
    → (l.lives u ≡ true) ⊎ ((v == u) ≡ true)
unfolding Lives.step Lives.perform
lives-creates l v u h = by_enabled (Lives.enabled l (Lives.creates v)) h
  where
    by_enabled :
        (b : Bool)
        → (if b then Lives.perform l (Lives.creates v) else l).lives u ≡ true
        → (l.lives u ≡ true) ⊎ ((v == u) ≡ true)
    by_enabled true h = elim (Bool-cases (v == u)) [ inl e ↦ inr e | inr e ↦ inl (rw e at h) ]
    by_enabled false h = inl h

members-perform :
    (l : Life) (e : Lives.Event) (u : ℕ)
    → has_session u (Lives.perform l e).chat.sessions ≡ true
    → (has_session u l.chat.sessions ≡ true) ⊎ (shakes_life u e ≡ true)
unfolding Lives.perform Handlers.step Handlers.on_accept Handlers.on_read Handlers.send_all join
    leave
members-perform l (Lives.creates v) u h = inl h
members-perform l (Lives.accepts v true) u h = inl h
members-perform l (Lives.accepts v false) u h = elim (Bool-cases (v == u)) [
  | inl e ↦ inr (rw e)
  | inr e ↦ inl (rw (has_session-insert u v l.chat.sessions, e) at h)
]
members-perform l (Lives.reads v true text) u h = inl h
members-perform l (Lives.reads v false text) u h = inl h
members-perform l (Lives.sends v) u h = inl (sent (l.chat.sending v) h)
  where
    sent :
        (s : Sending)
        → has_session u (send_next l.chat v (Lives.held l) s).sessions ≡ true
        → has_session u l.chat.sessions ≡ true
    sent none h = h
    sent (some (t, [])) h = h
    sent (some (t, w ∷ ws)) h = h
members-perform l (Lives.runs v) u h = inl h
members-perform l (Lives.ends_write v failed) u h = inl h
members-perform l (Lives.destroys v) u h =
    inl (ground (arith, has_session-erase u v l.chat.sessions, h))

pub members-step :
    (l : Life) (e : Lives.Event) (u : ℕ)
    → has_session u (Lives.step l e).chat.sessions ≡ true
    → (has_session u l.chat.sessions ≡ true) ⊎ (shakes_life u e ≡ true)
unfolding Lives.step
members-step l e u h = by_enabled (Lives.enabled l e) h
  where
    by_enabled :
        (b : Bool)
        → has_session u (if b then Lives.perform l e else l).chat.sessions ≡ true
        → (has_session u l.chat.sessions ≡ true) ⊎ (shakes_life u e ≡ true)
    by_enabled true h = members-perform l e u h
    by_enabled false h = inl h

pub later :
    (p : Happening → Bool) (hs : List Happening) (h : Happening)
    → any p hs ≡ true
    → any p (hs ++ h ∷ []) ≡ true
later p hs h e = any-snoc p hs h ∙ ground (arith, e)

pub now :
    (p : Happening → Bool) (hs : List Happening) (h : Happening)
    → p h ≡ true
    → any p (hs ++ h ∷ []) ≡ true
now p hs h e = any-snoc p hs h ∙ ground (arith, e)

pub upgrade_asked :
    (fs : FileSystem) (doc_root : List ℕ) (a : Arrival)
    → on_read fs doc_root (do_read a) ≡ hands_over
    → is_upgrade a ≡ true
unfolding on_read do_read
upgrade_asked fs doc_root ends e = absurd (cc e)
upgrade_asked fs doc_root breaks e = absurd (cc e)
upgrade_asked fs doc_root (comes true size req) e = elim (Bool-cases (ltb 10000 size)) [
  | inl large ↦ absurd (cc (rw large at e))
  | inr small ↦ rw small
]
upgrade_asked fs doc_root (comes false size req) e = elim (Bool-cases (ltb 10000 size)) [
  | inl large ↦ absurd (cc (rw large at e))
  | inr small ↦ absurd (cc (rw small at e))
]

pub accepts-one :
    (l : Listener) (a : Option ℕ) (u : ℕ)
    → has_session u l.sessions ≡ true
    → has_session u (accepts l (a ∷ [])).sessions ≡ true
unfolding accepts
accepts-one l a u e = by_accepting l.accepting l.listening a
  where
    by_accepting :
        (more listening : Bool) (a : Option ℕ)
        → has_session u (if more then on_accept l listening a else l).sessions ≡ true
    by_accepting false listening a = e
    by_accepting true false a = e
    by_accepting true true none = e
    by_accepting true true (some v) = rw (has_session-append u l.sessions (v ∷ []), e)

pub new_connection :
    (f : ℕ → Bool) (l : Listener) (u v : ℕ) (more listening : Bool)
    → (f u ≡ true → has_session u l.sessions ≡ true)
    → (if more && listening then update f v true else f) u ≡ true
    → has_session u (if more then on_accept l listening (some v) else l).sessions ≡ true
new_connection f l u v false listening old e = old e
new_connection f l u v true false old e = old e
new_connection f l u v true true old e = elim (Bool-cases (v == u)) [
  | inl same ↦ rw (has_session-append u l.sessions (v ∷ []), same) (ground arith)
  | inr other ↦ rw (has_session-append u l.sessions (v ∷ []), old (rw other at e))
]
