-- ===== src/Chat/Life/Texts.antt =====
-- What the sessions read, and what is posted of it.
use asio_learn.Base.{
  ℕ, ◌≡◌, refl, sym, ap, ◌∙◌, Bool, true, false, not, ◌&&◌, List, [], ◌∷◌, ◌++◌, ◌==◌, none, some,
  if◌then◌else◌, append_assoc,
}
use asio_learn.Logic.Server.{has_session, has_session-erase}
use asio_learn.Chat.{Text, Sending, is_sending, expire}
use asio_learn.Chat.Life.{Life, Event, reads, step}
use asio_learn.Chat.Life.Tidy.{rest}

-- Whether a read of a session fails.
abbrev pub quits : ℕ → Event → Bool
quits v (reads u failed text) = u == v && failed
quits v _ = false

abbrev pub never_quits : ℕ → List Event → Bool
never_quits v [] = true
never_quits v (e ∷ es) = not (quits v e) && never_quits v es

pub stays : (quit : Bool) (rest : Bool) → (not quit && rest) ≡ true → (quit ≡ false) × (rest ≡ true)
stays true rest e = absurd (cc e)
stays false rest e = (refl, e)

-- The texts that a session reads.
abbrev pub said_by : ℕ → Life → Event → List Text
said_by u l (reads w false text) = if (w == u) && (l.chat.session w).reading then text ∷ [] else []
said_by u l _ = []

abbrev pub spoken_by : ℕ → Life → List Event → List Text
spoken_by u l [] = []
spoken_by u l (e ∷ es) = said_by u l e ++ spoken_by u (step l e) es

-- The text that a call of `send` has still to post to session `v`.
abbrev pub pending : ℕ → Sending → List Text
pending v none = []
pending v (some (t, vs)) = if has_session v vs then t ∷ [] else []

-- Texts with the sessions whose reads they come from: all of them, and those of session `u`.
abbrev pub texts : List (ℕ × Text) → List Text
texts [] = []
texts ((w, t) ∷ ds) = t ∷ texts ds

abbrev pub texts_by : ℕ → List (ℕ × Text) → List Text
texts_by u [] = []
texts_by u ((w, t) ∷ ds) = (if w == u then t ∷ [] else []) ++ texts_by u ds

pub texts-append : (ds es : List (ℕ × Text)) → texts (ds ++ es) ≡ texts ds ++ texts es
texts-append [] es = refl
texts-append ((w, t) ∷ ds) es = ap (λ ts. t ∷ ts) (texts-append ds es)

pub texts_by-append :
    (u : ℕ) (ds es : List (ℕ × Text)) → texts_by u (ds ++ es) ≡ texts_by u ds ++ texts_by u es
texts_by-append u [] es = refl
texts_by-append u ((w, t) ∷ ds) es =
    let one = if w == u then t ∷ [] else [] in
    ap (λ ts. one ++ ts) (texts_by-append u ds es)
    ∙ sym (append_assoc one (texts_by u ds) (texts_by u es))

pub pending-none : (v : ℕ) (s : Sending) → has_session v (rest s) ≡ false → pending v s ≡ []
pending-none v none e = refl
pending-none v (some (t, vs)) e = rw e

pub pending-idle : (v : ℕ) (s : Sending) → is_sending s ≡ false → pending v s ≡ []
pending-idle v none e = refl
pending-idle v (some (t, vs)) e = absurd (cc e)

pub pending-expire :
    (u v : ℕ) (s : Sending) → (u == v) ≡ false → pending v (expire u s) ≡ pending v s
pending-expire u v none e = refl
pending-expire u v (some (t, vs)) e = rw (has_session-erase v u vs, e)
