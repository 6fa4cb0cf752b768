-- ===== src/Chat/Life/Heard.antt =====
-- What a session hears over a run.
use asio_learn.Base.{ℕ, ◌≡◌, sym, ap, ◌∙◌, true, List, [], ◌∷◌, ◌++◌, append_assoc, append-nil}
use asio_learn.Chat.{Text}
use asio_learn.Chat.Sound.{heard}
use asio_learn.Chat.Life.{Life, Event, step, run}
use asio_learn.Chat.Life.Held.{IsSafe}
use asio_learn.Chat.Life.Safe.{step-IsSafe}
use asio_learn.Chat.Life.Tidy.{AreTidy, step-AreTidy}
use asio_learn.Chat.Life.Texts.{
  quits, never_quits, stays, said_by, spoken_by, pending, texts, texts_by, texts-append,
  texts_by-append,
}
use asio_learn.Chat.Life.Spread.{Present, step-Spreads}

-- What was posted to session `v` in some steps: all of it was heard, and from the reads of each session
-- it is what was read, in order, less what a call of `send` still has to post.
pub record Spread (v : ℕ) (l m : Life) (said : ℕ → List Text) : Type 0 where
  pub posted : List (ℕ × Text)
  pub present : Present v m.chat.session m.chat.sending
  pub hears : heard (m.chat.session v) ≡ heard (l.chat.session v) ++ texts posted
  pub by_reader :
      (u : ℕ)
      → texts_by u posted ++ pending v (m.chat.sending u) ≡ pending v (l.chat.sending u) ++ said u

-- Some steps and then others.
joined :
    (first second p p' p'' said later : List Text)
    → first ++ p' ≡ p ++ said
    → second ++ p'' ≡ p' ++ later
    → (first ++ second) ++ p'' ≡ p ++ (said ++ later)
joined first second p p' p'' said later one two =
    append_assoc first second p''
    ∙ ap (λ ts. first ++ ts) two
    ∙ sym (append_assoc first p' later)
    ∙ ap (λ ts. ts ++ later) one
    ∙ append_assoc p said later

pub run_from-Spread :
    (es : List Event) (l : Life) (v : ℕ)
    → IsSafe l
    → AreTidy l
    → Present v l.chat.session l.chat.sending
    → never_quits v es ≡ true
    → Spread v l (run l es) (λ u. spoken_by u l es)
unfolding run
run_from-Spread [] l v safe tidy here n = record {
  posted = [];
  present = here;
  hears = sym (append-nil (heard (l.chat.session v)));
  by_reader = λ u. sym (append-nil (pending v (l.chat.sending u)));
}
run_from-Spread (e ∷ es) l v safe tidy here n =
    let (now, later) = stays (quits v e) (never_quits v es) n in
    let (ds, (here', h, said)) = step-Spreads l safe tidy v here e now in
    let m = step l e in
    let k =
      run_from-Spread es m v (step-IsSafe l e safe) (step-AreTidy l safe tidy e) here' later in
    record {
      posted = ds ++ k.posted;
      present = k.present;
      hears =
          k.hears
          ∙ ap (λ ts. ts ++ texts k.posted) h
          ∙ append_assoc (heard (l.chat.session v)) (texts ds) (texts k.posted)
          ∙ ap (λ ts. heard (l.chat.session v) ++ ts) (sym (texts-append ds k.posted));
      by_reader = λ u.
          ap (λ ts. ts ++ pending v ((run m es).chat.sending u)) (texts_by-append u ds k.posted)
          ∙ joined (texts_by u ds) (texts_by u k.posted) (pending v (l.chat.sending u))
              (pending v (m.chat.sending u)) (pending v ((run m es).chat.sending u)) (said_by u l e)
              (spoken_by u m es) (said u) (k.by_reader u);
    }
