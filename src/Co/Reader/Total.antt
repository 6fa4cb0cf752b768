-- ===== src/Co/Reader/Total.antt =====
-- Every stream of bytes is messages and then a break, so that the coroutine ends on each.
use asio_learn.Base.{
  ℕ, zero, suc, ◌+◌, ◌*◌, ◌^◌, ◌≤◌, ◌<◌, ◌≡◌, refl, sym, ap, ap₂, ◌∙◌, false, List, [], ◌∷◌, ◌++◌,
  map, arith, length, take, drop, append_assoc, length-take, length-drop, take-append-drop, ltb,
  leb, ◌==◌, Bool-cases, inl, inr,
}
use asio_learn.Wire.Endian.{Host}
use asio_learn.Wire.{max_length}
use asio_learn.Logic.Reader.{above_max}
use asio_learn.Logic.Reader.Frames.{Message, frame, framed, frames, head_node}
use asio_learn.Co.Reader.{Ending, session_start}
use asio_learn.Co.Reader.Steps.{filled_node}
use asio_learn.Co.Reader.Rounds.{
  AllSpeak, Breaks, cut_head, cut_body, empty_message, large_id, large_length, negative_length,
  length_minus_one,
}
use asio_learn.Co.Reader.Stream.{session_start-frames}

abbrev pub AllBytes : List ℕ → Type 0
AllBytes [] = Unit
AllBytes (b ∷ bs) = (b < 256) × AllBytes bs

drop-AllBytes : (n : ℕ) (bs : List ℕ) → AllBytes bs → AllBytes (drop n bs)
drop-AllBytes zero bs v = v
drop-AllBytes (suc n) [] v = v
drop-AllBytes (suc n) (b ∷ bs) v = drop-AllBytes n bs v.1

-- The messages at the front of a stream, and what comes behind them.
pub record Parts (h : Host) (stream : List ℕ) : Type 0 where
  pub messages : List Message
  pub last : List ℕ
  pub ending : Ending
  pub speak : AllSpeak messages
  pub whole : stream ≡ frames h messages ++ last
  pub breaks : Breaks h last ending

broken : {h : Host} {stream c : List ℕ} {e : Ending} → stream ≡ c → Breaks h c e → Parts h stream
broken {c = c} {e = e} eq b = record {
  messages = [];
  last = c;
  ending = e;
  speak = tt;
  whole = eq;
  breaks = b;
}

-- Any four bytes are the head of some id and some length.
framed-bytes :
    (h : Host) (a b c d : ℕ) (rest : List ℕ)
    → a < 256
    → b < 256
    → c < 256
    → d < 256
    → a ∷ b ∷ c ∷ d ∷ rest ≡ framed h (a * 256 + b) (c * 256 + d) rest
framed-bytes h a b c d rest va vb vc vd =
    let e1 : h.first_byte (h.hton (a * 256 + b)) ≡ a =
      omega (arith, h.first-hton (a * 256 + b) (omega arith)) in
    let e2 : h.second_byte (h.hton (a * 256 + b)) ≡ b =
      omega (arith, h.second-hton (a * 256 + b) (omega arith)) in
    let e3 : h.first_byte (h.hton (c * 256 + d)) ≡ c =
      omega (arith, h.first-hton (c * 256 + d) (omega arith)) in
    let e4 : h.second_byte (h.hton (c * 256 + d)) ≡ d =
      omega (arith, h.second-hton (c * 256 + d) (omega arith)) in
    rw (e1, e2, e3, e4)

-- A head whose length is not accepted, or negative, or 0.
large :
    (h : Host) (id len : ℕ) (rest : List ℕ)
    → id < 2 ^ 16
    → above_max id ≡ false
    → max_length < len
    → len < 2 ^ 16
    → Parts h (framed h id len rest)
large h id len rest short ok_id over small = elim (Bool-cases (ltb len 0x8000)) [
  | inl positive ↦
      broken refl (large_length id len rest short ok_id over (ground (arith, positive)))
  | inr negative ↦ elim (Bool-cases (len == 0xffff)) [
    | inl last ↦
        let e : len ≡ 0xffff = ground (arith, last) in
        broken (ap (λ l. framed h id l rest) e) (length_minus_one id rest short ok_id)
    | inr other ↦ broken refl (
        negative_length id len rest short ok_id (ground (arith, negative))
          (ground (arith, other, small)))
  ]
]

-- A head that is accepted, and enough bytes behind it.
with_message :
    (h : Host) (id len : ℕ) (rest : List ℕ)
    → id < 2 ^ 16
    → above_max id ≡ false
    → 0 < len
    → len ≤ max_length
    → len ≤ length rest
    → Parts h (drop len rest)
    → Parts h (framed h id len rest)
with_message h id len rest short ok_id some_bytes fits enough later =
    let l : length (take len rest) ≡ len = omega (arith, length-take len rest, enough) in
    record {
      messages = record { id = id; body = take len rest } ∷ later.messages;
      last = later.last;
      ending = later.ending;
      speak = (
        (
          record { short_id = short; accepted = ok_id; fits = omega (arith, l, fits) },
          omega (arith, l, some_bytes),
        ),
        later.speak,
      );
      whole =
          ap₂ (framed h id) (sym l)
            (sym (take-append-drop len rest) ∙ ap (◌++◌ (take len rest)) later.whole)
          ∙ sym (
              append_assoc (frame h (record { id = id; body = take len rest }))
                (frames h later.messages) later.last);
      breaks = later.breaks;
    }

-- What a head and the bytes behind it are, given what comes behind its body.
with_head :
    (h : Host) (id len : ℕ) (rest : List ℕ)
    → id < 2 ^ 16
    → len < 2 ^ 16
    → Parts h (drop len rest)
    → Parts h (framed h id len rest)
with_head h id len rest short small later = elim (Bool-cases (above_max id)) [
  | inl refused ↦ broken refl (large_id id len rest short refused)
  | inr ok_id ↦ elim (Bool-cases (ltb max_length len)) [
    | inl over ↦ large h id len rest short ok_id (ground (arith, over)) small
    | inr fits ↦ elim (Bool-cases (len == 0)) [
      | inl none_left ↦
          let e : len ≡ 0 = ground (arith, none_left) in
          broken (ap (λ l. framed h id l rest) e) (empty_message id rest short ok_id)
      | inr some_bytes ↦ elim (Bool-cases (leb len (length rest))) [
        | inl enough ↦
            with_message h id len rest short ok_id (ground (arith, some_bytes))
              (ground (arith, fits)) (ground (arith, enough)) later
        | inr cut ↦
            broken refl
              (cut_body id len rest short ok_id (ground (arith, fits)) (ground (arith, cut)))
      ]
    ]
  ]
]

parts :
    (h : Host) (fuel : ℕ) (stream : List ℕ)
    → AllBytes stream
    → length stream < fuel
    → Parts h stream
parts h zero stream v l = absurd (omega (arith, l))
parts h (suc fuel) [] v l = broken refl (cut_head [] (omega arith))
parts h (suc fuel) (a ∷ []) v l = broken refl (cut_head (a ∷ []) (omega arith))
parts h (suc fuel) (a ∷ b ∷ []) v l = broken refl (cut_head (a ∷ b ∷ []) (omega arith))
parts h (suc fuel) (a ∷ b ∷ c ∷ []) v l = broken refl (cut_head (a ∷ b ∷ c ∷ []) (omega arith))
parts h (suc fuel) (a ∷ b ∷ c ∷ d ∷ rest) (va, (vb, (vc, (vd, v)))) l =
    let id = a * 256 + b in
    let len = c * 256 + d in
    let later =
      parts h fuel (drop len rest) (drop-AllBytes len rest v)
        (omega (arith, l, length-drop len rest)) in
    rw (framed-bytes h a b c d rest va vb vc vd)
      (with_head h id len rest (omega (arith, va, vb)) (omega (arith, vc, vd)) later)

-- Whatever bytes the peer sends before the connection ends, the coroutine ends: the bytes are some
-- messages that are accepted and not empty, and behind them one of the seven ways in which a stream
-- can break; the session posts exactly these messages, in order and with their bytes, and ends as that
-- break says.
pub session_start-total :
    (h : Host) (buf stream : List ℕ)
    → AllBytes stream
    → let s = session_start h (head_node buf) stream in
      (ms : List Message) × (c : List ℕ) × (e : Ending) × AllSpeak ms
      × (stream ≡ frames h ms ++ c)
      × Breaks h c e
      × (s.posted ≡ map filled_node ms)
      × (s.ending ≡ e)
session_start-total h buf stream v =
    let p = parts h (suc (length stream)) stream v (omega arith) in
    let ran = session_start-frames h p.messages buf p.last p.ending p.speak p.breaks in
    (
      p.messages,
      p.last,
      p.ending,
      p.speak,
      p.whole,
      p.breaks,
      ap (λ t. (session_start h (head_node buf) t).posted) p.whole ∙ ran.0,
      ap (λ t. (session_start h (head_node buf) t).ending) p.whole ∙ ran.1,
    )
