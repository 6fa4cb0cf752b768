-- ===== src/Beast/Decimal.antt =====
-- The number that is printed.
use asio_learn.Base.{
  ℕ, zero, suc, ◌+◌, ◌-◌, ◌*◌, ◌/◌, ◌%◌, ◌^◌, ◌<◌, ◌≡◌, ap, ◌∙◌, List, [], ◌∷◌, ◌==◌, arith,
  Bool-cases, inl, inr, true,
}
use asio_learn.Beast.{digits, decimal}

-- The value of decimal digits, behind those that were read.
abbrev pub value : ℕ → List ℕ → ℕ
value v [] = v
value v (c ∷ s) = value (v * 10 + (c - 48)) s

value-digits :
    (rounds n : ℕ) (behind : List ℕ)
    → n < 10 ^ suc rounds
    → value 0 (digits (suc rounds) n behind) ≡ value n behind
unfolding digits
value-digits zero n behind small =
    let one : (n / 10 == 0) ≡ true = ground arith in
    let e : 0 * 10 + (48 + n % 10 - 48) ≡ n = omega arith in rw one (ap (λ v. value v behind) e)
value-digits (suc rounds) n behind small = elim (Bool-cases (n / 10 == 0)) [
  | inl one ↦
      let e : 0 * 10 + (48 + n % 10 - 48) ≡ n = ground (arith, one) in
      rw one (ap (λ v. value v behind) e)
  | inr more ↦
      let p : 10 ^ suc (suc rounds) ≡ 10 * 10 ^ suc rounds = omega arith in
      let less : n / 10 < 10 ^ suc rounds = omega (arith, small, p) in
      let e : n / 10 * 10 + (48 + n % 10 - 48) ≡ n = omega arith in
      rw more
        (value-digits rounds (n / 10) ((48 + n % 10) ∷ behind) less ∙ ap (λ v. value v behind) e)
]

-- The digits of a number of 64 bits are read back as the number.
pub value-decimal : (n : ℕ) → n < 2 ^ 64 → value 0 (decimal n []) ≡ n
unfolding decimal
value-decimal n small = value-digits 19 n [] (omega arith)
