-- ===== src/Queens/Safe.antt =====
-- The loop of `is_safe` against the queens above a row.
use asio_learn.Base.{
  ℕ, suc, ◌+◌, ◌≡◌, refl, sym, ◌∙◌, Bool, true, false, not, ◌&&◌, [], ◌∷◌, ◌++◌, append_assoc,
  arith, if◌then◌else◌, length, get_or, get_or-append, length-append,
}
use asio_learn.Base.Int.{ℤ, nat_dist, int_dist}
use asio_learn.Queens.Board.{Board, free_row, abs_difference, attacks, is_safe_from, is_safe}
use asio_learn.Queens.Spec.{meet, clear_above}

-- Cells whose differences do not overflow.
abbrev pub Exact : (ℤ → Type 0) → Type 0
Exact P = (x y : ℤ) → P x → P y → abs_difference x y ≡ int_dist x y

abbrev pub Each : (ℤ → Type 0) → Board → Type 0
Each P [] = Unit
Each P (x ∷ xs) = P x × Each P xs

pub Each-snoc : (P : ℤ → Type 0) (xs : Board) (x : ℤ) → Each P xs → P x → Each P (xs ++ x ∷ [])
Each-snoc P [] x ps p = (p, tt)
Each-snoc P (y ∷ ys) x ps p = (ps.0, Each-snoc P ys x ps.1 p)

attacks-eq-meet :
    (y x : ℤ) (i row d : ℕ)
    → abs_difference y x ≡ int_dist y x
    → row ≡ i + d
    → attacks y i x row ≡ meet y x d
attacks-eq-meet y x i row d same e = let e' : nat_dist i row ≡ d = omega arith in rw (e', same)

if-false-else : (b c : Bool) → (if b then false else c) ≡ (not b && c)
if-false-else true c = refl
if-false-else false c = refl

is_safe_from-clear_above :
    (P : ℤ → Type 0) (exact : Exact P) (x : ℤ) (p : P x) (above done rest board : Board) (i row : ℕ)
    → Each P above
    → board ≡ done ++ (above ++ rest)
    → i ≡ length done
    → row ≡ i + length above
    → is_safe_from (length above) board i row x ≡ clear_above above x
unfolding is_safe_from
is_safe_from-clear_above P exact x p [] done rest board i row ps e ei er = refl
is_safe_from-clear_above P exact x p (y ∷ ys) done rest board i row ps e ei er =
    let read : get_or board i free_row ≡ y =
      rw (e, ei) (get_or-append done (ys ++ rest) y free_row) in
    let later : is_safe_from (length ys) board (suc i) row x ≡ clear_above ys x =
      is_safe_from-clear_above P exact x p ys (done ++ y ∷ []) rest board (suc i) row ps.1
        (e ∙ sym (append_assoc done (y ∷ []) (ys ++ rest)))
        (omega (arith, length-append done (y ∷ []))) (omega arith) in
    rw (read, attacks-eq-meet y x i row (suc (length ys)) (exact y x ps.0 p) er, later)
      (if-false-else (meet y x (suc (length ys))) (clear_above ys x))

-- On the row behind the queens placed so far, the loop finds whether a column is clear of them.
pub is_safe-clear_above :
    (P : ℤ → Type 0) (exact : Exact P) (above rest : Board) (x : ℤ)
    → Each P above
    → P x
    → is_safe (above ++ rest) (length above) x ≡ clear_above above x
unfolding is_safe
is_safe-clear_above P exact above rest x ps p =
    is_safe_from-clear_above P exact x p above [] rest (above ++ rest) 0 (length above) ps refl refl
      (omega arith)
