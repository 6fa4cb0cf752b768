-- ===== src/Queens/Brute.antt =====
-- Backtracking counts what generate and test counts.
use asio_learn.Base.{
  ℕ, suc, ◌+◌, ◌≡◌, refl, sym, ap, ap₂, ◌∙◌, Bool, true, false, not, ◌&&◌, List, [], ◌∷◌, ◌++◌, map,
  append_assoc, append-nil, arith, if◌then◌else◌, inl, inr, Bool-cases, length, count_if,
  count_if-append, count_if-map, count_if-none, count_if-congr,
}
use asio_learn.Base.Int.{ℤ}
use asio_learn.Queens.Board.{Board}
use asio_learn.Queens.Spec.{
  meet, clear_below, peaceful, choices, prepend_each, completions, solution_count, clear_above,
  sum_over, ways,
}

&&_assoc : (a b c : Bool) → (a && (b && c)) ≡ ((a && b) && c)
&&_assoc true b c = refl
&&_assoc false b c = refl

&&-true : (a : Bool) → (a && true) ≡ a
&&-true true = refl
&&-true false = refl

true≢false : ¬ (true ≡ false)
true≢false e = cc

&&_swap_middle : (a b c d : Bool) → ((a && b) && (c && d)) ≡ ((a && c) && (b && d))
&&_swap_middle a b c d = ground arith

&&-eq-false :
    (a b c d : Bool)
    → (a ≡ false → c ≡ false)
    → (b ≡ false → d ≡ false)
    → (a && b) ≡ false
    → (c && d) ≡ false
&&-eq-false true b c d h k e = ground (arith, k e)
&&-eq-false false b c d h k e = ground (arith, h e)

clear_below-snoc :
    (x y : ℤ) (d k : ℕ) (ys : Board)
    → k ≡ length ys + d
    → clear_below x d (ys ++ y ∷ []) ≡ (clear_below x d ys && not (meet x y k))
clear_below-snoc x y d k [] e = let e' : k ≡ d = omega arith in rw e' (&&-true (not (meet x y d)))
clear_below-snoc x y d k (z ∷ ys) e =
    rw (clear_below-snoc x y (suc d) k ys (omega arith))
      (&&_assoc (not (meet x z d)) (clear_below x (suc d) ys) (not (meet x y k)))

-- A board with one more row is peaceful if the board is and the new queen is clear.
peaceful-snoc :
    (above : Board) (x : ℤ) → peaceful (above ++ x ∷ []) ≡ (peaceful above && clear_above above x)
peaceful-snoc [] x = refl
peaceful-snoc (y ∷ ys) x =
    rw (clear_below-snoc y x 1 (suc (length ys)) ys (omega arith), peaceful-snoc ys x)
      (&&_swap_middle (clear_below y 1 ys) (not (meet y x (suc (length ys)))) (peaceful ys)
        (clear_above ys x))

clear_below-append :
    (x : ℤ) (d : ℕ) (ys zs : Board)
    → clear_below x d ys ≡ false
    → clear_below x d (ys ++ zs) ≡ false
clear_below-append x d [] zs h = absurd (true≢false h)
clear_below-append x d (y ∷ ys) zs h =
    &&-eq-false (not (meet x y d)) (clear_below x (suc d) ys) _ _ (λ e. e)
      (clear_below-append x (suc d) ys zs) h

-- What extends a board with an attack has an attack.
peaceful-append : (above below : Board) → peaceful above ≡ false → peaceful (above ++ below) ≡ false
peaceful-append [] below h = absurd (true≢false h)
peaceful-append (x ∷ xs) below h =
    &&-eq-false (clear_below x 1 xs) (peaceful xs) _ _ (clear_below-append x 1 xs below)
      (peaceful-append xs below) h

-- Those of the boards that are peaceful behind `above`.
abbrev fitting : Board → List Board → ℕ
fitting above boards = count_if (λ b. peaceful (above ++ b)) boards

fitting-prepend_each :
    (above : Board) (xs : List ℤ) (boards : List Board)
    → fitting above (prepend_each xs boards) ≡ sum_over (λ x. fitting (above ++ x ∷ []) boards) xs
fitting-prepend_each above [] boards = refl
fitting-prepend_each above (x ∷ xs) boards =
    count_if-append _ (map (◌∷◌ x) boards) (prepend_each xs boards)
    ∙ ap₂ ◌+◌
        (count_if-map _ (◌∷◌ x) boards
          ∙ count_if-congr _ _ boards (λ b. ap peaceful (sym (append_assoc above (x ∷ []) b))))
        (fitting-prepend_each above xs boards)

-- Behind queens that attack one another nothing fits.
fitting_attacked :
    (above : Board) (boards : List Board) → peaceful above ≡ false → fitting above boards ≡ 0
fitting_attacked above boards h = count_if-none _ boards (λ b. peaceful-append above b h)

pub sum_over-congr :
    (f g : ℤ → ℕ) (xs : List ℤ) → ((x : ℤ) → f x ≡ g x) → sum_over f xs ≡ sum_over g xs
sum_over-congr f g [] h = refl
sum_over-congr f g (x ∷ xs) h = ap₂ ◌+◌ (h x) (sum_over-congr f g xs h)

-- A column that is not clear is skipped by the backtracking and fits nothing.
prune :
    (above : Board) (x : ℤ) (w : ℕ) (boards : List Board)
    → peaceful above ≡ true
    → (peaceful (above ++ x ∷ []) ≡ true → w ≡ fitting (above ++ x ∷ []) boards)
    → (if clear_above above x then w else 0) ≡ fitting (above ++ x ∷ []) boards
prune above x w boards h k = elim (Bool-cases (clear_above above x)) [
  | inl c ↦ rw c (k (rw (peaceful-snoc above x, h, c)))
  | inr c ↦
      rw c (sym (fitting_attacked (above ++ x ∷ []) boards (rw (peaceful-snoc above x, h, c))))
]

pub ways-fitting :
    (n : ℕ) (above cells : Board)
    → peaceful above ≡ true
    → ways n above cells ≡ fitting above (completions n cells)
ways-fitting n above [] h = rw (append-nil, h)
ways-fitting n above (cell ∷ cells) h =
    sum_over-congr _ _ (choices n cell)
      (λ x. prune above x _ (completions n cells) h (ways-fitting n (above ++ x ∷ []) cells))
    ∙ sym (fitting-prepend_each above (choices n cell) (completions n cells))

pub ways-eq-solution_count : (n : ℕ) (cells : Board) → ways n [] cells ≡ solution_count n cells
ways-eq-solution_count n cells = ways-fitting n [] cells refl
