-- ===== src/Queens/Spec.antt =====
-- What the queens program is to count, described by generate and test: all ways to fill the free
-- rows, of which those count where no two queens attack one another.
use asio_learn.Base.{
  ℕ, zero, suc, ◌+◌, Bool, true, not, ◌&&◌, ◌||◌, List, [], ◌∷◌, ◌++◌, map, ◌==◌, if◌then◌else◌,
  length, count_if,
}
use asio_learn.Base.Int.{ℤ, pos, eq_ℤ, int_dist}
use asio_learn.Queens.Board.{Board, free_row}

-- Queens in columns `x` and `y`, in rows `d` apart, share a column or a diagonal.
abbrev pub meet : ℤ → ℤ → ℕ → Bool
meet x y d = eq_ℤ x y || int_dist x y == d

-- The queen in column `x` meets none of those in the rows from `d` below it on.
abbrev pub clear_below : ℤ → ℕ → Board → Bool
clear_below x d [] = true
clear_below x d (y ∷ ys) = not (meet x y d) && clear_below x (suc d) ys

-- No two queens of the board meet.
abbrev pub peaceful : Board → Bool
peaceful [] = true
peaceful (x ∷ xs) = clear_below x 1 xs && peaceful xs

-- The columns `col`, `col + 1`, … of a free row.
abbrev pub columns : ℕ → ℕ → List ℤ
columns col zero = []
columns col (suc rounds) = pos col ∷ columns (suc col) rounds

-- A row with a queen keeps it, wherever it stands; a free row takes any of the `n` columns.
abbrev pub choices : ℕ → ℤ → List ℤ
choices n cell = if eq_ℤ cell free_row then columns 0 n else cell ∷ []

-- Each of the columns before each of the boards.
abbrev pub prepend_each : List ℤ → List Board → List Board
prepend_each [] boards = []
prepend_each (x ∷ xs) boards = map (◌∷◌ x) boards ++ prepend_each xs boards

-- Every way to fill the rows.
abbrev pub completions : ℕ → Board → List Board
completions n [] = [] ∷ []
completions n (cell ∷ cells) = prepend_each (choices n cell) (completions n cells)

-- The number of peaceful ways to fill the rows.
abbrev pub solution_count : ℕ → Board → ℕ
solution_count n cells = count_if peaceful (completions n cells)

-- The new queen in column `x` meets none of those above it.
abbrev pub clear_above : Board → ℤ → Bool
clear_above [] x = true
clear_above (y ∷ ys) x = not (meet y x (suc (length ys))) && clear_above ys x

abbrev pub sum_over : (ℤ → ℕ) → List ℤ → ℕ
sum_over f [] = 0
sum_over f (x ∷ xs) = f x + sum_over f xs

-- The same count by backtracking: `above` are the queens placed so far.
abbrev pub ways : ℕ → Board → Board → ℕ
ways n above [] = 1
ways n above (cell ∷ cells) =
    sum_over (λ x. if clear_above above x then ways n (above ++ x ∷ []) cells else 0)
      (choices n cell)
