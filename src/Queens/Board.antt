-- ===== src/Queens/Board.antt =====
-- The board of example/nqueen/nqueen_server.cc: a vector of columns by row, -1 on a free row, and
-- the test `is_safe`. An `int` subtraction that overflows is taken to wrap around.
use asio_learn.Base.{
  ℕ, zero, suc, ◌+◌, ◌-◌, ◌%◌, ◌^◌, Bool, true, false, ◌||◌, List, ◌==◌, ltb, if◌then◌else◌, get_or,
}
use asio_learn.Base.Int.{ℤ, pos, negsuc, eq_ℤ, nat_dist}

-- `std::vector<int>`
abbrev pub Board : Type 0
Board = List ℤ

-- The value -1 of a row without a queen.
abbrev pub free_row : ℤ
free_row = negsuc 0

-- `abs` of a difference that has this size before it wraps around.
abbrev pub wrapped : ℕ → ℕ
wrapped d = let r = d % 2 ^ 32 in if ltb r (2 ^ 31) then r else 2 ^ 32 - r

-- `abs(a - b)`: the difference of two numbers of one sign does not overflow.
abbrev pub abs_difference : ℤ → ℤ → ℕ
abs_difference (pos a) (pos b) = nat_dist a b
abs_difference (negsuc a) (negsuc b) = nat_dist a b
abs_difference (pos a) (negsuc b) = wrapped (suc (a + b))
abs_difference (negsuc a) (pos b) = wrapped (suc (a + b))

-- `board[i] == col || abs(board[i] - col) == abs(i - row)`
abbrev pub attacks : ℤ → ℕ → ℤ → ℕ → Bool
attacks cell i col row = eq_ℤ cell col || abs_difference cell col == nat_dist i row

-- The loop of `is_safe` from row `i` on, with the rounds that are left.
unfoldable pub is_safe_from : ℕ → Board → ℕ → ℕ → ℤ → Bool
is_safe_from zero board i row col = true
is_safe_from (suc rounds) board i row col =
    if attacks (get_or board i free_row) i col row
    then false
    else is_safe_from rounds board (suc i) row col

unfoldable pub is_safe : Board → ℕ → ℤ → Bool
unfolding is_safe_from
is_safe board row col = is_safe_from row board 0 row col
