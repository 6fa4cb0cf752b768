-- ===== src/Queens/Server.antt =====
-- `NQueenServiceImpl` of example/nqueen/nqueen_server.cc: `Solve` and the recursive `solve`. The
-- vector and the counter are passed by reference there, and are passed on here. The counter is an
-- `int`: its bit pattern, counted up modulo 2 ^ 32. The recursion takes fuel.
use asio_learn.Base.{
  ℕ, zero, suc, ◌+◌, ◌-◌, ◌%◌, ◌^◌, List, ◌++◌, Option, none, some, true, false, ltb, ◌==◌,
  if◌then◌else◌, length, get_or, set, replicate,
}
use asio_learn.Base.Int.{ℤ, pos, negsuc, eq_ℤ}
use asio_learn.Queens.Board.{Board, free_row, is_safe}

-- The message of nqueen.proto.
pub record TaskRequest : Type 0 where
  pub n : ℤ
  pub partial : List ℤ

-- `partial.resize(n, -1)` where the vector is shorter than `n`.
abbrev pub pad : ℕ → Board → Board
pad n board = if ltb (length board) n then board ++ replicate (n - length board) free_row else board

-- `solutions++` on an `int`.
abbrev pub incr32 : ℕ → ℕ
incr32 s = (s + 1) % 2 ^ 32

-- The body of the loop over the columns of a free row: a safe queen is placed, the rows below are
-- solved by `below`, and the queen is taken off again.
unfoldable pub try_col : (Board → ℕ → Board × ℕ) → Board → ℕ → ℕ → ℤ → Board × ℕ
try_col below board row s col = elim (is_safe board row col) [
  | true ↦ let (board', s') = below (set board row col) s in (set board' row free_row, s')
  | false ↦ (board, s)
]

-- The loop from column `col` on, with the rounds that are left.
unfoldable pub for_cols : (Board → ℕ → Board × ℕ) → ℕ → ℕ → Board → ℕ → ℕ → Board × ℕ
for_cols below zero col board row s = (board, s)
for_cols below (suc rounds) col board row s =
    let (board', s') = try_col below board row s (pos col) in
    for_cols below rounds (suc col) board' row s'

unfoldable pub solve : ℕ → ℕ → Board → ℕ → ℕ → Board × ℕ
solve zero n board row s = (board, s)
solve (suc fuel) n board row s =
    let below = λ (b : Board) (t : ℕ). solve fuel n b (suc row) t in
    elim (row == n) [
      | true ↦ (board, incr32 s)
      | false ↦ elim (eq_ℤ (get_or board row free_row) free_row) [
        | true ↦ for_cols below n 0 board row s
        | false ↦ elim (is_safe board row (get_or board row free_row)) [
          | true ↦ below board s
          | false ↦ (board, s)
        ]
      ]
    ]

-- `Solve`. A negative `n` is converted to a huge size, and `resize` throws: `none`.
unfoldable pub solve_request : TaskRequest → Option ℕ
unfolding solve
solve_request request = elim request.n [
  | pos n ↦ some (solve (suc n) n (pad n request.partial) 0 0).1
  | negsuc _ ↦ none
]
