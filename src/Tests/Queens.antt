-- ===== src/Tests/Queens.antt =====
-- example/nqueen at small boards.
use asio_learn.Queens.Failures.{FailsOrDelivers, distribute_tasks-le-local_solve}
use asio_learn.Base.{
  ◌==◌, ◌-◌, List, Option, ℕ, ◌≤◌, inl, inr, zero, suc, ◌≡◌, refl, [], ◌∷◌, some, none, arith,
  if◌then◌else◌,
}
use asio_learn.Base.Int.{ℤ, pos, negsuc}
use asio_learn.Beast.Decimal.{value}
use asio_learn.Queens.Board.{Board, free_row, is_safe}
use asio_learn.Queens.Server.{try_col, for_cols, solve, solve_request}
use asio_learn.Queens.Client.{Rpc, local_solve, distribute_tasks}
use asio_learn.Queens.Answer.{solve_lem}
use asio_learn.Queens.Local.{local_solve_lem}
use asio_learn.Queens.Distribute.{FitsInt, distribute_tasks-eq-local_solve}

six_queens : solve_request (record { n = pos 6; partial = [] }) ≡ some 4
unfolding solve_request for_cols try_col is_safe
six_queens = refl

-- The number that the table of nqueen_client.cc gives for eight queens.
eight_queens : solve_request (record { n = pos 8; partial = [] }) ≡ some 92
unfolding solve_request for_cols try_col is_safe
eight_queens = refl

-- A preset queen in row 1, and a preset queen outside the board.
preset_queen : solve_request (record { n = pos 4; partial = free_row ∷ pos 3 ∷ [] }) ≡ some 1
unfolding solve_request for_cols try_col is_safe
preset_queen = refl

negative_size : solve_request (record { n = negsuc 2; partial = [] }) ≡ none
unfolding solve_request
negative_size = refl

abbrev honest : Rpc
honest = λ server request. solve_request request

four_rows-FitsInt : FitsInt 3
four_rows-FitsInt zero h = omega arith
four_rows-FitsInt (suc zero) h = omega arith
four_rows-FitsInt (suc (suc zero)) h = omega arith
four_rows-FitsInt (suc (suc (suc zero))) h = omega arith
four_rows-FitsInt (suc (suc (suc (suc n)))) h = absurd (omega arith)

distribute_tasks-eq-local_solve_example : distribute_tasks honest 2 (pos 4) ≡ local_solve (pos 4)
distribute_tasks-eq-local_solve_example =
    distribute_tasks-eq-local_solve honest 3 1 (λ server request. refl) four_rows-FitsInt

-- A text of digits, or of digits behind a minus; an empty text is no number.
abbrev small_number : List ℕ → Option ℤ
small_number [] = none
small_number (c ∷ cs) = some (if c == 45 then negsuc (value 0 cs - 1) else pos (value 0 (c ∷ cs)))

abbrev half_set : Board
half_set = free_row ∷ pos 3 ∷ free_row ∷ free_row ∷ []

solve_lem_example : solve 5 4 half_set 0 7 ≡ (half_set, 8)
solve_lem_example =
    solve_lem 4 3 5 half_set 7 (omega arith) (inr (omega arith))
      (inl refl, (inr (omega arith), (inl refl, (inl refl, tt)))) (omega arith) (omega arith)

local_solve_lem_example : local_solve (pos 4) ≡ some 2
local_solve_lem_example = local_solve_lem 4

-- The server 1 is down.
abbrev half_down : Rpc
half_down = λ server request. elim server [ zero ↦ solve_request request | suc _ ↦ none ]

half_down-FailsOrDelivers : FailsOrDelivers half_down
half_down-FailsOrDelivers zero request = inr refl
half_down-FailsOrDelivers (suc server) request = inl refl

distribute_tasks-le-local_solve_example :
    (d : ℕ) × (l : ℕ) × (distribute_tasks half_down 2 (pos 4) ≡ some d)
    × (local_solve (pos 4) ≡ some l)
    × (d ≤ l)
distribute_tasks-le-local_solve_example =
    distribute_tasks-le-local_solve half_down 3 1 half_down-FailsOrDelivers four_rows-FitsInt
      (omega arith)
