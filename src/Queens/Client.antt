-- ===== src/Queens/Client.antt =====
-- example/nqueen/nqueen_client.cc: the local solver, and the distribution of the tasks to servers.
-- The remote call (`stub_->Solve`, gRPC) is a parameter: `none` is a status other than OK. The
-- counters are `long long`: bit patterns modulo 2 ^ 64.
use asio_learn.Base.{
  ℕ, zero, suc, ◌+◌, ◌-◌, ◌%◌, ◌^◌, List, [], ◌∷◌, Option, none, some, true, false, ltb, ◌==◌,
  if◌then◌else◌, set, replicate,
}
use asio_learn.Base.Int.{ℤ, pos, negsuc}
use asio_learn.Queens.Board.{Board, free_row}
use asio_learn.Queens.Server.{TaskRequest, for_cols}

-- `total_solutions_++`
abbrev pub incr64 : ℕ → ℕ
incr64 s = (s + 1) % 2 ^ 64

-- `LocalNQueenSolver::backtrack`; the loop over the columns and `isSafe` are written as on the
-- server.
unfoldable pub backtrack : ℕ → ℕ → Board → ℕ → ℕ → Board × ℕ
backtrack zero n board row s = (board, s)
backtrack (suc fuel) n board row s =
    let below = λ (b : Board) (t : ℕ). backtrack fuel n b (suc row) t in
    elim (row == n) [ true ↦ (board, incr64 s) | false ↦ for_cols below n 0 board row s ]

-- `LocalNQueenSolver::Solve`: a vector of negative size throws.
unfoldable pub local_solve : ℤ → Option ℕ
unfolding backtrack
local_solve (pos n) = some (backtrack (suc n) n (replicate n free_row) 0 0).1
local_solve (negsuc _) = none

-- A remote call of `Solve` on a server, by the server's number.
abbrev pub Rpc : Type 0
Rpc = ℕ → TaskRequest → Option ℕ

-- `NQueenClient::Solve`: a call that fails counts as 0.
unfoldable pub client_solve : Rpc → ℕ → ℕ → Board → ℕ
client_solve rpc server n board = elim (rpc server (record { n = pos n; partial = board })) [
  | none ↦ 0
  | some r ↦ r
]

-- The tasks from column `col` on, with the rounds that are left: one queen on row 0.
unfoldable pub initial_tasks : ℕ → ℕ → ℕ → List Board
initial_tasks n col zero = []
initial_tasks n col (suc rounds) =
    set (replicate n free_row) 0 (pos col) ∷ initial_tasks n (suc col) rounds

-- Task `i` goes to server `i % server_count`.
unfoldable pub dispatch : Rpc → ℕ → ℕ → ℕ → List Board → List ℕ
dispatch rpc server_count n i [] = []
dispatch rpc server_count n i (task ∷ tasks) =
    client_solve rpc (i % server_count) n task ∷ dispatch rpc server_count n (suc i) tasks

-- An `int` as a `long long`.
abbrev pub sign_extend : ℕ → ℕ
sign_extend r = if ltb r (2 ^ 31) then r else r + (2 ^ 64 - 2 ^ 32)

-- `distributed_solutions += solutions` over the futures.
unfoldable pub collect : ℕ → List ℕ → ℕ
collect acc [] = acc
collect acc (r ∷ rs) = collect ((acc + sign_extend r) % 2 ^ 64) rs

-- `distribute_tasks`. With no server the remainder `i % server_count` divides by zero: `none`.
unfoldable pub distribute_tasks : Rpc → ℕ → ℤ → Option ℕ
unfolding client_solve initial_tasks dispatch collect
distribute_tasks rpc zero (pos (suc n)) = none
distribute_tasks rpc server_count (pos n) =
    some (collect 0 (dispatch rpc server_count n 0 (initial_tasks n 0 n)))
distribute_tasks rpc server_count (negsuc _) = some 0
