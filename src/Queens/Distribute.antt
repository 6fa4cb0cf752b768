-- ===== src/Queens/Distribute.antt =====
-- The distributed count against the local one.
use native.Mathlib.Nat.{mod-eq_of_lt, zero-add}
use asio_learn.Base.{
  ℕ, zero, suc, ◌+◌, ◌%◌, ◌^◌, ◌≤◌, ◌<◌, ◌≡◌, ◌≢◌, refl, sym, ap, ap₂, ◌∙◌, [], ◌∷◌, some, arith,
  lt→ltb, le→ltb, length, take, replicate, length-replicate, take-length,
}
use asio_learn.Base.Int.{ℤ, pos}
use asio_learn.Queens.Board.{free_row}
use asio_learn.Queens.Server.{TaskRequest, pad, solve_request}
use asio_learn.Queens.Client.{
  Rpc, client_solve, initial_tasks, dispatch, collect, distribute_tasks, local_solve,
}
use asio_learn.Queens.Spec.{columns, sum_over, solution_count, ways}
use asio_learn.Queens.Brute.{ways-eq-solution_count}
use asio_learn.Queens.Answer.{solve_task_lem}
use asio_learn.Queens.Local.{local_solve-ways}

-- Every call reaches a server and brings back its answer.
abbrev pub Delivers : Rpc → Type 0
Delivers rpc = (server : ℕ) (request : TaskRequest) → rpc server request ≡ solve_request request

-- The solutions of a board of `suc k` rows with a queen in column `x` of row 0.
abbrev pub task_count : ℕ → ℤ → ℕ
task_count k x = solution_count (suc k) (x ∷ replicate k free_row)

-- No server's `int` counter reaches 2 ^ 31.
abbrev pub FitsInt : ℕ → Type 0
FitsInt k = (col : ℕ) → col ≤ k → task_count k (pos col) < 2 ^ 31

pub take-pad :
    (k : ℕ) (x : ℤ)
    → take (suc k) (pad (suc k) (x ∷ replicate k free_row)) ≡ x ∷ replicate k free_row
take-pad k x =
    let e : length (replicate k free_row) ≡ k = length-replicate k free_row in
    rw (le→ltb (suc (length (replicate k free_row))) (suc k) (omega arith)) (
      ap (λ n. x ∷ take n (replicate k free_row)) (sym e)
      ∙ ap (◌∷◌ x) (take-length (replicate k free_row)))

module _ (rpc : Rpc) (delivers : Delivers rpc) (k : ℕ) (fits : FitsInt k) where
  client_solve_lem :
      (server col : ℕ)
      → col ≤ k
      → client_solve rpc server (suc k) (pos col ∷ replicate k free_row) ≡ task_count k (pos col)
  unfolding client_solve
  client_solve_lem server col h =
      let request : TaskRequest = record {
        n = pos (suc k);
        partial = pos col ∷ replicate k free_row;
      } in
      rw (delivers server request ∙ solve_task_lem k col h (take-pad k (pos col)), client_solve)
        (rw (take-pad k (pos col)) (mod-eq_of_lt (omega (arith, fits col h))))

  collect_lem :
      (server_count i col rounds acc : ℕ)
      → col + rounds ≤ suc k
      → acc < 2 ^ 64
      → collect acc (dispatch rpc server_count (suc k) i (initial_tasks (suc k) col rounds))
        ≡ (acc + sum_over (task_count k) (columns col rounds)) % 2 ^ 64
  unfolding collect dispatch initial_tasks
  collect_lem server_count i col zero acc h a = omega arith
  collect_lem server_count i col (suc rounds) acc h a =
      rw
        (
          client_solve_lem (i % server_count) col (omega arith),
          lt→ltb (task_count k (pos col)) (2 ^ 31) (fits col (omega arith)),
          collect_lem server_count (suc i) (suc col) rounds
              ((acc + task_count k (pos col)) % 2 ^ 64) (omega arith) (omega arith),
        )
        (omega arith)

-- All solutions are those of the tasks together.
ways-tasks :
    (k col rounds : ℕ)
    → sum_over (λ x. ways (suc k) (x ∷ []) (replicate k free_row)) (columns col rounds)
      ≡ sum_over (task_count k) (columns col rounds)
ways-tasks k col zero = refl
ways-tasks k col (suc rounds) =
    let e = ways-eq-solution_count (suc k) (pos col ∷ replicate k free_row) in
    ap₂ ◌+◌ (omega (arith, e)) (ways-tasks k (suc col) rounds)

pub total-ways :
    (k : ℕ)
    → 0 + sum_over (task_count k) (columns 0 (suc k)) ≡ ways (suc k) [] (replicate (suc k) free_row)
total-ways k = rw zero-add (sym (ways-tasks k 0 (suc k)))

-- For `suc k` queens and at least one server, if every remote call is answered and no task has 2 ^ 31
-- solutions, `distribute_tasks` gives the total that the local solver finds.
pub distribute_tasks-eq-local_solve :
    (rpc : Rpc) (k server_count : ℕ)
    → Delivers rpc
    → FitsInt k
    → distribute_tasks rpc (suc server_count) (pos (suc k)) ≡ local_solve (pos (suc k))
unfolding distribute_tasks
distribute_tasks-eq-local_solve rpc k server_count delivers fits =
    ap some
      (collect_lem rpc delivers k fits (suc server_count) 0 0 (suc k) 0 (omega arith) (omega arith))
    ∙ ap (λ t. some (t % 2 ^ 64)) (total-ways k)
    ∙ sym (local_solve-ways (suc k))

-- For no queens the two disagree, whatever the network does: no task is made, and the local solver
-- counts the empty board.
distribute_tasks-ne-local_solve :
    (rpc : Rpc) (server_count : ℕ) → distribute_tasks rpc server_count (pos 0) ≢ local_solve (pos 0)
unfolding distribute_tasks local_solve
distribute_tasks-ne-local_solve rpc zero e = cc
distribute_tasks-ne-local_solve rpc (suc server_count) e = cc
