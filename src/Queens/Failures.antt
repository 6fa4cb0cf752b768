-- ===== src/Queens/Failures.antt =====
-- The distributed count when remote calls fail.
use asio_learn.Base.{
  ℕ, zero, suc, ◌+◌, ◌*◌, ◌%◌, ◌^◌, ◌≤◌, ◌<◌, ◌≡◌, ◌⊎◌, inl, inr, refl, sym, ap, ◌∙◌, List, [], ◌∷◌,
  some, none, arith, lt→ltb, replicate,
}
use asio_learn.Base.Int.{pos}
use asio_learn.Queens.Board.{free_row}
use asio_learn.Queens.Server.{TaskRequest, solve_request}
use asio_learn.Queens.Client.{
  Rpc, client_solve, initial_tasks, dispatch, collect, distribute_tasks, local_solve,
}
use asio_learn.Queens.Spec.{columns, sum_over}
use asio_learn.Queens.Answer.{solve_task_lem}
use asio_learn.Queens.Local.{local_solve-ways}
use asio_learn.Queens.Distribute.{task_count, FitsInt, take-pad, total-ways}

-- A call fails, or brings back the server's answer.
abbrev pub FailsOrDelivers : Rpc → Type 0
FailsOrDelivers rpc =
    (server : ℕ) (request : TaskRequest)
    → (rpc server request ≡ none) ⊎ (rpc server request ≡ solve_request request)

sum_over-bound :
    (k col rounds : ℕ)
    → FitsInt k
    → col + rounds ≤ suc k
    → sum_over (task_count k) (columns col rounds) ≤ rounds * 2 ^ 31
sum_over-bound k col zero fits h = omega arith
sum_over-bound k col (suc rounds) fits h =
    omega (arith, fits col (omega arith), sum_over-bound k (suc col) rounds fits (omega arith))

module _ (rpc : Rpc) (calls : FailsOrDelivers rpc) (k : ℕ) (fits : FitsInt k) where
  client_solve-le :
      (server col : ℕ)
      → col ≤ k
      → client_solve rpc server (suc k) (pos col ∷ replicate k free_row) ≤ task_count k (pos col)
  unfolding client_solve
  client_solve-le server col h =
      let request : TaskRequest = record {
        n = pos (suc k);
        partial = pos col ∷ replicate k free_row;
      } in
      elim (calls server request) [
        | inl lost ↦ rw (lost, client_solve) (omega arith)
        | inr e ↦
            rw (e ∙ solve_task_lem k col h (take-pad k (pos col)), client_solve)
              (rw (take-pad k (pos col)) (omega (arith, fits col h)))
      ]

  collect-nil : (acc : ℕ) → collect acc [] ≡ acc
  unfolding collect
  collect-nil acc = refl

  collect-step :
      (acc r : ℕ) (rs : List ℕ)
      → r < 2 ^ 31
      → acc + r < 2 ^ 64
      → collect acc (r ∷ rs) ≡ collect (acc + r) rs
  unfolding collect
  collect-step acc r rs small a =
      let exact : (acc + r) % 2 ^ 64 ≡ acc + r = omega (arith, a) in
      rw (lt→ltb r (2 ^ 31) small, exact)

  collect-le :
      (server_count i col rounds acc : ℕ)
      → col + rounds ≤ suc k
      → acc + rounds * 2 ^ 31 < 2 ^ 64
      → collect acc (dispatch rpc server_count (suc k) i (initial_tasks (suc k) col rounds))
        ≤ acc + sum_over (task_count k) (columns col rounds)
  unfolding dispatch initial_tasks
  collect-le server_count i col zero acc h a = rw (collect-nil acc) (omega arith)
  collect-le server_count i col (suc rounds) acc h a =
      let r = client_solve rpc (i % server_count) (suc k) (pos col ∷ replicate k free_row) in
      let low : r ≤ task_count k (pos col) = client_solve-le (i % server_count) col (omega arith) in
      let small : r < 2 ^ 31 = omega (arith, low, fits col (omega arith)) in
      let rest =
        dispatch rpc server_count (suc k) (suc i) (initial_tasks (suc k) (suc col) rounds) in
      rw (collect-step acc r rest small (omega (arith, small, a))) (
        omega (
          arith,
          low,
          collect-le server_count (suc i) (suc col) rounds (acc + r) (omega arith)
              (omega (arith, small, a)),
        ))

-- For `suc k` queens, a number that fits an `int`, and at least one server: whichever remote calls
-- fail, the distributed count is never above the local one, as long as no task has 2 ^ 31 solutions.
pub distribute_tasks-le-local_solve :
    (rpc : Rpc) (k server_count : ℕ)
    → FailsOrDelivers rpc
    → FitsInt k
    → suc k < 2 ^ 31
    → (d : ℕ) × (l : ℕ) × (distribute_tasks rpc (suc server_count) (pos (suc k)) ≡ some d)
      × (local_solve (pos (suc k)) ≡ some l)
      × (d ≤ l)
unfolding distribute_tasks
distribute_tasks-le-local_solve rpc k server_count calls fits small =
    let total = sum_over (task_count k) (columns 0 (suc k)) in
    let bound = sum_over-bound k 0 (suc k) fits (omega arith) in
    let exact : total % 2 ^ 64 ≡ total = omega (arith, bound, small) in
    (
      collect 0 (dispatch rpc (suc server_count) (suc k) 0 (initial_tasks (suc k) 0 (suc k))),
      total,
      refl,
      local_solve-ways (suc k)
          ∙ ap (λ t. some (t % 2 ^ 64)) (sym (total-ways k))
          ∙ ap some (omega (arith, exact)),
      omega (
        arith,
        collect-le rpc calls k fits (suc server_count) 0 0 (suc k) 0 (omega arith)
            (omega (arith, small)),
      ),
    )
