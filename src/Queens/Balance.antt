-- ===== src/Queens/Balance.antt =====
-- How the tasks are spread over the servers.
use native.Mathlib.Nat.{add-zero}
use asio_learn.Base.{
  ℕ, zero, suc, ◌+◌, ◌/◌, ◌%◌, ◌≤◌, ◌≡◌, refl, ap, List, [], ◌∷◌, some, ltb, ◌==◌, if◌then◌else◌,
  arith, share, share-suc, share-zero, length,
}
use asio_learn.Queens.Board.{Board}
use asio_learn.Queens.Client.{Rpc, client_solve, initial_tasks, dispatch}

-- A network on which a call of server `s` counts 1, and any other call 0.
abbrev pub counts_calls : ℕ → Rpc
counts_calls s server request = some (if server == s then 1 else 0)

abbrev pub total : List ℕ → ℕ
total [] = 0
total (r ∷ rs) = r + total rs

module _ (k s n : ℕ) (s_in : s ≤ k) where
  dispatch-share :
      (i : ℕ) (tasks : List Board)
      → share (suc k) s i + total (dispatch (counts_calls s) (suc k) n i tasks)
        ≡ share (suc k) s (i + length tasks)
  unfolding dispatch client_solve
  dispatch-share i [] = rw (add-zero i) (omega arith)
  dispatch-share i (task ∷ tasks) =
      let next : i + suc (length tasks) ≡ suc i + length tasks = omega arith in
      rw next (omega (arith, share-suc k s i s_in, dispatch-share (suc i) tasks))

length-initial_tasks : (n col rounds : ℕ) → length (initial_tasks n col rounds) ≡ rounds
unfolding initial_tasks
length-initial_tasks n col zero = refl
length-initial_tasks n col (suc rounds) = ap suc (length-initial_tasks n (suc col) rounds)

-- With `suc k` servers, each of them gets the same number of the `n` tasks, up to one: the first
-- `n % suc k` servers get one more. Each task goes to one server only.
dispatch-share_of :
    (k s n : ℕ)
    → s ≤ k
    → total (dispatch (counts_calls s) (suc k) n 0 (initial_tasks n 0 n))
      ≡ n / suc k + (if ltb s (n % suc k) then 1 else 0)
dispatch-share_of k s n s_in =
    let all = dispatch-share k s n s_in 0 (initial_tasks n 0 n) in
    let many : 0 + length (initial_tasks n 0 n) ≡ n = omega (arith, length-initial_tasks n 0 n) in
    omega (arith, rw many at all, share-zero k s)
