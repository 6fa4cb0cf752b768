-- ===== src/Queens/Main.antt =====
-- `main` of example/nqueen/nqueen_client.cc: its arguments, both counts, and their comparison.
-- `std::stoi`, which throws on a text that is no `int`, is a parameter. For a negative number of servers
-- `i % server_count` is that of its absolute value.
use asio_learn.Base.{ℕ, suc, ◌==◌, if◌then◌else◌, Option, some, List, [], ◌∷◌}
use asio_learn.Base.Optional.{◌>>=◌}
use asio_learn.Base.Int.{ℤ, pos, negsuc}
use asio_learn.Queens.Client.{Rpc, distribute_tasks, local_solve}

-- What `main` prints of the comparison.
pub data Verification : Type 0 where
  success failure : Verification

-- `main` behind its arguments; `none` where it ends before: by an exception or a division by zero.
unfoldable pub compare : Rpc → ℤ → ℕ → Option Verification
compare rpc n server_count = do
  distributed_solutions ← distribute_tasks rpc server_count n
  local_solutions ← local_solve n
  some (if distributed_solutions == local_solutions then success else failure)

-- `server_count` as the divisor that it is.
abbrev pub divisor : ℤ → ℕ
divisor (pos n) = n
divisor (negsuc n) = suc n

-- What `main` does: it returns 1 after the usage, or 0 after the comparison.
pub data Exit : Type 0 where
  usage : Exit
  compares : Verification → Exit

module _ (rpc : Rpc) (stoi : List ℕ → Option ℤ) where
  unfoldable pub main : List (List ℕ) → Option Exit
  main [] = some usage
  main (program ∷ []) = some usage
  main (program ∷ n ∷ []) = some usage
  main (program ∷ n ∷ server_count ∷ more) = do
    n' ← stoi n
    s ← stoi server_count
    v ← compare rpc n' (divisor s)
    some (compares v)
