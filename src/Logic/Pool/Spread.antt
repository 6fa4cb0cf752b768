-- ===== src/Logic/Pool/Spread.antt =====
-- How the sessions are spread over the services.
use native.Mathlib.Nat.{add-zero}
use asio_learn.Base.{
  ℕ, zero, suc, ◌+◌, ◌/◌, ◌%◌, ◌≤◌, ◌≡◌, List, some, ltb, ◌==◌, if◌then◌else◌, arith, count_if,
  share, share-suc, share-zero,
}
use asio_learn.Logic.Pool.{serve, new_pool, rotation, new_pool-rotation}

rotation-share :
    (k s n i : ℕ)
    → s ≤ k
    → share (suc k) s i + count_if (λ t. t == s) (rotation (suc k) i n) ≡ share (suc k) s (i + n)
rotation-share k s zero i s_in = rw (add-zero i) (omega arith)
rotation-share k s (suc n) i s_in =
    let next : i + suc n ≡ suc i + n = omega arith in
    rw next (omega (arith, share-suc k s i s_in, rotation-share k s n (suc i) s_in))

-- Of a pool with `suc k` services, each gets the same number of the next `n` sessions, up to one: the
-- first `n % suc k` services get one more. The index is always in range.
serve-share :
    (k s n : ℕ)
    → s ≤ k
    → (services : List ℕ) × (serve n (new_pool (suc k)) ≡ some services)
      × (count_if (λ t. t == s) services ≡ n / suc k + (if ltb s (n % suc k) then 1 else 0))
serve-share k s n s_in = (
  rotation (suc k) 0 n,
  new_pool-rotation (suc k) n (omega arith),
  let many : 0 + n ≡ n = omega arith in
      omega (arith, rw many at (rotation-share k s n 0 s_in), share-zero k s),
)
