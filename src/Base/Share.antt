-- ===== src/Base/Share.antt =====
-- Things that are given out in turn: tasks to servers, sessions to services.
use native.Mathlib.Nat.{
  mod-eq_of_lt, div-eq_of_lt, mod-lt, div-add-mod', mul-add-div_right, mul-add-mod_self_right,
}
use Prim.Native.Nat.{ℕ, suc, ◌+◌, ◌*◌, ◌/◌, ◌%◌, ◌≤◌, ◌<◌}
use mathlib.Core.Path.{◌≡◌, ap, ◌∙◌}
use mathlib.Core.Logic.{inl, inr}
use mathlib.Core.Bool.{false}
use native.Mathlib.Omega.{arith}
use asio_learn.Base.Tests.{ltb, ◌==◌, if◌then◌else◌, Bool-cases}

-- How many of the first `i` turns are those of place `s` of `k`.
abbrev pub share : ℕ → ℕ → ℕ → ℕ
share k s i = i / k + (if ltb s (i % k) then 1 else 0)

-- The quotient and the remainder of a turn from its place in a round.
place : (k q r : ℕ) → r ≤ k → ((q * suc k + r) / suc k ≡ q) × ((q * suc k + r) % suc k ≡ r)
place k q r r_in = (
  mul-add-div_right (omega arith) q r
      ∙ ap (λ (d : ℕ). q + d) (div-eq_of_lt (omega arith))
      ∙ omega arith,
  mul-add-mod_self_right q (suc k) r ∙ mod-eq_of_lt (omega arith),
)

share-at : (k s q r : ℕ) → r ≤ k → share (suc k) s (q * suc k + r) ≡ q + (if ltb s r then 1 else 0)
share-at k s q r r_in = let (quotient, rest) = place k q r r_in in rw (quotient, rest)

-- Turn `i` is the next one of place `i % (k + 1)`.
pub share-suc :
    (k s i : ℕ)
    → s ≤ k
    → share (suc k) s i + (if i % suc k == s then 1 else 0) ≡ share (suc k) s (suc i)
share-suc k s i s_in =
    let q = i / suc k in
    let r = i % suc k in
    let whole : q * suc k + r ≡ i = div-add-mod' i (suc k) in
    let r_in : r < suc k = mod-lt i (omega arith) in
    elim (Bool-cases (r == k)) [
      | inl end ↦
          let next : suc q * suc k + 0 ≡ suc i = ground (arith, end, whole) in
          rw (← next) (rw (share-at k s (suc q) 0 (omega arith)) (ground (arith, end)))
      | inr inside ↦
          let next : q * suc k + suc r ≡ suc i = omega (arith, whole) in
          rw (← next)
            (rw (share-at k s q (suc r) (ground (arith, inside, r_in))) (ground (arith, inside)))
    ]

pub share-zero : (k s : ℕ) → share (suc k) s 0 ≡ 0
share-zero k s =
    let start : 0 * suc k + 0 ≡ 0 = omega arith in
    let first : ltb s 0 ≡ false = ground arith in
    rw start at (share-at k s 0 0 (omega arith)) ∙ (rw first)
