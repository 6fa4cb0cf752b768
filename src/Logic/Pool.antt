-- ===== src/Logic/Pool.antt =====
-- `AsioServicePool`, example/logicServer/AsioServicePool.cc: the choice of the next `io_context`.
pub mod Spread
use mathlib.Core.Option
use native.Mathlib.Nat.{mod-add-mod, mod-eq_of_lt, mod-lt, mod_self}
use asio_learn.Base.{
  sym, ==_iff, ℕ, zero, suc, ◌+◌, ◌%◌, ◌<◌, ◌≡◌, refl, ap, ◌∙◌, List, [], ◌∷◌, Option, none, some,
  ltb, ◌==◌, if◌then◌else◌, arith, lt→ltb, Bool-cases, inl, inr,
}

-- The size of `_ioServices`, and `_nextIOService`.
pub record Pool : Type 0 where
  pub size : ℕ
  pub next : ℕ

pub new_pool : ℕ → Pool
new_pool size = record { size = size; next = 0 }

-- `GetIOService`: the index of the service; an index out of range is undefined.
pub get_io_service : Pool → Option (ℕ × Pool)
get_io_service p =
    if ltb p.next p.size
    then some (p.next, record p { next = if p.next + 1 == p.size then 0 else p.next + 1 })
    else none

-- The services of `n` sessions accepted one after the other.
abbrev pub and_serve : Option (ℕ × Pool) → (Pool → Option (List ℕ)) → Option (List ℕ)
and_serve none k = none
and_serve (some (i, q)) k = Option.map (◌∷◌ i) (k q)

pub serve : ℕ → Pool → Option (List ℕ)
serve zero p = some []
serve (suc n) p = and_serve (get_io_service p) (λ q. serve n q)

-- The residues of `i`, `i + 1`, … modulo the size.
abbrev pub rotation : ℕ → ℕ → ℕ → List ℕ
rotation size i zero = []
rotation size i (suc n) = i % size ∷ rotation size (suc i) n

abbrev at_index : ℕ → ℕ → Pool
at_index size i = record { size = size; next = i % size }

wrap_lem :
    (size i : ℕ) → 0 < size → (if i % size + 1 == size then 0 else i % size + 1) ≡ suc i % size
wrap_lem size i h =
    let step : (i % size + 1) % size ≡ suc i % size =
      mod-add-mod i size 1 ∙ ap (λ k. k % size) (omega arith) in
    elim (Bool-cases (i % size + 1 == size)) [
      | inl e ↦
          let full : i % size + 1 ≡ size = (==_iff (i % size + 1) size).0 e in
          rw e (sym (mod_self size) ∙ ap (λ k. k % size) (sym full) ∙ step)
      | inr e ↦
          let low : i % size + 1 < size = ground (arith, mod-lt i h) in
          rw e (sym (mod-eq_of_lt low) ∙ step)
    ]

get_io_service-at_index :
    (size i : ℕ)
    → 0 < size
    → get_io_service (at_index size i) ≡ some (i % size, at_index size (suc i))
unfolding get_io_service
get_io_service-at_index size i h = rw (lt→ltb (i % size) size (omega arith), wrap_lem size i h)

pub serve-rotation :
    (size i n : ℕ) → 0 < size → serve n (at_index size i) ≡ some (rotation size i n)
unfolding serve
serve-rotation size i zero h = refl
serve-rotation size i (suc n) h =
    rw (get_io_service-at_index size i h, serve-rotation size (suc i) n h)

-- The sessions go round the services: of a pool that is not empty, session `i` gets service
-- `i % size`, and the index is always in range.
pub new_pool-rotation : (size n : ℕ) → 0 < size → serve n (new_pool size) ≡ some (rotation size 0 n)
unfolding new_pool
new_pool-rotation size n h =
    let start : 0 % size ≡ 0 = omega arith in rw start at (serve-rotation size 0 n h)
