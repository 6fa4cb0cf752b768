-- ===== src/Co/Pool.antt =====
-- `AsioServicePool`, example/BoostCoServer/AsioServicePool.cc: the choice of an `io_context`.
pub mod Stop
use mathlib.Core.Option
use asio_learn.Base.{
  ℕ, zero, suc, ◌≡◌, refl, List, [], ◌∷◌, Option, none, some, ltb, ◌==◌, if◌then◌else◌, false,
  arith, lt→ltb, replicate,
}

-- The size of `_io_service`, and `_next_IOService_idx`.
pub record Pool : Type 0 where
  pub size : ℕ
  pub next_idx : ℕ

pub new_pool : ℕ → Pool
new_pool thread_num = record { size = thread_num; next_idx = 0 }

-- `GetIOService`: an index out of range is undefined. The index is compared, and not counted up.
pub get_io_service : Pool → Option (ℕ × Pool)
get_io_service p =
    if ltb p.next_idx p.size
    then some (p.next_idx, record p { next_idx = if p.next_idx == p.size then 0 else p.next_idx })
    else none

abbrev pub and_serve : Option (ℕ × Pool) → (Pool → Option (List ℕ)) → Option (List ℕ)
and_serve none k = none
and_serve (some (i, q)) k = Option.map (◌∷◌ i) (k q)

-- The services of `n` sessions accepted one after the other.
pub serve : ℕ → Pool → Option (List ℕ)
serve zero p = some []
serve (suc n) p = and_serve (get_io_service p) (λ q. serve n q)

get_io_service-first :
    (size : ℕ)
    → get_io_service (record { size = suc size; next_idx = 0 })
      ≡ some (0, record { size = suc size; next_idx = 0 })
unfolding get_io_service
get_io_service-first size =
    let unequal : (0 == suc size) ≡ false = ground arith in
    rw (lt→ltb 0 (suc size) (omega arith), unequal)

serve-first :
    (size n : ℕ) → serve n (record { size = suc size; next_idx = 0 }) ≡ some (replicate n 0)
unfolding serve
serve-first size zero = refl
serve-first size (suc n) = rw (get_io_service-first size, serve-first size n)

-- Every session gets the first service, whatever the number of services; where there is none (the
-- default size `hardware_concurrency()` may be 0), the first call is already out of range.
serve-replicate :
    (n : ℕ)
    → ((size : ℕ) → serve n (new_pool (suc size)) ≡ some (replicate n 0))
      × (serve (suc n) (new_pool 0) ≡ none)
unfolding serve get_io_service new_pool
serve-replicate n = (λ size. serve-first size n, refl)
