-- ===== src/Wire/Endian.antt =====
-- The byte order of the machine, and Boost.Asio's conversions of a `short`: parameters of the model,
-- with the documented law that network order stores the high byte first.
use asio_learn.Base.{ℕ, ◌+◌, ◌*◌, ◌/◌, ◌%◌, ◌^◌, ◌<◌, ◌≡◌, List, [], ◌∷◌, arith}

pub record Host : Type 0 where
  -- `host_to_network_short` and `network_to_host_short`
  pub hton : ℕ → ℕ
  pub ntoh : ℕ → ℕ
  -- The two bytes of a `short` in memory, and the `short` that two bytes hold.
  pub first_byte : ℕ → ℕ
  pub second_byte : ℕ → ℕ
  pub from_bytes : ℕ → ℕ → ℕ
  pub first-hton : (v : ℕ) → v < 2 ^ 16 → first_byte (hton v) ≡ v / 256
  pub second-hton : (v : ℕ) → v < 2 ^ 16 → second_byte (hton v) ≡ v % 256
  pub ntoh-from_bytes : (a b : ℕ) → a < 256 → b < 256 → ntoh (from_bytes a b) ≡ a * 256 + b

-- `short v = host_to_network_short(v); memcpy(data, &v, 2)`
abbrev pub short_bytes : Host → ℕ → List ℕ
short_bytes h v = h.first_byte (h.hton v) ∷ h.second_byte (h.hton v) ∷ []

-- `memcpy(&v, data, 2); v = network_to_host_short(v)`
abbrev pub short_at : Host → ℕ → ℕ → ℕ
short_at h a b = h.ntoh (h.from_bytes a b)

-- What is stored is read back.
pub short_at-short_bytes :
    (h : Host) (v : ℕ)
    → v < 2 ^ 16
    → short_at h (h.first_byte (h.hton v)) (h.second_byte (h.hton v)) ≡ v
short_at-short_bytes h v lt =
    rw
      (
        h.first-hton v lt,
        h.second-hton v lt,
        h.ntoh-from_bytes (v / 256) (v % 256) (omega arith) (omega arith),
      )
      (omega arith)

unfoldable pub swap_bytes : ℕ → ℕ
swap_bytes v = v % 256 * 256 + v / 256

pub first-swap_bytes : (v : ℕ) → v < 2 ^ 16 → swap_bytes v % 256 ≡ v / 256
unfolding swap_bytes
first-swap_bytes v h = omega arith

pub second-swap_bytes : (v : ℕ) → v < 2 ^ 16 → swap_bytes v / 256 ≡ v % 256
unfolding swap_bytes
second-swap_bytes v h = omega arith

pub swap_bytes-pair : (a b : ℕ) → a < 256 → b < 256 → swap_bytes (a + b * 256) ≡ a * 256 + b
unfolding swap_bytes
swap_bytes-pair a b ha hb = omega arith

-- A little-endian machine.
abbrev pub little_endian : Host
little_endian = record {
  hton = swap_bytes;
  ntoh = swap_bytes;
  first_byte = λ v. v % 256;
  second_byte = λ v. v / 256;
  from_bytes = λ a b. a + b * 256;
  first-hton = first-swap_bytes;
  second-hton = second-swap_bytes;
  ntoh-from_bytes = swap_bytes-pair;
}
