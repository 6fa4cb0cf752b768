-- ===== src/Base/Tests.antt =====
-- Boolean tests on the native numbers, the conditional, and splits that keep the equation.
use Prim.Native.Nat.{ℕ, ◌≤◌, ◌<◌, compare, Ordering}
use mathlib.Core.Path.{◌≡◌, refl, subst}
use mathlib.Core.Path.{fun_ext}
use mathlib.Core.Logic.{◌↔◌, ◌⊎◌, inl, inr}
use mathlib.Core.Bool.{Bool, true, false}
use mathlib.Core.Option.{Option, none, some}
use native.Mathlib.Omega.{arith}

abbrev pub ltb : ℕ → ℕ → Bool
ltb a b = elim (compare a b) [ Ordering.lt ↦ true | _ ↦ false ]

abbrev pub leb : ℕ → ℕ → Bool
leb a b = elim (compare a b) [ Ordering.gt ↦ false | _ ↦ true ]

infix 50 ◌==◌
abbrev pub ◌==◌ : ℕ → ℕ → Bool
a == b = elim (compare a b) [ Ordering.eq ↦ true | _ ↦ false ]

infix 1 if◌then◌else◌
abbrev pub if◌then◌else◌ {ℓ} : {A : Type ℓ} → Bool → A → A → A
if true then x else y = x
if false then x else y = y

pub ltb→lt : (a b : ℕ) → ltb a b ≡ true → a < b
ltb→lt a b h = ground arith

pub lt→ltb : (a b : ℕ) → a < b → ltb a b ≡ true
lt→ltb a b h = ground arith

pub le→ltb : (a b : ℕ) → b ≤ a → ltb a b ≡ false
le→ltb a b h = ground arith

pub ltb→le : (a b : ℕ) → ltb a b ≡ false → b ≤ a
ltb→le a b h = ground arith

pub le→leb : (a b : ℕ) → a ≤ b → leb a b ≡ true
le→leb a b h = ground arith

pub ==_iff : (a b : ℕ) → ((a == b) ≡ true) ↔ (a ≡ b)
==_iff a b = ground arith

pub Bool-cases : (b : Bool) → (b ≡ true) ⊎ (b ≡ false)
Bool-cases true = inl refl
Bool-cases false = inr refl

pub Option-cases {ℓ} : {A : Type ℓ} (o : Option A) → (o ≡ none) ⊎ ((a : A) × (o ≡ some a))
Option-cases none = inl refl
Option-cases (some a) = inr (a, refl)

-- A function with another value at one number.
abbrev pub update {ℓ} : {A : Type ℓ} → (ℕ → A) → ℕ → A → ℕ → A
update f u a v = if u == v then a else f v

-- A property of every number, from the one that has changed.
pub by_key {ℓ} : (P : ℕ → Type ℓ) (u v : ℕ) → P u → ((u == v) ≡ false → P v) → P v
by_key P u v own others = elim (Bool-cases (u == v)) [
  | inl e ↦ subst P ((==_iff u v).0 e) own
  | inr e ↦ others e
]

pub ==_refl : (u : ℕ) → (u == u) ≡ true
==_refl u = ground arith

pub update-update {ℓ} :
    {A : Type ℓ} (f : ℕ → A) (u : ℕ) (a b : A) → update (update f u a) u b ≡ update f u b
update-update f u a b = fun_ext (λ v. elim (Bool-cases (u == v)) [ inl e ↦ rw e | inr e ↦ rw e ])

pub update_self {ℓ} : {A : Type ℓ} (f : ℕ → A) (u : ℕ) → update f u (f u) ≡ f
update_self f u =
    fun_ext (λ v.
      by_key (λ v. update f u (f u) v ≡ f v) u v (rw (==_refl u) refl) (λ other. rw other refl))
