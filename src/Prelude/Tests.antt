-- ===== src/Prelude/Tests.antt =====
-- Boolean tests on the native numbers, the conditional, and splits on a computed value.
use Prim.Native.Nat.{ℕ, ◌+◌, ◌≤◌, ◌<◌, ◌%◌, compare, Ordering, min}
use mathlib.Core.Path.{◌≡◌, refl}
use mathlib.Core.Logic.{◌↔◌, ◌⊎◌, inl, inr}
use mathlib.Core.Bool.{Bool, true, false, ◌&&◌, ◌||◌}
use mathlib.Core.Option.{Option, none, some}
use native.Mathlib.Omega.{arith}

abbrev pub ltb : ℕ → ℕ → Bool
ltb a b = elim (compare a b) [ Ordering.lt ↦ true | _ ↦ false ]

abbrev pub leb : ℕ → ℕ → Bool
leb a b = elim (compare a b) [ Ordering.gt ↦ false | _ ↦ true ]

infix 50 ◌==◌
abbrev pub ◌==◌ : ℕ → ℕ → Bool
a == b = elim (compare a b) [ Ordering.eq ↦ true | _ ↦ false ]

infix 1 if◌then◌else◌
abbrev pub if◌then◌else◌ {ℓ} : {A : Type ℓ} → Bool → A → A → A
if true then x else y = x
if false then x else y = y

pub ltb→lt : (a b : ℕ) → ltb a b ≡ true → a < b
ltb→lt a b h = ground arith

pub leb→le : (a b : ℕ) → leb a b ≡ true → a ≤ b
leb→le a b h = ground arith

pub ==_iff : (a b : ℕ) → ((a == b) ≡ true) ↔ (a ≡ b)
==_iff a b = ground arith

-- To split on a computed value and keep the equation.
pub Bool-cases : (b : Bool) → (b ≡ true) ⊎ (b ≡ false)
Bool-cases true = inl refl
Bool-cases false = inr refl

pub Option-cases {ℓ} : {A : Type ℓ} (o : Option A) → (o ≡ none) ⊎ ((a : A) × (o ≡ some a))
Option-cases none = inl refl
Option-cases (some a) = inr (a, refl)

pub ||-comm : (a b : Bool) → (a || b) ≡ (b || a)
||-comm a b = ground arith

pub &&-comm : (a b : Bool) → (a && b) ≡ (b && a)
&&-comm a b = ground arith

-- Two Boolean tests that hold together are equal.
pub Bool-eq_of_iff : (a b : Bool) → (a ≡ true → b ≡ true) → (b ≡ true → a ≡ true) → a ≡ b
Bool-eq_of_iff true true f g = refl
Bool-eq_of_iff true false f g = cc (f refl)
Bool-eq_of_iff false true f g = cc (g refl)
Bool-eq_of_iff false false f g = refl

-- `saturating_add` and a release build's `+` at u32 and u64.
abbrev pub u32_max : ℕ
u32_max = 4294967295

abbrev pub u64_max : ℕ
u64_max = 18446744073709551615

unfoldable pub sat_add32 : ℕ → ℕ → ℕ
sat_add32 a b = min (a + b) u32_max

unfoldable pub sat_add64 : ℕ → ℕ → ℕ
sat_add64 a b = min (a + b) u64_max

unfoldable pub add32 : ℕ → ℕ → ℕ
add32 a b = (a + b) % 4294967296

unfoldable pub add64 : ℕ → ℕ → ℕ
add64 a b = (a + b) % 18446744073709551616
