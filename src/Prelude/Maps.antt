-- ===== src/Prelude/Maps.antt =====
-- `BTreeMap` as an association list in key order, over keys with a decidable order.
use mathlib.Core.Path.{◌≡◌, refl}
use mathlib.Core.Logic.{◌↔◌}
use mathlib.Core.Bool.{Bool, true}
use mathlib.Core.List.{List, [], ◌∷◌}
use mathlib.Core.Option.{Option, none, some}
use native.Mathlib.Omega.{arith}
use peras.Prelude.Tests.{if◌then◌else◌}
use peras.Prelude.Texts.{Text, text_eq, text_lt, text_eq_iff}

pub record Key {ℓ} (K : Type ℓ) : Type ℓ where
  pub same : K → K → Bool
  pub before : K → K → Bool
  pub same_iff : (a b : K) → (same a b ≡ true) ↔ (a ≡ b)

instance abbrev pub text_key : Key Text
text_key = record { same = text_eq; before = text_lt; same_iff = text_eq_iff }

abbrev pub Map {ℓ κ} : Type ℓ → Type κ → Type (ℓ ⊔ κ)
Map K V = List (K × V)

module _ {ℓ κ} {K : Type ℓ} {V : Type κ} ⦃key : Key K⦄ where
  unfoldable pub lookup : K → Map K V → Option V
  lookup k [] = none
  lookup k ((j, v) ∷ m) = if key.same k j then some v else lookup k m

  unfoldable pub put : K → V → Map K V → Map K V
  put k v [] = (k, v) ∷ []
  put k v ((j, w) ∷ m) =
      let later = put k v m in
      if key.same k j
      then (k, v) ∷ m
      else if key.before k j
      then (k, v) ∷ (j, w) ∷ m
      else (j, w) ∷ later

  unfoldable pub remove : K → Map K V → Map K V
  remove k [] = []
  remove k ((j, w) ∷ m) = let later = remove k m in if key.same k j then later else (j, w) ∷ later

module _ {ℓ κ} {K : Type ℓ} {V : Type κ} ⦃key : Key K⦄ where
  pub lookup-put :
      (k j : K) (v : V) (m : Map K V)
      → lookup j (put k v m) ≡ (if key.same j k then some v else lookup j m)
  unfolding lookup put
  lookup-put k j v [] = refl
  lookup-put k j v ((i, w) ∷ m) =
      ground (arith, lookup-put k j v m, key.same_iff j k, key.same_iff k i, key.same_iff j i)

  pub lookup-remove :
      (k j : K) (m : Map K V) → lookup j (remove k m) ≡ (if key.same j k then none else lookup j m)
  unfolding lookup remove
  lookup-remove k j [] = ground arith
  lookup-remove k j ((i, w) ∷ m) =
      ground (arith, lookup-remove k j m, key.same_iff j k, key.same_iff k i, key.same_iff j i)
