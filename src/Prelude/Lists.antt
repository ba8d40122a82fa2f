-- ===== src/Prelude/Lists.antt =====
-- Lists measured and searched by native numbers and Boolean tests, under the library's names.
use Prim.Native.Nat.{ℕ, zero, suc, ◌+◌}
use mathlib.Core.Path.{◌≡◌, refl}
use mathlib.Core.Logic.{◌⊎◌, inl, inr}
use mathlib.Core.Bool.{Bool, true, false, ◌&&◌, ◌||◌}
use mathlib.Core.List.{List, [], ◌∷◌, ◌++◌, Memᴰ}
use mathlib.Core.Option.{Option, none, some}
use native.Mathlib.Omega.{arith}
use peras.Prelude.Tests.{if◌then◌else◌, Bool-cases}

abbrev pub All {ℓ κ} : {A : Type ℓ} → (A → Type κ) → List A → Type κ
All P [] = Unit
All P (x ∷ xs) = P x × All P xs

module _ {ℓ} {A : Type ℓ} where
  abbrev pub length : List A → ℕ
  length [] = 0
  length (x ∷ xs) = suc (length xs)

  abbrev pub get_elem? : List A → ℕ → Option A
  get_elem? [] i = none
  get_elem? (x ∷ xs) zero = some x
  get_elem? (x ∷ xs) (suc i) = get_elem? xs i

  abbrev pub take : ℕ → List A → List A
  take zero xs = []
  take (suc n) [] = []
  take (suc n) (x ∷ xs) = x ∷ take n xs

  -- `iter().any(p)`, `iter().all(p)`, `iter().find(p)`, `filter(p)` and `retain(p)`.
  unfoldable pub any : (A → Bool) → List A → Bool
  any p [] = false
  any p (x ∷ xs) = p x || any p xs

  unfoldable pub all : (A → Bool) → List A → Bool
  all p [] = true
  all p (x ∷ xs) = p x && all p xs

  unfoldable pub find : (A → Bool) → List A → Option A
  find p [] = none
  find p (x ∷ xs) = if p x then some x else find p xs

  unfoldable pub retain : (A → Bool) → List A → List A
  retain p [] = []
  retain p (x ∷ xs) = let rest = retain p xs in if p x then x ∷ rest else rest

  unfoldable pub is_empty : List A → Bool
  is_empty [] = true
  is_empty (x ∷ xs) = false

module _ {ℓ} {A : Type ℓ} where
  pub length-append : (xs ys : List A) → length (xs ++ ys) ≡ length xs + length ys
  length-append [] ys = omega arith
  length-append (x ∷ xs) ys = omega (arith, length-append xs ys)

  pub any-append : (p : A → Bool) (xs ys : List A) → any p (xs ++ ys) ≡ (any p xs || any p ys)
  unfolding any
  any-append p [] ys = refl
  any-append p (x ∷ xs) ys = ground (arith, any-append p xs ys)

  pub any-true : (p : A → Bool) (xs : List A) → any p xs ≡ true → (x : A) × Memᴰ x xs × (p x ≡ true)
  unfolding any
  any-true p [] h = cc
  any-true p (x ∷ xs) h = elim (Bool-cases (p x)) [
    | inl e ↦ (x, Memᴰ.head refl, e)
    | inr e ↦ let (y, m, q) = any-true p xs (ground arith) in (y, Memᴰ.tail m, q)
  ]

  pub any-of_mem : (p : A → Bool) (x : A) (xs : List A) → Memᴰ x xs → p x ≡ true → any p xs ≡ true
  unfolding any
  any-of_mem p x [] m h = elim m [ ]
  any-of_mem p x (y ∷ ys) (Memᴰ.head e) h = let q : p y ≡ true = rw e at h in ground arith
  any-of_mem p x (y ∷ ys) (Memᴰ.tail m) h = ground (arith, any-of_mem p x ys m h)

  pub any-false : (p : A → Bool) (x : A) (xs : List A) → any p xs ≡ false → Memᴰ x xs → p x ≡ false
  any-false p x xs h m = elim (Bool-cases (p x)) [ inl e ↦ cc (any-of_mem p x xs m e) | inr e ↦ e ]

  pub mem-append_left : (a : A) (xs ys : List A) → Memᴰ a xs → Memᴰ a (xs ++ ys)
  mem-append_left a [] ys m = elim m [ ]
  mem-append_left a (x ∷ xs) ys (Memᴰ.head e) = Memᴰ.head e
  mem-append_left a (x ∷ xs) ys (Memᴰ.tail m) = Memᴰ.tail (mem-append_left a xs ys m)

  pub mem-append_right : (a : A) (xs ys : List A) → Memᴰ a ys → Memᴰ a (xs ++ ys)
  mem-append_right a [] ys m = m
  mem-append_right a (x ∷ xs) ys m = Memᴰ.tail (mem-append_right a xs ys m)

  pub mem-append_cases : (a : A) (xs ys : List A) → Memᴰ a (xs ++ ys) → Memᴰ a xs ⊎ Memᴰ a ys
  mem-append_cases a [] ys m = inr m
  mem-append_cases a (x ∷ xs) ys (Memᴰ.head e) = inl (Memᴰ.head e)
  mem-append_cases a (x ∷ xs) ys (Memᴰ.tail m) = elim (mem-append_cases a xs ys m) [
    | inl l ↦ inl (Memᴰ.tail l)
    | inr r ↦ inr r
  ]

  mem_step :
      (b : Bool) (a x : A) (ys : List A)
      → Memᴰ a (if b then x ∷ ys else ys)
      → ((a ≡ x) × (b ≡ true)) ⊎ Memᴰ a ys
  mem_step true a x ys (Memᴰ.head e) = inl (e, refl)
  mem_step true a x ys (Memᴰ.tail m) = inr m
  mem_step false a x ys m = inr m

  pub mem-retain :
      (p : A → Bool) (a : A) (xs : List A) → Memᴰ a (retain p xs) → Memᴰ a xs × (p a ≡ true)
  unfolding retain
  mem-retain p a [] m = elim m [ ]
  mem-retain p a (x ∷ xs) m = elim (mem_step (p x) a x (retain p xs) m) [
    | inl h ↦ (Memᴰ.head h.0, rw h.0 h.1)
    | inr r ↦ let (i, t) = mem-retain p a xs r in (Memᴰ.tail i, t)
  ]
