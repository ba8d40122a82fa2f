-- ===== src/Prelude/Texts.antt =====
-- Texts as lists of bytes: comparison, prefixes, search, and decimal numbers.
use Prim.Native.Nat.{ℕ, zero, suc, ◌+◌, ◌/◌, ◌%◌}
use Prim.Native.Char.{code}
use Prim.Native.String.{String}
use mathlib.Core.Path.{◌≡◌, refl}
use mathlib.Core.Logic.{◌↔◌}
use mathlib.Core.Bool.{Bool, true, false, ◌&&◌, ◌||◌}
use mathlib.Core.List.{List, [], ◌∷◌, ◌++◌, reverse}
use native.Mathlib.Omega.{arith}
use peras.Prelude.Tests.{◌==◌, ltb, if◌then◌else◌}
use peras.Prelude.Lists.{any}

abbrev pub Text : Type 0
Text = List ℕ

-- The bytes of an ASCII literal. Shut, so that a proof reads a literal as one value.
unfoldable pub txt : String → Text
txt String.[] = []
txt (String.◌∷◌ c s) = code c ∷ txt s

unfoldable pub text_eq : Text → Text → Bool
text_eq [] [] = true
text_eq (x ∷ xs) (y ∷ ys) = x == y && text_eq xs ys
text_eq _ _ = false

pub text_eq_iff : (a b : Text) → (text_eq a b ≡ true) ↔ (a ≡ b)
unfolding text_eq
text_eq_iff [] [] = (λ _. refl, λ _. refl)
text_eq_iff [] (y ∷ ys) = (λ h. cc, λ h. cc)
text_eq_iff (x ∷ xs) [] = (λ h. cc, λ h. cc)
text_eq_iff (x ∷ xs) (y ∷ ys) =
    (λ h. ground (arith, text_eq_iff xs ys), λ h. ground (arith, text_eq_iff xs ys))

pub text_eq_self : (a : Text) → text_eq a a ≡ true
text_eq_self a = (text_eq_iff a a).1 refl

pub text_eq_comm : (a b : Text) → text_eq a b ≡ text_eq b a
text_eq_comm a b = ground (arith, text_eq_iff a b, text_eq_iff b a)

-- `s.starts_with(p)` and `s.ends_with(p)`
unfoldable pub starts_with : Text → Text → Bool
starts_with s [] = true
starts_with [] (p ∷ ps) = false
starts_with (c ∷ s) (p ∷ ps) = c == p && starts_with s ps

unfoldable pub ends_with : Text → Text → Bool
unfolding starts_with
ends_with s p = starts_with (reverse s) (reverse p)

pub starts_with-append : (p r : Text) → starts_with (p ++ r) p ≡ true
unfolding starts_with
starts_with-append [] r = refl
starts_with-append (c ∷ p) r = ground (arith, starts_with-append p r)

pub append-of_starts_with : (s p : Text) → starts_with s p ≡ true → (r : Text) × (s ≡ p ++ r)
unfolding starts_with
append-of_starts_with s [] h = (s, refl)
append-of_starts_with [] (p ∷ ps) h = cc
append-of_starts_with (c ∷ s) (p ∷ ps) h =
    let (r, e) = append-of_starts_with s ps (ground arith) in (r, ground arith)

-- `s.trim_end_matches(c)`
drop_front : ℕ → Text → Text
drop_front c [] = []
drop_front c (x ∷ xs) = let rest = drop_front c xs in if x == c then rest else x ∷ xs

unfoldable pub trim_end : ℕ → Text → Text
unfolding drop_front
trim_end c s = reverse (drop_front c (reverse s))

-- `vec.contains(t)` and `set.contains(t)`
unfoldable pub contains : List Text → Text → Bool
unfolding any
contains ts t = any (text_eq t) ts

-- The byte order of texts.
unfoldable pub text_lt : Text → Text → Bool
text_lt [] [] = false
text_lt [] (y ∷ ys) = true
text_lt (x ∷ xs) [] = false
text_lt (x ∷ xs) (y ∷ ys) = if x == y then text_lt xs ys else ltb x y

-- `set.insert(t)` on a `BTreeSet`, whose elements stand in order.
unfoldable pub insert : Text → List Text → List Text
insert t [] = t ∷ []
insert t (u ∷ us) =
    let later = insert t us in
    if text_eq t u then u ∷ us else if text_lt t u then t ∷ u ∷ us else u ∷ later

pub contains-insert :
    (t u : Text) (us : List Text) → contains (insert t us) u ≡ (text_eq u t || contains us u)
unfolding contains insert any
contains-insert t u [] = refl
contains-insert t u (v ∷ us) =
    ground (arith, contains-insert t u us, text_eq_iff t v, text_eq_iff u t, text_eq_iff u v)

-- `items.join(sep)`
unfoldable pub join : Text → List Text → Text
join sep [] = []
join sep (t ∷ []) = t
join sep (t ∷ u ∷ us) = t ++ (sep ++ join sep (u ∷ us))

-- An unsigned number as `{}` prints it; the fuel is one more than the number.
digits_from : ℕ → ℕ → Text → Text
digits_from zero n acc = acc
digits_from (suc f) n acc =
    let rest = digits_from f (n / 10) ((48 + n % 10) ∷ acc) in
    if ltb n 10 then (48 + n) ∷ acc else rest

unfoldable pub decimal : ℕ → Text
unfolding digits_from
decimal n = digits_from (suc n) n []

decimal_1205 : decimal 1205 ≡ txt "1205"
unfolding decimal txt
decimal_1205 = refl

trim_slashes : trim_end b'/' (txt "/w//") ≡ txt "/w"
unfolding trim_end txt
trim_slashes = refl
