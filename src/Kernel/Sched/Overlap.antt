-- ===== src/Kernel/Sched/Overlap.antt =====
-- Overlap and conflict as relations.
use peras.Prelude.{
  ◌≡◌, ◌∙◌, refl, Bool, true, false, ◌||◌, Bool-eq_of_iff, List, [], ◌∷◌, arith, Text, text_eq_comm,
  starts_with, trim_end, any, any-true, any-of_mem,
}
use peras.Proto.Resource.{scheme, same_scheme, has_scheme, fs, Access, Scheme}
use peras.Proto.Resource.Laws.{same_scheme_iff}
use peras.Proto.Verdict.{ToolCall}
use peras.Kernel.Sched.{overlaps, nested_paths, has_glob, literal_prefix, clash, clashes, conflicts}

same_scheme_comm :
    (a b : Text) → same_scheme (scheme a) (scheme b) ≡ same_scheme (scheme b) (scheme a)
same_scheme_comm a b =
    ground (arith, same_scheme_iff (scheme a) (scheme b), same_scheme_iff (scheme b) (scheme a))

nested_paths_comm : (x y : Text) → nested_paths x y ≡ nested_paths y x
unfolding nested_paths
nested_paths_comm x y = ground (arith, text_eq_comm x y)

-- Two URIs without globs that have one scheme are tested on it from either side.
has_scheme_comm :
    (k : Scheme) (a b : Text)
    → same_scheme (scheme a) (scheme b) ≡ true
    → has_scheme k a ≡ has_scheme k b
unfolding has_scheme
has_scheme_comm k a b h = cc ((same_scheme_iff (scheme a) (scheme b)).0 h)

pub overlaps_comm : (a b : Text) → overlaps a b ≡ overlaps b a
unfolding overlaps
overlaps_comm a b = ground (
  arith,
  text_eq_comm a b,
  same_scheme_comm a b,
  has_scheme_comm fs a b,
  nested_paths_comm (trim_end b'/' a) (trim_end b'/' b),
)

clash_comm : (x y : Access) → clash x y ≡ clash y x
unfolding clash
clash_comm x y = ground (arith, overlaps_comm x.resource y.resource)

clashes-swap : (xs ys : List Access) → clashes xs ys ≡ true → clashes ys xs ≡ true
unfolding clashes
clashes-swap xs ys h =
    let (x, mx, hx) = any-true (λ x. any (clash x) ys) xs h in
    let (y, my, hy) = any-true (clash x) ys hx in
    any-of_mem (λ z. any (clash z) xs) y ys my (any-of_mem (clash y) x xs mx (clash_comm y x ∙ hy))

-- Whether two calls conflict does not depend on their order.
pub conflicts_comm : (a b : ToolCall) → conflicts a b ≡ conflicts b a
unfolding conflicts
conflicts_comm a b = ground (
  arith,
  Bool-eq_of_iff (clashes a.access b.access) (clashes b.access a.access)
      (clashes-swap a.access b.access) (clashes-swap b.access a.access),
)

-- A text that begins with two others orders them: one begins with the other.
starts_with_total :
    (u p q : Text)
    → starts_with u p ≡ true
    → starts_with u q ≡ true
    → (starts_with p q || starts_with q p) ≡ true
unfolding starts_with
starts_with_total u [] [] h k = refl
starts_with_total u [] (d ∷ q) h k = refl
starts_with_total u (c ∷ p) [] h k = refl
starts_with_total [] (c ∷ p) (d ∷ q) h k = cc
starts_with_total (x ∷ u) (c ∷ p) (d ∷ q) h k = ground (arith, starts_with_total u p q)

has_glob-false : (s : Text) → has_glob s ≡ false → literal_prefix s ≡ s
unfolding has_glob literal_prefix
has_glob-false [] h = refl
has_glob-false (c ∷ s) h = ground (arith, has_glob-false s)

-- What the source uses of `globset`: a text that an escape-free pattern matches begins with the
-- part of the pattern before its first glob character.
module _ (matches : Text → Text → Bool) (escaped : Text → Bool)
    (matches_literal : (p u : Text)
      → escaped p ≡ false
      → matches p u ≡ true
      → starts_with u (literal_prefix p) ≡ true) where
  -- Where a match begins with the literal prefix of its pattern: two escape-free patterns of one
  -- scheme, at least one of them with a glob, overlap if some URI matches both.
  pub overlaps_of_common :
      (a b u : Text)
      → escaped a ≡ false
      → escaped b ≡ false
      → scheme a ≡ scheme b
      → (has_glob a || has_glob b) ≡ true
      → matches a u ≡ true
      → matches b u ≡ true
      → overlaps a b ≡ true
  unfolding overlaps
  overlaps_of_common a b u ea eb s g ma mb = ground (
    arith,
    (same_scheme_iff (scheme a) (scheme b)).1 s,
    starts_with_total u (literal_prefix a) (literal_prefix b) (matches_literal a u ea ma)
        (matches_literal b u eb mb),
  )
