-- ===== src/Proto/Resource/Laws.antt =====
-- The URI constructors against `scheme`, `rest` and `parse`; the derived equalities.
use peras.Prelude.{
  ◌≡◌, refl, ◌↔◌, true, Option, none, some, [], ◌∷◌, ◌++◌, arith, Text, txt, text_eq_iff,
  starts_with, length, ap,
}
use peras.Proto.Resource.{
  Scheme, fs, net, cmd, mcp, secret, mem, git, prefix, scheme, rest, drop, Access, AccessMode,
  mode_eq, hash_eq, access_eq, same_scheme,
}

pub mode_eq_iff : (a b : AccessMode) → (mode_eq a b ≡ true) ↔ (a ≡ b)
mode_eq_iff a b = (λ h. ground arith, λ h. ground arith)

pub hash_eq_iff : (a b : Option Text) → (hash_eq a b ≡ true) ↔ (a ≡ b)
unfolding hash_eq
hash_eq_iff none none = (λ _. refl, λ _. refl)
hash_eq_iff (some a) (some b) =
    (λ h. ap some ((text_eq_iff a b).0 h), λ h. (text_eq_iff a b).1 (ground arith))
hash_eq_iff none (some b) = (λ h. cc, λ h. cc)
hash_eq_iff (some a) none = (λ h. cc, λ h. cc)

pub access_eq_iff : (a b : Access) → (access_eq a b ≡ true) ↔ (a ≡ b)
unfolding access_eq
access_eq_iff a b = (
  λ h. ground (arith, text_eq_iff a.resource b.resource, hash_eq_iff a.content_hash b.content_hash),
  λ h. ground (arith, text_eq_iff a.resource b.resource, hash_eq_iff a.content_hash b.content_hash),
)

pub same_scheme_iff : (a b : Option Scheme) → (same_scheme a b ≡ true) ↔ (a ≡ b)
unfolding same_scheme
same_scheme_iff a b = (λ h. ground arith, λ h. ground arith)

drop-append : (p r : Text) → drop (length p) (p ++ r) ≡ r
unfolding drop
drop-append [] r = refl
drop-append (c ∷ p) r = drop-append p r

-- No scheme's prefix begins another's, so what follows a prefix does not matter.
pub scheme-prefix : (k : Scheme) (r : Text) → scheme (prefix k ++ r) ≡ some k
unfolding scheme prefix txt starts_with
scheme-prefix fs r = refl
scheme-prefix net r = refl
scheme-prefix cmd r = refl
scheme-prefix mcp r = refl
scheme-prefix secret r = refl
scheme-prefix mem r = refl
scheme-prefix git r = refl

-- A URI built from a scheme and a rest has that scheme and that rest.
pub scheme-rest-prefix :
    (k : Scheme) (r : Text) → (scheme (prefix k ++ r) ≡ some k) × (rest (prefix k ++ r) ≡ r)
unfolding rest
scheme-rest-prefix k r = (scheme-prefix k r, rw scheme-prefix (drop-append (prefix k) r))
