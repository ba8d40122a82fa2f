-- ===== src/Kernel/Context/Groups.antt =====
-- `groups` of context.rs parts the context between its entries, never before a tool result.
use peras.Prelude.{
  ℕ, suc, ◌≡◌, ◌<◌, ◌⊎◌, inl, inr, refl, sym, ◌∙◌, ap, arith, not, ◌&&◌, ◌||◌, ◌==◌, any, Bool,
  true, false, Bool-cases, Option, none, some, List, [], ◌∷◌, ◌++◌, All, length, length-append,
  subst, get_elem?, is_empty, if◌then◌else◌,
}
use mathlib.Core.List.{append_assoc, append-nil}
use peras.Kernel.Data.{Entry}
use peras.Kernel.Context.{groups, groups_from, set_last_end, is_tool_result}

-- The ranges follow one another without gaps, none empty.
abbrev pub Tiles : ℕ → List (ℕ × ℕ) → ℕ → Type 0
Tiles a [] b = a ≡ b
Tiles a ((x, y) ∷ gs) b = (x ≡ a) × (a < y) × Tiles y gs b

-- An entry is there, and is no tool result.
abbrev pub IsOther : Option Entry → Type 0
IsOther none = ⊥
IsOther (some e) = is_tool_result e.kind ≡ false

-- Each range but one at the very start begins with another entry than a tool result.
abbrev pub StartsOthers : List Entry → List (ℕ × ℕ) → Type 0
StartsOthers ctx gs = All (λ (g : ℕ × ℕ). (g.0 ≡ 0) ⊎ IsOther (get_elem? ctx g.0)) gs

-- A range begins at the index.
unfoldable pub begins : List (ℕ × ℕ) → ℕ → Bool
begins gs i = any (λ (g : ℕ × ℕ). g.0 == i) gs

-- Every other entry than a tool result, of those before the `n`th, begins a range.
abbrev pub BeginsOthers : List Entry → ℕ → List (ℕ × ℕ) → Type 0
BeginsOthers ctx n gs = (i : ℕ) → i < n → IsOther (get_elem? ctx i) → begins gs i ≡ true

Tiles-snoc : (a i : ℕ) (gs : List (ℕ × ℕ)) → Tiles a gs i → Tiles a (gs ++ (i, suc i) ∷ []) (suc i)
Tiles-snoc a i [] e = (sym e, (omega (arith, e)), refl)
Tiles-snoc a i ((x, y) ∷ gs) (p, q, r) = (p, q, Tiles-snoc y i gs r)

Tiles-extend :
    (a i : ℕ) (gs : List (ℕ × ℕ))
    → Tiles a gs i
    → is_empty gs ≡ false
    → Tiles a (set_last_end (suc i) gs) (suc i)
unfolding set_last_end is_empty
Tiles-extend a i [] t h = cc h
Tiles-extend a i ((x, y) ∷ []) (p, q, r) h = (p, omega (arith, q, r), refl)
Tiles-extend a i ((x, y) ∷ g ∷ gs) (p, q, r) h = (p, q, Tiles-extend y i (g ∷ gs) r refl)

starts_snoc :
    (ctx : List Entry) (i : ℕ) (gs : List (ℕ × ℕ))
    → StartsOthers ctx gs
    → (i ≡ 0) ⊎ IsOther (get_elem? ctx i)
    → StartsOthers ctx (gs ++ (i, suc i) ∷ [])
starts_snoc ctx i [] s h = (h, tt)
starts_snoc ctx i (g ∷ gs) (s, ss) h = (s, starts_snoc ctx i gs ss h)

starts_extend :
    (ctx : List Entry) (n : ℕ) (gs : List (ℕ × ℕ))
    → StartsOthers ctx gs
    → StartsOthers ctx (set_last_end n gs)
unfolding set_last_end
starts_extend ctx n [] s = tt
starts_extend ctx n ((x, y) ∷ []) (s, ss) = (s, tt)
starts_extend ctx n ((x, y) ∷ g ∷ gs) (s, ss) = (s, starts_extend ctx n (g ∷ gs) ss)

begins-snoc :
    (gs : List (ℕ × ℕ)) (a b i : ℕ) → begins (gs ++ (a, b) ∷ []) i ≡ (begins gs i || a == i)
unfolding begins any
begins-snoc [] a b i = ground arith
begins-snoc (g ∷ gs) a b i = ground (arith, begins-snoc gs a b i)

begins-set_last_end : (gs : List (ℕ × ℕ)) (n i : ℕ) → begins (set_last_end n gs) i ≡ begins gs i
unfolding begins any set_last_end
begins-set_last_end [] n i = refl
begins-set_last_end ((a, b) ∷ []) n i = refl
begins-set_last_end (g ∷ h ∷ gs) n i = ground (arith, begins-set_last_end (h ∷ gs) n i)

others_snoc :
    (ctx : List Entry) (n : ℕ) (gs : List (ℕ × ℕ))
    → BeginsOthers ctx n gs
    → BeginsOthers ctx (suc n) (gs ++ (n, suc n) ∷ [])
others_snoc ctx n gs h i l o = elim (Bool-cases (n == i)) [
  | inl e ↦ ground (arith, begins-snoc gs n (suc n) i, e)
  | inr e ↦
      let earlier : i < n = ground (arith, l, e) in
      ground (arith, begins-snoc gs n (suc n) i, h i earlier o)
]

-- A tool result joins the last range.
others_extend :
    (ctx : List Entry) (n : ℕ) (e : Entry) (gs : List (ℕ × ℕ))
    → get_elem? ctx n ≡ some e
    → is_tool_result e.kind ≡ true
    → BeginsOthers ctx n gs
    → BeginsOthers ctx (suc n) (set_last_end (suc n) gs)
others_extend ctx n e gs here k h i l o = elim (Bool-cases (n == i)) [
  | inl q ↦
      let same : n ≡ i = ground (arith, q) in
      let other : is_tool_result e.kind ≡ false =
        subst IsOther (ap (λ (j : ℕ). get_elem? ctx j) (sym same) ∙ here) o in
      cc (k, other)
  | inr q ↦
      let earlier : i < n = ground (arith, l, q) in begins-set_last_end gs (suc n) i ∙ h i earlier o
]

-- No range is there only before the first entry.
Tiles-empty : (i : ℕ) (gs : List (ℕ × ℕ)) → Tiles 0 gs i → is_empty gs ≡ true → i ≡ 0
unfolding is_empty
Tiles-empty i [] t h = sym t
Tiles-empty i (g ∷ gs) t h = cc h

get-append :
    (pre : List Entry) (e : Entry) (es : List Entry)
    → get_elem? (pre ++ e ∷ es) (length pre) ≡ some e
get-append [] e es = refl
get-append (x ∷ pre) e es = get-append pre e es

-- The ranges after one entry.
abbrev next : ℕ → Entry → List (ℕ × ℕ) → List (ℕ × ℕ)
next i e out =
    if is_tool_result e.kind && not (is_empty out)
    then set_last_end (suc i) out
    else out ++ (i, suc i) ∷ []

next_lem :
    (ctx pre : List Entry) (e : Entry) (es : List Entry) (out : List (ℕ × ℕ))
    → ctx ≡ pre ++ e ∷ es
    → Tiles 0 out (length pre)
    → StartsOthers ctx out
    → BeginsOthers ctx (length pre) out
    → Tiles 0 (next (length pre) e out) (suc (length pre))
      × StartsOthers ctx (next (length pre) e out)
      × BeginsOthers ctx (suc (length pre)) (next (length pre) e out)
next_lem ctx pre e es out c t s b =
    let i = length pre in
    let here : get_elem? ctx i ≡ some e = rw c (get-append pre e es) in
    elim (Bool-cases (is_tool_result e.kind)) [
      | inl k ↦ elim (Bool-cases (is_empty out)) [
        | inl o ↦
            rw (k, o)
              (
                Tiles-snoc 0 i out t,
                starts_snoc ctx i out s (inl (Tiles-empty i out t o)),
                others_snoc ctx i out b,
              )
        | inr o ↦
            rw (k, o)
              (
                Tiles-extend 0 i out t o,
                starts_extend ctx (suc i) out s,
                others_extend ctx i e out here k b,
              )
      ]
      | inr k ↦ rw k (
        Tiles-snoc 0 i out t,
        starts_snoc ctx i out s (inr (subst IsOther (sym here) k)),
        others_snoc ctx i out b,
      )
    ]

-- What the loop keeps for the entries before the `n`th.
abbrev Parts : List Entry → ℕ → List (ℕ × ℕ) → Type 0
Parts ctx n gs = Tiles 0 gs n × StartsOthers ctx gs × BeginsOthers ctx n gs

groups_from_lem :
    (ctx pre es : List Entry) (out : List (ℕ × ℕ))
    → ctx ≡ pre ++ es
    → Parts ctx (length pre) out
    → Parts ctx (length ctx) (groups_from (length pre) out es)
unfolding groups_from
groups_from_lem ctx pre [] out c p =
    let e : length pre ≡ length ctx = rw c (sym (rw append-nil refl)) in
    subst (λ (n : ℕ). Parts ctx n out) e p
groups_from_lem ctx pre (e ∷ es) out c (t, s, b) =
    let p : Parts ctx (suc (length pre)) (next (length pre) e out) =
      next_lem ctx pre e es out c t s b in
    let long : length (pre ++ e ∷ []) ≡ suc (length pre) =
      length-append pre (e ∷ []) ∙ omega arith in
    subst (λ (n : ℕ). Parts ctx (length ctx) (groups_from n (next (length pre) e out) es)) long
      (groups_from_lem ctx (pre ++ e ∷ []) es (next (length pre) e out)
        (c ∙ sym (append_assoc pre (e ∷ []) es))
        (subst (λ (n : ℕ). Parts ctx n (next (length pre) e out)) (sym long) p))

-- The groups of a context follow one another from its first entry to its last; no group but one at
-- the start of the context begins with a tool result; and every other entry begins a group. So a
-- group is one entry with the tool results right behind it.
pub groups-StartsOthers :
    (ctx : List Entry)
    → Tiles 0 (groups ctx) (length ctx)
      × StartsOthers ctx (groups ctx)
      × BeginsOthers ctx (length ctx) (groups ctx)
unfolding groups
groups-StartsOthers ctx = groups_from_lem ctx [] ctx [] refl (refl, tt, λ i l o. ground (arith, l))
