-- ===== src/Kernel/Gate/Policy/Rounds.antt =====
-- One round of the loop of `policy`, for each variable of the loop.
use peras.Prelude.{
  ◌≡◌, refl, Bool, true, false, not, ◌&&◌, ◌||◌, Option, none, some, List, [], ◌∷◌, Text, contains,
  any, is_empty, arith, if◌then◌else◌,
}
use peras.Proto.Resource.{Access, AccessMode}
use peras.Proto.Verdict.{ToolCall}
use peras.Proto.Config.{PolicyAction, allow, ask, deny, Layer}
use peras.Kernel.Data.{Matcher}
use peras.Kernel.Gate.Policy.{Tally, push_name, cover, apply_rule}
use peras.Kernel.Gate.Policy.Spec.{names_by, touches_by, is_general, is_action}

is_empty-push_name :
    (n : Text) (v : List Text) → contains v n ≡ false → is_empty (push_name n v) ≡ false
unfolding push_name is_empty
is_empty-push_name n [] h = ground arith
is_empty-push_name n (w ∷ v) h = ground arith

contains-ne_nil : (n : Text) (v : List Text) → contains v n ≡ true → is_empty v ≡ false
unfolding is_empty contains any
contains-ne_nil n [] h = cc
contains-ne_nil n (w ∷ v) h = refl

pub push_name-filled : (n : Text) (v : List Text) → is_empty (push_name n v) ≡ false
unfolding push_name
push_name-filled n v = ground (arith, is_empty-push_name n v, contains-ne_nil n v)

pub nothing : (xs : List Access) → any (λ _. false) xs ≡ false
unfolding any
nothing [] = refl
nothing (x ∷ xs) = nothing xs

-- As many flags as accesses.
abbrev pub Fits : List Access → List Bool → Type 0
Fits [] [] = Unit
Fits (a ∷ xs) (b ∷ bs) = Fits xs bs
Fits _ _ = ⊥

pub cover-none :
    (p : Access → Bool) (xs : List Access) (bs : List Bool)
    → Fits xs bs
    → any p xs ≡ false
    → cover p xs bs ≡ bs
unfolding cover any
cover-none p [] [] f h = refl
cover-none p [] (b ∷ bs) f h = refl
cover-none p (a ∷ xs) [] f h = refl
cover-none p (a ∷ xs) (b ∷ bs) f h = ground (arith, cover-none p xs bs f)

pub cover-guard :
    (b : Bool) (p : Access → Bool) (xs : List Access) (bs : List Bool)
    → Fits xs bs
    → cover (λ a. b && p a) xs bs ≡ (if b then cover p xs bs else bs)
cover-guard true p xs bs f = refl
cover-guard false p xs bs f = cover-none (λ _. false) xs bs f (nothing xs)

pub cover-Fits :
    (p : Access → Bool) (xs : List Access) (bs : List Bool) → Fits xs bs → Fits xs (cover p xs bs)
unfolding cover
cover-Fits p [] [] f = f
cover-Fits p [] (b ∷ bs) f = f
cover-Fits p (a ∷ xs) [] f = f
cover-Fits p (a ∷ xs) (b ∷ bs) f = cover-Fits p xs bs f

pub cover-cover :
    (p q : Access → Bool) (xs : List Access) (bs : List Bool)
    → cover q xs (cover p xs bs) ≡ cover (λ a. p a || q a) xs bs
unfolding cover
cover-cover p q [] bs = refl
cover-cover p q (a ∷ xs) [] = refl
cover-cover p q (a ∷ xs) (b ∷ bs) = ground (arith, cover-cover p q xs bs)

-- A rule and its matcher, in parts: a compiled glob stands only beside a glob.
module _ (name : Text) (tool : Option Text) (tm : Option Matcher) (act : PolicyAction)
    (layer : Layer) (call : ToolCall) (t : Tally) where
  abbrev pub round : Option Text → Option AccessMode → Option Matcher → Tally
  round res mode o =
      apply_rule
        (record {
          name = name;
          resource = res;
          tool = tool;
          mode = mode;
          action = act;
          layer = layer;
        })
        (record { resource = o; tool = tm }) call t

  abbrev pub said : Option Text → Option AccessMode → Option Matcher → Bool
  said res mode o =
      names_by tool tm call.name && (is_general res mode || any (touches_by res o mode) call.access)

  pub round-denied :
      (res : Option Text) (mode : Option AccessMode) (o : Option Matcher)
      → (res ≡ none → o ≡ none)
      → not (is_empty (round res mode o).denied)
        ≡ (not (is_empty t.denied) || (is_action act deny && said res mode o))
  unfolding apply_rule any
  round-denied none none none h = ground (arith, push_name-filled name t.denied)
  round-denied none (some md) none h = ground (arith, push_name-filled name t.denied)
  round-denied none mode (some g) h = cc (h refl)
  round-denied (some p) mode none h = ground (arith, nothing call.access)
  round-denied (some p) mode (some g) h = ground (arith, push_name-filled name t.denied)

  pub round-asked :
      (res : Option Text) (mode : Option AccessMode) (o : Option Matcher)
      → (res ≡ none → o ≡ none)
      → not (is_empty (round res mode o).asked)
        ≡ (not (is_empty t.asked) || (is_action act ask && said res mode o))
  unfolding apply_rule any
  round-asked none none none h = ground (arith, push_name-filled name t.asked)
  round-asked none (some md) none h = ground (arith, push_name-filled name t.asked)
  round-asked none mode (some g) h = cc (h refl)
  round-asked (some p) mode none h = ground (arith, nothing call.access)
  round-asked (some p) mode (some g) h = ground (arith, push_name-filled name t.asked)

  pub round-all_covered :
      (res : Option Text) (mode : Option AccessMode) (o : Option Matcher)
      → (res ≡ none → o ≡ none)
      → (round res mode o).all_covered ≡ (
          t.all_covered
          || (is_action act allow && (names_by tool tm call.name && is_general res mode)))
  unfolding apply_rule any
  round-all_covered none none none h = ground arith
  round-all_covered none (some md) none h = ground arith
  round-all_covered none mode (some g) h = cc (h refl)
  round-all_covered (some p) mode none h = ground arith
  round-all_covered (some p) mode (some g) h = ground arith

  -- The flags that the rule switches on by itself.
  abbrev pub switches : Option Text → Option AccessMode → Bool
  switches res mode =
      is_action act allow && (names_by tool tm call.name && not (is_general res mode))

  pub round-covered :
      (res : Option Text) (mode : Option AccessMode) (o : Option Matcher)
      → (res ≡ none → o ≡ none)
      → Fits call.access t.covered
      → (round res mode o).covered ≡ (
          if switches res mode
          then cover (touches_by res o mode) call.access t.covered
          else t.covered)
  unfolding apply_rule
  round-covered none none none h f = ground arith
  round-covered none (some md) none h f =
      ground (arith, cover-none (touches_by none none (some md)) call.access t.covered f)
  round-covered none mode (some g) h f = cc (h refl)
  round-covered (some p) mode none h f =
      ground (arith, cover-none (λ _. false) call.access t.covered f (nothing call.access))
  round-covered (some p) mode (some g) h f =
      ground (arith, cover-none (touches_by (some p) (some g) mode) call.access t.covered f)
