-- ===== src/Kernel/Gate/Policy/Decision.antt =====
-- The loop of `policy` decides what `policy_spec` says.
use peras.Prelude.{
  ◌≡◌, ◌∙◌, refl, ap, sym, Bool, false, not, ◌&&◌, ◌||◌, none, some, List, [], ◌∷◌, map,
  if◌then◌else◌, any, all, is_empty, arith, Bool-cases, inl, inr,
}
use mathlib.Core.Path.{fun_ext}
use peras.Proto.Resource.{Access}
use peras.Proto.Verdict.{ToolCall}
use peras.Proto.Config.{PolicyRule, allow, ask, deny, KernelConfig}
use peras.Kernel.Data.{Externals, State}
use peras.Kernel.Gate.Ring1.{and_then, rule_matcher, matchers, side_effecting, runs_isolated}
use peras.Kernel.Gate.Policy.{Tally, cover, apply_rule, tally, start, policy, decided}
use peras.Kernel.Gate.Policy.Spec.{
  is_action, names, touches, applies, is_general, allows_all, allows, decision, policy_spec,
}
use peras.Kernel.Gate.Policy.Rounds.{
  round-denied, round-asked, round-all_covered, round-covered, Fits, cover-Fits, cover-guard,
  cover-cover, cover-none, nothing,
}

module _ (x : Externals) (call : ToolCall) where
  abbrev after : PolicyRule → Tally → Tally
  after r t = apply_rule r (rule_matcher x r) call t

  abbrev ended : List PolicyRule → Tally → Tally
  ended rs t = tally rs (map (rule_matcher x) rs) call t

  no_glob : (r : PolicyRule) → r.resource ≡ none → and_then r.resource x.glob ≡ none
  no_glob r e = ap (λ o. and_then o x.glob) e

  after-denied :
      (r : PolicyRule) (t : Tally)
      → not (is_empty (after r t).denied)
        ≡ (not (is_empty t.denied) || (is_action r.action deny && applies x call r))
  unfolding rule_matcher
  after-denied r t =
      round-denied r.name r.tool (and_then r.tool x.glob) r.action r.layer call t r.resource r.mode
        (and_then r.resource x.glob) (no_glob r)

  after-asked :
      (r : PolicyRule) (t : Tally)
      → not (is_empty (after r t).asked)
        ≡ (not (is_empty t.asked) || (is_action r.action ask && applies x call r))
  unfolding rule_matcher
  after-asked r t =
      round-asked r.name r.tool (and_then r.tool x.glob) r.action r.layer call t r.resource r.mode
        (and_then r.resource x.glob) (no_glob r)

  after-all_covered :
      (r : PolicyRule) (t : Tally)
      → (after r t).all_covered ≡ (t.all_covered || allows_all x call r)
  unfolding rule_matcher
  after-all_covered r t =
      round-all_covered r.name r.tool (and_then r.tool x.glob) r.action r.layer call t r.resource
        r.mode (and_then r.resource x.glob) (no_glob r)

  -- The accesses that the rule covers one by one.
  abbrev covers : PolicyRule → Access → Bool
  covers r a =
      (is_action r.action allow && (names x call r && not (is_general r.resource r.mode)))
      && touches x call r a

  after-covered :
      (r : PolicyRule) (t : Tally)
      → Fits call.access t.covered
      → (after r t).covered ≡ cover (covers r) call.access t.covered
  unfolding rule_matcher
  after-covered r t f =
      round-covered r.name r.tool (and_then r.tool x.glob) r.action r.layer call t r.resource r.mode
        (and_then r.resource x.glob) (no_glob r) f
      ∙ sym (cover-guard _ (touches x call r) call.access t.covered f)

  ended-denied :
      (rs : List PolicyRule) (t : Tally)
      → not (is_empty (ended rs t).denied)
        ≡ (not (is_empty t.denied) || any (λ r. is_action r.action deny && applies x call r) rs)
  unfolding tally any
  ended-denied [] t = ground arith
  ended-denied (r ∷ rs) t = ended-denied rs (after r t) ∙ (rw after-denied (ground arith))

  ended-asked :
      (rs : List PolicyRule) (t : Tally)
      → not (is_empty (ended rs t).asked)
        ≡ (not (is_empty t.asked) || any (λ r. is_action r.action ask && applies x call r) rs)
  unfolding tally any
  ended-asked [] t = ground arith
  ended-asked (r ∷ rs) t = ended-asked rs (after r t) ∙ (rw after-asked (ground arith))

  ended-all_covered :
      (rs : List PolicyRule) (t : Tally)
      → (ended rs t).all_covered ≡ (t.all_covered || any (allows_all x call) rs)
  unfolding tally any
  ended-all_covered [] t = ground arith
  ended-all_covered (r ∷ rs) t =
      ended-all_covered rs (after r t) ∙ (rw after-all_covered (ground arith))

  ended-covered :
      (rs : List PolicyRule) (t : Tally)
      → Fits call.access t.covered
      → (ended rs t).covered ≡ cover (λ a. any (λ r. covers r a) rs) call.access t.covered
  unfolding tally any
  ended-covered [] t f = sym (cover-none (λ _. false) call.access t.covered f (nothing call.access))
  ended-covered (r ∷ rs) t f =
      let e = after-covered r t f in
      ended-covered rs (after r t) (rw e (cover-Fits (covers r) call.access t.covered f))
      ∙ (rw e (cover-cover (covers r) (λ a. any (λ r. covers r a) rs) call.access t.covered))

  all-cover :
      (p : Access → Bool) (xs : List Access)
      → all (λ c. c) (cover p xs (map (λ _. false) xs)) ≡ all p xs
  unfolding all cover
  all-cover p [] = refl
  all-cover p (a ∷ xs) = ground (arith, all-cover p xs)

  start-Fits : (xs : List Access) → Fits xs (map (λ _. false) xs)
  start-Fits [] = tt
  start-Fits (a ∷ xs) = start-Fits xs

  -- With no rule for the whole call, the two ways to cover an access are one.
  covers-allows :
      (rs : List PolicyRule) (a : Access)
      → any (allows_all x call) rs ≡ false
      → any (λ r. covers r a) rs ≡ any (allows x call a) rs
  unfolding any
  covers-allows [] a h = refl
  covers-allows (r ∷ rs) a h = ground (arith, covers-allows rs a)

  allowed_cond :
      (rs : List PolicyRule)
      → (any (allows_all x call) rs
          || (not (is_empty call.access) && all (λ a. any (λ r. covers r a) rs) call.access))
        ≡ (any (allows_all x call) rs
            || (not (is_empty call.access) && all (λ a. any (allows x call a) rs) call.access))
  allowed_cond rs = elim (Bool-cases (any (allows_all x call) rs)) [
    | inl e ↦ rw e
    | inr e ↦
        ap
          (λ (p : Access → Bool).
            any (allows_all x call) rs || (not (is_empty call.access) && all p call.access))
          (fun_ext (λ a. covers-allows rs a e))
  ]

  decided_tests :
      (s : State) (t : Tally) (d a c v : Bool)
      → not (is_empty t.denied) ≡ d
      → not (is_empty t.asked) ≡ a
      → t.all_covered ≡ c
      → all (λ c. c) t.covered ≡ v
      → (decided s call t).0 ≡ (
          if d
          then deny
          else if a
          then ask
          else if c || (not (is_empty call.access) && v)
          then allow
          else if side_effecting call && not (runs_isolated s call)
          then ask
          else allow)
  unfolding decided
  decided_tests s t d a c v hd ha hc hv = rw (← hd, ← ha, ← hc, ← hv) (ground arith)

  decided_lem :
      (s : State) (rs : List PolicyRule)
      → (decided s call (ended rs (start call))).0 ≡ decision x call s rs
  unfolding is_empty decision
  decided_lem s rs =
      let t = ended rs (start call) in
      let covered : all (λ c. c) t.covered ≡ all (λ a. any (λ r. covers r a) rs) call.access =
        ap (all (λ c. c)) (ended-covered rs (start call) (start-Fits call.access))
        ∙ all-cover (λ a. any (λ r. covers r a) rs) call.access in
      decided_tests s t _ _ _ _ (ended-denied rs (start call)) (ended-asked rs (start call))
        (ended-all_covered rs (start call)) covered
      ∙ (rw (allowed_cond rs) refl)

-- Under the matchers compiled from its configuration, the kernel's loop over the rules decides
-- what the specification does: read-only mode and tool mismatches first, then deny, ask, allow.
pub policy_lem :
    (x : Externals) (s : State) (cfg : KernelConfig) (call : ToolCall)
    → s.config ≡ some cfg
    → (matchers x s).rules ≡ map (rule_matcher x) cfg.rules
    → (policy x s call).0 ≡ policy_spec x call s cfg
unfolding policy policy_spec
policy_lem x s cfg call c m = ground (arith, c, m, decided_lem x call s cfg.rules)
