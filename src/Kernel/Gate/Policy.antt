-- ===== src/Kernel/Gate/Policy.antt =====
-- gate.rs, ring 2: the rules of the profile.
pub mod Spec
pub mod Rounds
pub mod Decision
use peras.Prelude.{
  Bool, true, false, not, ◌&&◌, ◌||◌, Option, none, some, List, [], ◌∷◌, ◌++◌, map, if◌then◌else◌,
  Text, txt, contains, any, all, is_empty,
}
use peras.Proto.Resource.{Access, AccessMode, mode_eq}
use peras.Proto.Verdict.{ToolCall}
use peras.Proto.Config.{PolicyRule, PolicyAction, allow, ask, deny, KernelConfig}
use peras.Kernel.Data.{Externals, Matcher, RuleMatcher, State}
use peras.Kernel.Gate.Ring1.{matchers, side_effecting, tool_mismatch, runs_isolated}

-- The variables of the loop over the rules.
pub record Tally : Type 0 where
  pub denied : List Text
  pub asked : List Text
  pub allowed : List Text
  pub covered : List Bool
  pub all_covered : Bool

abbrev pub is_some {ℓ} : {A : Type ℓ} → Option A → Bool
is_some none = false
is_some (some _) = true

abbrev pub is_allow : PolicyAction → Bool
is_allow allow = true
is_allow _ = false

-- `Some(true) == tool_m.map(|t| t.is_match(name))`
abbrev matches_name : Option Matcher → Text → Bool
matches_name none name = false
matches_name (some t) name = t name

-- The rule is passed over: its tool glob does not match, or its resource glob did not compile.
unfoldable pub passed_over : PolicyRule → RuleMatcher → ToolCall → Bool
passed_over rule m call =
    (is_some rule.tool && not (matches_name m.tool call.name))
    || (is_some rule.resource && not (is_some m.resource))

-- `if !v.contains(&rule.name) { v.push(rule.name.clone()) }`
unfoldable pub push_name : Text → List Text → List Text
push_name name v = if contains v name then v else v ++ name ∷ []

-- The closure `record`.
unfoldable pub tallied : Text → PolicyAction → Tally → Tally
tallied name deny t = record t { denied = push_name name t.denied }
tallied name ask t = record t { asked = push_name name t.asked }
tallied name allow t = record t { allowed = push_name name t.allowed }

abbrev pub mode_ok : Option AccessMode → Access → Bool
mode_ok none a = true
mode_ok (some md) a = mode_eq a.mode md

abbrev has_mode : Option AccessMode → Access → Bool
has_mode none a = false
has_mode (some md) a = mode_eq a.mode md

-- `covered[j] = true` for the accesses that pass the test.
unfoldable pub cover : (Access → Bool) → List Access → List Bool → List Bool
cover p [] bs = bs
cover p (a ∷ more) [] = []
cover p (a ∷ more) (b ∷ bs) = (b || p a) ∷ cover p more bs

-- A rule with no resource glob.
any_resource : PolicyRule → ToolCall → Tally → Tally
unfolding any cover tallied
any_resource rule call t = elim rule.mode [
  | none ↦
      if is_allow rule.action
      then record (tallied rule.name rule.action t) { all_covered = true }
      else tallied rule.name rule.action t
  | some md ↦
      if any (λ a. mode_eq a.mode md) call.access
      then (if is_allow rule.action
          then record (tallied rule.name rule.action t) {
            covered = cover (has_mode (some md)) call.access t.covered;
          }
          else tallied rule.name rule.action t)
      else t
]

-- A rule with a resource glob `g`.
unfoldable pub hits_glob : PolicyRule → Matcher → Access → Bool
hits_glob rule g a = mode_ok rule.mode a && g a.resource

one_resource : PolicyRule → Matcher → ToolCall → Tally → Tally
unfolding any cover tallied hits_glob
one_resource rule g call t =
    if any (hits_glob rule g) call.access
    then (if is_allow rule.action
        then record (tallied rule.name rule.action t) {
          covered = cover (hits_glob rule g) call.access t.covered;
        }
        else tallied rule.name rule.action t)
    else t

-- One round of the loop.
unfoldable pub apply_rule : PolicyRule → RuleMatcher → ToolCall → Tally → Tally
unfolding any_resource one_resource passed_over
apply_rule rule m call t =
    if passed_over rule m call
    then t
    else elim m.resource [ none ↦ any_resource rule call t | some g ↦ one_resource rule g call t ]

-- A rule with no matcher at its index is passed over.
unfoldable pub tally : List PolicyRule → List RuleMatcher → ToolCall → Tally → Tally
unfolding apply_rule
tally [] ms call t = t
tally (r ∷ rs) [] call t = t
tally (r ∷ rs) (m ∷ ms) call t = tally rs ms call (apply_rule r m call t)

abbrev pub start : ToolCall → Tally
start call = record {
  denied = [];
  asked = [];
  allowed = [];
  covered = map (λ _. false) call.access;
  all_covered = false;
}

-- What follows the loop.
decided : State → ToolCall → Tally → PolicyAction × List Text
unfolding is_empty all
decided s call t =
    if not (is_empty t.denied)
    then (deny, t.denied)
    else if not (is_empty t.asked)
    then (ask, t.asked)
    else if t.all_covered || (not (is_empty call.access) && all (λ c. c) t.covered)
    then (allow, t.allowed)
    else if side_effecting call && not (runs_isolated s call)
    then (ask, txt "default" ∷ [])
    else (allow, txt "default" ∷ [])

configured : Externals → State → KernelConfig → ToolCall → PolicyAction × List Text
unfolding decided tally
configured x s cfg call =
    if cfg.read_only_mode && side_effecting call
    then (deny, txt "read_only_mode" ∷ [])
    else elim (tool_mismatch s call.name) [
      | some why ↦ (deny, why ∷ [])
      | none ↦ decided s call (tally cfg.rules (matchers x s).rules call (start call))
    ]

unfoldable pub policy : Externals → State → ToolCall → PolicyAction × List Text
unfolding configured
policy x s call = elim s.config [
  | none ↦ (deny, txt "no config" ∷ [])
  | some cfg ↦ configured x s cfg call
]
