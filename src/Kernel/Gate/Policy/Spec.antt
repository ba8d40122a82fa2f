-- ===== src/Kernel/Gate/Policy/Spec.antt =====
-- What `policy` decides, stated over the rules at once instead of by a loop.
use peras.Prelude.{
  Bool, true, false, not, ◌&&◌, ◌||◌, Option, none, some, List, if◌then◌else◌, Text, any, all,
  is_empty,
}
use peras.Proto.Resource.{Access, AccessMode}
use peras.Proto.Verdict.{ToolCall}
use peras.Proto.Config.{PolicyRule, PolicyAction, allow, ask, deny, KernelConfig}
use peras.Kernel.Data.{Externals, Matcher, State}
use peras.Kernel.Gate.Ring1.{and_then, side_effecting, tool_mismatch, runs_isolated}
use peras.Kernel.Gate.Policy.{is_some, mode_ok}

-- A glob of a rule and its compiled form: no glob matches any name, a glob that does not compile
-- matches none.
abbrev pub names_by : Option Text → Option Matcher → Text → Bool
names_by none o name = true
names_by (some p) none name = false
names_by (some p) (some g) name = g name

abbrev pub touches_by : Option Text → Option Matcher → Option AccessMode → Access → Bool
touches_by none o mode a = mode_ok mode a
touches_by (some p) none mode a = false
touches_by (some p) (some g) mode a = mode_ok mode a && g a.resource

-- A rule with neither a resource glob nor a mode.
abbrev pub is_general : Option Text → Option AccessMode → Bool
is_general none none = true
is_general _ _ = false

abbrev pub is_action : PolicyAction → PolicyAction → Bool
is_action allow allow = true
is_action ask ask = true
is_action deny deny = true
is_action _ _ = false

module _ (x : Externals) (call : ToolCall) where
  abbrev pub names : PolicyRule → Bool
  names r = names_by r.tool (and_then r.tool x.glob) call.name

  abbrev pub touches : PolicyRule → Access → Bool
  touches r = touches_by r.resource (and_then r.resource x.glob) r.mode

  -- The rule says something of the call.
  abbrev pub applies : PolicyRule → Bool
  applies r = names r && (is_general r.resource r.mode || any (touches r) call.access)

  abbrev pub allows_all : PolicyRule → Bool
  allows_all r = is_action r.action allow && (names r && is_general r.resource r.mode)

  abbrev pub allows : Access → PolicyRule → Bool
  allows a r = is_action r.action allow && (names r && touches r a)

  -- Deny wins over ask, and ask over allow. Allow needs a rule for the whole call or, for each
  -- access, a rule that covers it; else a side effect is asked about.
  unfoldable pub decision : State → List PolicyRule → PolicyAction
  decision s rules =
      if any (λ r. is_action r.action deny && applies r) rules
      then deny
      else if any (λ r. is_action r.action ask && applies r) rules
      then ask
      else if any allows_all rules
          || (not (is_empty call.access) && all (λ a. any (allows a) rules) call.access)
      then allow
      else if side_effecting call && not (runs_isolated s call)
      then ask
      else allow

  unfoldable pub policy_spec : State → KernelConfig → PolicyAction
  unfolding decision
  policy_spec s cfg =
      if cfg.read_only_mode && side_effecting call
      then deny
      else if is_some (tool_mismatch s call.name)
      then deny
      else decision s cfg.rules
