-- ===== src/Kernel/Gate/Ring1.antt =====
-- gate.rs: the compiled matchers, the predicates on calls, and ring 1, the built-in invariants.
use peras.Prelude.{
  Bool, true, false, not, ◌&&◌, ◌||◌, Option, none, some, List, [], ◌∷◌, ◌++◌, map, if◌then◌else◌,
  Text, txt, text_eq, starts_with, trim_end, contains, any, find,
}
use peras.Proto.Resource.{
  fs, net, cmd, has_scheme, rest, Access, mode_eq, read, is_write, is_opaque, is_read_only,
}
use peras.Proto.Envelope.{Trust, weakest}
use peras.Proto.Verdict.{ToolCall}
use peras.Proto.Config.{KernelConfig, SecurityConfig, PolicyRule}
use peras.Proto.Model.{ToolSpec}
use peras.Kernel.Data.{Externals, Matcher, RuleMatcher, Matchers, State}

abbrev none_match : Matcher
none_match _ = false

-- `set(ps)`: the patterns that compile; a set that does not build is empty.
compiled_globs : Externals → List Text → List Matcher
compiled_globs x [] = []
compiled_globs x (p ∷ ps) =
    let more = compiled_globs x ps in elim (x.glob p) [ none ↦ more | some g ↦ g ∷ more ]

unfoldable pub glob_set : Externals → List Text → Matcher
unfolding compiled_globs
glob_set x ps = elim (x.build (compiled_globs x ps)) [ none ↦ none_match | some m ↦ m ]

abbrev pub and_then {ℓ κ} : {A : Type ℓ} {B : Type κ} → Option A → (A → Option B) → Option B
and_then none f = none
and_then (some a) f = f a

unfoldable pub rule_matcher : Externals → PolicyRule → RuleMatcher
rule_matcher x r = record { resource = and_then r.resource x.glob; tool = and_then r.tool x.glob }

unfoldable pub compile : Externals → KernelConfig → Matchers
unfolding glob_set rule_matcher
compile x cfg = record {
  private_reads = glob_set x cfg.security.private_globs;
  untrusted = glob_set x cfg.security.untrusted;
  trusted = glob_set x cfg.security.trusted_sources;
  egress = glob_set x cfg.security.egress_allow;
  persistence = glob_set x cfg.security.persistence;
  self_config = glob_set x cfg.security.self_config;
  rules = map (rule_matcher x) cfg.rules;
}

-- `Matchers::default()`: empty sets and no rules.
abbrev pub no_matchers : Matchers
no_matchers = record {
  private_reads = none_match;
  untrusted = none_match;
  trusted = none_match;
  egress = none_match;
  persistence = none_match;
  self_config = none_match;
  rules = [];
}

unfoldable pub compile_config : Externals → Option KernelConfig → Matchers
unfolding compile
compile_config x none = no_matchers
compile_config x (some cfg) = compile x cfg

-- `s.m()`: the cell's matchers, or those of the configuration.
unfoldable pub matchers : Externals → State → Matchers
unfolding compile_config
matchers x s = elim s.m [ some m ↦ m | none ↦ compile_config x s.config ]

unfoldable pub has_writes : ToolCall → Bool
unfolding any
has_writes c = any is_write c.access

unfoldable pub side_effecting : ToolCall → Bool
unfolding has_writes
side_effecting c = not (is_read_only c.class) || has_writes c

unfoldable pub in_workspace : Text → Text → Bool
in_workspace root path =
    let root' = trim_end b'/' root in text_eq path root' || starts_with path (root' ++ txt "/")

-- The label under which the content of one access is untrusted.
label_of : Matchers → SecurityConfig → Access → Option Text
label_of m sec a =
    if m.untrusted a.resource
    then some a.resource
    else if has_scheme fs a.resource
    then (if not (in_workspace sec.workspace_root (rest a.resource))
        then some a.resource
        else if not sec.workspace_trusted
        then some (txt "workspace")
        else none)
    else if has_scheme cmd a.resource && not sec.workspace_trusted
    then some (txt "workspace")
    else none

-- Does the access bring content into the result?
relevant : Matchers → ToolCall → Access → Bool
relevant m call a =
    (mode_eq a.mode read || (is_opaque call.class || has_scheme cmd a.resource))
    && not (m.trusted a.resource)

-- The loop of `access_trust`: the first labelled access ends it.
first_label : Matchers → SecurityConfig → ToolCall → List Access → Option Text
unfolding label_of relevant
first_label m sec call [] = none
first_label m sec call (a ∷ more) =
    let later = first_label m sec call more in
    if relevant m call a then elim (label_of m sec a) [ some l ↦ some l | none ↦ later ] else later

trust_of_label : Option Text → Trust
trust_of_label none = Trust.internal
trust_of_label (some l) = weakest Trust.internal (Trust.untrusted l)

unfoldable pub access_trust : Externals → State → ToolCall → Trust
unfolding first_label trust_of_label
access_trust x s call = elim s.config [
  | none ↦ Trust.internal
  | some cfg ↦ trust_of_label (first_label (matchers x s) cfg.security call call.access)
]

-- An access that reads private data.
abbrev pub private_read_by : Matchers → Access → Bool
private_read_by m a = mode_eq a.mode read && m.private_reads a.resource

unfoldable pub reads_private : Externals → State → ToolCall → Bool
unfolding any
reads_private x s call = any (private_read_by (matchers x s)) call.access

unfoldable pub names_tool : List ToolSpec → Text → Bool
unfolding any
names_tool tools name = any (λ t. text_eq t.name name) tools

mismatch : Bool → Bool → Option Text
mismatch true false = some (txt "tool_removed")
mismatch false true = some (txt "tool_not_loaded")
mismatch _ _ = none

unfoldable pub tool_mismatch : State → Text → Option Text
unfolding mismatch names_tool
tool_mismatch s name = elim s.config [
  | none ↦ none
  | some cfg ↦ elim s.head [
    | none ↦ none
    | some head ↦ mismatch (names_tool head.tools name) (names_tool cfg.tools name)
  ]
]

unfoldable pub runs_isolated : State → ToolCall → Bool
runs_isolated s call = elim s.config [
  | none ↦ false
  | some cfg ↦ call.isolated && cfg.security.isolation_available
]

unfoldable pub runs_in_sandbox : ToolCall → Bool
unfolding any
runs_in_sandbox call = any (λ a. has_scheme cmd a.resource) call.access

-- An exit to a destination that neither the configuration nor a human has allowed.
abbrev pub is_exit : Matchers → List Text → Access → Bool
is_exit m destinations a =
    has_scheme net a.resource
    && (not (m.egress a.resource) && not (contains destinations a.resource))

unfoldable pub net_exit : Externals → State → ToolCall → Option Access
unfolding find
net_exit x s call = find (is_exit (matchers x s) s.destinations) call.access

unfoldable pub is_subagent : KernelConfig → ToolCall → Bool
unfolding any
is_subagent cfg call = any (λ (t : ToolSpec). t.subagent && text_eq t.name call.name) cfg.tools

-- `Opaque`, and not a sub-agent, whose own calls are gated in its session.
unfoldable pub opaque_call : KernelConfig → ToolCall → Bool
opaque_call cfg call = is_opaque call.class && not (is_subagent cfg call)

unfoldable pub exfiltrates : Externals → State → KernelConfig → ToolCall → Bool
exfiltrates x s cfg call =
    s.taint.tainted
    && (s.taint.private_read || reads_private x s call)
    && ((elim (net_exit x s call) [ none ↦ false | some _ ↦ true ])
        || (opaque_call cfg call
            && not cfg.security.sandbox_available
            && not (runs_isolated s call)))

unfoldable pub persists : Externals → State → ToolCall → Bool
unfolding any
persists x s call =
    s.taint.tainted && any (λ a. is_write a && (matchers x s).persistence a.resource) call.access

unfoldable pub modifies_config : Externals → State → ToolCall → Bool
unfolding any
modifies_config x s call =
    any (λ a. is_write a && (matchers x s).self_config a.resource) call.access

unfoldable pub unknown_effect : State → KernelConfig → ToolCall → Bool
unknown_effect s cfg call = opaque_call cfg call && not (runs_isolated s call)

-- `if test { hits.push(name) }`
abbrev pub hit : Bool → Text → List Text
hit true name = name ∷ []
hit false name = []

abbrev remembered : Bool → Option Access → Option Text
remembered true (some a) = some a.resource
remembered _ _ = none

unfoldable pub invariants : Externals → State → ToolCall → List Text × Option Text
invariants x s call = elim s.config [
  | none ↦ ([], none)
  | some cfg ↦ (
    hit (exfiltrates x s cfg call) (txt "invariant:exfiltration")
        ++ (hit (persists x s call) (txt "invariant:persistence")
            ++ (hit (modifies_config x s call) (txt "invariant:self_modification")
                ++ hit (unknown_effect s cfg call) (txt "invariant:unknown_effect"))),
    remembered (exfiltrates x s cfg call) (net_exit x s call),
  )
]
