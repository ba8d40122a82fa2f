-- ===== src/Kernel/Gate/Evaluate.antt =====
-- gate.rs: ring 3, rings 1 to 3 combined, the review of staged changes, and `tighten`.
pub mod Strictness
pub mod Budget
use peras.Prelude.{
  ℕ, ◌-◌, Bool, true, false, not, ◌&&◌, Option, none, some, List, [], ◌∷◌, ◌++◌, map, ltb, leb,
  if◌then◌else◌, Text, txt, contains, decimal, join, is_empty, trim_end,
}
use peras.Proto.Resource.{Access, write_access, fs_uri, EffectClass}
use peras.Proto.Envelope.{Timestamp}
use peras.Proto.Verdict.{ToolCall, Verdict, Question, Ring, ApprovalLevel, Responder, strictness}
use peras.Proto.Config.{Budgets, PolicyAction, allow, ask, deny, KernelConfig}
use peras.Kernel.Data.{Externals, State, Turn}
use peras.Kernel.Gate.Canonical.{question_id, changes_question_id, list_paths}
use peras.Kernel.Gate.Ring1.{invariants}
use peras.Kernel.Gate.Policy.{policy}

pub record KernelVerdict : Type 0 where
  pub verdict : Verdict
  pub ring : Ring
  pub responder : Responder

-- A limit of 0 is no limit.
abbrev pub limited : ℕ → Bool
limited n = ltb 0 n

turn_over : ℕ → Timestamp → Option Turn → Bool
turn_over max at none = false
turn_over max at (some t) = ltb max (at - t.started_at)

-- The tests of `budget` in order; the last is on the time since the turn started.
budget_of : Budgets → State → Timestamp → ℕ → ℕ → Option Text
unfolding turn_over
budget_of b s at ordinal repeat =
    if limited b.max_tokens && leb b.max_tokens s.tokens_used
    then some (txt "token budget exhausted (" ++ (decimal b.max_tokens ++ txt " tokens)"))
    else if limited b.max_cost_micros && leb b.max_cost_micros s.cost_used
    then some (txt "cost budget exhausted")
    else if limited b.max_calls_per_turn && ltb b.max_calls_per_turn ordinal
    then some
        (txt "tool call limit per turn (" ++ (decimal b.max_calls_per_turn ++ txt ") reached"))
    else if limited b.max_repeat_calls && ltb b.max_repeat_calls repeat
    then some (
        txt "identical call repeated more than "
        ++ (decimal b.max_repeat_calls ++ txt " times this turn"))
    else if limited b.max_turn_ms && turn_over b.max_turn_ms at s.turn
    then some (txt "turn time budget (" ++ (decimal b.max_turn_ms ++ txt " ms) exhausted"))
    else none

unfoldable pub budget : State → Timestamp → ℕ → ℕ → Option Text
unfolding budget_of
budget s at ordinal repeat = elim s.config [
  | none ↦ none
  | some cfg ↦ budget_of cfg.budgets s at ordinal repeat
]

-- `rules.first().cloned().unwrap_or_else(|| "default".into())`
unfoldable pub rule_name : List Text → Text
rule_name [] = txt "default"
rule_name (r ∷ rs) = r

abbrev pub kernel_verdict : Verdict → KernelVerdict
kernel_verdict v = record { verdict = v; ring = Ring.invariant; responder = Responder.kernel }

unfoldable pub ring1 : ToolCall → ℕ → List Text × Option Text → KernelVerdict
ring1 call rewrites (hits, remember) =
    if is_empty hits
    then kernel_verdict Verdict.allow
    else kernel_verdict (
        Verdict.ask (record {
          id = question_id call.id rewrites;
          prompt = txt "Allow `" ++ (call.name ++ (txt "`? Triggered: " ++ join (txt ", ") hits));
          level = ApprovalLevel.invariant;
          ring = Ring.invariant;
          rules = hits;
          remember_destination = remember;
        }))

-- `for r in rules { if !q.rules.contains(&r) { q.rules.push(r) } }`
unfoldable pub merge_rules : List Text → List Text → List Text
merge_rules known [] = known
merge_rules known (r ∷ rs) = merge_rules (if contains known r then known else known ++ r ∷ []) rs

abbrev policy_verdict : Verdict → List Text → KernelVerdict
policy_verdict v rules = record {
  verdict = v;
  ring = Ring.policy;
  responder = Responder.policy (rule_name rules);
}

abbrev pub policy_question : ToolCall → ℕ → List Text → Question
policy_question call rewrites rules = record {
  id = question_id call.id rewrites;
  prompt = txt "Allow `" ++ (call.name ++ (txt "`? Policy: " ++ join (txt ", ") rules));
  level = ApprovalLevel.policy;
  ring = Ring.policy;
  rules = rules;
  remember_destination = none;
}

abbrev pub denied_by : List Text → Text
denied_by rules = txt "denied by policy (" ++ (join (txt ", ") rules ++ txt ")")

asked_too : ToolCall → ℕ → List Text → KernelVerdict → Verdict → KernelVerdict
asked_too call rewrites rules cur (Verdict.ask q) = record cur {
  verdict = Verdict.ask (record q { rules = merge_rules q.rules rules });
}
asked_too call rewrites rules cur v =
    policy_verdict (Verdict.ask (policy_question call rewrites rules)) rules

allowed_too : List Text → KernelVerdict → Verdict → KernelVerdict
allowed_too rules cur Verdict.allow = policy_verdict cur.verdict rules
allowed_too rules cur v = cur

unfoldable pub ring2 : ToolCall → ℕ → PolicyAction × List Text → KernelVerdict → KernelVerdict
unfolding asked_too allowed_too
ring2 call rewrites (deny, rules) cur = policy_verdict (Verdict.deny (denied_by rules)) rules
ring2 call rewrites (ask, rules) cur = asked_too call rewrites rules cur cur.verdict
ring2 call rewrites (allow, rules) cur = allowed_too rules cur cur.verdict

abbrev pub is_deny : Verdict → Bool
is_deny (Verdict.deny _) = true
is_deny _ = false

unfoldable pub ring3 : Option Text → KernelVerdict → KernelVerdict
ring3 none cur = cur
ring3 (some why) cur =
    if is_deny cur.verdict
    then cur
    else record { verdict = Verdict.deny why; ring = Ring.budget; responder = Responder.budget }

unfoldable pub evaluate : Externals → State → Timestamp → ToolCall → ℕ → ℕ → ℕ → KernelVerdict
unfolding ring1 ring2 ring3
evaluate x s at call ordinal repeat rewrites =
    if ltb 3 rewrites
    then kernel_verdict (Verdict.deny (txt "rewrite depth exceeded (more than 3 rewrites)"))
    else ring3 (budget s at ordinal repeat)
        (ring2 call rewrites (policy x s call) (ring1 call rewrites (invariants x s call)))

-- The call that declares the staged changes as its writes.
unfoldable pub staged_writes : State → ToolCall → List Text → ToolCall
staged_writes s call staged =
    let root : Text = elim s.config [
      | none ↦ []
      | some cfg ↦ trim_end b'/' cfg.security.workspace_root
    ] in
    record {
      id = call.id;
      name = call.name;
      input = call.input;
      access = map (λ p. write_access (fs_uri (root ++ (txt "/" ++ p)))) staged;
      class = EffectClass.local_write;
      isolated = false;
    }

abbrev apply_prompt : ToolCall → List Text → Text → Text
apply_prompt call staged why =
    txt "Apply the changes `"
    ++ (call.name ++ (txt "` made in isolation? " ++ (why ++ (txt ": " ++ list_paths staged))))

reviewed : ToolCall → List Text → PolicyAction × List Text → KernelVerdict
reviewed call staged (allow, rules) = policy_verdict Verdict.allow rules
reviewed call staged (deny, rules) = policy_verdict (Verdict.deny (denied_by rules)) rules
reviewed call staged (ask, rules) =
    policy_verdict
      (Verdict.ask (record {
        id = changes_question_id call.id;
        prompt = apply_prompt call staged (txt "Policy " ++ join (txt ", ") rules);
        level = ApprovalLevel.policy;
        ring = Ring.policy;
        rules = rules;
        remember_destination = none;
      }))
      rules

unfoldable pub changes_verdict : Externals → State → ToolCall → List Text → KernelVerdict
unfolding staged_writes reviewed
changes_verdict x s call staged =
    let writes = staged_writes s call staged in
    let hits = (invariants x s writes).0 in
    if is_empty hits
    then reviewed call staged (policy x s writes)
    else kernel_verdict (
        Verdict.ask (record {
          id = changes_question_id call.id;
          prompt = apply_prompt call staged (txt "Triggered " ++ join (txt ", ") hits);
          level = ApprovalLevel.invariant;
          ring = Ring.invariant;
          rules = hits;
          remember_destination = none;
        }))

unfoldable pub tighten : Verdict → Verdict → Verdict
tighten earlier later = if leb (strictness earlier) (strictness later) then later else earlier
