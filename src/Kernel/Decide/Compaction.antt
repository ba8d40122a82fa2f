-- ===== src/Kernel/Decide/Compaction.antt =====
-- crates/kernel/src/decide.rs: summaries of the context.
use peras.Prelude.{
  ℕ, ◌%◌, Bool, true, false, not, ◌&&◌, ◌||◌, none, some, List, [], ◌∷◌, ◌++◌, if◌then◌else◌, ltb,
  leb, Text, txt, glue, trim, length, is_empty,
}
use peras.Proto.Envelope.{Trust, Seq}
use peras.Proto.Verdict.{HookPoint, Ring, TurnOutcome}
use peras.Proto.Config.{KernelConfig}
use peras.Proto.Equality.{texts_eq, specs_eq}
use peras.Proto.Render.{Rendered}
use peras.Proto.Effect.{Effect, GateSubject}
use peras.Proto.Event.{Replacement, ReplacementKind}
use peras.Kernel.Data.{Externals, State, Turn, Entry, PreCompact}
use peras.Kernel.Render.Trimming.{summary}
use peras.Kernel.Context.{
  SummaryPlan, usage, hard_limit, plan_all, plan_overflow_segment, sum_tokens,
}
use peras.Kernel.Context.Plans.{profile, entries_in, sources_of, labels_of, push_new}
use peras.Kernel.Evolve.Project.{untrusted_labels}
use peras.Kernel.Turns.{hooked, holds}
use peras.Kernel.Decide.Commands.{Program, Action, ◌>>=◌, ◌>>◌, done, state, cfg, issue, when}
use peras.Kernel.Decide.Emitting.{replaced, ask_gate, end_turn, fail_turn}
use peras.Kernel.Decide.Sequences.{open_sequence}

abbrev pub pre_compact_gate : Action
pre_compact_gate = ask_gate HookPoint.pre_compact Ring.hook GateSubject.pre_compact none

abbrev hook_points : PreCompact → List Text
hook_points (PreCompact.ready points) = points
hook_points (PreCompact.done points) = points
hook_points _ = []

-- What the hook and the focus ask to preserve.
unfoldable pub to_preserve : State → List Text
to_preserve s = elim s.turn [ none ↦ [] | some t ↦ hook_points t.precompact ++ t.focus ]

bullets : List Text → Text
bullets [] = []
bullets (p ∷ ps) = glue ((10 ∷ []) ∷ txt "- " ∷ trim p ∷ bullets ps ∷ [])

unfoldable pub instruction_for : Text → List Text → Text
unfolding bullets
instruction_for instruction [] = instruction
instruction_for instruction (p ∷ ps) =
    glue (instruction ∷ (10 ∷ 10 ∷ []) ∷ txt "Points to preserve:" ∷ bullets (p ∷ ps) ∷ [])

-- The request replays the context, or its earliest segment on an overflow.
unfoldable pub compact_request : State → KernelConfig → ℕ → SummaryPlan → Bool → Effect
unfolding to_preserve instruction_for
compact_request s c seq_no plan overflow = Effect.compact_ref (record {
  seq_no = seq_no;
  entries = (if overflow then plan.entries else length s.context) % 4294967296;
  instruction = instruction_for c.compaction.instruction (to_preserve s);
  max_tokens = elim s.caps [ none ↦ c.caps.max_output | some caps ↦ caps.max_output ];
  range = plan.range;
  overflow = overflow;
})

unfoldable pub issue_compact : SummaryPlan → Bool → Action
unfolding compact_request
issue_compact plan overflow = do
  c ← cfg
  s ← state
  elim s.head [ none ↦ done | some h ↦ issue (compact_request s c h.seq_no plan overflow) ]

-- Whether the head is behind the configuration.
unfoldable pub is_stale : State → Bool
is_stale s = elim s.head [
  | none ↦ false
  | some h ↦ elim s.config [
    | none ↦ false
    | some c ↦ not (specs_eq h.tools c.tools) || not (texts_eq h.system c.system)
  ]
]

unfoldable pub compact_overflow : Action
unfolding issue_compact
compact_overflow = do
  s ← state
  elim (plan_overflow_segment s) [ none ↦ done | some plan ↦ issue_compact plan true ]

-- The summary takes the place of the entries, and carries their untrusted labels with its own.
unfoldable pub summary_of : Seq × Seq → List Entry → Trust → Rendered → Replacement
summary_of range entries trust rendered = record {
  kind = ReplacementKind.summary;
  range = range;
  sources = sources_of [] entries;
  untrusted_sources = push_new (labels_of [] entries) (untrusted_labels trust);
  content = rendered ∷ [];
}

replace_by_summary : Externals → Seq × Seq → Bool → List Entry → Trust → Rendered → Action
unfolding summary_of is_stale open_sequence compact_overflow
replace_by_summary x range overflow entries trust rendered = do
  replaced (summary_of range entries trust rendered)
  s ← state
  when (is_stale s) (open_sequence x false)
  after ← state
  when (overflow && ltb (hard_limit after) (usage x.spec_json after)) compact_overflow

unfoldable pub compacted : Externals → Seq × Seq → Bool → Text → Trust → Action
unfolding replace_by_summary
compacted x range overflow text trust = do
  s ← state
  let entries = entries_in s range
  let rendered = summary x (profile s) trust text
  when (holds s.turn && not (is_empty entries)) (
      if leb (sum_tokens entries) rendered.tokens
      then when overflow (fail_turn x (txt "context overflow: summary did not shorten history"))
      else replace_by_summary x range overflow entries trust rendered)

abbrev has_not_asked : PreCompact → Bool
has_not_asked PreCompact.unset = true
has_not_asked _ = false

manual_plan : State → Action
unfolding issue_compact
manual_plan s = elim (if holds s.head then plan_all s else none) [
  | some plan ↦ issue_compact plan false
  | none ↦ end_turn (TurnOutcome.done (txt "Nothing to compact."))
]

manual_turn : State → Turn → Action
unfolding manual_plan
manual_turn s t =
    if t.compacted
    then end_turn (TurnOutcome.done (txt "Conversation compacted."))
    else if t.relief
    then end_turn (TurnOutcome.failed (txt "compaction did not shorten the conversation"))
    else if has_not_asked t.precompact && hooked s HookPoint.pre_compact
    then pre_compact_gate
    else manual_plan s

-- A `Control::Compact` turn: the hook, one summary of the whole context, the end of the turn.
unfoldable pub manual_compact_step : Program Bool
unfolding manual_turn
manual_compact_step = do
  s ← state
  elim s.turn [ none ↦ Program.ret false | some t ↦ manual_turn s t >> Program.ret true ]
