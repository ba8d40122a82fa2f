-- ===== src/Kernel/Decide/Completions.antt =====
-- crates/kernel/src/decide.rs: the results of effects.
use peras.Prelude.{
  ℕ, Bool, true, false, not, ◌&&◌, ◌==◌, none, some, List, [], ◌∷◌, ◌++◌, if◌then◌else◌, ltb, Text,
  txt, glue, lookup, contains, is_empty, decimal,
}
use peras.Proto.Envelope.{EffectId, Trust, Origin, Seq}
use peras.Proto.Value.{null}
use peras.Proto.Verdict.{
  Verdict, Responder, HookPoint, FailureMode, on_failure, ToolCall, text_result,
}
use peras.Proto.Model.{ModelError, Spend, is_zero, model_error_text}
use peras.Proto.Effect.{Effect, RestorePlan}
use peras.Proto.Event.{Event, Parent, RestoreReport}
use peras.Proto.Input.{EffectResult, effect_kind}
use peras.Kernel.Data.{Externals, State, IrreversibleCall}
use peras.Kernel.Collections.{iter, index_get}
use peras.Kernel.Context.{plan_overflow_segment}
use peras.Kernel.Context.Plans.{plan_trims}
use peras.Kernel.Turns.{hooked, holds, is_abandoned, effect_key}
use peras.Kernel.Decide.Commands.{
  Program, Action, ◌>>=◌, ◌>>◌, done, state, cfg, emit, when, for_each, user_draft,
}
use peras.Kernel.Decide.Emitting.{
  internal, user, visible, settle, replaced, noted, tool_resulted, fail_turn,
}
use peras.Kernel.Decide.Sequences.{open_sequence, switch_to, next_fallback}
use peras.Kernel.Decide.Reviews.{awaits_result, executed, merged}
use peras.Kernel.Decide.Gates.{gated}
use peras.Kernel.Decide.Compaction.{pre_compact_gate, issue_compact, compacted}

-- A hook point's wire name.
unfoldable pub point_name : HookPoint → Text
point_name HookPoint.session_start = txt "session_start"
point_name HookPoint.user_submit = txt "user_submit"
point_name HookPoint.pre_sample = txt "pre_sample"
point_name HookPoint.pre_tool = txt "pre_tool"
point_name HookPoint.permission = txt "permission"
point_name HookPoint.post_tool = txt "post_tool"
point_name HookPoint.pre_compact = txt "pre_compact"
point_name HookPoint.stop = txt "stop"

-- The calls after the target on the current branch, that are not listed yet.
add_calls : State → Seq → List IrreversibleCall → List Text → List Text
add_calls s target [] known = known
add_calls s target (c ∷ cs) known = add_calls s target cs (
    if ltb target c.seq && not (is_abandoned s.abandoned c.seq) && not (contains known c.text)
    then known ++ c.text ∷ []
    else known)

-- Irreversible and network calls after the target are listed: they are never undone.
unfoldable pub complete_report : State → RestorePlan → RestoreReport → RestoreReport
unfolding add_calls
complete_report s plan report = elim (index_get plan.to s.index) [
  | none ↦ report
  | some target ↦ record report {
    irreversible = add_calls s target (iter s.irreversible) report.irreversible;
  }
]

overflow_failed : Externals → Bool → Text → Action
overflow_failed x overflow error =
    when overflow (fail_turn x (glue (txt "context overflow: compaction failed: " ∷ error ∷ [])))

failed_call : Externals → Text → ToolCall → Action
unfolding text_result
failed_call x error c = do
  s ← state
  when (awaits_result s c.id) (
      tool_resulted x c (text_result c.id (glue (txt "infrastructure error: " ∷ error ∷ [])) true)
        false)

failed_gate : Text → FailureMode → Verdict
failed_gate error FailureMode.allow = Verdict.allow
failed_gate error _ = Verdict.deny (glue (txt "gate failed: " ∷ error ∷ []))

unfoldable pub on_failed : Externals → Effect → Text → Action
unfolding overflow_failed failed_call failed_gate
on_failed x (Effect.execute batch) error = do
  for_each batch.calls (failed_call x error)
  fail_turn x (glue (txt "infrastructure error: " ∷ error ∷ []))
on_failed x (Effect.gate req) error =
    gated x req (failed_gate error (on_failure req.point)) Responder.kernel false
on_failed x (Effect.merge plan) error = merged x plan (record { applied = []; error = some error })
on_failed x (Effect.sample p) error = fail_turn x error
on_failed x (Effect.sample_ref r) error = fail_turn x error
on_failed x (Effect.compact job) error = overflow_failed x job.overflow error
on_failed x (Effect.compact_ref r) error = overflow_failed x r.overflow error
on_failed x (Effect.checkpoint scope) error = done
on_failed x (Effect.restore plan) error = done
on_failed x (Effect.finish outcome) error = done

-- After the trims: a summary of the earliest segment, behind the hook if there is one.
relieve : Externals → Bool → Action
relieve x trimmed = do
  s ← state
  elim (plan_overflow_segment s) [
    | some plan ↦
        if hooked s HookPoint.pre_compact then pre_compact_gate else issue_compact plan true
    | none ↦
        when (not trimmed)
          (fail_turn x (txt "context overflow: history cannot be shortened further"))
  ]

on_overflow : Externals → Action
unfolding relieve
on_overflow x = do
  internal (noted (txt "kernel.context_overflow") null)
  s ← state
  let trims = plan_trims x s true
  for_each trims replaced
  relieve x (not (is_empty trims))

on_unavailable : Externals → Text → Action
on_unavailable x message = do
  s ← state
  c ← cfg
  elim (next_fallback s c) [
    | some next ↦ switch_to x next (glue (txt "unavailable: " ∷ message ∷ []))
    | none ↦ fail_turn x (model_error_text (ModelError.unavailable message))
  ]

model_failed : Externals → ModelError → Action
unfolding on_overflow on_unavailable
model_failed x ModelError.overflow = on_overflow x
model_failed x (ModelError.unavailable message) = on_unavailable x message
model_failed x err = fail_turn x (model_error_text err)

unfoldable pub sample_failed : Externals → ModelError → Action
unfolding model_failed
sample_failed x err = do s ← state; when (holds s.turn) (model_failed x err)

after_restore : Externals → RestorePlan → RestoreReport → Action
after_restore x plan report = do
  s ← state
  emit (record (user_draft (Event.rewind_completed (complete_report s plan report) plan.to)) {
    parent = Parent.explicit plan.to;
  })
  open_sequence x false

-- What the hooks of a gate spent is charged before the verdict counts.
charge : HookPoint → Spend → Action
charge point spend =
    when (not (is_zero spend))
      (internal (Event.usage_charged (glue (txt "hooks:" ∷ point_name point ∷ [])) spend))

-- The index of a result's constructor, as `{:?}` prints its discriminant.
unfoldable pub discriminant : EffectResult → ℕ
discriminant (EffectResult.sampled message) = 0
discriminant (EffectResult.sample_failed err) = 1
discriminant (EffectResult.executed results) = 2
discriminant (EffectResult.gated verdict responder remember spend) = 3
discriminant (EffectResult.compacted text trust) = 4
discriminant (EffectResult.compact_failed err) = 5
discriminant (EffectResult.checkpointed info) = 6
discriminant (EffectResult.restored report) = 7
discriminant (EffectResult.merged report) = 8
discriminant (EffectResult.failed error) = 9

unmatched : Effect → EffectResult → Text
unfolding discriminant
unmatched e r = glue (
    txt "result Discriminant("
    ∷ decimal (discriminant r)
    ∷ txt ") does not match effect `"
    ∷ effect_kind e
    ∷ txt "`"
    ∷ [])

-- The results of a request, of a summary's request, and of the other effects.
sampled_result : Externals → EffectId → Effect → EffectResult → Action
unfolding unmatched
sampled_result x id e (EffectResult.sampled message) = do
  settle id
  visible x Origin.model Trust.internal (Event.assistant_replied message id)
sampled_result x id e (EffectResult.sample_failed err) = do settle id; sample_failed x err
sampled_result x id e r = Program.reject (unmatched e r)

compact_result : Externals → EffectId → Effect → Seq × Seq → Bool → EffectResult → Action
unfolding unmatched overflow_failed
compact_result x id e range overflow (EffectResult.compacted text trust) = do
  settle id
  compacted x range overflow text trust
compact_result x id e range overflow (EffectResult.compact_failed err) = do
  settle id
  overflow_failed x overflow (model_error_text err)
compact_result x id e range overflow r = Program.reject (unmatched e r)

-- `match (eff, r)`
unfoldable pub by_result : Externals → EffectId → Effect → EffectResult → Action
unfolding sampled_result compact_result charge after_restore unmatched
by_result x id e (EffectResult.failed error) = do settle id; on_failed x e error
by_result x id (Effect.sample p) r = sampled_result x id (Effect.sample p) r
by_result x id (Effect.sample_ref q) r = sampled_result x id (Effect.sample_ref q) r
by_result x id (Effect.compact job) r =
    compact_result x id (Effect.compact job) job.range job.overflow r
by_result x id (Effect.compact_ref q) r =
    compact_result x id (Effect.compact_ref q) q.range q.overflow r
by_result x id (Effect.execute batch) (EffectResult.executed results) = do
  settle id
  executed x batch results
by_result x id (Effect.gate req) (EffectResult.gated verdict responder remember spend) = do
  settle id
  charge req.point spend
  gated x req verdict responder remember
by_result x id (Effect.merge plan) (EffectResult.merged report) = do settle id; merged x plan report
by_result x id (Effect.checkpoint scope) (EffectResult.checkpointed info) = do
  settle id
  user (Event.checkpoint_taken info)
by_result x id (Effect.restore plan) (EffectResult.restored report) = do
  settle id
  after_restore x plan report
by_result x id e r = Program.reject (unmatched e r)

-- A result of an older epoch, or of an effect that is not in flight, is not taken.
unfoldable pub completed : Externals → EffectId → EffectResult → Program Bool
unfolding by_result
completed x id r = do
  s ← state
  if id.epoch == s.epoch
      then elim (lookup id s.issued) [
        | none ↦ Program.ret false
        | some i ↦ by_result x id i.effect r >> Program.ret true
      ]
      else Program.ret false
