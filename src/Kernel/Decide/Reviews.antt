-- ===== src/Kernel/Decide/Reviews.antt =====
-- crates/kernel/src/decide.rs: the results of executed calls, and the review of the changes that an
-- isolated call staged.
use peras.Prelude.{
  Bool, true, false, not, ◌&&◌, Option, none, some, List, [], ◌∷◌, ◌++◌, if◌then◌else◌, Text, txt,
  text_eq, glue, join, find, is_empty,
}
use peras.Proto.Envelope.{CallId}
use peras.Proto.Verdict.{
  Verdict, Responder, Ring, HookPoint, Question, ToolCall, ToolResult, ToolContent, text_result,
}
use peras.Proto.Config.{KernelConfig}
use peras.Proto.Effect.{Effect, Batch, GateSubject, MergePlan}
use peras.Proto.Event.{Event, GateRef}
use peras.Proto.Input.{MergeReport}
use peras.Kernel.Data.{Externals, State}
use peras.Kernel.Gate.Canonical.{list_paths}
use peras.Kernel.Gate.Evaluate.{changes_verdict}
use peras.Kernel.Turns.{hooked, holds, find_slot}
use peras.Kernel.Decide.Commands.{Action, ◌>>=◌, ◌>>◌, state, cfg, issue, when, for_each}
use peras.Kernel.Decide.Emitting.{internal, user, ask_gate, tool_resulted}
use peras.Kernel.Decide.Approvals.{is_invariant}

-- The turn has a slot for the call, without a result.
unfoldable pub awaits_result : State → CallId → Bool
awaits_result s id = elim s.turn [
  | none ↦ false
  | some t ↦ elim (find_slot id t.slots) [ none ↦ false | some sl ↦ not sl.result ]
]

-- Through the PostTool hook if there is one, else written.
unfoldable pub deliver : Externals → ToolCall → ToolResult → Action
deliver x call r = do
  s ← state
  let soft : Bool = elim s.turn [ none ↦ false | some t ↦ t.soft ]
  if hooked s HookPoint.post_tool && not soft
      then ask_gate HookPoint.post_tool Ring.hook (GateSubject.post_tool call r) none
      else tool_resulted x call r true

unfoldable pub merge : ToolCall → ToolResult → Bool → Option Text → Action
merge call result apply reason =
    issue (Effect.merge (record { call = call; result = result; apply = apply; reason = reason }))

unfoldable pub merge_by_verdict : ToolCall → ToolResult → Verdict → Action
unfolding merge
merge_by_verdict call result Verdict.allow = merge call result true none
merge_by_verdict call result (Verdict.annotate _) = merge call result true none
merge_by_verdict call result (Verdict.continue _) = merge call result true none
merge_by_verdict call result (Verdict.deny reason) = merge call result false (some reason)
merge_by_verdict call result Verdict.defer =
    merge call result false (some (txt "approval deferred; nobody answered"))
merge_by_verdict call result _ =
    merge call result false (some (txt "a change list can only be approved or denied"))

unfoldable pub record_verdict : GateRef → HookPoint → Ring → Verdict → Responder → Action
record_verdict subject point ring verdict responder =
    internal (Event.verdict_recorded subject point ring verdict responder)

-- The question about a change list goes to a human; unattended, an invariant-level one discards
-- the changes.
ask_about_changes : KernelConfig → ToolCall → ToolResult → Question → Action
unfolding record_verdict merge
ask_about_changes c call result q =
    let subject = GateRef.call call.id in
    if holds c.unattended && is_invariant q.level
    then (let why = glue (
          txt "approval required ("
          ∷ join (txt ", ") q.rules
          ∷ txt ") and nobody can answer"
          ∷ []) in
        do
          record_verdict subject HookPoint.post_tool Ring.invariant (Verdict.deny why)
              Responder.unattended
          merge call result false (some why))
    else (do
      user (Event.question_asked q subject)
      ask_gate HookPoint.permission Ring.human (GateSubject.changes call result) (some q))

-- `match kv.verdict`
changes_step : KernelConfig → ToolCall → ToolResult → Ring → Responder → Verdict → Action
unfolding ask_about_changes record_verdict merge_by_verdict
changes_step c call result ring responder (Verdict.ask q) = ask_about_changes c call result q
changes_step c call result ring responder verdict = do
  record_verdict (GateRef.call call.id) HookPoint.post_tool ring verdict responder
  merge_by_verdict call result verdict

unfoldable pub review_changes : Externals → ToolCall → ToolResult → Action
unfolding changes_step merge
review_changes x call result = do
  s ← state
  c ← cfg
  let soft : Bool = elim s.turn [ none ↦ true | some t ↦ t.soft ]
  let kv = changes_verdict x s call result.staged
  if soft
      then merge call result false (some (txt "interrupted before the changes were reviewed"))
      else changes_step c call result kv.ring kv.responder kv.verdict

-- The note that says what became of the changes.
unfoldable pub merge_note : MergePlan → MergeReport → Text
merge_note plan report =
    if plan.apply
    then elim report.error [
      | none ↦ glue (txt "[changes applied: " ∷ list_paths report.applied ∷ txt "]" ∷ [])
      | some e ↦ glue (
          txt "[changes NOT applied ("
          ∷ e
          ∷ txt "): "
          ∷ list_paths plan.result.staged
          ∷ txt "]"
          ∷ [])
    ]
    else (let reason : Text = elim plan.reason [ none ↦ txt "not approved" | some r ↦ r ] in
        glue (
          txt "[changes discarded ("
          ∷ reason
          ∷ txt "): "
          ∷ list_paths plan.result.staged
          ∷ txt "]"
          ∷ []))

unfoldable pub merged : Externals → MergePlan → MergeReport → Action
unfolding merge_note deliver
merged x plan report = do
  s ← state
  when (awaits_result s plan.call.id) (
      deliver x plan.call (record plan.result {
        staged = [];
        content = plan.result.content ++ ToolContent.text (merge_note plan report) ∷ [];
      }))

-- The result of one call of a batch; one that the tool did not give is an error.
result_for : ToolCall → List ToolResult → ToolResult
unfolding text_result
result_for call results = elim (find (λ (r : ToolResult). text_eq r.call_id call.id) results) [
  | none ↦ text_result call.id (txt "tool produced no result") true
  | some r ↦ r
]

unfoldable pub executed_call : Externals → List ToolResult → ToolCall → Action
unfolding result_for review_changes deliver
executed_call x results call = do
  s ← state
  let r = result_for call results
  when (awaits_result s call.id)
      (if is_empty r.staged then deliver x call r else review_changes x call r)

unfoldable pub executed : Externals → Batch → List ToolResult → Action
unfolding executed_call
executed x batch results = for_each batch.calls (executed_call x results)
