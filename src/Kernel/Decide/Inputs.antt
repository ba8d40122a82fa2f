-- ===== src/Kernel/Decide/Inputs.antt =====
-- crates/kernel/src/decide.rs: signals, controls, answers and streamed calls.
use peras.Prelude.{
  ℕ, ◌⊎◌, inl, inr, ◌+◌, Bool, true, false, not, ◌&&◌, ◌||◌, ◌==◌, Option, none, some, List, [],
  ◌∷◌, if◌then◌else◌, leb, Text, txt, text_eq, trim, lookup, text_key, reverse, is_empty, add32,
}
use peras.Proto.Envelope.{
  EventId, CallId, EffectId, QuestionId, CheckpointId, ModelId, Seq, Timestamp, effect_id_eq,
}
use peras.Proto.Value.{string}
use peras.Proto.Verdict.{
  Verdict, Responder, Answer, Ring, HookPoint, ToolCall, ToolResult, TurnOutcome, cancelled, denied,
}
use peras.Proto.Model.{ModelCaps}
use peras.Proto.Config.{KernelConfig}
use peras.Proto.Signal.{Signal, Control}
use peras.Proto.Effect.{Effect, GateSubject, RestorePlan}
use peras.Proto.Event.{Event, GateRef, TurnCause}
use peras.Kernel.Data.{Externals, State, Turn, QueueItem, PendingQuestion}
use peras.Kernel.Collections.{iter, index_get}
use peras.Kernel.Gate.Canonical.{call_key}
use peras.Kernel.Gate.Ring1.{side_effecting}
use peras.Kernel.Gate.Evaluate.{evaluate, KernelVerdict}
use peras.Kernel.Context.Plans.{well_paired}
use peras.Kernel.Turns.{
  hooked, holds, is_abandoned, max_continuations, caps_for, find_slot, effect_key,
}
use peras.Kernel.Evolve.{default_caps}
use peras.Kernel.Evolve.Project.{project}
use peras.Kernel.Decide.Commands.{
  Program, Action, ◌>>=◌, ◌>>◌, done, state, clock, cfg, issue, resume, when,
}
use peras.Kernel.Decide.Emitting.{
  internal, user, settle, noted, close_open, end_turn, idle, suspended, pending, start_turn,
}
use peras.Kernel.Decide.Sequences.{switch_to, apply_config}
use peras.Kernel.Decide.Approvals.{is_invariant, allow_destination}
use peras.Kernel.Decide.Reviews.{merge_by_verdict, record_verdict}
use peras.Kernel.Decide.Gates.{after_turn_verdict, is_plain_allow}

-- ---- signals ----
superseded : CallId → ToolResult
superseded id = denied id (txt "not approved: a new user message superseded it")

wake_up : Externals → State → Text → Text → Action
wake_up x s source reason =
    if leb (max_continuations s) s.continuations
    then Program.reject (txt "continuation budget exhausted")
    else start_turn x TurnCause.wake (QueueItem.wake source reason)

-- A signal to an idle session.
idle_signal : Externals → State → Signal → Action
unfolding wake_up
idle_signal x s (Signal.submit t attachments) =
    start_turn x TurnCause.user (QueueItem.user t attachments)
idle_signal x s (Signal.queue t) = start_turn x TurnCause.user (QueueItem.user t [])
idle_signal x s (Signal.steer t) = start_turn x TurnCause.user (QueueItem.user t [])
idle_signal x s (Signal.wake source reason) = wake_up x s source reason
idle_signal x s sig = pending x sig

-- A submission to a suspended turn takes its place; any other signal to a busy session waits.
busy_signal : Externals → State → Signal → Action
unfolding superseded
busy_signal x s (Signal.submit t attachments) =
    if suspended s
    then (do close_open x superseded; start_turn x TurnCause.user (QueueItem.user t attachments))
    else pending x (Signal.submit t attachments)
busy_signal x s sig = pending x sig

unfoldable pub on_signal : Externals → Signal → Action
unfolding idle_signal busy_signal
on_signal x sig = do s ← state; if idle s then idle_signal x s sig else busy_signal x s sig

-- ---- answers ----
unfoldable pub responder_of : Text → Responder
responder_of who = if text_eq who (txt "code") then Responder.code else Responder.human who

abbrev pub is_code : Responder → Bool
is_code Responder.code = true
is_code _ = false

unfoldable pub verdict_of : Answer → Verdict
verdict_of (Answer.allow remember) = Verdict.allow
verdict_of (Answer.allow_with p) = Verdict.rewrite p
verdict_of (Answer.deny none) = Verdict.deny (txt "denied by the user")
verdict_of (Answer.deny (some reason)) = Verdict.deny reason

abbrev changes_of : Effect → Option (ToolCall × ToolResult)
changes_of (Effect.gate req) = elim req.subject [
  | GateSubject.changes call result ↦ some (call, result)
  | _ ↦ none
]
changes_of _ = none

-- The effect in flight that asks the question, and the change list under review.
gate_in_flight : State → PendingQuestion → Option (EffectId × Effect)
gate_in_flight s pq = elim pq.gate [
  | none ↦ none
  | some g ↦ elim (lookup g s.issued) [ none ↦ none | some i ↦ some (g, i.effect) ]
]

settle_gate : Option (EffectId × Effect) → Action
settle_gate none = done
settle_gate (some (g, e)) = settle g

under_review : Option (EffectId × Effect) → Option (ToolCall × ToolResult)
under_review none = none
under_review (some (g, e)) = changes_of e

-- "Allow this destination for the session".
remember_answer : Answer → Option Text → Action
remember_answer (Answer.allow true) (some d) = allow_destination d
remember_answer answer destination = done

after_answer : Externals → PendingQuestion → Verdict → GateRef → Action
after_answer x pq verdict (GateRef.call id) = done
after_answer x pq verdict subject = after_turn_verdict x pq.point Ring.human verdict

by_answer : Externals → PendingQuestion → Verdict → Option (ToolCall × ToolResult) → Action
unfolding after_answer
by_answer x pq verdict (some (call, result)) = merge_by_verdict call result verdict
by_answer x pq verdict none = after_answer x pq verdict pq.subject

take_answer : Externals → PendingQuestion → QuestionId → Answer → Responder → Action
unfolding gate_in_flight settle_gate under_review remember_answer by_answer
take_answer x pq question answer responder = do
  before ← state
  when (suspended before) (user (Event.turn_started TurnCause.continuation))
  user (Event.question_answered question answer responder)
  s ← state
  let gate = gate_in_flight s pq
  settle_gate gate
  remember_answer answer pq.question.remember_destination
  record_verdict pq.subject pq.point Ring.human (verdict_of answer) responder
  by_answer x pq (verdict_of answer) (under_review gate)

-- Code does not answer an invariant-level question in unattended mode.
unfoldable pub on_answer : Externals → QuestionId → Answer → Text → Action
unfolding take_answer responder_of
on_answer x question answer who = do
  s ← state
  c ← cfg
  elim (lookup question s.questions) [
    | none ↦ Program.reject (txt "no such pending question")
    | some pq ↦
        if is_invariant pq.question.level && holds c.unattended && is_code (responder_of who)
        then Program.reject
            (txt "invariant-level approvals cannot be answered by code in unattended mode")
        else take_answer x pq question answer (responder_of who)
  ]

-- ---- controls ----
soft_interrupt : Action
soft_interrupt = do
  s ← state
  when (elim s.turn [ none ↦ false | some t ↦ not t.suspended && not t.soft ])
      (user (Event.interrupted false s.epoch))

-- Every open call is cancelled and the turn ends; without a turn, what is in flight is abandoned.
interrupt_turn : Externals → ℕ → Option Turn → Action
interrupt_turn x epoch none = do
  s ← state
  when (not (is_empty s.issued)) (user (Event.interrupted true epoch))
interrupt_turn x epoch (some t) = do
  user (Event.interrupted true epoch)
  close_open x cancelled
  end_turn TurnOutcome.interrupted

hard_interrupt : Externals → Action
unfolding interrupt_turn add32
hard_interrupt x = do
  s ← state
  when (not (holds s.restoring)) (interrupt_turn x (add32 s.epoch 1) s.turn)

resume_control : Action
resume_control = do
  s ← state
  if s.paused then resume else when (suspended s) (user (Event.turn_started TurnCause.continuation))

-- The latest checkpoint at or before the target on the current branch.
checkpoint_before : State → Seq → List (Seq × CheckpointId) → Option CheckpointId
checkpoint_before s seq [] = none
checkpoint_before s seq ((q, id) ∷ cs) =
    let earlier = checkpoint_before s seq cs in
    if leb q seq && not (is_abandoned s.abandoned q) then some id else earlier

-- Why a rewind is refused, or the target's number.
unfoldable pub rewind_target : Externals → State → EventId → Text ⊎ Seq
rewind_target x s to =
    if holds s.turn || holds s.restoring
    then inl (txt "rewind requires an idle session")
    else elim (index_get to s.index) [
      | none ↦ inl (txt "unknown rewind target")
      | some seq ↦
          if is_abandoned s.abandoned seq
          then inl (txt "rewind target is not on the current branch")
          else if well_paired (project x s (some seq))
          then inr seq
          else inl (txt "rewind target is inside a tool step; pick a turn boundary")
    ]

unfoldable pub rewind : Externals → EventId → Action
unfolding rewind_target checkpoint_before
rewind x to = do
  s ← state
  elim (rewind_target x s to) [
    | inl why ↦ Program.reject why
    | inr seq ↦
        let plan : RestorePlan = record {
          to = to;
          checkpoint = checkpoint_before s seq (reverse (iter s.checkpoints));
        } in
        (do user (Event.rewind_planned plan); issue (Effect.restore plan))
  ]

switch_model : Externals → ModelId → Action
switch_model x model = do
  s ← state
  let cur : ModelCaps = elim s.caps [ none ↦ default_caps | some c ↦ c ]
  let caps : ModelCaps = elim (caps_for s model) [
    | some c ↦ c
    | none ↦ record cur { model = model }
  ]
  when (not (text_eq cur.model model)) (switch_to x caps (txt "requested"))

note_focus : Option Text → Action
note_focus none = done
note_focus (some f) =
    when (not (is_empty (trim f))) (internal (noted (txt "kernel.compact_focus") (string f)))

compact_control : Option Text → Action
unfolding note_focus
compact_control focus = do
  s ← state
  if idle s
      then (do user (Event.turn_started TurnCause.compact); note_focus focus)
      else Program.reject (txt "busy: compact between turns")

reconfigure : Externals → KernelConfig → Action
reconfigure x new = do
  s ← state
  if idle s
      then apply_config x new
      else user (noted (txt "kernel.pending_config") (x.config_value new))

unfoldable pub on_control : Externals → Control → Action
unfolding soft_interrupt hard_interrupt resume_control rewind switch_model compact_control
    reconfigure
on_control x Control.soft_interrupt = soft_interrupt
on_control x Control.hard_interrupt = hard_interrupt x
on_control x Control.pause = do s ← state; when (not s.paused) (user Event.paused)
on_control x Control.resume = resume_control
on_control x (Control.answer question answer who) = on_answer x question answer who
on_control x (Control.rewind to) = rewind x to
on_control x (Control.switch_model model) = switch_model x model
on_control x Control.clear_taint = user Event.taint_cleared
on_control x (Control.compact focus) = compact_control focus
on_control x (Control.reconfigure new) = reconfigure x new

-- ---- streaming ----
-- Whether a streamed call may run before the reply is complete.
unfoldable pub may_stream : State → Turn → EffectId → ToolCall → Bool
may_stream s t id call =
    elim t.sample [ none ↦ false | some sample ↦ effect_id_eq sample id ]
    && id.epoch == s.epoch
    && not (t.soft || t.suspended)
    && not (holds (find_slot call.id t.slots))
    && not (side_effecting call)
    && not (hooked s HookPoint.pre_tool)

stream_verdict : Externals → State → Timestamp → Turn → ToolCall → KernelVerdict
stream_verdict x s at t call =
    let seen : ℕ = elim (lookup (call_key x call) t.repeats) [ none ↦ 0 | some n ↦ n ] in
    evaluate x s at call (t.calls + 1) (seen + 1) 0

stream_call : ToolCall → KernelVerdict → Action
stream_call call kv = do
  record_verdict (GateRef.call call.id) HookPoint.pre_tool kv.ring Verdict.allow kv.responder
  issue (Effect.execute (record { calls = call ∷ []; grants = (call.id, call.access) ∷ [] }))

-- A pure call that the kernel allows runs while the model is still sampling.
unfoldable pub streamed : Externals → EffectId → ToolCall → Program Bool
unfolding may_stream stream_verdict stream_call
streamed x id call = do
  s ← state
  at ← clock
  elim s.turn [
    | none ↦ Program.ret false
    | some t ↦
        let kv = stream_verdict x s at t call in
        if may_stream s t id call && is_plain_allow kv.verdict
        then stream_call call kv >> Program.ret true
        else Program.ret false
  ]
