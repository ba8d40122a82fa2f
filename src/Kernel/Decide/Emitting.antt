-- ===== src/Kernel/Decide/Emitting.antt =====
-- crates/kernel/src/decide.rs: the drafts that the handlers share; with `subagent_ended` and
-- `instructions_found` of spawn.rs.
use peras.Prelude.{
  Bool, true, false, not, ◌&&◌, Option, none, some, List, [], ◌∷◌, if◌then◌else◌, Text, txt,
  text_eq, glue, lookup, text_key, retain,
}
use peras.Proto.Envelope.{CallId, EffectId, Trust, Origin, Audience, weakest}
use peras.Proto.Value.{Value, string, object, field, end}
use peras.Proto.Verdict.{
  Ring, HookPoint, ApprovalLevel, Question, ToolCall, ToolResult, TurnOutcome, SubagentReport,
  FoundInstructions, cancelled,
}
use peras.Proto.Signal.{Signal}
use peras.Proto.Effect.{Effect, GateRequest, GateSubject}
use peras.Proto.Event.{Event, Draft, Parent, TurnCause, Replacement, internal_draft}
use peras.Kernel.Data.{Externals, State, Slot, QueueItem}
use peras.Kernel.Gate.Ring1.{access_trust}
use peras.Kernel.Render.{render}
use peras.Kernel.Context.Plans.{profile}
use peras.Kernel.Turns.{holds}
use peras.Kernel.Evolve.Plugin.{fnv}
use peras.Kernel.Decide.Commands.{
  Action, ◌>>=◌, ◌>>◌, done, state, emit, issue, when, for_each, user_draft,
}

abbrev pub internal : Event → Action
internal body = emit (internal_draft body)

abbrev pub user : Event → Action
user body = emit (user_draft body)

-- A model-visible event, rendered at write time.
abbrev pub visible_draft : Externals → State → Origin → Trust → Event → Draft
visible_draft x s origin trust body = record {
  parent = Parent.head;
  origin = origin;
  trust = trust;
  audience = Audience.both;
  body = body;
  rendered = render x (profile s) trust body;
}

unfoldable pub visible : Externals → Origin → Trust → Event → Action
visible x origin trust body = do s ← state; emit (visible_draft x s origin trust body)

abbrev pub settle : EffectId → Action
settle id = internal (Event.effect_settled id)

abbrev pub replaced : Replacement → Action
replaced rep = emit (record (internal_draft (Event.replaced rep)) { audience = Audience.model })

-- An event of `Event::Plugin` that an older kernel may skip.
abbrev pub noted : Text → Value → Event
noted kind v = Event.plugin kind true v

unfoldable pub gate_req : State → HookPoint → Ring → GateSubject → Option Question → GateRequest
gate_req s point ring subject question = record {
  point = point;
  ring = ring;
  subject = subject;
  question = question;
  level = elim question [ none ↦ ApprovalLevel.policy | some q ↦ q.level ];
  tainted = s.taint.tainted;
}

abbrev pub ask_gate : HookPoint → Ring → GateSubject → Option Question → Action
ask_gate point ring subject question = do
  s ← state
  issue (Effect.gate (gate_req s point ring subject question))

-- ---- spawn.rs ----
ended_outcome : Option SubagentReport → Bool → Option TurnOutcome
ended_outcome (some r) executed = some r.outcome
ended_outcome none false = some TurnOutcome.interrupted
ended_outcome none true = none

-- `SubagentFinished` for the call of a child that is running.
unfoldable pub subagent_ended : State → ToolCall → ToolResult → Bool → Option Event
unfolding ended_outcome
subagent_ended s call result executed = elim (lookup call.id s.children) [
  | none ↦ none
  | some child ↦
      if holds child.outcome then none else elim (ended_outcome result.subagent executed) [
        | none ↦ none
        | some outcome ↦ some (Event.subagent_finished call.id child.child outcome)
      ]
]

known_instructions : State → FoundInstructions → Bool
known_instructions s f = elim (lookup f.path s.instr) [
  | none ↦ false
  | some i ↦ text_eq i.hash (fnv f.text)
]

pending_already : State → FoundInstructions → Bool
pending_already s f = elim (lookup f.path s.instr_pending) [
  | none ↦ false
  | some t ↦ text_eq t f.text
]

-- New or changed instruction files become pending.
unfoldable pub instructions_found : List FoundInstructions → Action
unfolding known_instructions pending_already
instructions_found found = for_each found (λ f. do
  s ← state
  when (not (known_instructions s f) && not (pending_already s f)) (
      internal (
        noted (txt "kernel.instructions_pending")
          (object (field (txt "path") (string f.path) (field (txt "text") (string f.text) end))))))

-- ---- decide.rs ----
abbrev some_event : Option Event → Action
some_event none = done
some_event (some ev) = user ev

-- What follows the result of a call: the end of its child, and the instruction files it found.
unfoldable pub after_result : Option Event → List FoundInstructions → Action
unfolding instructions_found
after_result ended found = do some_event ended; instructions_found found

-- The result of a call is written; one that was executed is no more trusted than its accesses.
unfoldable pub tool_resulted : Externals → ToolCall → ToolResult → Bool → Action
unfolding subagent_ended after_result visible
tool_resulted x call result executed = do
  s ← state
  let written = record result { call_id = call.id; instructions = [] }
  let trust = if executed then weakest result.trust (access_trust x s call) else result.trust
  let ended = subagent_ended s call written executed
  visible x (Origin.tool call.name) trust (Event.tool_resulted call written)
  after_result ended result.instructions

unfoldable pub end_turn : TurnOutcome → Action
end_turn outcome = do user (Event.turn_ended outcome); issue (Effect.finish outcome)

-- A recorded call without a result.
abbrev pub is_open : Slot → Bool
is_open sl = sl.in_reply && not sl.result

unfoldable pub open_slots : State → List Slot
unfolding retain
open_slots s = elim s.turn [ none ↦ [] | some t ↦ retain is_open t.slots ]

-- Every recorded call without a result gets one.
unfoldable pub close_open : Externals → (CallId → ToolResult) → Action
unfolding open_slots tool_resulted
close_open x mk = do
  s ← state
  for_each (open_slots s) (λ sl. tool_resulted x sl.call (mk sl.call.id) false)

unfoldable pub fail_turn : Externals → Text → Action
unfolding close_open end_turn
fail_turn x error = do close_open x cancelled; end_turn (TurnOutcome.failed error)

unfoldable pub suspend : Text → Option Question → Action
unfolding end_turn
suspend reason question = do
  user (Event.suspended reason)
  end_turn (TurnOutcome.suspended question)

abbrev pub idle : State → Bool
idle s = not (holds s.turn) && not (holds s.restoring)

abbrev pub suspended : State → Bool
suspended s = elim s.turn [ none ↦ false | some t ↦ t.suspended ]

signal_origin : Signal → Origin
signal_origin (Signal.submit t attachments) = Origin.user
signal_origin (Signal.queue t) = Origin.user
signal_origin (Signal.steer t) = Origin.user
signal_origin (Signal.notify source key t steer) = Origin.session source
signal_origin (Signal.wake source reason) = Origin.session source
signal_origin (Signal.silent key t) = Origin.system

-- A signal that waits for the end of the turn.
unfoldable pub pending : Externals → Signal → Action
unfolding signal_origin
pending x sig =
    emit (record (user_draft (noted (txt "kernel.pending_signal") (x.signal_value sig))) {
      origin = signal_origin sig;
    })

unfoldable pub start_item : Externals → QueueItem → Action
unfolding visible
start_item x (QueueItem.user t attachments) =
    visible x Origin.user Trust.user (Event.user_message t attachments)
start_item x (QueueItem.wake source reason) =
    visible x (Origin.session source) Trust.guidance
      (Event.injected (glue (txt "wake:" ∷ source ∷ [])) reason)

unfoldable pub start_turn : Externals → TurnCause → QueueItem → Action
unfolding start_item
start_turn x cause item = do user (Event.turn_started cause); start_item x item
