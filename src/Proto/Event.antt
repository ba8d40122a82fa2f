-- ===== src/Proto/Event.antt =====
-- crates/proto/src/event.rs and the envelope of envelope.rs: journal events.
use peras.Prelude.{ℕ, Bool, Option, none, List, Text}
use peras.Proto.Envelope.{
  EventId, SessionId, CallId, QuestionId, CheckpointId, ModelId, EffectId, Seq, Timestamp, Origin,
  Trust, Audience,
}
use peras.Proto.Value.{Value}
use peras.Proto.Verdict.{
  Ring, HookPoint, Question, Verdict, Responder, Answer, ToolCall, ToolResult, TurnOutcome,
}
use peras.Proto.Model.{SeqHead, AssistantMessage, Spend}
use peras.Proto.Config.{KernelConfig}
use peras.Proto.Render.{Rendered}
use peras.Proto.Signal.{Attachment}
use peras.Proto.Effect.{Effect, RestorePlan}

pub data TurnCause : Type 0 where
  user queued wake continuation compact : TurnCause

pub data ReplacementKind : Type 0 where
  trim image_offload summary rerender : ReplacementKind

pub record Replacement : Type 0 where
  pub kind : ReplacementKind
  pub range : Seq × Seq
  pub sources : List EventId
  pub untrusted_sources : List Text
  pub content : List Rendered

pub data GateRef : Type 0 where
  call : CallId → GateRef
  turn : ℕ → GateRef
  session : GateRef

pub record CheckpointInfo : Type 0 where
  pub id : CheckpointId
  pub agent_changes : List Text
  pub external_changes : List Text

pub record RestoreReport : Type 0 where
  pub restored : List Text
  pub conflicts : List Text
  pub unrestored_ignored : List Text
  pub irreversible : List Text
  pub git_refs : List Text

pub data Event : Type 0 where
  session_started : SessionId → Text → KernelConfig → Option SessionId → Event
  sequence_opened : SeqHead → Event
  config_changed : Text → KernelConfig → Event
  model_switched : ModelId → ModelId → Text → Event
  turn_started : TurnCause → Event
  user_message : Text → List Attachment → Event
  injected : Text → Text → Event
  assistant_replied : AssistantMessage → EffectId → Event
  tool_resulted : ToolCall → ToolResult → Event
  turn_ended : TurnOutcome → Event
  effect_issued : EffectId → Effect → Event
  effect_settled : EffectId → Event
  verdict_recorded : GateRef → HookPoint → Ring → Verdict → Responder → Event
  question_asked : Question → GateRef → Event
  question_answered : QuestionId → Answer → Responder → Event
  interrupted : Bool → ℕ → Event
  paused resumed taint_cleared : Event
  suspended : Text → Event
  replaced : Replacement → Event
  state_snapshot : Text → Text → Event
  snapshot_cleared : Text → Event
  instructions_injected : Text → Text → Event
  memory_loaded : Text → Event
  destination_allowed : Text → Event
  checkpoint_taken : CheckpointInfo → Event
  rewind_planned : RestorePlan → Event
  rewind_completed : RestoreReport → EventId → Event
  subagent_started : CallId → SessionId → Event
  subagent_finished : CallId → SessionId → TurnOutcome → Event
  usage_charged : Text → Spend → Event
  plugin : Text → Bool → Value → Event
  tombstone : EventId → Event

-- `Envelope<Event>`
pub record Envelope : Type 0 where
  pub id : EventId
  pub parent : Option EventId
  pub seq : Seq
  pub at : Timestamp
  pub origin : Origin
  pub trust : Trust
  pub audience : Audience
  pub schema : ℕ
  pub body : Event
  pub rendered : Option Rendered

-- `Parent`, `Draft<Event>` and `Draft::internal` of envelope.rs.
pub data Parent : Type 0 where
  head : Parent
  explicit : EventId → Parent

pub record Draft : Type 0 where
  pub parent : Parent
  pub origin : Origin
  pub trust : Trust
  pub audience : Audience
  pub body : Event
  pub rendered : Option Rendered

abbrev pub internal_draft : Event → Draft
internal_draft body = record {
  parent = Parent.head;
  origin = Origin.kernel;
  trust = Trust.internal;
  audience = Audience.nobody;
  body = body;
  rendered = none;
}

-- `EVENT_SCHEMA`
abbrev pub event_schema : ℕ
event_schema = 2
