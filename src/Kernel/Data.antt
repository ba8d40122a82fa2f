-- ===== src/Kernel/Data.antt =====
-- The records of crates/kernel/src/state.rs and context.rs, the matchers of gate.rs, and what the
-- kernel takes from third-party crates.
use peras.Prelude.{ℕ, Bool, Option, List, Text, Map}
use peras.Proto.Envelope.{
  EventId, SessionId, CallId, QuestionId, CheckpointId, EffectId, Seq, Timestamp, Origin, Trust,
}
use peras.Proto.Value.{Value}
use peras.Proto.Verdict.{Question, HookPoint, ToolCall, ToolResult, TurnOutcome}
use peras.Proto.Config.{KernelConfig}
use peras.Proto.Model.{ModelCaps, SeqHead, ToolSpec}
use peras.Proto.Render.{Rendered}
use peras.Proto.Signal.{Attachment, Signal}
use peras.Proto.Effect.{Effect}
use peras.Proto.Event.{Event, TurnCause, Replacement, GateRef}
use peras.Kernel.Collections.{Chunked, SeqIndex}

abbrev pub Matcher : Type 0
Matcher = Text → Bool

-- ---- gate.rs ----
pub record RuleMatcher : Type 0 where
  pub resource : Option Matcher
  pub tool : Option Matcher

pub record Matchers : Type 0 where
  pub private_reads : Matcher
  pub untrusted : Matcher
  pub trusted : Matcher
  pub egress : Matcher
  pub persistence : Matcher
  pub self_config : Matcher
  pub rules : List RuleMatcher

-- ---- context.rs ----
pub data EntryKind : Type 0 where
  user assistant tool_result summary other : EntryKind
  snapshot : Text → EntryKind

-- `globset` (`glob`: compile one pattern, or fail; `build`: a set of compiled patterns, or fail)
-- and `serde_json` (`to_json`: `to_string`; the `_of`: `from_value` at a
-- type of the program; `_value`: `to_value`; `spec_json`: `to_string`).
pub record Externals : Type 0 where
  pub glob : Text → Option Matcher
  pub build : List Matcher → Option Matcher
  pub to_json : Value → Text
  pub signal_of : Value → Option Signal
  pub config_of : Value → Option KernelConfig
  pub kind_of : Value → Option EntryKind
  pub texts_of : Value → Option (List Text)
  pub signal_value : Signal → Value
  pub config_value : KernelConfig → Value
  pub kind_value : EntryKind → Value
  pub spec_json : ToolSpec → Text

pub record Entry : Type 0 where
  pub seq : Seq
  pub id : EventId
  pub kind : EntryKind
  pub rendered : Rendered
  pub untrusted : List Text
  pub source : Option (Event × Trust)
  pub trimmed : Bool
  pub erased : Bool
  pub at : Timestamp

pub data Op : Type 0 where
  append : Entry → Op
  replace : Seq → EventId → Timestamp → Replacement → Op

-- ---- state.rs ----
pub data Phase : Type 0 where
  idle sampling compacting gated acting suspended restoring : Phase

pub record Taint : Type 0 where
  pub tainted : Bool
  pub sources : List EventId
  pub labels : List Text
  pub private_read : Bool

pub record Mail : Type 0 where
  pub source : Text
  pub key : Option Text
  pub text : Text
  pub trust : Trust
  pub origin : Origin
  pub steer : Bool

pub data QueueItem : Type 0 where
  user : Text → List Attachment → QueueItem
  wake : Text → Text → QueueItem

pub data CallGate : Type 0 where
  unchecked permitted deferred : CallGate
  need_hook : Option Question → CallGate
  await_hook : EffectId → Option Question → CallGate
  need_human : Question → CallGate
  await_human : QuestionId → Option EffectId → CallGate
  closed : ToolResult → CallGate

pub data Exec : Type 0 where
  idle done : Exec
  running : EffectId → Exec

pub record Slot : Type 0 where
  pub call : ToolCall
  pub gate : CallGate
  pub exec : Exec
  pub rewrites : ℕ
  pub in_reply : Bool
  pub result : Bool
  pub post : Option EffectId
  pub ordinal : ℕ
  pub repeat : ℕ
  pub deferred : Option Entry

pub data TGate : Type 0 where
  unset passed : TGate
  waiting : EffectId → TGate

pub data PreCkpt : Type 0 where
  unset done : PreCkpt
  pending : EffectId → PreCkpt

pub data PreCompact : Type 0 where
  unset : PreCompact
  waiting : EffectId → PreCompact
  ready done : List Text → PreCompact

pub record Reply : Type 0 where
  pub has_calls : Bool
  pub interrupted : Bool
  pub text : Text

-- `compact` holds the id of `CompactInfo`, its one field.
pub record Turn : Type 0 where
  pub no : ℕ
  pub start_seq : Seq
  pub cause : TurnCause
  pub started_at : Timestamp
  pub sample : Option EffectId
  pub compact : Option EffectId
  pub reply : Option Reply
  pub slots : List Slot
  pub soft : Bool
  pub suspended : Bool
  pub submit : TGate
  pub presample : TGate
  pub stop : TGate
  pub precompact : PreCompact
  pub overflow : Bool
  pub pre_ckpt : PreCkpt
  pub sp_ckpt : Bool
  pub relief : Bool
  pub executed_step : Bool
  pub calls : ℕ
  pub repeats : Map Text ℕ
  pub focus : List Text
  pub compacted : Bool

pub record PendingQuestion : Type 0 where
  pub question : Question
  pub subject : GateRef
  pub point : HookPoint
  pub gate : Option EffectId

pub record IrreversibleCall : Type 0 where
  pub seq : Seq
  pub call : CallId
  pub text : Text

pub record Subagent : Type 0 where
  pub call : CallId
  pub child : SessionId
  pub outcome : Option TurnOutcome

pub record Issued : Type 0 where
  pub effect : Effect
  pub head : Option SeqHead
  pub body : List Rendered

pub record InstrState : Type 0 where
  pub hash : Text
  pub event : Option EventId
  pub text : Text

-- `m` is the `MatcherCell`: `none` until it is first filled.
pub record State : Type 0 where
  pub session : Option SessionId
  pub profile_hash : Text
  pub config : Option KernelConfig
  pub m : Option Matchers
  pub caps : Option ModelCaps
  pub head : Option SeqHead
  pub pending_config : Option KernelConfig
  pub epoch : ℕ
  pub next_n : ℕ
  pub issued : Map EffectId Issued
  pub held : List EffectId
  pub paused : Bool
  pub next_seq : Seq
  pub index : SeqIndex
  pub ops : Chunked Op
  pub abandoned : List (Seq × Seq)
  pub context : List Entry
  pub usage_basis : Option ℕ
  pub est_since : ℕ
  pub turn : Option Turn
  pub turns : ℕ
  pub mailbox : List Mail
  pub queue : List QueueItem
  pub silent : Map Text Text
  pub snaps : Map Text (Text × Timestamp)
  pub taint : Taint
  pub continuations : ℕ
  pub tokens_used : ℕ
  pub cost_used : ℕ
  pub checkpoints : Chunked (Seq × CheckpointId)
  pub questions : Map QuestionId PendingQuestion
  pub destinations : List Text
  pub restoring : Option (EffectId × EventId)
  pub session_gate : TGate
  pub irreversible : Chunked IrreversibleCall
  pub erased : List EventId
  pub children : Map CallId Subagent
  pub instr : Map Text InstrState
  pub instr_pending : Map Text Text
