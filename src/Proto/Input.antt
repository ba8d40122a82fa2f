-- ===== src/Proto/Input.antt =====
-- crates/proto/src/effect.rs: the inputs of `decide` and the results of effects.
use peras.Prelude.{Bool, Option, List, Text, txt}
use peras.Proto.Envelope.{EffectId, Trust}
use peras.Proto.Verdict.{ToolCall, ToolResult, Verdict, Responder}
use peras.Proto.Model.{AssistantMessage, ModelError, Spend}
use peras.Proto.Signal.{Signal, Control}
use peras.Proto.Effect.{Effect}
use peras.Proto.Event.{CheckpointInfo, RestoreReport}

pub record MergeReport : Type 0 where
  pub applied : List Text
  pub error : Option Text

pub data EffectResult : Type 0 where
  sampled : AssistantMessage → EffectResult
  sample_failed : ModelError → EffectResult
  executed : List ToolResult → EffectResult
  gated : Verdict → Responder → Bool → Spend → EffectResult
  compacted : Text → Trust → EffectResult
  compact_failed : ModelError → EffectResult
  checkpointed : CheckpointInfo → EffectResult
  restored : RestoreReport → EffectResult
  merged : MergeReport → EffectResult
  failed : Text → EffectResult

pub data Input : Type 0 where
  signal : Signal → Input
  control : Control → Input
  streamed : EffectId → ToolCall → Input
  completed : EffectId → EffectResult → Input

-- `Effect::kind`
unfoldable pub effect_kind : Effect → Text
effect_kind (Effect.sample p) = txt "sample"
effect_kind (Effect.sample_ref r) = txt "sample"
effect_kind (Effect.execute b) = txt "execute"
effect_kind (Effect.gate g) = txt "gate"
effect_kind (Effect.compact job) = txt "compact"
effect_kind (Effect.compact_ref r) = txt "compact"
effect_kind (Effect.checkpoint c) = txt "checkpoint"
effect_kind (Effect.restore plan) = txt "restore"
effect_kind (Effect.finish outcome) = txt "finish"
effect_kind (Effect.merge plan) = txt "merge"
