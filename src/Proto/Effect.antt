-- ===== src/Proto/Effect.antt =====
-- crates/proto/src/effect.rs: what the kernel asks the outside world to do.
use peras.Prelude.{ℕ, Bool, true, false, Option, none, some, List, [], ◌∷◌, Text, length, ◌%◌}
use peras.Proto.Resource.{Access}
use peras.Proto.Envelope.{EventId, CallId, CheckpointId, Seq}
use peras.Proto.Verdict.{
  ToolCall, ToolResult, TurnOutcome, HookPoint, Ring, Question, ApprovalLevel,
}
use peras.Proto.Model.{SeqHead}
use peras.Proto.Render.{Rendered, RBlock, Role}

pub record Prompt : Type 0 where
  pub head : SeqHead
  pub body : List Rendered
  pub max_tokens : ℕ

pub record SampleRef : Type 0 where
  pub seq_no : ℕ
  pub entries : ℕ
  pub max_tokens : ℕ

pub record CompactRef : Type 0 where
  pub seq_no : ℕ
  pub entries : ℕ
  pub instruction : Text
  pub max_tokens : ℕ
  pub range : Seq × Seq
  pub overflow : Bool

pub record Batch : Type 0 where
  pub calls : List ToolCall
  pub grants : List (CallId × List Access)

pub data GateSubject : Type 0 where
  session_start pre_sample pre_compact : GateSubject
  user_submit stop : Text → GateSubject
  tool : ToolCall → GateSubject
  post_tool changes : ToolCall → ToolResult → GateSubject

pub record GateRequest : Type 0 where
  pub point : HookPoint
  pub ring : Ring
  pub subject : GateSubject
  pub question : Option Question
  pub level : ApprovalLevel
  pub tainted : Bool

pub record CompactJob : Type 0 where
  pub prompt : Prompt
  pub range : Seq × Seq
  pub overflow : Bool

pub record CheckpointScope : Type 0 where
  pub declared_writes : List Access
  pub safe_point : Bool

pub record RestorePlan : Type 0 where
  pub to : EventId
  pub checkpoint : Option CheckpointId

pub record MergePlan : Type 0 where
  pub call : ToolCall
  pub result : ToolResult
  pub apply : Bool
  pub reason : Option Text

pub data Effect : Type 0 where
  sample : Prompt → Effect
  execute : Batch → Effect
  gate : GateRequest → Effect
  compact : CompactJob → Effect
  checkpoint : CheckpointScope → Effect
  restore : RestorePlan → Effect
  finish : TurnOutcome → Effect
  merge : MergePlan → Effect
  sample_ref : SampleRef → Effect
  compact_ref : CompactRef → Effect

abbrev pub is_journal_ref : Effect → Bool
is_journal_ref (sample_ref _) = true
is_journal_ref (compact_ref _) = true
is_journal_ref _ = false

-- `body.split_last()`: the last fragment and those before it.
unfoldable pub split_last : List Rendered → Option (Rendered × List Rendered)
split_last [] = none
split_last (r ∷ rs) = elim (split_last rs) [
  | none ↦ some (r, [])
  | some (last, before) ↦ some (last, r ∷ before)
]

-- The text of a user fragment of one text block.
unfoldable pub instruction_of : Role → List RBlock → Option Text
instruction_of Role.user (RBlock.text t ∷ []) = some t
instruction_of _ _ = none

unfoldable pub compact_journaled : CompactJob → Option (Rendered × List Rendered) → Option Effect
compact_journaled job none = none
compact_journaled job (some (last, before)) = elim (instruction_of last.role last.blocks) [
  | none ↦ none
  | some t ↦ some (
      compact_ref (record {
        seq_no = job.prompt.head.seq_no;
        entries = length before % 4294967296;
        instruction = t;
        max_tokens = job.prompt.max_tokens;
        range = job.range;
        overflow = job.overflow;
      }))
]

unfoldable pub journaled : Effect → Option Effect
unfolding compact_journaled
journaled (sample p) = some (
    sample_ref (record {
      seq_no = p.head.seq_no;
      entries = length p.body % 4294967296;
      max_tokens = p.max_tokens;
    }))
journaled (compact job) = compact_journaled job (split_last job.prompt.body)
journaled (execute b) = some (execute b)
journaled (gate g) = some (gate g)
journaled (checkpoint c) = some (checkpoint c)
journaled (restore r) = some (restore r)
journaled (finish o) = some (finish o)
journaled (merge m) = some (merge m)
journaled (sample_ref r) = some (sample_ref r)
journaled (compact_ref r) = some (compact_ref r)
