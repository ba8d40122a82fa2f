-- ===== src/Proto/Verdict.antt =====
-- crates/proto/src/verdict.rs: rings, hook points, questions, verdicts; and the tool calls and
-- results of tool.rs, which verdicts carry.
use peras.Prelude.{ℕ, Bool, true, false, Option, none, List, [], ◌∷◌, ◌++◌, Text, txt}
use peras.Proto.Resource.{Access, EffectClass}
use peras.Proto.Envelope.{CallId, QuestionId, SessionId, BlobRef, Trust}
use peras.Proto.Value.{Value}

pub data Ring : Type 0 where
  invariant policy budget hook human : Ring

pub data HookPoint : Type 0 where
  session_start user_submit pre_sample pre_tool permission post_tool pre_compact stop : HookPoint

pub data FailureMode : Type 0 where
  allow block human : FailureMode

unfoldable pub on_failure : HookPoint → FailureMode
on_failure pre_sample = FailureMode.block
on_failure pre_tool = FailureMode.block
on_failure permission = FailureMode.human
on_failure _ = FailureMode.allow

unfoldable pub point_eq : HookPoint → HookPoint → Bool
point_eq session_start session_start = true
point_eq user_submit user_submit = true
point_eq pre_sample pre_sample = true
point_eq pre_tool pre_tool = true
point_eq permission permission = true
point_eq post_tool post_tool = true
point_eq pre_compact pre_compact = true
point_eq stop stop = true
point_eq _ _ = false

-- `policy < invariant`, the derived order.
pub data ApprovalLevel : Type 0 where
  policy invariant : ApprovalLevel

abbrev pub level_ge : ApprovalLevel → ApprovalLevel → Bool
level_ge ApprovalLevel.policy ApprovalLevel.invariant = false
level_ge _ _ = true

pub record Question : Type 0 where
  pub id : QuestionId
  pub prompt : Text
  pub level : ApprovalLevel
  pub ring : Ring
  pub rules : List Text
  pub remember_destination : Option Text

pub record ToolCall : Type 0 where
  pub id : CallId
  pub name : Text
  pub input : Value
  pub access : List Access
  pub class : EffectClass
  pub isolated : Bool

pub data TurnOutcome : Type 0 where
  done : Text → TurnOutcome
  interrupted : TurnOutcome
  suspended : Option Question → TurnOutcome
  failed : Text → TurnOutcome
  budget_exhausted : Text → TurnOutcome

pub data ToolContent : Type 0 where
  text : Text → ToolContent
  blob : BlobRef → Text → ToolContent
  image : BlobRef → ToolContent
  json : Value → ToolContent

pub record SubagentReport : Type 0 where
  pub child : SessionId
  pub outcome : TurnOutcome
  pub tokens : ℕ
  pub cost_micros : ℕ

pub record FoundInstructions : Type 0 where
  pub path : Text
  pub text : Text

pub record ToolResult : Type 0 where
  pub call_id : CallId
  pub content : List ToolContent
  pub is_error : Bool
  pub trust : Trust
  pub observed : List Access
  pub staged : List Text
  pub subagent : Option SubagentReport
  pub instructions : List FoundInstructions

unfoldable pub text_result : CallId → Text → Bool → ToolResult
text_result call_id t is_error = record {
  call_id = call_id;
  content = ToolContent.text t ∷ [];
  is_error = is_error;
  trust = Trust.internal;
  observed = [];
  staged = [];
  subagent = none;
  instructions = [];
}

unfoldable pub denied : CallId → Text → ToolResult
unfolding text_result
denied call_id reason = text_result call_id (txt "Denied: " ++ reason) true

unfoldable pub cancelled : CallId → ToolResult
unfolding text_result
cancelled call_id = text_result call_id (txt "Cancelled before execution.") true

pub data Proposal : Type 0 where
  call : ToolCall → Proposal
  result : ToolResult → Proposal
  user_text : Text → Proposal

pub record Context : Type 0 where
  pub text : Text
  pub trust : Trust

pub data Verdict : Type 0 where
  allow : Verdict
  deny : Text → Verdict
  rewrite : Proposal → Verdict
  annotate : Context → Verdict
  ask : Question → Verdict
  continue : Text → Verdict
  defer : Verdict

unfoldable pub strictness : Verdict → ℕ
strictness Verdict.allow = 0
strictness (Verdict.annotate _) = 0
strictness (Verdict.continue _) = 0
strictness (Verdict.rewrite _) = 1
strictness (Verdict.ask _) = 2
strictness Verdict.defer = 3
strictness (Verdict.deny _) = 4

pub data Responder : Type 0 where
  kernel budget code unattended disposable_env : Responder
  policy hook auto_rule human : Text → Responder

pub data Answer : Type 0 where
  allow : Bool → Answer
  allow_with : Proposal → Answer
  deny : Option Text → Answer
