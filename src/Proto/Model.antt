-- ===== src/Proto/Model.antt =====
-- crates/proto/src/model.rs, config.rs and the tool specs of tool.rs: model capabilities, replies,
-- usage, request-sequence heads, and the compiled configuration.
use peras.Prelude.{
  ℕ, Bool, true, false, ◌&&◌, ◌==◌, Option, List, [], ◌∷◌, ◌++◌, Text, add32, add64, sat_add64, txt,
}
use peras.Proto.Resource.{EffectClass}
use peras.Proto.Envelope.{ModelId}
use peras.Proto.Value.{Value}
use peras.Proto.Verdict.{ToolCall}

pub record RenderProfile : Type 0 where
  pub name : Text
  pub mid_sequence_system : Bool
  pub inline_limit_bytes : ℕ
  pub preview_bytes : ℕ
  pub data_warning : Text

pub record ToolSpec : Type 0 where
  pub name : Text
  pub description : Text
  pub input_schema : Value
  pub class : EffectClass
  pub subagent : Bool

pub record ModelCaps : Type 0 where
  pub model : ModelId
  pub parallel_tools : Bool
  pub thinking : Bool
  pub images : Bool
  pub structured_output : Bool
  pub window : ℕ
  pub max_output : ℕ
  pub cache_breakpoints : ℕ
  pub mid_sequence_updates : Bool
  pub render : RenderProfile
  pub bytes_per_token : ℕ

pub record Usage : Type 0 where
  pub input_tokens : ℕ
  pub output_tokens : ℕ
  pub cache_read_tokens : ℕ
  pub cache_write_tokens : ℕ
  pub cost_micros : ℕ

-- The sums of a release build wrap around at u32 and u64.
unfoldable pub total_context : Usage → ℕ
unfolding add32
total_context u =
    add32 (add32 (add32 u.input_tokens u.cache_read_tokens) u.cache_write_tokens) u.output_tokens

pub record Spend : Type 0 where
  pub tokens : ℕ
  pub cost_micros : ℕ

unfoldable pub spend_of : Usage → Spend
unfolding add64
spend_of u = record {
  tokens =
      add64 (add64 (add64 u.input_tokens u.output_tokens) u.cache_read_tokens) u.cache_write_tokens;
  cost_micros = u.cost_micros;
}

unfoldable pub is_zero : Spend → Bool
is_zero s = s.tokens == 0 && s.cost_micros == 0

unfoldable pub add_spend : Spend → Spend → Spend
unfolding sat_add64
add_spend a b = record {
  tokens = sat_add64 a.tokens b.tokens;
  cost_micros = sat_add64 a.cost_micros b.cost_micros;
}

pub data StopReason : Type 0 where
  end_turn tool_use max_tokens stop_sequence refusal interrupted : StopReason

abbrev pub is_interrupted : StopReason → Bool
is_interrupted interrupted = true
is_interrupted _ = false

pub data ContentBlock : Type 0 where
  text : Text → ContentBlock
  thinking : Text → Option Text → ContentBlock
  tool_use : ToolCall → ContentBlock
  opaque : Text → Value → ContentBlock

pub record AssistantMessage : Type 0 where
  pub content : List ContentBlock
  pub stop : StopReason
  pub usage : Usage

calls_of : List ContentBlock → List ToolCall
calls_of [] = []
calls_of (ContentBlock.tool_use c ∷ bs) = c ∷ calls_of bs
calls_of (ContentBlock.text t ∷ bs) = calls_of bs
calls_of (ContentBlock.thinking t g ∷ bs) = calls_of bs
calls_of (ContentBlock.opaque v d ∷ bs) = calls_of bs

unfoldable pub tool_calls : AssistantMessage → List ToolCall
unfolding calls_of
tool_calls m = calls_of m.content

texts_of : List ContentBlock → Text
texts_of [] = []
texts_of (ContentBlock.text t ∷ bs) = t ++ texts_of bs
texts_of (ContentBlock.tool_use c ∷ bs) = texts_of bs
texts_of (ContentBlock.thinking t g ∷ bs) = texts_of bs
texts_of (ContentBlock.opaque v d ∷ bs) = texts_of bs

unfoldable pub message_text : AssistantMessage → Text
unfolding texts_of
message_text m = texts_of m.content

pub data ModelError : Type 0 where
  overflow overloaded auth : ModelError
  rate_limited : Option ℕ → ModelError
  unavailable invalid network : Text → ModelError

unfoldable pub retryable : ModelError → Bool
retryable (rate_limited _) = true
retryable overloaded = true
retryable (network _) = true
retryable _ = false

-- Its `Display`.
unfoldable pub model_error_text : ModelError → Text
model_error_text overflow = txt "context overflow"
model_error_text (rate_limited after) = txt "rate limited"
model_error_text overloaded = txt "overloaded"
model_error_text (unavailable message) = txt "model unavailable: " ++ message
model_error_text auth = txt "authentication failed"
model_error_text (invalid message) = txt "invalid request: " ++ message
model_error_text (network message) = txt "network error: " ++ message

pub record SeqHead : Type 0 where
  pub seq_no : ℕ
  pub model : ModelId
  pub system : List Text
  pub tools : List ToolSpec
  pub render : RenderProfile
  pub encoder_version : ℕ
