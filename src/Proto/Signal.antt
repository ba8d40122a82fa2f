-- ===== src/Proto/Signal.antt =====
-- crates/proto/src/signal.rs: inputs from outside.
use peras.Prelude.{Bool, Option, List, Text}
use peras.Proto.Envelope.{EventId, QuestionId, ModelId}
use peras.Proto.Verdict.{Answer}
use peras.Proto.Config.{KernelConfig}

pub record Attachment : Type 0 where
  pub path : Text
  pub content : Option Text

pub data Signal : Type 0 where
  submit : Text → List Attachment → Signal
  steer : Text → Signal
  queue : Text → Signal
  notify : Text → Text → Text → Bool → Signal
  wake : Text → Text → Signal
  silent : Text → Text → Signal

pub data Control : Type 0 where
  soft_interrupt hard_interrupt pause resume clear_taint : Control
  answer : QuestionId → Answer → Text → Control
  rewind : EventId → Control
  switch_model : ModelId → Control
  reconfigure : KernelConfig → Control
  compact : Option Text → Control
