-- ===== src/Kernel/Decide.antt =====
-- crates/kernel/src/decide.rs: from an input to drafted events and effects.
pub mod Commands
pub mod Emitting
pub mod Sequences
pub mod Instructions
pub mod Approvals
pub mod Reviews
pub mod Gates
pub mod Compaction
pub mod Completions
pub mod Inputs
pub mod Sampling
pub mod Steps
pub mod Starts
pub mod Replay
pub mod Dispatch
pub mod Answering
pub mod Repeats
pub mod Vetoes
pub mod Closing
pub mod Bounds
pub mod Issuing
use peras.Prelude.{ℕ, Bool, true, false, Option, none, some, Text, txt, if◌then◌else◌}
use peras.Proto.Envelope.{EffectId, Timestamp}
use peras.Proto.Verdict.{ToolCall}
use peras.Proto.Input.{Input, EffectResult}
use peras.Kernel.Data.{Externals, State}
use peras.Kernel.Decide.Commands.{
  Program, Action, Decision, no_decision, Cx, new_cx, Outcome, run, ◌>>=◌, ◌>>◌, done,
}
use peras.Kernel.Decide.Inputs.{on_signal, on_control, streamed}
use peras.Kernel.Decide.Completions.{completed}
use peras.Kernel.Decide.Steps.{advance}

-- The bound of the loop in `advance`.
abbrev pub max_steps : ℕ
max_steps = 10000

-- What an input that was taken leads to; one that was not taken leads to nothing.
abbrev taken : Externals → Program Bool → Program Bool
taken x p = do
  is_taken ← p
  if is_taken then advance x max_steps >> Program.ret true else Program.ret false

unfoldable pub on_input : Externals → Input → Program Bool
on_input x (Input.signal sig) = on_signal x sig >> (advance x max_steps >> Program.ret true)
on_input x (Input.control c) = on_control x c >> (advance x max_steps >> Program.ret true)
on_input x (Input.streamed id call) = taken x (streamed x id call)
on_input x (Input.completed id r) = taken x (completed x id r)

-- `Result<Decision, Rejection>`, or a panic.
pub data Answered : Type 0 where
  decided : Decision → Answered
  refused : Text → Answered
  panicked : Answered

abbrev pub decision_of : Outcome Bool → Answered
decision_of (Outcome.returned true cx) = Answered.decided cx.out
decision_of (Outcome.returned false cx) = Answered.decided no_decision
decision_of (Outcome.rejected why) = Answered.refused why
decision_of Outcome.panicked = Answered.panicked

unfoldable pub decide : Externals → State → Timestamp → Input → Answered
unfolding on_input run
decide x s at input = elim s.config [
  | none ↦ Answered.refused (txt "session not started: call start_session first")
  | some c ↦ decision_of (run x (on_input x input) (new_cx s at))
]
