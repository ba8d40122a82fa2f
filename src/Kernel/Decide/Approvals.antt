-- ===== src/Kernel/Decide/Approvals.antt =====
-- crates/kernel/src/decide.rs: `check_human`, `answer_of` and `allow_destination`.
use peras.Prelude.{Bool, true, false, not, none, some, Text, txt, if◌then◌else◌, contains}
use peras.Proto.Verdict.{Verdict, Responder, Answer, ApprovalLevel}
use peras.Proto.Config.{KernelConfig}
use peras.Proto.Effect.{GateRequest, GateSubject}
use peras.Proto.Event.{Event}
use peras.Kernel.Gate.Ring1.{runs_in_sandbox}
use peras.Kernel.Gate.Evaluate.{is_deny}
use peras.Kernel.Turns.{holds}
use peras.Kernel.Decide.Commands.{Action, ◌>>=◌, state, when}
use peras.Kernel.Decide.Emitting.{user}

abbrev pub is_invariant : ApprovalLevel → Bool
is_invariant ApprovalLevel.invariant = true
is_invariant ApprovalLevel.policy = false

-- A disposable environment vouches for what runs inside it only.
unfoldable pub vouched : GateSubject → Bool
vouched (GateSubject.tool call) = runs_in_sandbox call
vouched (GateSubject.changes call result) = false
vouched _ = true

-- Whether the responder may approve at the invariant level.
unfoldable pub may_approve : KernelConfig → GateSubject → Responder → Bool
unfolding vouched
may_approve c subject (Responder.human who) = true
may_approve c subject Responder.disposable_env = vouched subject
may_approve c subject Responder.code = not (holds c.unattended)
may_approve c subject _ = false

unfoldable pub check_human : KernelConfig → GateRequest → Verdict → Responder → Verdict
unfolding may_approve
check_human c req verdict responder =
    if is_invariant req.level
    then (if is_deny verdict
        then verdict
        else if may_approve c req.subject responder
        then verdict
        else Verdict.deny (txt "invariant-level approval requires a human"))
    else verdict

unfoldable pub answer_of : Verdict → Answer
answer_of Verdict.allow = Answer.allow false
answer_of (Verdict.annotate _) = Answer.allow false
answer_of (Verdict.continue _) = Answer.allow false
answer_of (Verdict.rewrite p) = Answer.allow_with p
answer_of (Verdict.deny reason) = Answer.deny (some reason)
answer_of _ = Answer.deny none

-- A destination is allowed for the rest of the session.
unfoldable pub allow_destination : Text → Action
allow_destination destination = do
  s ← state
  when (not (contains s.destinations destination)) (user (Event.destination_allowed destination))
