-- ===== src/Kernel/Decide/Gates.antt =====
-- crates/kernel/src/decide.rs: the verdicts that gates give.
use peras.Prelude.{
  ℕ, Bool, true, false, not, ◌&&◌, Option, none, some, [], ◌∷◌, if◌then◌else◌, Text, txt, glue,
  decimal, lookup, text_key,
}
use peras.Proto.Envelope.{Trust, Origin, weakest}
use peras.Proto.Verdict.{
  Verdict, Responder, Answer, Ring, HookPoint, ApprovalLevel, Question, Proposal, ToolResult,
  TurnOutcome,
}
use peras.Proto.Effect.{GateRequest, GateSubject}
use peras.Proto.Event.{Event, GateRef}
use peras.Kernel.Data.{Externals, State}
use peras.Kernel.Turns.{holds}
use peras.Kernel.Decide.Commands.{Action, ◌>>=◌, ◌>>◌, done, state, cfg, when}
use peras.Kernel.Decide.Emitting.{user, visible, ask_gate, tool_resulted, end_turn, fail_turn}
use peras.Kernel.Decide.Approvals.{check_human, answer_of, allow_destination}
use peras.Kernel.Decide.Reviews.{awaits_result, merge_by_verdict, record_verdict}

abbrev pub is_human : Ring → Bool
is_human Ring.human = true
is_human _ = false

abbrev pub is_hook : Ring → Bool
is_hook Ring.hook = true
is_hook _ = false

abbrev pub is_plain_allow : Verdict → Bool
is_plain_allow Verdict.allow = true
is_plain_allow _ = false

unfoldable pub turn_number : State → ℕ
turn_number s = elim s.turn [ none ↦ 0 | some t ↦ t.no ]

by_user_submit : Externals → Verdict → Action
by_user_submit x (Verdict.deny reason) = do
  visible x (Origin.hook (txt "user_submit")) Trust.guidance (
      Event.injected (txt "hook:user_submit")
        (glue (txt "The user message above was blocked: " ∷ reason ∷ [])))
  end_turn (TurnOutcome.failed (glue (txt "blocked by UserSubmit hook: " ∷ reason ∷ [])))
by_user_submit x (Verdict.rewrite (Proposal.user_text t)) =
    visible x (Origin.hook (txt "user_submit")) Trust.guidance
      (Event.injected (txt "hook:user_submit") t)
by_user_submit x _ = done

-- A PreSample hook's question is asked again at the policy level, under an id of its own.
presample_question : State → Question → Question
unfolding turn_number
presample_question s q = record q {
  id = glue (txt "q:turn" ∷ decimal (turn_number s) ∷ txt ":presample:" ∷ decimal s.next_n ∷ []);
  level = ApprovalLevel.policy;
  ring = Ring.hook;
}

ask_presample : Question → Action
unfolding presample_question turn_number
ask_presample q = do
  s ← state
  let asked = presample_question s q
  user (Event.question_asked asked (GateRef.turn (turn_number s)))
  ask_gate HookPoint.pre_sample Ring.human GateSubject.pre_sample (some asked)

by_presample : Externals → Ring → Verdict → Action
unfolding ask_presample
by_presample x ring Verdict.allow = done
by_presample x ring (Verdict.annotate _) = done
by_presample x ring (Verdict.continue _) = done
by_presample x ring (Verdict.ask q) =
    if is_hook ring
    then ask_presample q
    else fail_turn x (txt "PreSample gate did not allow sampling")
by_presample x ring (Verdict.deny reason) =
    fail_turn x (glue (txt "blocked by PreSample gate: " ∷ reason ∷ []))
by_presample x ring _ = fail_turn x (txt "PreSample gate did not allow sampling")

-- The reason of a `Continue` or a `Deny`.
abbrev pub stop_reason : Verdict → Option Text
stop_reason (Verdict.continue reason) = some reason
stop_reason (Verdict.deny reason) = some reason
stop_reason _ = none

-- The reply was discarded by the verdict: the turn goes on.
by_stop : Externals → State → Option Text → Action
by_stop x s none = done
by_stop x s (some reason) =
    when (elim s.turn [ none ↦ false | some t ↦ not (holds t.reply) ])
      (visible x (Origin.hook (txt "stop")) Trust.guidance
        (Event.injected (txt "hook:stop") reason))

by_point : Externals → State → Ring → Verdict → HookPoint → Action
unfolding by_user_submit by_presample by_stop
by_point x s ring verdict HookPoint.user_submit = by_user_submit x verdict
by_point x s ring verdict HookPoint.pre_sample = by_presample x ring verdict
by_point x s ring verdict HookPoint.stop = by_stop x s (stop_reason verdict)
by_point x s ring verdict _ = done

unfoldable pub after_turn_verdict : Externals → HookPoint → Ring → Verdict → Action
unfolding by_point
after_turn_verdict x point ring verdict = do
  s ← state
  when (holds s.turn) (by_point x s ring verdict point)

-- ---- `gated` ----
-- "Allow this destination for the session" accompanies an allow only.
unfoldable pub destination_of : Question → Verdict → Bool → Option Text
destination_of q verdict remember =
    if remember && is_plain_allow verdict then q.remember_destination else none

unfoldable pub final_answer : Answer → Option Text → Answer
final_answer (Answer.allow remember) (some destination) = Answer.allow true
final_answer answer destination = answer

unfoldable pub allow_some : Option Text → Action
allow_some none = done
allow_some (some d) = allow_destination d

unfoldable pub answered : Option Question → Verdict → Responder → Bool → Action
unfolding destination_of final_answer allow_some
answered none verdict responder remember = done
answered (some q) verdict responder remember = do
  s ← state
  let destination = destination_of q verdict remember
  when (holds (lookup q.id s.questions))
      (user (Event.question_answered q.id (final_answer (answer_of verdict) destination) responder))
  allow_some destination

-- A result that a hook rewrote is no more trusted than it was, and keeps what the call reported.
unfoldable pub final_result : Verdict → ToolResult → ToolResult
final_result (Verdict.rewrite (Proposal.result r)) result = record r {
  trust = weakest result.trust r.trust;
  subagent = result.subagent;
  instructions = result.instructions;
}
final_result verdict result = result

-- `match &req.subject`
unfoldable pub by_subject : Externals → GateRequest → Verdict → Responder → ℕ → GateSubject → Action
unfolding record_verdict final_result
by_subject x req verdict responder number (GateSubject.tool call) =
    record_verdict (GateRef.call call.id) req.point req.ring verdict responder
by_subject x req verdict responder number (GateSubject.post_tool call result) = do
  record_verdict (GateRef.call call.id) HookPoint.post_tool req.ring verdict responder
  s ← state
  when (awaits_result s call.id) (tool_resulted x call (final_result verdict result) true)
by_subject x req verdict responder number (GateSubject.changes call result) = do
  record_verdict (GateRef.call call.id) HookPoint.post_tool req.ring verdict responder
  merge_by_verdict call result verdict
by_subject x req verdict responder number GateSubject.session_start =
    record_verdict GateRef.session req.point req.ring verdict responder
by_subject x req verdict responder number GateSubject.pre_compact =
    record_verdict GateRef.session req.point req.ring verdict responder
by_subject x req verdict responder number _ = do
  record_verdict (GateRef.turn number) req.point req.ring verdict responder
  after_turn_verdict x req.point req.ring verdict

-- The verdict as it counts: the question is answered with it, and it is recorded.
unfoldable pub gated_as : Externals → GateRequest → Verdict → Responder → Bool → ℕ → Action
unfolding answered by_subject
gated_as x req verdict responder remember number = do
  when (is_human req.ring) (answered req.question verdict responder remember)
  by_subject x req verdict responder number req.subject

unfoldable pub gated : Externals → GateRequest → Verdict → Responder → Bool → Action
unfolding turn_number gated_as
gated x req verdict responder remember = do
  s ← state
  c ← cfg
  let checked = if is_human req.ring then check_human c req verdict responder else verdict
  gated_as x req checked responder remember (turn_number s)
