-- ===== src/Tests/Decide.antt =====
-- Programs of crates/kernel/src/decide.rs run in a configured session.
use peras.Prelude.{
  ◌≡◌, ◌≤◌, refl, true, false, none, some, [], ◌∷◌, ◌++◌, Text, txt, text_eq, Memᴰ, lookup, retain,
  if◌then◌else◌, ◌-◌,
}
use peras.Proto.Envelope.{Origin}
use peras.Proto.Verdict.{
  Verdict, Responder, Ring, HookPoint, ApprovalLevel, Answer, Question, ToolResult, TurnOutcome,
  cancelled,
}
use peras.Proto.Effect.{Effect, GateRequest, GateSubject}
use peras.Proto.Event.{Event, GateRef, TurnCause, internal_draft}
use peras.Kernel.Data.{State, Slot, CallGate, Exec}
use peras.Kernel.Turns.{new_turn, effect_key, outstanding, dispatchable, capture}
use peras.Kernel.Decide.Commands.{
  Cx, run, new_cx, emit_draft, issue_effect, next_id, user_draft, ◌>>=◌,
}
use peras.Kernel.Decide.Emitting.{end_turn, fail_turn, visible, visible_draft}
use peras.Kernel.Decide.Instructions.{
  inject_pending, instructions_trust, used_bytes, omitted, broadest_first, kept,
}
use peras.Kernel.Decide.Approvals.{may_approve, check_human, answer_of}
use peras.Kernel.Decide.Reviews.{merge_by_verdict}
use peras.Kernel.Decide.Gates.{gated}
use peras.Kernel.Decide.Replay.{replay, run-replay}
use peras.Kernel.Decide.Issuing.{issue_effect-outstanding}
use peras.Kernel.Decide.Closing.{HasResult, fail_turn-HasResult}
use peras.Kernel.Decide.Vetoes.{approve_nothing, gated-approve_nothing}
use peras.Kernel.Decide.Bounds.{injected_bytes, inject_pending-bounded}
use peras.Tests.Fixtures.{literal_globs, config, configured, read_call}

-- A turn with a recorded call.
abbrev open_slot : Slot
open_slot = record {
  call = read_call;
  gate = CallGate.permitted;
  exec = Exec.idle;
  rewrites = 0;
  in_reply = true;
  result = false;
  post = none;
  ordinal = 1;
  repeat = 1;
  deferred = none;
}

abbrev acting : State
acting = record configured {
  turn = some (record (new_turn 1 TurnCause.user 1000 3) { slots = open_slot ∷ [] });
}

-- ---- the end of a turn ----
abbrev answered : TurnOutcome
answered = TurnOutcome.done (txt "ok")

abbrev ended_cx : Cx
ended_cx =
    issue_effect literal_globs (Effect.finish answered)
      (emit_draft literal_globs (user_draft (Event.turn_ended answered)) (new_cx acting 7))

run-replay_example : ended_cx.s ≡ replay literal_globs 7 0 ended_cx.out.events acting
unfolding run ◌>>=◌ end_turn
run-replay_example = run-replay literal_globs (end_turn answered) acting 7 tt ended_cx refl

issue_effect-outstanding_example :
    let e = Effect.checkpoint (record { declared_writes = []; safe_point = true }) in
    let cx = new_cx acting 7 in
    let id = next_id acting in
    let cy = issue_effect literal_globs e cx in
    let d = dispatchable (capture acting e) in
    (lookup id (outstanding cy.s) ≡ some d)
    × (cy.out.effects ≡ (if acting.paused then cx.out.effects else cx.out.effects ++ (id, d) ∷ []))
issue_effect-outstanding_example =
    issue_effect-outstanding literal_globs
      (Effect.checkpoint (record { declared_writes = []; safe_point = true })) (new_cx acting 7)
      refl

-- ---- a turn that fails ----
abbrev failure : TurnOutcome
failure = TurnOutcome.failed (txt "no")

abbrev written : ToolResult
written = record (cancelled (txt "c1")) { call_id = txt "c1"; instructions = [] }

abbrev failed_cx : Cx
failed_cx = issue_effect literal_globs (Effect.finish failure) (
    emit_draft literal_globs (user_draft (Event.turn_ended failure)) (
      emit_draft literal_globs
        (visible_draft literal_globs acting (Origin.tool (txt "edit")) written.trust
          (Event.tool_resulted read_call written))
        (new_cx acting 7)))

fail_turn-HasResult_example : HasResult failed_cx.out.events read_call
unfolding run fail_turn ◌>>=◌ lookup cancelled
fail_turn-HasResult_example =
    fail_turn-HasResult literal_globs (txt "no") acting 7 failed_cx open_slot refl (Memᴰ.head refl)

-- ---- an approval of staged changes by a hook, with a destination to remember ----
abbrev pending : Question
pending = record {
  id = txt "q";
  prompt = txt "apply?";
  level = ApprovalLevel.invariant;
  ring = Ring.invariant;
  rules = txt "invariant:self_modification" ∷ [];
  remember_destination = some (txt "net:example.org:443");
}

abbrev asking : State
asking = record acting {
  questions =
      (
        txt "q",
        record {
          question = pending;
          subject = GateRef.call (txt "c1");
          point = HookPoint.permission;
          gate = none;
        },
      )
      ∷ [];
}

abbrev asked : GateRequest
asked = record {
  point = HookPoint.permission;
  ring = Ring.human;
  subject = GateSubject.changes read_call written;
  question = some pending;
  level = ApprovalLevel.invariant;
  tainted = false;
}

abbrev why : Text
why = txt "invariant-level approval requires a human"

abbrev vetoed_cx : Cx
vetoed_cx =
    issue_effect literal_globs
      (Effect.merge
        (record { call = read_call; result = written; apply = false; reason = some why }))
      (emit_draft literal_globs
        (internal_draft (
          Event.verdict_recorded (GateRef.call (txt "c1")) HookPoint.post_tool Ring.human
            (Verdict.deny why) (Responder.hook (txt "lint"))))
        (emit_draft literal_globs
          (user_draft (
            Event.question_answered (txt "q") (Answer.deny (some why))
              (Responder.hook (txt "lint"))))
          (new_cx asking 7)))

gated-approve_nothing_example : approve_nothing vetoed_cx.out.events ≡ true
unfolding may_approve run gated ◌>>=◌ check_human lookup text_eq txt merge_by_verdict answer_of
gated-approve_nothing_example =
    gated-approve_nothing literal_globs asking 7 config asked Verdict.allow
      (Responder.hook (txt "lint")) true vetoed_cx refl refl refl tt tt refl

-- ---- instruction files ----
abbrev instructed : State
instructed = record configured { instr_pending = (txt "/w/A.md", txt "be kind") ∷ [] }

abbrev instructed_cx : Cx
instructed_cx =
    emit_draft literal_globs
      (visible_draft literal_globs instructed Origin.system
        (instructions_trust config (txt "/w/A.md"))
        (Event.instructions_injected (txt "/w/A.md") (txt "be kind")))
      (new_cx instructed 7)

inject_pending-bounded_example :
    injected_bytes instructed_cx.out.events ≤ config.instruction_budget - used_bytes instructed
unfolding run inject_pending ◌>>=◌ omitted broadest_first kept retain txt visible
inject_pending-bounded_example =
    inject_pending-bounded literal_globs instructed 7 config instructed_cx refl refl
