-- ===== src/Kernel/Decide/Closing.antt =====
-- A turn that fails leaves no recorded call without a result.
use peras.Prelude.{
  ◌≡◌, refl, sym, subst, Bool, false, Option, none, some, List, [], ◌∷◌, Memᴰ, mem-append_left,
  mem-append_right, if◌then◌else◌, Text,
}
use peras.Proto.Envelope.{CallId, EffectId, Timestamp, Origin, weakest}
use peras.Proto.Verdict.{ToolCall, ToolResult, TurnOutcome, cancelled}
use peras.Proto.Effect.{Effect}
use peras.Proto.Event.{Event, Draft, internal_draft}
use peras.Kernel.Data.{Externals, State, Slot}
use peras.Kernel.Gate.Ring1.{access_trust}
use peras.Kernel.Decide.Commands.{
  Cx, Outcome, run, emit_draft, issue_effect, resume_held, push_effect, new_cx, next_id, ◌>>=◌,
  for_each, user_draft,
}
use peras.Kernel.Decide.Emitting.{
  visible, visible_draft, subagent_ended, after_result, tool_resulted, open_slots, close_open,
  end_turn, fail_turn,
}
use peras.Kernel.Decide.Replay.{Ends, IsKept, run-Ends, Ends-bind, Ends-returned, if_either}

-- One of the drafts is a result of the call, under the call's id.
abbrev pub HasResult : List Draft → ToolCall → Type 0
HasResult ds call =
    (d : Draft) × Memᴰ d ds
    × ((r : ToolResult) × (d.body ≡ Event.tool_resulted call r) × (r.call_id ≡ call.id))

abbrev Answered : ToolCall → Cx → Type 0
Answered call cx = HasResult cx.out.events call

emit_draft-Answered :
    (x : Externals) (call : ToolCall) (d : Draft) (cx : Cx)
    → Answered call cx
    → Answered call (emit_draft x d cx)
unfolding emit_draft
emit_draft-Answered x call d cx (b, m, r) = (b, mem-append_left b cx.out.events (d ∷ []) m, r)

push_effect-Answered :
    (call : ToolCall) (id : EffectId) (o : Option Effect) (cx : Cx)
    → Answered call cx
    → Answered call (push_effect id o cx)
push_effect-Answered call id none cx h = h
push_effect-Answered call id (some e) cx h = h

issue_effect-Answered :
    (x : Externals) (call : ToolCall) (e : Effect) (cx : Cx)
    → Answered call cx
    → Answered call (issue_effect x e cx)
unfolding issue_effect
issue_effect-Answered x call e cx h =
    let d = internal_draft (Event.effect_issued (next_id cx.s) e) in
    let emitted = emit_draft-Answered x call d cx h in
    if_either (Answered call) cx.s.paused _ _ emitted (push_effect-Answered call _ _ _ emitted)

Answered-IsKept : (x : Externals) (call : ToolCall) → IsKept x (Answered call)
unfolding resume_held
Answered-IsKept x call = (
  emit_draft-Answered x call,
  issue_effect-Answered x call,
  λ cx h. emit_draft-Answered x call (user_draft Event.resumed) cx h,
)

tool_resulted-Answered :
    (x : Externals) (call : ToolCall) (result : ToolResult) (executed : Bool) (cx : Cx)
    → Ends (Answered call) (run x (tool_resulted x call result executed) cx)
unfolding run ◌>>=◌ tool_resulted visible emit_draft
tool_resulted-Answered x call result executed cx =
    let written = record result { call_id = call.id; instructions = [] } in
    let trust =
      if executed then weakest result.trust (access_trust x cx.s call) else result.trust in
    let d = visible_draft x cx.s (Origin.tool call.name) trust (Event.tool_resulted call written) in
    run-Ends x (Answered call) (Answered-IsKept x call)
      (after_result (subagent_ended cx.s call written executed) result.instructions)
      (emit_draft x d cx)
      (d, mem-append_right d cx.out.events (d ∷ []) (Memᴰ.head refl), (written, refl, refl))

close_slots-Answered :
    (x : Externals) (mk : CallId → ToolResult) (sl : Slot) (slots : List Slot) (cx : Cx)
    → Memᴰ sl slots
    → Ends
        (Answered sl.call)
        (run x (for_each slots (λ (b : Slot). tool_resulted x b.call (mk b.call.id) false)) cx)
close_slots-Answered x mk sl [] cx m = elim m [ ]
close_slots-Answered x mk sl (b ∷ slots) cx (Memᴰ.head e) =
    let rest = for_each slots (λ (c : Slot). tool_resulted x c.call (mk c.call.id) false) in
    Ends-bind (Answered sl.call) (Answered sl.call) x (tool_resulted x b.call (mk b.call.id) false)
      (λ _. rest) cx
      (subst
        (λ (c : Slot).
          Ends (Answered c.call) (run x (tool_resulted x b.call (mk b.call.id) false) cx))
        (sym e) (tool_resulted-Answered x b.call (mk b.call.id) false cx))
      (λ a cy h. run-Ends x (Answered sl.call) (Answered-IsKept x sl.call) rest cy h)
close_slots-Answered x mk sl (b ∷ slots) cx (Memᴰ.tail m) =
    Ends-bind (λ _. Unit {0}) (Answered sl.call) x (tool_resulted x b.call (mk b.call.id) false)
      (λ _. for_each slots (λ (c : Slot). tool_resulted x c.call (mk c.call.id) false)) cx
      (run-Ends x (λ _. Unit {0}) (λ d cx h. tt, λ e cx h. tt, λ cx h. tt)
        (tool_resulted x b.call (mk b.call.id) false) cx tt)
      (λ a cy h. close_slots-Answered x mk sl slots cy m)

fail_turn-Answered :
    (x : Externals) (error : Text) (s : State) (at : Timestamp) (sl : Slot)
    → Memᴰ sl (open_slots s)
    → Ends (Answered sl.call) (run x (fail_turn x error) (new_cx s at))
unfolding run ◌>>=◌ fail_turn close_open
fail_turn-Answered x error s at sl m =
    let close =
      for_each (open_slots s) (λ (b : Slot). tool_resulted x b.call (cancelled b.call.id) false) in
    Ends-bind (Answered sl.call) (Answered sl.call) x close
      (λ _. end_turn (TurnOutcome.failed error)) (new_cx s at)
      (close_slots-Answered x cancelled sl (open_slots s) (new_cx s at) m)
      (λ a cy h.
        run-Ends x (Answered sl.call) (Answered-IsKept x sl.call)
          (end_turn (TurnOutcome.failed error)) cy h)

-- A turn that fails writes a result for every recorded call that had none, under the call's id.
pub fail_turn-HasResult :
    (x : Externals) (error : Text) (s : State) (at : Timestamp) (cx : Cx) (sl : Slot)
    → run x (fail_turn x error) (new_cx s at) ≡ Outcome.returned tt cx
    → Memᴰ sl (open_slots s)
    → HasResult cx.out.events sl.call
fail_turn-HasResult x error s at cx sl e m =
    Ends-returned (Answered sl.call) (run x (fail_turn x error) (new_cx s at)) tt cx
      (fail_turn-Answered x error s at sl m) e
