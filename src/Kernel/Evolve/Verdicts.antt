-- ===== src/Kernel/Evolve/Verdicts.antt =====
-- state.rs: `on_verdict`, a recorded verdict of any ring.
use peras.Prelude.{
  ℕ, zero, suc, ◌+◌, Bool, true, false, not, ◌&&◌, ◌||◌, Option, none, some, List, [], ◌∷◌, ◌++◌,
  if◌then◌else◌, ltb, leb, ◌==◌, Text, txt, length,
}
use peras.Proto.Envelope.{CallId, Trust, Origin, is_untrusted}
use peras.Proto.Verdict.{
  Ring, HookPoint, ApprovalLevel, level_ge, Question, ToolCall, ToolResult, Proposal, Context,
  Verdict, Responder, denied, point_eq,
}
use peras.Proto.Event.{GateRef}
use peras.Kernel.Data.{CallGate, Slot, TGate, PreCompact, Turn, State}
use peras.Kernel.Gate.Canonical.{question_id}
use peras.Kernel.Turns.{hooked, max_continuations, update_slot, map_turn, compact_waiting}

-- The white space of `trim()`, a character of one, two or three bytes.
space1 : ℕ → Bool
space1 a = (leb 9 a && leb a 13) || a == 32

space2 : ℕ → ℕ → Bool
space2 a b = a == 0xC2 && (b == 0x85 || b == 0xA0)

space3 : ℕ → ℕ → ℕ → Bool
space3 a b c =
    (a == 0xE1 && (b == 0x9A && c == 0x80))
    || ((a == 0xE2
          && (b == 0x80 && ((leb 0x80 c && leb c 0x8A) || (c == 0xA8 || (c == 0xA9 || c == 0xAF)))))
        || ((a == 0xE2 && (b == 0x81 && c == 0x9F)) || (a == 0xE3 && (b == 0x80 && c == 0x80))))

-- `text.trim().is_empty()`; each step takes a byte at least, so the length is fuel enough.
blank_within : ℕ → Text → Bool
unfolding space1 space2 space3
blank_within fuel [] = true
blank_within zero (a ∷ s) = false
blank_within (suc fuel) (a ∷ []) = space1 a
blank_within (suc fuel) (a ∷ b ∷ []) =
    let one = blank_within fuel (b ∷ []) in if space1 a then one else space2 a b
blank_within (suc fuel) (a ∷ b ∷ c ∷ s) =
    let one = blank_within fuel (b ∷ c ∷ s) in
    let two = blank_within fuel (c ∷ s) in
    let three = blank_within fuel s in
    if space1 a then one else if space2 a b then two else if space3 a b c then three else false

unfoldable pub is_blank : Text → Bool
unfolding blank_within
is_blank s = blank_within (length s) s

unfoldable pub responder_source : Responder → Text
responder_source (Responder.hook n) = txt "hook:" ++ n
responder_source (Responder.human n) = txt "human:" ++ n
responder_source (Responder.auto_rule n) = txt "rule:" ++ n
responder_source _ = txt "gate"

unfoldable pub annotate : Text → Context → State → State
annotate source ctx s = record s {
  mailbox =
      s.mailbox
      ++ (record {
        source = source;
        key = none;
        text = ctx.text;
        trust = if is_untrusted ctx.trust then ctx.trust else Trust.guidance;
        origin = Origin.hook source;
        steer = false;
      })
        ∷ [];
}

unfoldable pub stricter : Option Question → Question → Question
stricter none b = b
stricter (some q) b = if level_ge q.level b.level then q else b

-- The points that a PreCompact hook asks to preserve; untrusted ones never reach the summary.
preserved : Verdict → List Text
preserved (Verdict.annotate ctx) =
    if not (is_untrusted ctx.trust) && not (is_blank ctx.text) then ctx.text ∷ [] else []
preserved _ = []

pub precompact_verdict : Verdict → Turn → Turn
unfolding preserved
precompact_verdict v t =
    if compact_waiting t.precompact
    then record t { precompact = PreCompact.ready (preserved v) }
    else t

-- Rings 1 to 3.
unfoldable pub kernel_gate : Bool → CallId → Verdict → CallGate
kernel_gate hooked_pre id (Verdict.deny r) = CallGate.closed (denied id r)
kernel_gate hooked_pre id (Verdict.ask q) =
    if hooked_pre then CallGate.need_hook (some q) else CallGate.need_human q
kernel_gate hooked_pre id v = if hooked_pre then CallGate.need_hook none else CallGate.permitted

abbrev pub prior_of : CallGate → Option Question
prior_of (CallGate.await_hook e p) = p
prior_of (CallGate.need_hook p) = p
prior_of _ = none

-- An allowing hook leaves the kernel's own question to be asked.
unfoldable pub ask_prior : Option Question → CallGate
ask_prior none = CallGate.permitted
ask_prior (some q) = CallGate.need_human q

-- A hook's question is of the policy level, whatever it says.
unfoldable pub hook_question : CallId → ℕ → Question → Question
hook_question id rewrites q = record q {
  id = question_id id rewrites;
  level = ApprovalLevel.policy;
  ring = Ring.hook;
}

rewritten_call : ToolCall → Slot → Slot
rewritten_call c sl = record sl {
  call = record c { id = sl.call.id };
  rewrites = sl.rewrites + 1;
  gate = CallGate.unchecked;
}

closed_with : ToolResult → Slot → Slot
closed_with r sl = record sl { gate = CallGate.closed (record r { call_id = sl.call.id }) }

unfoldable pub hook_slot : Verdict → Slot → Slot
unfolding rewritten_call closed_with
hook_slot (Verdict.deny r) sl = record sl { gate = CallGate.closed (denied sl.call.id r) }
hook_slot Verdict.defer sl = record sl { gate = CallGate.deferred }
hook_slot (Verdict.rewrite (Proposal.call c)) sl = rewritten_call c sl
hook_slot (Verdict.rewrite (Proposal.result r)) sl = closed_with r sl
hook_slot (Verdict.rewrite (Proposal.user_text t)) sl = record sl {
  gate = CallGate.closed (denied sl.call.id (txt "invalid rewrite for a tool call"));
}
hook_slot (Verdict.ask q) sl = record sl {
  gate = CallGate.need_human (stricter (prior_of sl.gate) (hook_question sl.call.id sl.rewrites q));
}
hook_slot Verdict.allow sl = record sl { gate = ask_prior (prior_of sl.gate) }
hook_slot (Verdict.annotate ctx) sl = record sl { gate = ask_prior (prior_of sl.gate) }
hook_slot (Verdict.continue r) sl = record sl { gate = ask_prior (prior_of sl.gate) }

unfoldable pub human_slot : Verdict → Slot → Slot
unfolding rewritten_call closed_with
human_slot Verdict.allow sl = record sl { gate = CallGate.permitted }
human_slot (Verdict.annotate ctx) sl = record sl { gate = CallGate.permitted }
human_slot (Verdict.continue r) sl = record sl { gate = CallGate.permitted }
human_slot (Verdict.deny r) sl = record sl { gate = CallGate.closed (denied sl.call.id r) }
human_slot Verdict.defer sl = record sl { gate = CallGate.deferred }
human_slot (Verdict.rewrite (Proposal.call c)) sl = rewritten_call c sl
human_slot (Verdict.rewrite (Proposal.result r)) sl = closed_with r sl
human_slot (Verdict.rewrite (Proposal.user_text t)) sl = record sl {
  gate = CallGate.closed (denied sl.call.id (txt "not approved"));
}
human_slot (Verdict.ask q) sl = record sl {
  gate = CallGate.closed (denied sl.call.id (txt "not approved"));
}

ring_slot : Bool → Ring → Verdict → Slot → Slot
unfolding hook_slot human_slot kernel_gate
ring_slot hooked_pre Ring.hook v sl = hook_slot v sl
ring_slot hooked_pre Ring.human v sl = human_slot v sl
ring_slot hooked_pre _ v sl = record sl { gate = kernel_gate hooked_pre sl.call.id v }

-- A call that has its result is left alone.
unfoldable pub judged : Bool → Ring → Verdict → Slot → Slot
unfolding ring_slot
judged hooked_pre ring v sl = if sl.result then sl else ring_slot hooked_pre ring v sl

abbrev pub permits : Verdict → Bool
permits Verdict.allow = true
permits (Verdict.annotate _) = true
permits (Verdict.continue _) = true
permits _ = false

abbrev keeps_going : Verdict → Bool
keeps_going (Verdict.continue _) = true
keeps_going (Verdict.deny _) = true
keeps_going _ = false

unfoldable pub stop_verdict : Verdict → Turn → State → State
stop_verdict v t s =
    let t1 = record t { stop = TGate.passed } in
    if keeps_going v && ltb s.continuations (max_continuations s)
    then record s { turn = some (record t1 { reply = none }); continuations = s.continuations + 1 }
    else record s { turn = some t1 }

-- A verdict on the turn or on the session.
unfoldable pub turn_verdict : HookPoint → Verdict → Turn → State → State
unfolding stop_verdict
turn_verdict HookPoint.user_submit v t s = record s {
  turn = some (record t { submit = TGate.passed });
}
turn_verdict HookPoint.pre_sample v t s =
    if permits v then record s { turn = some (record t { presample = TGate.passed }) } else s
turn_verdict HookPoint.stop v t s = stop_verdict v t s
turn_verdict _ v t s = s

unfoldable pub subject_verdict : GateRef → HookPoint → Ring → Verdict → Turn → State → State
unfolding turn_verdict judged point_eq
subject_verdict (GateRef.call cid) point ring v t s =
    if point_eq point HookPoint.post_tool then s else record s {
      turn = some (record t {
        slots = update_slot cid (judged (hooked s HookPoint.pre_tool) ring v) t.slots;
      });
    }
subject_verdict _ point ring v t s = turn_verdict point v t s

unfoldable pub annotated : Responder → Verdict → State → State
unfolding annotate
annotated responder (Verdict.annotate ctx) s = annotate (responder_source responder) ctx s
annotated responder _ s = s

unfoldable pub on_verdict : GateRef → HookPoint → Ring → Verdict → Responder → State → State
unfolding precompact_verdict subject_verdict annotated point_eq
on_verdict subject point ring v responder s =
    let s1 =
      if point_eq point HookPoint.session_start
      then record s { session_gate = TGate.passed }
      else s in
    let s2 = annotated responder v s1 in
    if point_eq point HookPoint.pre_compact
    then map_turn (precompact_verdict v) s
    else elim s2.turn [ none ↦ s2 | some t ↦ subject_verdict subject point ring v t s2 ]
