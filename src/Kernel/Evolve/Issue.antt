-- ===== src/Kernel/Evolve/Issue.antt =====
-- state.rs: `on_issued`, an effect that was journaled and is about to be dispatched.
use peras.Prelude.{
  max, add64, Bool, true, false, Option, none, some, List, [], ◌∷◌, ◌++◌, if◌then◌else◌, any, put,
  text_key, text_eq, Map,
}
use peras.Proto.Resource.{EffectClass, irreversible, network}
use peras.Proto.Envelope.{EffectId, QuestionId, Seq}
use peras.Proto.Verdict.{ToolCall, Ring, Question}
use peras.Proto.Effect.{
  Effect, sample, execute, gate, compact, checkpoint, restore, finish, merge, sample_ref,
  compact_ref, GateRequest, GateSubject,
}
use peras.Kernel.Data.{
  Externals, Slot, CallGate, Exec, TGate, PreCkpt, PreCompact, Turn, PendingQuestion, State,
}
use peras.Kernel.Collections.{push}
use peras.Kernel.Gate.Canonical.{call_summary}
use peras.Kernel.Gate.Ring1.{reads_private}
use peras.Kernel.Turns.{capture, effect_key, find_slot, update_slot, new_slot, map_turn}

abbrev pub is_finish : Effect → Bool
is_finish (finish _) = true
is_finish _ = false

abbrev pub leaves_traces : EffectClass → Bool
leaves_traces irreversible = true
leaves_traces network = true
leaves_traces _ = false

-- `questions.get_mut(&id)`, whose gate becomes the effect.
unfoldable pub set_gate :
    EffectId → QuestionId → Map QuestionId PendingQuestion → Map QuestionId PendingQuestion
set_gate id qid [] = []
set_gate id qid ((q, p) ∷ qs) =
    let later = set_gate id qid qs in
    if text_eq q qid then (q, record p { gate = some id }) ∷ qs else (q, p) ∷ later

unfoldable pub noted_issue : EffectId → Effect → State → State
unfolding add64
noted_issue id effect s =
    let s1 = record s { next_n = max s.next_n (add64 id.n 1) } in
    if is_finish effect then s1 else record s1 {
      issued = put id (capture s1 effect) s1.issued;
      held = if s1.paused then s1.held ++ id ∷ [] else s1.held;
    }

unfoldable pub list_irreversible : Externals → Seq → List ToolCall → State → State
list_irreversible x seq [] s = s
list_irreversible x seq (c ∷ cs) s = list_irreversible x seq cs (
    if leaves_traces c.class
    then record s {
      irreversible =
          push (record { seq = seq; call = c.id; text = call_summary x c }) s.irreversible;
    }
    else s)

running_slot : EffectId → Slot → Slot
running_slot id sl = record sl { gate = CallGate.permitted; exec = Exec.running id }

-- A call of the batch runs; one that was not gated before gets a slot first.
pub run_calls : Externals → EffectId → List ToolCall → Turn → Turn
unfolding running_slot
run_calls x id [] t = t
run_calls x id (c ∷ cs) t =
    let t1 : Turn = elim (find_slot c.id t.slots) [ some sl ↦ t | none ↦ new_slot x c false t ] in
    run_calls x id cs (record t1 { slots = update_slot c.id (running_slot id) t1.slots })

-- The first `match effect`.
unfoldable pub issue_global : Externals → EffectId → Effect → Seq → State → State
unfolding list_irreversible run_calls any
issue_global x id (restore plan) seq s = record s { restoring = some (id, plan.to) }
issue_global x id (execute batch) seq s =
    let s1 =
      if any (reads_private x s) batch.calls
      then record s { taint = record s.taint { private_read = true } }
      else s in
    let s2 = list_irreversible x seq batch.calls s1 in
    map_turn
      (λ t.
        run_calls x id batch.calls (record t { pre_ckpt = PreCkpt.unset; executed_step = true }))
      s2
issue_global x id (gate req) seq s = elim req.subject [
  | GateSubject.session_start ↦ record s { session_gate = TGate.waiting id }
  | _ ↦ s
]
issue_global x id effect seq s = s

-- A new request resets the step's progress.
unfoldable pub sampling_turn : EffectId → Turn → Turn
sampling_turn id t = record t {
  sample = some id;
  reply = none;
  slots = [];
  presample = TGate.unset;
  stop = TGate.unset;
  precompact = PreCompact.unset;
  overflow = false;
  relief = false;
  sp_ckpt = false;
  pre_ckpt = PreCkpt.unset;
  executed_step = false;
}

abbrev prior_question : CallGate → Option Question
prior_question (CallGate.need_hook q) = q
prior_question _ = none

hooked_slot : EffectId → Slot → Slot
hooked_slot id sl = record sl { gate = CallGate.await_hook id (prior_question sl.gate) }

posted_slot : EffectId → Slot → Slot
posted_slot id sl = record sl { post = some id; exec = Exec.done }

abbrev question_id_of : Option Question → QuestionId
question_id_of none = []
question_id_of (some q) = q.id

-- `req.question.and_then(..)`: a gate without a question touches none.
unfoldable pub set_gate_of :
    EffectId → Option Question → Map QuestionId PendingQuestion → Map QuestionId PendingQuestion
unfolding set_gate
set_gate_of id none qs = qs
set_gate_of id (some q) qs = set_gate id q.id qs

asked_slot : EffectId → QuestionId → Slot → Slot
asked_slot id qid sl = record sl { gate = CallGate.await_human qid (some id) }

abbrev with_slots : State → Turn → List Slot → State
with_slots s t slots = record s { turn = some (record t { slots = slots }) }

unfoldable pub tool_gate : EffectId → GateRequest → ToolCall → Ring → Turn → State → State
unfolding hooked_slot asked_slot set_gate
tool_gate id req call Ring.hook t s = with_slots s t (update_slot call.id (hooked_slot id) t.slots)
tool_gate id req call ring t s = elim (find_slot call.id t.slots) [
  | none ↦ s
  | some sl ↦
      let qid = question_id_of req.question in
      record s {
        turn = some (record t { slots = update_slot call.id (asked_slot id qid) t.slots });
        questions = set_gate id qid s.questions;
      }
]

-- `match (&req.subject, req.ring)`
unfoldable pub issue_gate : EffectId → GateRequest → GateSubject → Turn → State → State
unfolding tool_gate posted_slot set_gate_of
issue_gate id req (GateSubject.tool call) t s = tool_gate id req call req.ring t s
issue_gate id req (GateSubject.post_tool call result) t s =
    with_slots s t (update_slot call.id (posted_slot id) t.slots)
issue_gate id req (GateSubject.changes call result) t s = record s {
  turn = some (record t { slots = update_slot call.id (posted_slot id) t.slots });
  questions = set_gate_of id req.question s.questions;
}
issue_gate id req (GateSubject.user_submit text) t s = record s {
  turn = some (record t { submit = TGate.waiting id });
}
issue_gate id req GateSubject.pre_sample t s = record s {
  turn = some (record t { presample = TGate.waiting id });
  questions = set_gate_of id req.question s.questions;
}
issue_gate id req (GateSubject.stop text) t s = record s {
  turn = some (record t { stop = TGate.waiting id });
}
issue_gate id req GateSubject.pre_compact t s = record s {
  turn = some (record t { precompact = PreCompact.waiting id });
}
issue_gate id req GateSubject.session_start t s = s

compacting : PreCompact → PreCompact
compacting (PreCompact.ready points) = PreCompact.done points
compacting p = p

compacting_turn : EffectId → Turn → Turn
unfolding compacting
compacting_turn id t = record t {
  compact = some id;
  precompact = compacting t.precompact;
  relief = true;
}

-- The second `match effect`, inside the turn.
unfoldable pub issue_turn : EffectId → Effect → Turn → State → State
unfolding issue_gate compacting_turn posted_slot
issue_turn id (sample p) t s = record s { turn = some (sampling_turn id t) }
issue_turn id (sample_ref r) t s = record s { turn = some (sampling_turn id t) }
issue_turn id (gate req) t s = issue_gate id req req.subject t s
issue_turn id (compact job) t s = record s { turn = some (compacting_turn id t) }
issue_turn id (compact_ref r) t s = record s { turn = some (compacting_turn id t) }
issue_turn id (checkpoint scope) t s = record s {
  turn = some (
      if scope.safe_point
      then record t { sp_ckpt = true }
      else record t { pre_ckpt = PreCkpt.pending id });
}
issue_turn id (merge plan) t s = with_slots s t (update_slot plan.call.id (posted_slot id) t.slots)
issue_turn id effect t s = s

unfoldable pub on_issued : Externals → EffectId → Effect → Seq → State → State
unfolding noted_issue issue_global issue_turn
on_issued x id effect seq s =
    let s1 = issue_global x id effect seq (noted_issue id effect s) in
    elim s1.turn [ none ↦ s1 | some t ↦ issue_turn id effect t s1 ]
