-- ===== src/Kernel/Evolve/Turning.antt =====
-- state.rs: the branches of `evolve` for questions, interrupts, replacements, rewinds and sub-agents.
use peras.Prelude.{
  ℕ, ◌+◌, ◌-◌, Bool, true, false, ◌||◌, Option, none, some, List, [], ◌∷◌, ◌++◌, if◌then◌else◌, ltb,
  put, text_key,
}
use peras.Proto.Envelope.{EventId, SessionId, CallId, Seq}
use peras.Proto.Verdict.{HookPoint, Question, TurnOutcome}
use peras.Proto.Event.{Envelope, Replacement, GateRef}
use peras.Kernel.Data.{Externals, Op, Slot, CallGate, Exec, PreCompact, Turn, State, Subagent}
use peras.Kernel.Collections.{push, index_get}
use peras.Kernel.Context.{apply_replacement, is_summary}
use peras.Kernel.Gate.Canonical.{is_changes_question}
use peras.Kernel.Turns.{effect_key, update_slot, map_turn, is_running}
use peras.Kernel.Evolve.Settling.{reset_waiting}
use peras.Kernel.Evolve.Project.{taint_all, rebuild_context}

unfoldable pub waiting_slot : Question → Slot → Slot
waiting_slot q sl = record sl { gate = CallGate.await_human q.id none }

unfoldable pub question_point : Bool → GateRef → HookPoint
question_point changes (GateRef.call c) =
    if changes then HookPoint.post_tool else HookPoint.permission
question_point changes _ = HookPoint.pre_sample

unfoldable pub ask_call : Bool → Question → GateRef → Turn → Turn
unfolding waiting_slot
ask_call false q (GateRef.call cid) t = record t {
  slots = update_slot cid (waiting_slot q) t.slots;
}
ask_call _ q subject t = t

unfoldable pub on_question_asked : Question → GateRef → State → State
unfolding question_point ask_call
on_question_asked q subject s =
    let changes = is_changes_question q.id in
    map_turn (ask_call changes q subject) (record s {
      questions =
          put q.id
            (record {
              question = q;
              subject = subject;
              point = question_point changes subject;
              gate = none;
            })
            s.questions;
    })

unfoldable pub stopped_slot : Slot → Slot
stopped_slot sl = record sl {
  post = none;
  exec = if is_running sl.exec then Exec.idle else sl.exec;
}

unfoldable pub stopped_slots : List Slot → List Slot
unfolding stopped_slot
stopped_slots [] = []
stopped_slots (sl ∷ more) = stopped_slot sl ∷ stopped_slots more

unfoldable pub stopped_turn : Turn → Turn
unfolding stopped_slots
stopped_turn t = record t {
  sample = none;
  compact = none;
  precompact = PreCompact.unset;
  soft = true;
  slots = stopped_slots t.slots;
}

unfoldable pub on_interrupted : Bool → ℕ → State → State
unfolding stopped_turn
on_interrupted true epoch s = map_turn stopped_turn (record s {
  epoch = epoch;
  issued = [];
  held = [];
  questions = [];
  session_gate = reset_waiting s.session_gate;
})
on_interrupted false epoch s = map_turn (λ t. record t { soft = true }) s

unfoldable pub replaced_turn : Replacement → Turn → Turn
replaced_turn rep t = record t { relief = true; compacted = t.compacted || is_summary rep.kind }

unfoldable pub on_replaced : Envelope → Replacement → State → State
unfolding replaced_turn
on_replaced ev rep s = map_turn (replaced_turn rep) (
    taint_all ev.id rep.untrusted_sources (record s {
      context = apply_replacement s.context ev.id ev.at rep;
      ops = push (Op.replace ev.seq ev.id ev.at rep) s.ops;
      usage_basis = none;
    }))

-- The branch after the target is abandoned, up to the rewind itself.
unfoldable pub on_rewind_completed : Externals → Seq → EventId → State → State
on_rewind_completed x seq to s =
    let s1 = record s { restoring = none } in
    elim (index_get to s1.index) [
      | none ↦ s1
      | some t ↦ rebuild_context x (
          if ltb (t + 1) seq
          then record s1 { abandoned = s1.abandoned ++ (t + 1, seq - 1) ∷ [] }
          else s1)
    ]

unfoldable pub finish_child : CallId → SessionId → TurnOutcome → Option Subagent → Subagent
finish_child call child outcome none = record { call = call; child = child; outcome = some outcome }
finish_child call child outcome (some e) = record e { outcome = some outcome }
