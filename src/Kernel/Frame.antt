-- ===== src/Kernel/Frame.antt =====
-- What most of the handlers of crates/kernel/src/state.rs leave alone: the configuration in force,
-- the clock, the index and the effects in flight and the pause (`core`), and the taint with them (`watched`).
pub mod Handlers
pub mod Quiet
use peras.Prelude.{
  ℕ, ◌≡◌, refl, ◌∙◌, ap, arith, Bool, true, false, Option, none, some, List, [], ◌∷◌, Text, Map,
  Bool-cases, Option-cases, inl, inr, ◌+◌, if◌then◌else◌,
}
use peras.Proto.Envelope.{EventId, EffectId, Seq, Timestamp}
use peras.Proto.Verdict.{
  ToolCall, ToolResult, Ring, HookPoint, Verdict, Responder, Question, Context, point_eq,
}
use peras.Proto.Config.{KernelConfig}
use peras.Proto.Model.{AssistantMessage}
use peras.Proto.Signal.{Signal}
use peras.Proto.Effect.{Effect, GateRequest, GateSubject}
use peras.Proto.Event.{Envelope, Event, Replacement, GateRef, TurnCause}
use peras.Kernel.Data.{Externals, Matchers, Entry, Turn, Issued, State, Taint, TGate}
use peras.Kernel.Collections.{SeqIndex}
use peras.Kernel.Turns.{map_turn, new_turn}
use peras.Kernel.Evolve.Project.{
  append_entry, append_some, taint, taint_all, make_entry, rebuild_context,
}
use peras.Kernel.Evolve.Reply.{append_all, counted_reply, reply_turn, on_reply}
use peras.Kernel.Evolve.Signals.{
  on_pending_signal, on_dropped_signal, after_start, on_turn_started, resumed_turn, started_turn,
  is_continuation,
}
use peras.Kernel.Evolve.Verdicts.{
  on_verdict, annotated, annotate, stop_verdict, turn_verdict, subject_verdict, precompact_verdict,
}

abbrev pub Core : Type 0
Core =
    Option KernelConfig
    × Option Matchers
    × Seq
    × SeqIndex
    × ℕ
    × Map EffectId Issued
    × List EffectId
    × Bool

abbrev pub core : State → Core
core s = (s.config, s.m, s.next_seq, s.index, s.next_n, s.issued, s.held, s.paused)

abbrev pub watched : State → Core × Taint
watched s = (core s, s.taint)

pub core-if :
    (b : Bool) (s t : State) {c : Core} → core s ≡ c → core t ≡ c → core (if b then s else t) ≡ c
core-if true s t p q = p
core-if false s t p q = q

pub watched-map_turn : (f : Turn → Turn) (s : State) → watched (map_turn f s) ≡ watched s
unfolding map_turn
watched-map_turn f s = ground arith

pub watched-append_some : (e : Option Entry) (s : State) → watched (append_some e s) ≡ watched s
unfolding append_some append_entry
watched-append_some none s = refl
watched-append_some (some e) s = refl

pub watched-append_all : (es : List Entry) (s : State) → watched (append_all es s) ≡ watched s
unfolding append_all append_entry
watched-append_all [] s = refl
watched-append_all (e ∷ es) s = watched-append_all es (append_entry e s)

pub core-taint_all : (id : EventId) (ls : List Text) (s : State) → core (taint_all id ls s) ≡ core s
unfolding taint_all taint
core-taint_all id [] s = refl
core-taint_all id (l ∷ ls) s = core-taint_all id ls (taint id l s)

watched-counted :
    (ev : Envelope) (message : AssistantMessage) (s : State)
    → watched (counted_reply ev message s) ≡ watched s
unfolding counted_reply append_some append_entry
watched-counted ev message s = ground arith

pub watched-on_reply :
    (x : Externals) (ev : Envelope) (message : AssistantMessage) (id : EffectId) (s : State)
    → watched (on_reply x ev message id s) ≡ watched s
unfolding on_reply
watched-on_reply x ev message id s = elim (Option-cases (counted_reply ev message s).turn) [
  | inl e ↦ rw (e, on_reply) (watched-counted ev message s)
  | inr (t, e) ↦
      rw (e, on_reply)
        (watched-append_all (reply_turn x message id t).1
            (record (counted_reply ev message s) { turn = some (reply_turn x message id t).0 })
          ∙ watched-counted ev message s)
]

watched-after_start : (c : TurnCause) (s : State) → watched (after_start c s) ≡ watched s
unfolding after_start
watched-after_start TurnCause.user s = refl
watched-after_start TurnCause.queued s = refl
watched-after_start TurnCause.wake s = refl
watched-after_start TurnCause.continuation s = refl
watched-after_start TurnCause.compact s = refl

pub watched-on_turn_started :
    (c : TurnCause) (at : Timestamp) (seq : Seq) (s : State)
    → watched (on_turn_started c at seq s) ≡ watched s
unfolding on_turn_started resumed_turn started_turn
watched-on_turn_started c at seq s = ground (
  arith,
  watched-after_start c (record s {
    questions = [];
    turns = s.turns + 1;
    turn = some (new_turn (s.turns + 1) c at seq);
  }),
)

pub watched-on_pending_signal :
    (sig : Signal) (s : State) → watched (on_pending_signal sig s) ≡ watched s
unfolding on_pending_signal
watched-on_pending_signal sig s = ground arith

pub watched-on_dropped_signal :
    (sig : Signal) (s : State) → watched (on_dropped_signal sig s) ≡ watched s
unfolding on_dropped_signal
watched-on_dropped_signal sig s = ground arith

watched-turn_verdict :
    (p : HookPoint) (v : Verdict) (t : Turn) (s : State)
    → watched (turn_verdict p v t s) ≡ watched s
unfolding turn_verdict stop_verdict
watched-turn_verdict p v t s = ground arith

watched-subject_verdict :
    (g : GateRef) (p : HookPoint) (r : Ring) (v : Verdict) (t : Turn) (s : State)
    → watched (subject_verdict g p r v t s) ≡ watched s
unfolding subject_verdict
watched-subject_verdict g p r v t s = ground (arith, watched-turn_verdict p v t s)

watched-annotated :
    (r : Responder) (v : Verdict) (s : State) → watched (annotated r v s) ≡ watched s
unfolding annotated annotate
watched-annotated r v s = ground arith

pub watched-on_verdict :
    (g : GateRef) (p : HookPoint) (r : Ring) (v : Verdict) (who : Responder) (s : State)
    → watched (on_verdict g p r v who s) ≡ watched s
unfolding on_verdict
watched-on_verdict g p r v who s =
    let s1 : State =
      if point_eq p HookPoint.session_start then record s { session_gate = TGate.passed } else s in
    let s2 = annotated who v s1 in
    let from : watched s2 ≡ watched s = watched-annotated who v s1 ∙ ground arith in
    elim (Bool-cases (point_eq p HookPoint.pre_compact)) [
      | inl e ↦ rw e (watched-map_turn (precompact_verdict v) s)
      | inr e ↦ rw e (elim (Option-cases s2.turn) [
        | inl n ↦ rw n from
        | inr (t, n) ↦ rw n (watched-subject_verdict g p r v t s2 ∙ from)
      ])
    ]
