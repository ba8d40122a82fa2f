-- ===== src/Kernel/Frame/Handlers.antt =====
-- The rest of the handlers: results, questions, replacements, rewinds, erasures, plugin events, and
-- what the issue of an effect does after it was noted.
use peras.Prelude.{
  ◌≡◌, refl, ◌∙◌, sym, ap, subst, text_eq, text_eq_iff, arith, true, false, Option, none, some,
  List, [], ◌∷◌, Text, Bool-cases, inl, inr, txt, is_empty, any, if◌then◌else◌,
}
use peras.Proto.Envelope.{EventId, EffectId, Seq}
use peras.Proto.Verdict.{ToolCall, ToolResult, SubagentReport, Question}
use peras.Proto.Value.{Value}
use peras.Proto.Effect.{Effect, GateRequest, GateSubject}
use peras.Proto.Event.{Envelope, Replacement, GateRef}
use peras.Kernel.Data.{Externals, Turn, State, Taint, Op}
use peras.Kernel.Collections.{push}
use peras.Kernel.Context.{apply_replacement}
use peras.Kernel.Gate.Canonical.{call_summary}
use peras.Kernel.Gate.Ring1.{reads_private}
use peras.Kernel.Evolve.Signals.{on_pending_signal, on_dropped_signal}
use peras.Kernel.Turns.{map_turn, effect_key}
use peras.Kernel.Evolve.{
  on_tool_resulted, spend_report, on_question_asked, on_replaced, on_rewind_completed,
}
use peras.Kernel.Evolve.Project.{append_some, append_entry, taint, taint_all, rebuild_context}
use peras.Kernel.Evolve.Erase.{on_tombstone, scrub_ops}
use peras.Kernel.Evolve.Plugin.{
  on_plugin, fork_entry, get_str, get_value, bind, as_str, focus_turn, is_set, texts_at,
  on_taint_inherited, on_instructions, pending_instructions, omitted_instructions,
}
use peras.Kernel.Evolve.Issue.{
  issue_global, issue_turn, issue_gate, tool_gate, leaves_traces, list_irreversible,
}
use peras.Kernel.Frame.{
  Core, core, watched, watched-map_turn, watched-append_some, core-taint_all,
  watched-on_pending_signal, core-if, watched-on_dropped_signal,
}

watched-spend : (r : Option SubagentReport) (s : State) → watched (spend_report r s) ≡ watched s
unfolding spend_report
watched-spend r s = ground arith

pub watched-on_tool_resulted :
    (ev : Envelope) (call : ToolCall) (r : ToolResult) (s : State)
    → watched (on_tool_resulted ev call r s) ≡ watched s
unfolding on_tool_resulted append_some append_entry
watched-on_tool_resulted ev call r s = ground (arith, watched-spend r.subagent s)

pub watched-on_question_asked :
    (q : Question) (g : GateRef) (s : State) → watched (on_question_asked q g s) ≡ watched s
unfolding on_question_asked map_turn
watched-on_question_asked q g s = ground arith

pub core-on_replaced :
    (ev : Envelope) (rep : Replacement) (s : State) → core (on_replaced ev rep s) ≡ core s
unfolding on_replaced map_turn
core-on_replaced ev rep s =
    let s1 : State = record s {
      context = apply_replacement s.context ev.id ev.at rep;
      ops = push (Op.replace ev.seq ev.id ev.at rep) s.ops;
      usage_basis = none;
    } in
    ground (arith, core-taint_all ev.id rep.untrusted_sources s1)

pub watched-on_rewind_completed :
    (x : Externals) (seq : Seq) (to : EventId) (s : State)
    → watched (on_rewind_completed x seq to s) ≡ watched s
unfolding on_rewind_completed rebuild_context
watched-on_rewind_completed x seq to s = ground arith

pub watched-on_tombstone :
    (x : Externals) (id : EventId) (s : State) → watched (on_tombstone x id s) ≡ watched s
unfolding on_tombstone scrub_ops map_turn
watched-on_tombstone x id s = ground arith

pub watched-on_instructions :
    (id : EventId) (p t : Text) (s : State) → watched (on_instructions id p t s) ≡ watched s
unfolding on_instructions
watched-on_instructions id p t s = refl

core-on_taint_inherited :
    (x : Externals) (id : EventId) (v : Value) (s : State)
    → core (on_taint_inherited x id v s) ≡ core s
unfolding on_taint_inherited taint
core-on_taint_inherited x id v s =
    let start : State =
      if is_empty (texts_at x (txt "labels") v) then taint id (txt "parent") s else s in
    let s1 : State =
      if is_set (txt "tainted") v then taint_all id (texts_at x (txt "labels") v) start else s in
    let from : core s1 ≡ core s =
      core-if (is_set (txt "tainted") v) (taint_all id (texts_at x (txt "labels") v) start) s
        (core-taint_all id (texts_at x (txt "labels") v) start
          ∙ core-if (is_empty (texts_at x (txt "labels") v)) (taint id (txt "parent") s) s refl
              refl)
        refl in
    core-if (is_set (txt "private_read") v)
      (record s1 { taint = record s1.taint { private_read = true } }) s1 from from

watched-pending : (p t : Option Text) (s : State) → watched (pending_instructions p t s) ≡ watched s
unfolding pending_instructions
watched-pending p t s = ground arith

watched-omitted : (p t : Option Text) (s : State) → watched (omitted_instructions p t s) ≡ watched s
unfolding omitted_instructions
watched-omitted p t s = ground arith

watched-elim {ℓ} :
    {A : Type ℓ} (o : Option A) (s : State) (f : A → State)
    → ((a : A) → watched (f a) ≡ watched s)
    → watched (elim o [ none ↦ s | some a ↦ f a ]) ≡ watched s
watched-elim none s f h = refl
watched-elim (some a) s f h = h a

-- The events that bear no taint of a parent.
pub watched-on_plugin :
    (x : Externals) (ev : Envelope) (kind : Text) (v : Value) (s : State)
    → text_eq kind (txt "kernel.taint_inherited") ≡ false
    → watched (on_plugin x ev kind v s) ≡ watched s
unfolding on_plugin
watched-on_plugin x ev kind v s h = ground (
  arith,
  watched-append_some (fork_entry x ev v) s,
  watched-pending (get_str (txt "path") v) (get_str (txt "text") v) s,
  watched-omitted (get_str (txt "path") v) (get_str (txt "hash") v) s,
  watched-elim (x.signal_of v) s (λ sig. on_pending_signal sig s)
      (λ sig. watched-on_pending_signal sig s),
  watched-elim (bind (get_value (txt "signal") v) x.signal_of) s (λ sig. on_dropped_signal sig s)
      (λ sig. watched-on_dropped_signal sig s),
  watched-elim (x.config_of v) s (λ cfg. record s { pending_config = some cfg }) (λ cfg. refl),
  watched-elim (as_str v) s (λ f. map_turn (focus_turn f) s)
      (λ f. watched-map_turn (focus_turn f) s),
  watched-map_turn (λ t. record t { overflow = true }) s,
)

pub inherited-on_plugin :
    (x : Externals) (ev : Envelope) (kind : Text) (v : Value) (s : State)
    → text_eq kind (txt "kernel.taint_inherited") ≡ true
    → on_plugin x ev kind v s ≡ on_taint_inherited x ev.id v s
unfolding on_plugin on_taint_inherited text_eq get_value txt
inherited-on_plugin x ev kind v s h =
    subst (λ k. on_plugin x ev k v s ≡ on_taint_inherited x ev.id v s)
      (sym ((text_eq_iff kind (txt "kernel.taint_inherited")).0 h)) refl

pub core-on_plugin :
    (x : Externals) (ev : Envelope) (kind : Text) (v : Value) (s : State)
    → core (on_plugin x ev kind v s) ≡ core s
core-on_plugin x ev kind v s = elim (Bool-cases (text_eq kind (txt "kernel.taint_inherited"))) [
  | inl e ↦ ap core (inherited-on_plugin x ev kind v s e) ∙ core-on_taint_inherited x ev.id v s
  | inr e ↦ ap (λ (w : Core × Taint). w.0) (watched-on_plugin x ev kind v s e)
]

core-list_irreversible :
    (x : Externals) (seq : Seq) (cs : List ToolCall) (s : State)
    → core (list_irreversible x seq cs s) ≡ core s
unfolding list_irreversible
core-list_irreversible x seq [] s = refl
core-list_irreversible x seq (c ∷ cs) s =
    let listed : State = record s {
      irreversible =
          push (record { seq = seq; call = c.id; text = call_summary x c }) s.irreversible;
    } in
    core-list_irreversible x seq cs (if leaves_traces c.class then listed else s)
    ∙ core-if (leaves_traces c.class) listed s refl refl

pub core-issue_global :
    (x : Externals) (id : EffectId) (e : Effect) (seq : Seq) (s : State)
    → core (issue_global x id e seq s) ≡ core s
unfolding issue_global map_turn
core-issue_global x id (Effect.execute batch) seq s =
    let private : State = record s { taint = record s.taint { private_read = true } } in
    let s1 : State = if any (reads_private x s) batch.calls then private else s in
    ground (
      arith,
      core-list_irreversible x seq batch.calls s1,
      core-if (any (reads_private x s) batch.calls) private s refl refl,
    )
core-issue_global x id (Effect.gate req) seq s = ground arith
core-issue_global x id e seq s = refl

watched-issue_gate :
    (id : EffectId) (req : GateRequest) (g : GateSubject) (t : Turn) (s : State)
    → watched (issue_gate id req g t s) ≡ watched s
unfolding issue_gate tool_gate
watched-issue_gate id req g t s = ground arith

pub watched-issue_turn :
    (id : EffectId) (e : Effect) (t : Turn) (s : State) → watched (issue_turn id e t s) ≡ watched s
unfolding issue_turn
watched-issue_turn id (Effect.gate req) t s = watched-issue_gate id req req.subject t s
watched-issue_turn id e t s = ground arith
