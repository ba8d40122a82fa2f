-- ===== src/Kernel/Invariants/Taints.antt =====
-- The taint of a session only grows until it is cleared.
use peras.Prelude.{
  ℕ, ◌≡◌, ◌≢◌, refl, ◌∙◌, sym, ap, subst, arith, text_eq, max, add64, Bool, true, false, none, List,
  [], ◌∷◌, Text, txt, any, Bool-cases, Option-cases, inl, inr, if◌then◌else◌, contains,
  contains-insert, is_empty,
}
use peras.Proto.Envelope.{EventId, SessionId, EffectId, Seq, Trust, model_visible, is_untrusted}
use peras.Proto.Value.{Value}
use peras.Proto.Verdict.{ToolCall, TurnOutcome}
use peras.Proto.Config.{KernelConfig}
use peras.Proto.Effect.{Effect}
use peras.Proto.Event.{Event, Envelope, Replacement}
use peras.Kernel.Data.{Externals, State, Taint, Op, Turn, PreCkpt}
use peras.Kernel.Collections.{push, index_insert}
use peras.Kernel.Context.{apply_replacement}
use peras.Kernel.Gate.Canonical.{call_summary}
use peras.Kernel.Gate.Ring1.{reads_private}
use peras.Kernel.Turns.{map_turn}
use peras.Kernel.Evolve.{
  observed, handle, evolve, ended, replaced_turn, on_replaced, on_turn_ended, on_settled,
  on_interrupted, on_session_started, configure,
}
use peras.Kernel.Evolve.Project.{taint, taint_all}
use peras.Kernel.Evolve.Plugin.{on_plugin, on_taint_inherited, is_set, texts_at}
use peras.Kernel.Evolve.Issue.{
  noted_issue, on_issued, issue_global, list_irreversible, leaves_traces, run_calls,
}
use peras.Kernel.Frame.{Core, watched-map_turn}
use peras.Kernel.Frame.Handlers.{watched-issue_turn, watched-on_plugin, inherited-on_plugin}
use peras.Kernel.Frame.Quiet.{keeps_taint, watched-handle}

-- The second taint has all that the first one has.
abbrev pub Grows : Taint → Taint → Type 0
Grows a b =
    (a.tainted ≡ true → b.tainted ≡ true)
    × (a.private_read ≡ true → b.private_read ≡ true)
    × ((l : Text) → contains a.labels l ≡ true → contains b.labels l ≡ true)

Grows-refl : (a : Taint) → Grows a a
Grows-refl a = (λ h. h, λ h. h, λ l h. h)

Grows-trans : (a b c : Taint) → Grows a b → Grows b c → Grows a c
Grows-trans a b c (t, p, l) (t', p', l') = (λ h. t' (t h), λ h. p' (p h), λ k h. l' k (l k h))

Grows-if :
    (b : Bool) (a : Taint) (s t : State)
    → Grows a s.taint
    → Grows a t.taint
    → Grows a (if b then s else t).taint
Grows-if true a s t p q = p
Grows-if false a s t p q = q

taint-Grows : (id : EventId) (label : Text) (s : State) → Grows s.taint (taint id label s).taint
unfolding taint
taint-Grows id label s =
    (λ h. refl, λ h. h, λ l h. let e = contains-insert label l s.taint.labels in ground (arith, e))

taint_all-Grows :
    (id : EventId) (ls : List Text) (s : State) → Grows s.taint (taint_all id ls s).taint
unfolding taint_all
taint_all-Grows id [] s = Grows-refl s.taint
taint_all-Grows id (l ∷ ls) s =
    Grows-trans s.taint (taint id l s).taint (taint_all id ls (taint id l s)).taint
      (taint-Grows id l s) (taint_all-Grows id ls (taint id l s))

inherited-Grows :
    (x : Externals) (id : EventId) (v : Value) (s : State)
    → Grows s.taint (on_taint_inherited x id v s).taint
unfolding on_taint_inherited
inherited-Grows x id v s =
    let start : State =
      if is_empty (texts_at x (txt "labels") v) then taint id (txt "parent") s else s in
    let all : State = taint_all id (texts_at x (txt "labels") v) start in
    let s1 : State = if is_set (txt "tainted") v then all else s in
    let from_start : Grows s.taint start.taint =
      Grows-if (is_empty (texts_at x (txt "labels") v)) s.taint (taint id (txt "parent") s) s
        (taint-Grows id (txt "parent") s) (Grows-refl s.taint) in
    let from : Grows s.taint s1.taint =
      Grows-if (is_set (txt "tainted") v) s.taint all s
        (Grows-trans s.taint start.taint all.taint from_start
          (taint_all-Grows id (texts_at x (txt "labels") v) start))
        (Grows-refl s.taint) in
    Grows-if (is_set (txt "private_read") v) s.taint
      (record s1 { taint = record s1.taint { private_read = true } }) s1 (from.0, λ h. refl, from.2)
      from

abbrev taint_of : Core × Taint → Taint
taint_of w = w.1

plugin-Grows :
    (x : Externals) (ev : Envelope) (kind : Text) (v : Value) (s : State)
    → Grows s.taint (on_plugin x ev kind v s).taint
plugin-Grows x ev kind v s = elim (Bool-cases (text_eq kind (txt "kernel.taint_inherited"))) [
  | inl e ↦
      subst (λ (r : State). Grows s.taint r.taint) (sym (inherited-on_plugin x ev kind v s e))
        (inherited-Grows x ev.id v s)
  | inr e ↦
      subst (λ (a : Taint). Grows s.taint a) (sym (ap taint_of (watched-on_plugin x ev kind v s e)))
        (Grows-refl s.taint)
]

replaced-Grows :
    (ev : Envelope) (rep : Replacement) (s : State) → Grows s.taint (on_replaced ev rep s).taint
unfolding on_replaced
replaced-Grows ev rep s =
    let s1 : State = record s {
      context = apply_replacement s.context ev.id ev.at rep;
      ops = push (Op.replace ev.seq ev.id ev.at rep) s.ops;
      usage_basis = none;
    } in
    subst (λ (a : Taint). Grows s.taint a)
      (sym (
        ap taint_of
          (watched-map_turn (replaced_turn rep) (taint_all ev.id rep.untrusted_sources s1))))
      (taint_all-Grows ev.id rep.untrusted_sources s1)

listed-taint :
    (x : Externals) (seq : Seq) (cs : List ToolCall) (s : State)
    → (list_irreversible x seq cs s).taint ≡ s.taint
unfolding list_irreversible
listed-taint x seq [] s = refl
listed-taint x seq (c ∷ cs) s =
    let listed : State = record s {
      irreversible =
          push (record { seq = seq; call = c.id; text = call_summary x c }) s.irreversible;
    } in
    listed-taint x seq cs (if leaves_traces c.class then listed else s)
    ∙ elim (leaves_traces c.class) as (λ (b : Bool). (if b then listed else s).taint ≡ s.taint) [
      | true ↦ refl
      | false ↦ refl
    ]

-- Executing a call that reads private data marks the session.
global-Grows :
    (x : Externals) (id : EffectId) (e : Effect) (seq : Seq) (s : State)
    → Grows s.taint (issue_global x id e seq s).taint
unfolding issue_global
global-Grows x id (Effect.execute batch) seq s =
    let private : State = record s { taint = record s.taint { private_read = true } } in
    let s1 : State = if any (reads_private x s) batch.calls then private else s in
    let from : Grows s.taint s1.taint =
      Grows-if (any (reads_private x s) batch.calls) s.taint private s (λ h. h, λ h. refl, λ l h. h)
        (Grows-refl s.taint) in
    let run : Turn → Turn = λ t.
      run_calls x id batch.calls (record t { pre_ckpt = PreCkpt.unset; executed_step = true }) in
    subst (λ (a : Taint). Grows s.taint a)
      (sym (
        ap taint_of (watched-map_turn run (list_irreversible x seq batch.calls s1))
        ∙ listed-taint x seq batch.calls s1))
      from
global-Grows x id (Effect.gate req) seq s =
    let e : (issue_global x id (Effect.gate req) seq s).taint ≡ s.taint = ground arith in
    subst (λ (a : Taint). Grows s.taint a) (sym e) (Grows-refl s.taint)
global-Grows x id e seq s = Grows-refl s.taint

noted-taint : (id : EffectId) (e : Effect) (s : State) → (noted_issue id e s).taint ≡ s.taint
unfolding noted_issue
noted-taint id e s = ground arith

issued-Grows :
    (x : Externals) (id : EffectId) (e : Effect) (seq : Seq) (s : State)
    → Grows s.taint (on_issued x id e seq s).taint
unfolding on_issued noted_issue
issued-Grows x id e seq s =
    let s0 = noted_issue id e s in
    let s1 = issue_global x id e seq s0 in
    let from : Grows s.taint s1.taint =
      subst (λ (a : Taint). Grows a s1.taint) (noted-taint id e s) (global-Grows x id e seq s0) in
    elim (Option-cases s1.turn) [
      | inl n ↦ rw (on_issued, n) from
      | inr (t, n) ↦
          rw (on_issued, n)
            (subst (λ (a : Taint). Grows s.taint a)
              (sym (ap taint_of (watched-issue_turn id e t s1))) from)
    ]

started-taint :
    (x : Externals) (session : SessionId) (profile_hash : Text) (config : KernelConfig) (s : State)
    → s.taint ≡ (on_session_started x session profile_hash config s).taint
unfolding on_session_started configure
started-taint x session profile_hash config s = ground arith

ended-taint : (o : TurnOutcome) (s : State) → s.taint ≡ (on_turn_ended o s).taint
unfolding on_turn_ended ended map_turn
ended-taint o s = ground arith

settled-taint : (id : EffectId) (s : State) → s.taint ≡ (on_settled id s).taint
unfolding on_settled map_turn
settled-taint id s = ground arith

interrupted-taint :
    (hard : Bool) (epoch : ℕ) (s : State) → s.taint ≡ (on_interrupted hard epoch s).taint
unfolding on_interrupted map_turn
interrupted-taint hard epoch s = ground arith

Grows-eq : (a b : Taint) → a ≡ b → Grows a b
Grows-eq a b e = subst (Grows a) e (Grows-refl a)

-- The events that may touch the taint, or the effects in flight.
loud-Grows :
    (x : Externals) (ev : Envelope) (body : Event) (s : State)
    → keeps_taint body ≡ false
    → body ≢ Event.taint_cleared
    → Grows s.taint (handle x ev body s).taint
unfolding handle configure
loud-Grows x ev (Event.session_started session h config parent) s k n =
    Grows-eq s.taint _ (started-taint x session h config s)
loud-Grows x ev (Event.config_changed h config) s k n = Grows-refl s.taint
loud-Grows x ev (Event.turn_ended o) s k n = Grows-eq s.taint _ (ended-taint o s)
loud-Grows x ev (Event.effect_issued id e) s k n = issued-Grows x id e ev.seq s
loud-Grows x ev (Event.effect_settled id) s k n = Grows-eq s.taint _ (settled-taint id s)
loud-Grows x ev (Event.interrupted hard epoch) s k n =
    Grows-eq s.taint _ (interrupted-taint hard epoch s)
loud-Grows x ev Event.paused s k n = Grows-refl s.taint
loud-Grows x ev Event.resumed s k n = Grows-refl s.taint
loud-Grows x ev (Event.replaced rep) s k n = replaced-Grows ev rep s
loud-Grows x ev (Event.plugin kind ignorable value) s k n = plugin-Grows x ev kind value s
loud-Grows x ev Event.taint_cleared s k n = elim (n refl) [ ]
loud-Grows x ev _ s k n = cc k

handle-Grows :
    (x : Externals) (ev : Envelope) (body : Event) (s : State)
    → body ≢ Event.taint_cleared
    → Grows s.taint (handle x ev body s).taint
handle-Grows x ev body s n = elim (Bool-cases (keeps_taint body)) [
  | inl k ↦ Grows-eq s.taint _ (sym (ap taint_of (watched-handle x ev body s k)))
  | inr k ↦ loud-Grows x ev body s k n
]

noted_event : Envelope → State → State
noted_event ev s = record s {
  next_seq = max s.next_seq (add64 ev.seq 1);
  index = index_insert ev.id ev.seq s.index;
}

seen-Grows :
    (b : Bool) (t : Trust) (id : EventId) (s : State)
    → Grows s.taint
        (if b then elim t [ Trust.untrusted source ↦ taint id source s | _ ↦ s ] else s).taint
seen-Grows true Trust.user id s = Grows-refl s.taint
seen-Grows true Trust.guidance id s = Grows-refl s.taint
seen-Grows true Trust.internal id s = Grows-refl s.taint
seen-Grows true (Trust.untrusted source) id s = taint-Grows id source s
seen-Grows false t id s = Grows-refl s.taint

observed-taints :
    (ev : Envelope) (s : State)
    → model_visible ev.audience ≡ true
    → is_untrusted ev.trust ≡ true
    → (observed ev s).taint.tainted ≡ true
unfolding observed taint
observed-taints ev s visible untrusted = ground arith

observed-Grows : (ev : Envelope) (s : State) → Grows s.taint (observed ev s).taint
unfolding observed noted_event
observed-Grows ev s = seen-Grows (model_visible ev.audience) ev.trust ev.id (noted_event ev s)

-- For every event but the clearing of the taint: a tainted session stays tainted, private data that
-- was read stays read, and no taint label is lost.
pub evolve-Grows :
    (x : Externals) (ev : Envelope) (s : State)
    → ev.body ≢ Event.taint_cleared
    → Grows s.taint (evolve x ev s).taint
unfolding evolve
evolve-Grows x ev s n =
    Grows-trans s.taint (observed ev s).taint (evolve x ev s).taint (observed-Grows ev s)
      (handle-Grows x ev ev.body (observed ev s) n)

-- An event of untrusted content that the model can see taints the session, unless the event is the
-- clearing of the taint itself.
pub untrusted-evolve :
    (x : Externals) (ev : Envelope) (s : State)
    → model_visible ev.audience ≡ true
    → is_untrusted ev.trust ≡ true
    → ev.body ≢ Event.taint_cleared
    → (evolve x ev s).taint.tainted ≡ true
unfolding evolve
untrusted-evolve x ev s visible untrusted n =
    (handle-Grows x ev ev.body (observed ev s) n).0 (observed-taints ev s visible untrusted)
