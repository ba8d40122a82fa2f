-- ===== src/Kernel/Turns.antt =====
-- crates/kernel/src/state.rs: turns, slots, issued effects, and the queries on a state.
pub mod Requests
use peras.Prelude.{
  ℕ, suc, ◌+◌, Bool, true, false, not, ◌&&◌, ◌||◌, Option, none, some, List, [], ◌∷◌, ◌++◌, map,
  if◌then◌else◌, ltb, leb, ◌==◌, Text, text_eq, any, find, length, take, lookup, put, text_key, Map,
  Key,
}
use peras.Proto.Envelope.{CallId, EffectId, Seq, Timestamp, ModelId, effect_id_eq, effect_id_eq_iff}
use peras.Proto.Verdict.{ToolCall, HookPoint, point_eq}
use peras.Proto.Config.{KernelConfig}
use peras.Proto.Model.{ModelCaps, SeqHead}
use peras.Proto.Render.{Rendered, Role, text_fragment}
use peras.Proto.Effect.{Effect, sample, compact, sample_ref, compact_ref, Prompt}
use peras.Proto.Event.{TurnCause}
use peras.Kernel.Data.{
  Externals, Entry, Slot, CallGate, Exec, TGate, PreCkpt, PreCompact, Turn, Issued, Phase, State,
}
use peras.Kernel.Gate.Canonical.{call_key}

-- The derived order of `EffectId`.
abbrev pub effect_id_before : EffectId → EffectId → Bool
effect_id_before a b = if a.epoch == b.epoch then ltb a.n b.n else ltb a.epoch b.epoch

instance abbrev pub effect_key : Key EffectId
effect_key = record { same = effect_id_eq; before = effect_id_before; same_iff = effect_id_eq_iff }

unfoldable pub new_turn : ℕ → TurnCause → Timestamp → Seq → Turn
new_turn number cause at start_seq = record {
  no = number;
  start_seq = start_seq;
  cause = cause;
  started_at = at;
  sample = none;
  compact = none;
  reply = none;
  slots = [];
  soft = false;
  suspended = false;
  submit = TGate.unset;
  presample = TGate.unset;
  stop = TGate.unset;
  precompact = PreCompact.unset;
  overflow = false;
  pre_ckpt = PreCkpt.unset;
  sp_ckpt = false;
  relief = false;
  executed_step = false;
  calls = 0;
  repeats = [];
  focus = [];
  compacted = false;
}

-- `slot` and `slot_mut`: the first slot of the call.
unfoldable pub find_slot : CallId → List Slot → Option Slot
find_slot id [] = none
find_slot id (sl ∷ more) = if text_eq sl.call.id id then some sl else find_slot id more

unfoldable pub update_slot : CallId → (Slot → Slot) → List Slot → List Slot
update_slot id f [] = []
update_slot id f (sl ∷ more) =
    let later = update_slot id f more in if text_eq sl.call.id id then f sl ∷ more else sl ∷ later

-- The count of a call's key after one more call, a u32.
count_call : Text → Map Text ℕ → ℕ
count_call key repeats = elim (lookup key repeats) [ none ↦ 1 | some r ↦ r + 1 ]

unfoldable pub new_slot : Externals → ToolCall → Bool → Turn → Turn
unfolding count_call
new_slot x call in_reply t =
    let key = call_key x call in
    let repeat = count_call key t.repeats in
    record t {
      calls = t.calls + 1;
      repeats = put key repeat t.repeats;
      slots =
          t.slots
          ++ (record {
            call = call;
            gate = CallGate.unchecked;
            exec = Exec.idle;
            rewrites = 0;
            in_reply = in_reply;
            result = false;
            post = none;
            ordinal = t.calls + 1;
            repeat = repeat;
            deferred = none;
          })
            ∷ [];
    }

unfoldable pub map_turn : (Turn → Turn) → State → State
map_turn f s = elim s.turn [ none ↦ s | some t ↦ record s { turn = some (f t) } ]

-- `Issued::capture`: the head and the context prefix that a request reference stands for.
unfoldable pub renderings : List Entry → List Rendered
renderings [] = []
renderings (e ∷ es) = e.rendered ∷ renderings es

unfoldable pub same_seq : ℕ → Option SeqHead → Option SeqHead
same_seq seq_no none = none
same_seq seq_no (some h) = if h.seq_no == seq_no then some h else none

unfoldable pub captured : Effect → Option SeqHead → ℕ → List Entry → Issued
unfolding renderings
captured effect none entries context = record { effect = effect; head = none; body = [] }
captured effect (some h) entries context =
    let body : List Rendered =
      if leb entries (length context) then renderings (take entries context) else [] in
    record { effect = effect; head = if length body == entries then some h else none; body = body }

unfoldable pub capture : State → Effect → Issued
unfolding captured same_seq
capture s (sample_ref r) = captured (sample_ref r) (same_seq r.seq_no s.head) r.entries s.context
capture s (compact_ref r) = captured (compact_ref r) (same_seq r.seq_no s.head) r.entries s.context
capture s effect = record { effect = effect; head = none; body = [] }

unfoldable pub rebuilt : SeqHead → List Rendered → Effect → Effect
rebuilt head body (sample_ref r) =
    sample (record { head = head; body = body; max_tokens = r.max_tokens })
rebuilt head body (compact_ref r) = compact (record {
  prompt = record {
    head = head;
    body = body ++ text_fragment Role.user r.instruction ∷ [];
    max_tokens = r.max_tokens;
  };
  range = r.range;
  overflow = r.overflow;
})
rebuilt head body effect = effect

unfoldable pub dispatchable : Issued → Effect
unfolding rebuilt
dispatchable i = elim i.head [ none ↦ i.effect | some head ↦ rebuilt head i.body i.effect ]

unfoldable pub outstanding : State → List (EffectId × Effect)
outstanding s = map (λ (p : EffectId × Issued). (p.0, dispatchable p.1)) s.issued

-- ---- queries ----
unfoldable pub hooked : State → HookPoint → Bool
unfolding any
hooked s p = elim s.config [ none ↦ false | some cfg ↦ any (point_eq p) cfg.hooked ]

unfoldable pub is_abandoned : List (Seq × Seq) → Seq → Bool
unfolding any
is_abandoned ranges seq = any (λ (r : Seq × Seq). leb r.0 seq && leb seq r.1) ranges

unfoldable pub max_continuations : State → ℕ
max_continuations s = elim s.config [ none ↦ 0 | some cfg ↦ cfg.budgets.max_continuations ]

-- Caps of a model among the configured chain.
unfoldable pub caps_for : State → ModelId → Option ModelCaps
unfolding find
caps_for s model = elim s.config [
  | none ↦ none
  | some cfg ↦ find (λ (c : ModelCaps). text_eq c.model model) (cfg.caps ∷ cfg.fallbacks)
]

abbrev pub is_waiting : TGate → Bool
is_waiting (TGate.waiting _) = true
is_waiting _ = false

abbrev pub compact_waiting : PreCompact → Bool
compact_waiting (PreCompact.waiting _) = true
compact_waiting _ = false

abbrev pub is_running : Exec → Bool
is_running (Exec.running _) = true
is_running _ = false

abbrev pub holds {ℓ} : {A : Type ℓ} → Option A → Bool
holds none = false
holds (some _) = true

abbrev awaits : CallGate → Bool
awaits (CallGate.await_hook _ _) = true
awaits (CallGate.await_human _ _) = true
awaits (CallGate.need_human _) = true
awaits _ = false

turn_phase : State → Turn → Phase
unfolding any
turn_phase s t =
    if t.suspended
    then Phase.suspended
    else if holds t.compact
    then Phase.compacting
    else if holds t.sample
    then Phase.sampling
    else if any (λ (sl : Slot). not sl.result && awaits sl.gate) t.slots
        || (is_waiting t.submit
            || (is_waiting t.presample
                || (is_waiting t.stop
                    || (compact_waiting t.precompact || is_waiting s.session_gate))))
    then Phase.gated
    else if any (λ (sl : Slot). is_running sl.exec || holds sl.post) t.slots
    then Phase.acting
    else Phase.sampling

unfoldable pub phase : State → Phase
unfolding turn_phase
phase s =
    if holds s.restoring
    then Phase.restoring
    else elim s.turn [ none ↦ Phase.idle | some t ↦ turn_phase s t ]
