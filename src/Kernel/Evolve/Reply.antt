-- ===== src/Kernel/Evolve/Reply.antt =====
-- state.rs: `on_reply`, a model reply that joins the context.
use peras.Prelude.{
  Bool, true, false, not, Option, none, some, List, [], ◌∷◌, ◌++◌, if◌then◌else◌, ltb, add64,
  is_empty, retain,
}
use peras.Proto.Envelope.{EffectId, effect_id_eq}
use peras.Proto.Verdict.{ToolCall}
use peras.Proto.Model.{AssistantMessage, tool_calls, message_text, total_context, is_interrupted}
use peras.Proto.Event.{Envelope}
use peras.Kernel.Data.{Externals, Entry, Slot, Turn, State}
use peras.Kernel.Turns.{find_slot, update_slot, new_slot}
use peras.Kernel.Evolve.Project.{make_entry, append_entry, append_some}

-- `x == Some(id)`
abbrev pub is_effect : EffectId → Option EffectId → Bool
is_effect id none = false
is_effect id (some e) = effect_id_eq e id

recorded : Slot → Slot
recorded sl = record sl { in_reply = true; deferred = none }

abbrev entries_of : Option Entry → List Entry
entries_of none = []
entries_of (some e) = e ∷ []

-- The loop over the calls of the reply; the deferred results of early calls come back in order.
take_calls : Externals → List ToolCall → Turn → List Entry → Turn × List Entry
unfolding recorded
take_calls x [] t deferred = (t, deferred)
take_calls x (c ∷ cs) t deferred =
    let slot = find_slot c.id t.slots in
    let t' : Turn = elim slot [
      | some sl ↦ record t { slots = update_slot c.id recorded t.slots }
      | none ↦ new_slot x c true t
    ] in
    let taken : List Entry = elim slot [ some sl ↦ entries_of sl.deferred | none ↦ [] ] in
    take_calls x cs t' (deferred ++ taken)

unfoldable pub append_all : List Entry → State → State
append_all [] s = s
append_all (e ∷ es) s = append_all es (append_entry e s)

-- The counters and the context, with or without a turn.
unfoldable pub counted_reply : Envelope → AssistantMessage → State → State
counted_reply ev message s =
    let u = message.usage in
    let total = total_context u in
    let spent = record s {
      tokens_used = add64 s.tokens_used (
          add64 (add64 (add64 u.input_tokens u.output_tokens) u.cache_read_tokens)
            u.cache_write_tokens);
      cost_used = add64 s.cost_used u.cost_micros;
    } in
    record (append_some (make_entry ev) spent) {
      usage_basis = if ltb 0 total then some total else none;
      est_since = 0;
    }

unfoldable pub reply_turn : Externals → AssistantMessage → EffectId → Turn → Turn × List Entry
unfolding take_calls retain is_empty
reply_turn x message effect t =
    let calls = tool_calls message in
    let t1 = record t {
      sample = if is_effect effect t.sample then none else t.sample;
      reply = some (record {
        has_calls = not (is_empty calls);
        interrupted = is_interrupted message.stop;
        text = message_text message;
      });
    } in
    let (t2, deferred) = take_calls x calls t1 [] in
    (record t2 { slots = retain (λ (sl : Slot). sl.in_reply) t2.slots }, deferred)

unfoldable pub on_reply : Externals → Envelope → AssistantMessage → EffectId → State → State
unfolding counted_reply reply_turn append_all
on_reply x ev message effect s =
    let s1 = counted_reply ev message s in
    elim s1.turn [
      | none ↦ s1
      | some t ↦
          let (t', deferred) = reply_turn x message effect t in
          append_all deferred (record s1 { turn = some t' })
    ]
