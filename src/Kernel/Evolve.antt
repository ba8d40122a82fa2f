-- ===== src/Kernel/Evolve.antt =====
-- crates/kernel/src/state.rs, `evolve`: the only way in which state changes.
pub mod Project
pub mod Erase
pub mod Signals
pub mod Reply
pub mod Issue
pub mod Verdicts
pub mod Plugin
pub mod Closure
pub mod Hooks
pub mod Settling
pub mod Turning
unfoldable pub use Settling.*
unfoldable pub use Turning.*
use peras.Prelude.{
  ℕ, ◌+◌, ◌-◌, max, Bool, true, false, not, ◌&&◌, ◌||◌, Option, none, some, List, [], ◌∷◌, ◌++◌,
  if◌then◌else◌, ltb, Text, txt, text_eq, insert, sat_add64, add64, put, remove, lookup, retain,
  text_key, Map,
}
use peras.Proto.Envelope.{
  EventId, SessionId, CallId, ModelId, EffectId, Seq, Trust, model_visible, effect_id_eq,
}
use peras.Proto.Verdict.{HookPoint, Question, ToolCall, ToolResult, SubagentReport, TurnOutcome}
use peras.Proto.Model.{ModelCaps, RenderProfile, SeqHead}
use peras.Proto.Config.{KernelConfig}
use peras.Proto.Effect.{Effect, checkpoint, restore}
use peras.Proto.Event.{Event, Envelope, Replacement, GateRef, CheckpointInfo}
use peras.Kernel.Data.{
  Externals, Entry, Op, Slot, CallGate, Exec, TGate, PreCkpt, PreCompact, Turn, Issued, Mail,
  PendingQuestion, State, Taint, Subagent,
}
use peras.Kernel.Collections.{push, index_insert, index_get}
use peras.Kernel.Context.{apply_replacement, is_summary}
use peras.Kernel.Gate.Canonical.{is_changes_question}
use peras.Kernel.Gate.Ring1.{compile}
use peras.Kernel.Turns.{
  effect_key, caps_for, find_slot, update_slot, map_turn, is_waiting, is_running, holds,
}
use peras.Kernel.Evolve.Project.{taint, taint_all, make_entry, append_some, rebuild_context}
use peras.Kernel.Evolve.Erase.{on_tombstone}
use peras.Kernel.Evolve.Signals.{remove_first, on_turn_started}
use peras.Kernel.Evolve.Reply.{on_reply, is_effect}
use peras.Kernel.Evolve.Issue.{on_issued}
use peras.Kernel.Evolve.Verdicts.{on_verdict}
use peras.Kernel.Evolve.Plugin.{on_plugin, on_instructions}

-- What every event does: the clock of sequence numbers, the index, and taint by its trust.
unfoldable pub observed : Envelope → State → State
unfolding add64
observed ev s =
    let s1 = record s {
      next_seq = max s.next_seq (add64 ev.seq 1);
      index = index_insert ev.id ev.seq s.index;
    } in
    if model_visible ev.audience
    then elim ev.trust [ Trust.untrusted source ↦ taint ev.id source s1 | _ ↦ s1 ]
    else s1

-- The `match` on the body.
unfoldable pub handle : Externals → Envelope → Event → State → State
unfolding on_session_started switched_caps same_mail on_turn_ended finish_child remove_first
handle x ev (Event.session_started session profile_hash config parent) s =
    on_session_started x session profile_hash config s
handle x ev (Event.sequence_opened head) s = record s { head = some head; usage_basis = none }
handle x ev (Event.config_changed profile_hash config) s =
    record (configure x profile_hash config s) { pending_config = none }
handle x ev (Event.model_switched from to reason) s = record s { caps = some (switched_caps s to) }
handle x ev (Event.turn_started cause) s = on_turn_started cause ev.at ev.seq s
handle x ev (Event.user_message t attachments) s = append_some (make_entry ev) s
handle x ev (Event.injected source t) s =
    append_some (make_entry ev) (record s { mailbox = remove_first (same_mail source t) s.mailbox })
handle x ev (Event.assistant_replied message effect) s = on_reply x ev message effect s
handle x ev (Event.tool_resulted call result) s = on_tool_resulted ev call result s
handle x ev (Event.turn_ended outcome) s = on_turn_ended outcome s
handle x ev (Event.effect_issued id effect) s = on_issued x id effect ev.seq s
handle x ev (Event.effect_settled id) s = on_settled id s
handle x ev (Event.usage_charged source spend) s = record s {
  tokens_used = sat_add64 s.tokens_used spend.tokens;
  cost_used = sat_add64 s.cost_used spend.cost_micros;
}
handle x ev (Event.verdict_recorded subject point ring v responder) s =
    on_verdict subject point ring v responder s
handle x ev (Event.question_asked q subject) s = on_question_asked q subject s
handle x ev (Event.question_answered q answer responder) s = record s {
  questions = remove q s.questions;
}
handle x ev (Event.interrupted hard epoch) s = on_interrupted hard epoch s
handle x ev Event.paused s = record s { paused = true }
handle x ev Event.resumed s = record s { paused = false; held = [] }
handle x ev (Event.suspended reason) s = s
handle x ev (Event.replaced rep) s = on_replaced ev rep s
handle x ev (Event.state_snapshot key t) s =
    append_some (make_entry ev) (record s { snaps = put key (t, ev.at) s.snaps })
handle x ev (Event.snapshot_cleared key) s =
    append_some (make_entry ev) (record s { snaps = remove key s.snaps })
handle x ev (Event.instructions_injected path t) s =
    append_some (make_entry ev) (on_instructions ev.id path t s)
handle x ev (Event.memory_loaded t) s = append_some (make_entry ev) s
handle x ev Event.taint_cleared s = record s {
  taint = record {
    tainted = false;
    sources = [];
    labels = [];
    private_read = s.taint.private_read;
  };
}
handle x ev (Event.destination_allowed d) s = record s { destinations = insert d s.destinations }
handle x ev (Event.checkpoint_taken info) s = record s {
  checkpoints = push (ev.seq, info.id) s.checkpoints;
}
handle x ev (Event.rewind_planned plan) s = s
handle x ev (Event.rewind_completed report to) s = on_rewind_completed x ev.seq to s
handle x ev (Event.plugin kind ignorable value) s = on_plugin x ev kind value s
handle x ev (Event.subagent_started call child) s = record s {
  children = put call (record { call = call; child = child; outcome = none }) s.children;
}
handle x ev (Event.subagent_finished call child outcome) s = record s {
  children = put call (finish_child call child outcome (lookup call s.children)) s.children;
}
handle x ev (Event.tombstone target) s = on_tombstone x target s

unfoldable pub evolve : Externals → Envelope → State → State
unfolding observed handle
evolve x ev s = handle x ev ev.body (observed ev s)
