-- ===== src/Proto/Names.antt =====
-- `Event::type_name` of crates/proto/src/event.rs.
use peras.Prelude.{Text, txt}
use peras.Proto.Event.{Event}

unfoldable pub type_name : Event → Text
type_name (Event.session_started _ _ _ _) = txt "session_started"
type_name (Event.sequence_opened _) = txt "sequence_opened"
type_name (Event.config_changed _ _) = txt "config_changed"
type_name (Event.model_switched _ _ _) = txt "model_switched"
type_name (Event.turn_started _) = txt "turn_started"
type_name (Event.user_message _ _) = txt "user_message"
type_name (Event.injected _ _) = txt "injected"
type_name (Event.assistant_replied _ _) = txt "assistant_replied"
type_name (Event.tool_resulted _ _) = txt "tool_resulted"
type_name (Event.turn_ended _) = txt "turn_ended"
type_name (Event.effect_issued _ _) = txt "effect_issued"
type_name (Event.effect_settled _) = txt "effect_settled"
type_name (Event.verdict_recorded _ _ _ _ _) = txt "verdict_recorded"
type_name (Event.question_asked _ _) = txt "question_asked"
type_name (Event.question_answered _ _ _) = txt "question_answered"
type_name (Event.interrupted _ _) = txt "interrupted"
type_name Event.paused = txt "paused"
type_name Event.resumed = txt "resumed"
type_name (Event.suspended _) = txt "suspended"
type_name (Event.replaced _) = txt "replaced"
type_name (Event.state_snapshot _ _) = txt "state_snapshot"
type_name (Event.snapshot_cleared _) = txt "snapshot_cleared"
type_name (Event.instructions_injected _ _) = txt "instructions_injected"
type_name (Event.memory_loaded _) = txt "memory_loaded"
type_name Event.taint_cleared = txt "taint_cleared"
type_name (Event.destination_allowed _) = txt "destination_allowed"
type_name (Event.checkpoint_taken _) = txt "checkpoint_taken"
type_name (Event.rewind_planned _) = txt "rewind_planned"
type_name (Event.rewind_completed _ _) = txt "rewind_completed"
type_name (Event.subagent_started _ _) = txt "subagent_started"
type_name (Event.subagent_finished _ _ _) = txt "subagent_finished"
type_name (Event.usage_charged _ _) = txt "usage_charged"
type_name (Event.plugin _ _ _) = txt "plugin"
type_name (Event.tombstone _) = txt "tombstone"
