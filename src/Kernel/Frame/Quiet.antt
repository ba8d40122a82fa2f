-- ===== src/Kernel/Frame/Quiet.antt =====
-- `evolve` on the events that leave the configuration and the effects in flight alone.
use peras.Prelude.{◌≡◌, refl, ◌∙◌, arith, Bool, true, false, put, remove, text_key}
use peras.Proto.Event.{Event, Envelope}
use peras.Kernel.Data.{Externals, State}
use peras.Kernel.Evolve.{handle, same_mail}
use peras.Kernel.Evolve.Signals.{remove_first}
use peras.Kernel.Evolve.Project.{make_entry}
use peras.Kernel.Evolve.Plugin.{on_instructions}
use peras.Kernel.Frame.{
  core, watched, watched-append_some, watched-on_reply, watched-on_turn_started, watched-on_verdict,
}
use peras.Kernel.Frame.Handlers.{
  watched-on_tool_resulted, watched-on_question_asked, core-on_replaced,
  watched-on_rewind_completed, watched-on_tombstone, core-on_plugin, watched-on_instructions,
}

-- The other events: they configure the session, or they change the effects in flight.
abbrev pub is_quiet : Event → Bool
is_quiet (Event.session_started session profile_hash config parent) = false
is_quiet (Event.config_changed profile_hash config) = false
is_quiet (Event.turn_ended outcome) = false
is_quiet (Event.effect_issued id effect) = false
is_quiet (Event.effect_settled id) = false
is_quiet (Event.interrupted hard epoch) = false
is_quiet Event.paused = false
is_quiet Event.resumed = false
is_quiet _ = true

-- The handlers that keep the taint as well.
abbrev pub keeps_taint : Event → Bool
keeps_taint (Event.replaced rep) = false
keeps_taint (Event.plugin kind ignorable value) = false
keeps_taint Event.taint_cleared = false
keeps_taint body = is_quiet body

pub watched-handle :
    (x : Externals) (ev : Envelope) (body : Event) (s : State)
    → keeps_taint body ≡ true
    → watched (handle x ev body s) ≡ watched s
unfolding handle
watched-handle x ev (Event.user_message t a) s h = watched-append_some (make_entry ev) s
watched-handle x ev (Event.injected source t) s h =
    watched-append_some (make_entry ev)
      (record s { mailbox = remove_first (same_mail source t) s.mailbox })
watched-handle x ev (Event.assistant_replied message effect) s h =
    watched-on_reply x ev message effect s
watched-handle x ev (Event.tool_resulted call r) s h = watched-on_tool_resulted ev call r s
watched-handle x ev (Event.turn_started cause) s h = watched-on_turn_started cause ev.at ev.seq s
watched-handle x ev (Event.verdict_recorded g p ring v who) s h =
    watched-on_verdict g p ring v who s
watched-handle x ev (Event.question_asked q g) s h = watched-on_question_asked q g s
watched-handle x ev (Event.state_snapshot key t) s h =
    watched-append_some (make_entry ev) (record s { snaps = put key (t, ev.at) s.snaps })
watched-handle x ev (Event.snapshot_cleared key) s h =
    watched-append_some (make_entry ev) (record s { snaps = remove key s.snaps })
watched-handle x ev (Event.instructions_injected path t) s h =
    watched-append_some (make_entry ev) (on_instructions ev.id path t s)
    ∙ watched-on_instructions ev.id path t s
watched-handle x ev (Event.memory_loaded t) s h = watched-append_some (make_entry ev) s
watched-handle x ev (Event.rewind_completed report to) s h =
    watched-on_rewind_completed x ev.seq to s
watched-handle x ev (Event.tombstone target) s h = watched-on_tombstone x target s
watched-handle x ev body s h = ground arith

pub core-handle :
    (x : Externals) (ev : Envelope) (body : Event) (s : State)
    → is_quiet body ≡ true
    → core (handle x ev body s) ≡ core s
unfolding handle
core-handle x ev (Event.replaced rep) s h = core-on_replaced ev rep s
core-handle x ev (Event.plugin kind ignorable value) s h = core-on_plugin x ev kind value s
core-handle x ev Event.taint_cleared s h = refl
core-handle x ev body s h = ground (arith, watched-handle x ev body s)
