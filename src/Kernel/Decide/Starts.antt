-- ===== src/Kernel/Decide/Starts.antt =====
-- crates/kernel/src/decide.rs and spawn.rs: the drafts of a new session (`start_session`), of a child
-- (`start_session_with`) and of a fork.
use peras.Prelude.{
  false, Option, none, some, List, [], ◌∷◌, if◌then◌else◌, Text, txt, glue, trim, is_empty,
}
use peras.Proto.Envelope.{SessionId, Trust, Origin, Audience}
use peras.Proto.Value.{Value, boolean, string, array, object, Items, nil, item, field, end}
use peras.Proto.Config.{KernelConfig}
use peras.Proto.Event.{Event, Draft, Parent, internal_draft}
use peras.Kernel.Data.{Externals, Taint, Entry}
use peras.Kernel.Initial.{initial}
use peras.Kernel.Spawn.{ForkSeed}
use peras.Kernel.Decide.Commands.{
  Action, Decision, new_cx, Outcome, run, ◌>>◌, done, emit, for_each, user_draft,
}
use peras.Kernel.Decide.Emitting.{internal, visible}
use peras.Kernel.Decide.Sequences.{head_of, open_sequence, reopen}

abbrev started : SessionId → Text → KernelConfig → Option SessionId → Draft
started session profile_hash config parent =
    record (user_draft (Event.session_started session profile_hash config parent)) {
      origin = Origin.system;
    }

unfoldable pub start_session : SessionId → Text → KernelConfig → Decision
unfolding head_of
start_session session profile_hash config = record {
  events =
      started session profile_hash config none
      ∷ internal_draft (Event.sequence_opened (head_of config config.caps 0))
      ∷ [];
  effects = [];
}

pub record SessionStart : Type 0 where
  pub parent : Option SessionId
  pub memory : Option Text
  pub taint : Option Taint
  pub fork : Option ForkSeed

unfoldable pub strings : List Text → Items
strings [] = nil
strings (t ∷ ts) = item (string t) (strings ts)

unfoldable pub taint_value : Taint → Value
unfolding strings
taint_value t = object (
    field (txt "tainted") (boolean t.tainted) (
      field (txt "labels") (array (strings t.labels))
        (field (txt "private_read") (boolean t.private_read) end)))

inherit : Option SessionId → Option Taint → Action
unfolding taint_value
inherit parent none = done
inherit parent (some t) =
    let source : Text = elim parent [
      | none ↦ txt "parent"
      | some p ↦ glue (txt "session:" ∷ p ∷ [])
    ] in
    emit
      (record (internal_draft (Event.plugin (txt "kernel.taint_inherited") false (taint_value t))) {
        origin = Origin.session source;
      })

load_memory : Externals → Option Text → Action
load_memory x none = done
load_memory x (some t) =
    if is_empty (trim t)
    then done
    else visible x Origin.system Trust.guidance (Event.memory_loaded t)

-- A fragment that a fork inherits, with its rendering.
fork_draft : Externals → Entry → Draft
unfolding strings
fork_draft x e = record {
  parent = Parent.head;
  origin = Origin.system;
  trust = Trust.internal;
  audience = Audience.model;
  body = Event.plugin (txt "kernel.fork_entry") false (
      object (
        field (txt "kind") (x.kind_value e.kind)
          (field (txt "untrusted") (array (strings e.untrusted)) end)));
  rendered = some e.rendered;
}

-- The parent's head and fragments, and then what the child's configuration changes.
unfoldable pub fork : Externals → ForkSeed → KernelConfig → Action
unfolding fork_draft reopen
fork x seed config = do
  internal (Event.sequence_opened seed.head)
  for_each seed.entries (λ e. emit (fork_draft x e))
  reopen x (record config { system = seed.head.system; tools = seed.head.tools }) config seed.head

open_session : Externals → KernelConfig → Option Text → Option ForkSeed → Action
unfolding fork load_memory
open_session x config memory none = do open_sequence x false; load_memory x memory
open_session x config memory (some seed) = fork x seed config

unfoldable pub start_program : Externals → SessionId → Text → KernelConfig → SessionStart → Action
unfolding inherit open_session
start_program x session profile_hash config start = do
  emit (started session profile_hash config start.parent)
  inherit start.parent start.taint
  open_session x config start.memory start.fork

unfoldable pub start_session_with :
    Externals → SessionId → Text → KernelConfig → SessionStart → Outcome (Unit {0})
unfolding start_program run
start_session_with x session profile_hash config start =
    run x (start_program x session profile_hash config start) (new_cx initial 0)
