-- ===== src/Kernel/Evolve/Project.antt =====
-- state.rs: taint, entries of the context, and the projection of the context from its operations.
use peras.Prelude.{
  ℕ, Bool, true, false, not, ◌&&◌, ◌||◌, Option, none, some, List, [], ◌∷◌, ◌++◌, if◌then◌else◌,
  ltb, Text, contains, insert, length, is_empty, sat_add32, put, remove, text_key, Map,
}
use peras.Proto.Envelope.{EventId, Seq, Timestamp, Trust, model_visible}
use peras.Proto.Event.{
  Event, Envelope, user_message, assistant_replied, tool_resulted, state_snapshot, snapshot_cleared,
}
use peras.Kernel.Data.{Externals, Entry, EntryKind, Op, State}
use peras.Kernel.Collections.{push, iter}
use peras.Kernel.Context.{apply_replacement, erase_entry, op_seq}
use peras.Kernel.Turns.{is_abandoned}

-- `MAX_TAINT_SOURCES`
abbrev pub max_taint_sources : ℕ
max_taint_sources = 256

unfoldable pub taint : EventId → Text → State → State
taint id label s = record s {
  taint = record s.taint {
    tainted = true;
    sources =
        if ltb (length s.taint.sources) max_taint_sources && not (contains s.taint.sources id)
        then s.taint.sources ++ id ∷ []
        else s.taint.sources;
    labels = insert label s.taint.labels;
  };
}

unfoldable pub taint_all : EventId → List Text → State → State
taint_all id [] s = s
taint_all id (l ∷ ls) s = taint_all id ls (taint id l s)

unfoldable pub entry_kind : Event → EntryKind
entry_kind (user_message t a) = EntryKind.user
entry_kind (assistant_replied m e) = EntryKind.assistant
entry_kind (tool_resulted c r) = EntryKind.tool_result
entry_kind (state_snapshot key t) = EntryKind.snapshot key
entry_kind (snapshot_cleared key) = EntryKind.snapshot key
entry_kind _ = EntryKind.other

abbrev pub untrusted_labels : Trust → List Text
untrusted_labels (Trust.untrusted source) = source ∷ []
untrusted_labels _ = []

unfoldable pub make_entry : Envelope → Option Entry
make_entry ev =
    if model_visible ev.audience
    then elim ev.rendered [
      | none ↦ none
      | some rendered ↦ some (record {
        seq = ev.seq;
        id = ev.id;
        kind = entry_kind ev.body;
        rendered = rendered;
        untrusted = untrusted_labels ev.trust;
        source = some (ev.body, ev.trust);
        trimmed = false;
        erased = false;
        at = ev.at;
      })
    ]
    else none

unfoldable pub append_entry : Entry → State → State
append_entry e s = record s {
  est_since = sat_add32 s.est_since e.rendered.tokens;
  ops = push (Op.append e) s.ops;
  context = s.context ++ e ∷ [];
}

-- `if let Some(e) = .. { append(s, e) }`
unfoldable pub append_some : Option Entry → State → State
unfolding append_entry
append_some none s = s
append_some (some e) s = append_entry e s

-- One operation on a context.
unfoldable pub apply_op : List Entry → Op → List Entry
apply_op ctx (Op.append e) = ctx ++ e ∷ []
apply_op ctx (Op.replace seq id at rep) = apply_replacement ctx id at rep

abbrev pub is_after : Option Seq → Seq → Bool
is_after none seq = false
is_after (some u) seq = ltb u seq

-- The loop of `project`, which passes over abandoned branches and what comes after `until`.
unfoldable pub replay : List (Seq × Seq) → Option Seq → List Entry → List Op → List Entry
unfolding apply_op
replay abandoned until ctx [] = ctx
replay abandoned until ctx (op ∷ ops) =
    replay abandoned until
      (if is_abandoned abandoned (op_seq op) || is_after until (op_seq op)
        then ctx
        else apply_op ctx op)
      ops

unfoldable pub erase_known : Externals → List EventId → List Entry → List Entry
erase_known x erased [] = []
erase_known x erased (e ∷ es) =
    (if not e.erased && contains erased e.id then erase_entry x e else e) ∷ erase_known x erased es

unfoldable pub project : Externals → State → Option Seq → List Entry
unfolding replay erase_known
project x s until =
    let ctx = replay s.abandoned until [] (iter s.ops) in
    if is_empty s.erased then ctx else erase_known x s.erased ctx

-- The snapshots that the entries of a context show.
snap_of :
    Entry
    → Map Text (Text × Timestamp)
    → EntryKind
    → Option (Event × Trust)
    → Map Text (Text × Timestamp)
snap_of e snaps (EntryKind.snapshot key) (some (state_snapshot k t, trust)) =
    put key (t, e.at) snaps
snap_of e snaps (EntryKind.snapshot key) (some (_, trust)) = remove key snaps
snap_of e snaps (EntryKind.snapshot key) none = snaps
snap_of e snaps _ source = snaps

unfoldable pub snaps_of : Map Text (Text × Timestamp) → List Entry → Map Text (Text × Timestamp)
unfolding snap_of
snaps_of snaps [] = snaps
snaps_of snaps (e ∷ es) = snaps_of (snap_of e snaps e.kind e.source) es

unfoldable pub rebuild_context : Externals → State → State
unfolding snaps_of project
rebuild_context x s =
    let ctx = project x s none in
    record s { context = ctx; snaps = snaps_of [] ctx; usage_basis = none }
