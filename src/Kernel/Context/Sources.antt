-- ===== src/Kernel/Context/Sources.antt =====
-- crates/kernel/src/context.rs: `source_of`, which says where a fragment of the context came from;
-- `ContextSource` of crates/kernel/src/lib.rs.
use peras.Prelude.{
  Bool, false, ◌||◌, Option, none, some, ◌++◌, any, if◌then◌else◌, Text, txt, starts_with,
}
use peras.Proto.Envelope.{EventId, Seq, Trust}
use peras.Proto.Render.{RBlock, RBlocks, nil, cons, Rendered}
use peras.Proto.Event.{Event}
use peras.Proto.Names.{type_name}
use peras.Kernel.Data.{Entry, EntryKind}

pub record ContextSource : Type 0 where
  pub seq : Seq
  pub event : EventId
  pub kind : Text
  pub rendered : Rendered

-- The name of what an entry is, before its event or its form is considered.
unfoldable pub base_name : EntryKind → Text
base_name EntryKind.user = txt "user_message"
base_name EntryKind.assistant = txt "assistant_replied"
base_name EntryKind.tool_result = txt "tool_resulted"
base_name (EntryKind.snapshot _) = txt "state_snapshot"
base_name EntryKind.summary = txt "replaced:summary"
base_name EntryKind.other = txt "replaced"

abbrev is_placeholder : Text → Bool
is_placeholder t = starts_with t (txt "[image offloaded:")

is_offloaded_text : RBlock → Bool
is_offloaded_text (RBlock.text t) = is_placeholder t
is_offloaded_text _ = false

any_offloaded_text : RBlocks → Bool
unfolding is_offloaded_text
any_offloaded_text nil = false
any_offloaded_text (cons b bs) = is_offloaded_text b || any_offloaded_text bs

-- A text, or a text within a tool result, that stands for an image.
unfoldable pub is_offloaded : RBlock → Bool
unfolding any_offloaded_text
is_offloaded (RBlock.text t) = is_placeholder t
is_offloaded (RBlock.tool_result id content e) = any_offloaded_text content
is_offloaded _ = false

-- The name of a fragment that has no event of its own.
unfoldable pub shortened_name : Entry → EntryKind → Text
unfolding is_offloaded any
shortened_name e EntryKind.summary = base_name EntryKind.summary
shortened_name e kind =
    if e.trimmed
    then base_name kind
      ++ txt ":"
      ++ (if any is_offloaded e.rendered.blocks then txt "images_offloaded" else txt "trimmed")
    else base_name kind

unfoldable pub source_kind : Entry → Option (Event × Trust) → Text
unfolding shortened_name
source_kind e source =
    if e.erased
    then base_name e.kind ++ txt ":erased"
    else elim source [ none ↦ shortened_name e e.kind | some (event, trust) ↦ type_name event ]

unfoldable pub source_of : Entry → ContextSource
unfolding source_kind
source_of e = record {
  seq = e.seq;
  event = e.id;
  kind = source_kind e e.source;
  rendered = e.rendered;
}
