-- ===== src/Tests/Parts.antt =====
-- Rendering, the collections and the URIs at concrete values.
use peras.Prelude.{
  List, ℕ, ◌≡◌, refl, false, none, some, [], ◌∷◌, ◌++◌, All, Text, txt, text_eq, if◌then◌else◌,
}
use peras.Proto.Resource.{Scheme, scheme, rest, prefix}
use peras.Proto.Envelope.{Trust}
use peras.Proto.Verdict.{ToolContent}
use peras.Proto.Render.{Rendered, Role, RBlock, nil, cons}
use peras.Proto.Resource.Laws.{scheme-rest-prefix}
use peras.Proto.Event.{Event}
use peras.Kernel.Collections.{Chunked, push, iter, from_list, SeqIndex, index_get, index_insert}
use peras.Kernel.Collections.Laws.{iter-push, iter-from_list, index_get-insert}
use peras.Kernel.Evolve.{default_profile}
use peras.Kernel.Render.{render, layout, tool_frame, clip, rendered_as}
use peras.Kernel.Render.Framing.{render-Framed, IsFramed}
use peras.Kernel.Data.{Entry, EntryKind}
use peras.Kernel.Context.{groups}
use peras.Kernel.Context.Groups.{groups-StartsOthers, Tiles, StartsOthers, BeginsOthers}
use peras.Tests.Fixtures.{literal_globs, read_call}

-- What a tool read from the web.
abbrev fetched : Event
fetched = Event.tool_resulted read_call (record {
  call_id = txt "c1";
  content = ToolContent.text (txt "page") ∷ [];
  is_error = false;
  trust = Trust.untrusted (txt "web");
  observed = [];
  staged = [];
  subagent = none;
  instructions = [];
})

abbrev data_text : Text
data_text = default_profile.data_warning ++ (10 ∷ [] ++ (10 ∷ [] ++ txt "page"))

abbrev shown : Rendered
shown =
    rendered_as literal_globs Role.user
      (RBlock.tool_result (txt "c1") (cons (RBlock.framed (txt "web") data_text) nil) false ∷ [])
      false

render-Framed_example : All (IsFramed default_profile (txt "web")) shown.blocks
unfolding render layout tool_frame txt clip
render-Framed_example =
    render-Framed literal_globs default_profile (txt "web") fetched shown refl refl

abbrev entry_of : ℕ → EntryKind → Entry
entry_of seq kind = record {
  seq = seq;
  id = txt "e";
  kind = kind;
  rendered = shown;
  untrusted = [];
  source = none;
  trimmed = false;
  erased = false;
  at = 1000;
}

abbrev step : List Entry
step =
    entry_of 1 EntryKind.user
    ∷ entry_of 2 EntryKind.assistant
    ∷ entry_of 3 EntryKind.tool_result
    ∷ entry_of 4 EntryKind.tool_result
    ∷ []

groups-StartsOthers_example :
    Tiles 0 (groups step) 4 × StartsOthers step (groups step) × BeginsOthers step 4 (groups step)
groups-StartsOthers_example = groups-StartsOthers step

abbrev nearly_full : Chunked ℕ
nearly_full = record { full = (1 ∷ 2 ∷ []) ∷ []; last = 3 ∷ [] }

iter-push_example : iter (push 4 nearly_full) ≡ iter nearly_full ++ 4 ∷ []
iter-push_example = iter-push 4 nearly_full

iter-from_list_example : iter (from_list nearly_full (4 ∷ 5 ∷ [])) ≡ iter nearly_full ++ 4 ∷ 5 ∷ []
iter-from_list_example = iter-from_list nearly_full (4 ∷ 5 ∷ [])

abbrev small_index : SeqIndex
small_index = record { frozen = ((txt "e1", 1) ∷ []) ∷ []; recent = (txt "e2", 2) ∷ [] }

index_get-insert_example :
    index_get (txt "e1") (index_insert (txt "e3") 3 small_index)
    ≡ (if text_eq (txt "e1") (txt "e3") then some 3 else index_get (txt "e1") small_index)
index_get-insert_example = index_get-insert (txt "e3") (txt "e1") 3 small_index

scheme-rest-prefix_example :
    (scheme (prefix Scheme.net ++ txt "example.org:443") ≡ some Scheme.net)
    × (rest (prefix Scheme.net ++ txt "example.org:443") ≡ txt "example.org:443")
scheme-rest-prefix_example = scheme-rest-prefix Scheme.net (txt "example.org:443")
