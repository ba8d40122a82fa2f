-- ===== src/Kernel/Context/Plans.antt =====
-- crates/kernel/src/context.rs: the plans that replace entries (`plan_trims`, `rerender`),
-- `entries_in`, and the pairing of calls with results.
use peras.Prelude.{
  ℕ, zero, suc, Bool, true, false, Option, none, some, List, [], ◌∷◌, ◌++◌, if◌then◌else◌, ltb,
  ◌==◌, Text, text_eq, contains, retain, reverse,
}
use peras.Proto.Envelope.{EventId, CallId, Seq}
use peras.Proto.Model.{RenderProfile}
use peras.Proto.Render.{RBlock, Rendered}
use peras.Proto.Event.{Replacement, ReplacementKind}
use peras.Kernel.Data.{Externals, Entry, EntryKind, State}
use peras.Kernel.Render.{render, strip_vendor}
use peras.Kernel.Render.Trimming.{trim, offload_images}
use peras.Kernel.Evolve.{default_profile}
use peras.Kernel.Context.{in_range, groups, tail_start, keep_recent, least, greatest}

unfoldable pub profile : State → RenderProfile
profile s = elim s.head [ none ↦ default_profile | some h ↦ h.render ]

-- `per_seq`: how many entries have the sequence number.
count_seq : Seq → List Entry → ℕ
count_seq seq [] = 0
count_seq seq (e ∷ es) = if e.seq == seq then suc (count_seq seq es) else count_seq seq es

-- `last_snapshot` of a key is later than here: one of the later entries is a snapshot of it.
later_snapshot : Text → List Entry → Bool
later_snapshot key [] = false
later_snapshot key (e ∷ es) =
    let later = later_snapshot key es in
    elim e.kind [ EntryKind.snapshot k ↦ (if text_eq k key then true else later) | _ ↦ later ]

replacement_of : ReplacementKind → Entry → List Rendered → Replacement
replacement_of kind e content = record {
  kind = kind;
  range = (e.seq, e.seq);
  sources = e.id ∷ [];
  untrusted_sources = e.untrusted;
  content = content;
}

-- `match (trimmed, off)` of a tool result.
trim_result : Entry → Option Rendered → Option Rendered → List Replacement
unfolding replacement_of
trim_result e trimmed (some o) = replacement_of ReplacementKind.image_offload e (o ∷ []) ∷ []
trim_result e (some t) none =
    if ltb t.tokens e.rendered.tokens
    then replacement_of ReplacementKind.trim e (t ∷ []) ∷ []
    else []
trim_result e none none = []

-- `match &e.kind`, for an entry that is followed by `later`.
trim_kind : Externals → ℕ → Entry → List Entry → EntryKind → List Replacement
unfolding replacement_of trim_result later_snapshot trim offload_images
trim_kind x keep e later (EntryKind.snapshot key) =
    if later_snapshot key later then replacement_of ReplacementKind.trim e [] ∷ [] else []
trim_kind x keep e later EntryKind.tool_result =
    if e.trimmed
    then []
    else (let trimmed = trim x e.rendered keep in
        let base : Rendered = elim trimmed [ none ↦ e.rendered | some t ↦ t ] in
        trim_result e trimmed (offload_images x base))
trim_kind x keep e later EntryKind.user = elim (offload_images x e.rendered) [
  | none ↦ []
  | some o ↦ replacement_of ReplacementKind.image_offload e (o ∷ []) ∷ []
]
trim_kind x keep e later _ = []

-- The loop over the first `n` entries; an entry that shares its number is passed over.
trims_from : Externals → ℕ → List Entry → ℕ → List Entry → List Replacement
unfolding trim_kind count_seq
trims_from x keep ctx n [] = []
trims_from x keep ctx zero (e ∷ es) = []
trims_from x keep ctx (suc n) (e ∷ es) =
    (if count_seq e.seq ctx == 1 then trim_kind x keep e es e.kind else [])
    ++ trims_from x keep ctx n es

-- The start of the last group.
last_start : List (ℕ × ℕ) → ℕ
last_start gs = elim (reverse gs) [ [] ↦ 0 | g ∷ _ ↦ g.0 ]

unfoldable pub plan_trims : Externals → State → Bool → List Replacement
unfolding trims_from last_start keep_recent
plan_trims x s forced =
    let end =
      if forced then last_start (groups s.context) else tail_start s.context (keep_recent s) in
    trims_from x (profile s).preview_bytes s.context end s.context

unfoldable pub entries_in : State → Seq × Seq → List Entry
unfolding retain
entries_in s range = retain (in_range range) s.context

-- `if !v.contains(x) { v.push(x) }`, for each element in turn.
unfoldable pub push_new : List Text → List Text → List Text
push_new seen [] = seen
push_new seen (t ∷ ts) = push_new (if contains seen t then seen else seen ++ t ∷ []) ts

unfoldable pub sources_of : List EventId → List Entry → List EventId
unfolding push_new
sources_of seen [] = seen
sources_of seen (e ∷ es) = sources_of (push_new seen (e.id ∷ [])) es

unfoldable pub labels_of : List Text → List Entry → List Text
unfolding push_new
labels_of seen [] = seen
labels_of seen (e ∷ es) = labels_of (push_new seen e.untrusted) es

-- An entry rendered again from its source, without vendor blocks.
fresh_render : Externals → RenderProfile → Entry → Rendered
fresh_render x prof e = elim e.source [
  | none ↦ strip_vendor x e.rendered
  | some (body, trust) ↦ elim (render x prof trust body) [
    | none ↦ strip_vendor x e.rendered
    | some r ↦ strip_vendor x r
  ]
]

fresh_renders : Externals → RenderProfile → List Entry → List Rendered
unfolding fresh_render
fresh_renders x prof [] = []
fresh_renders x prof (e ∷ es) = fresh_render x prof e ∷ fresh_renders x prof es

unfoldable pub rerender : Externals → State → Option Replacement
unfolding fresh_renders least greatest
rerender x s = elim s.context [
  | [] ↦ none
  | e ∷ es ↦ some (record {
    kind = ReplacementKind.rerender;
    range = (least e.seq es, greatest e.seq es);
    sources = sources_of [] s.context;
    untrusted_sources = labels_of [] s.context;
    content = fresh_renders x (profile s) s.context;
  })
]

-- The open calls, the first of an id closed by its result.
unfoldable pub close_call : CallId → List CallId → Option (List CallId)
close_call id [] = none
close_call id (o ∷ os) =
    let rest = close_call id os in
    if text_eq o id
    then some os
    else elim rest [ none ↦ none | some open_calls ↦ some (o ∷ open_calls) ]

unfoldable pub pair_blocks : List CallId → List RBlock → Option (List CallId)
unfolding close_call
pair_blocks calls [] = some calls
pair_blocks calls (RBlock.tool_use id name input ∷ bs) = pair_blocks (calls ++ id ∷ []) bs
pair_blocks calls (RBlock.tool_result id content is_error ∷ bs) = elim (close_call id calls) [
  | none ↦ none
  | some rest ↦ pair_blocks rest bs
]
pair_blocks calls (b ∷ bs) = pair_blocks calls bs

unfoldable pub pair_entries : List CallId → List Entry → Option (List CallId)
unfolding pair_blocks
pair_entries calls [] = some calls
pair_entries calls (e ∷ es) = elim (pair_blocks calls e.rendered.blocks) [
  | none ↦ none
  | some rest ↦ pair_entries rest es
]

unfoldable pub well_paired : List Entry → Bool
unfolding pair_entries
well_paired ctx = elim (pair_entries [] ctx) [ some [] ↦ true | _ ↦ false ]
