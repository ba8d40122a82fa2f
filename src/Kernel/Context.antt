-- ===== src/Kernel/Context.antt =====
-- crates/kernel/src/context.rs: the model context, its operations and the plans that shorten it.
pub mod Groups
pub mod Pressure
pub mod Plans
pub mod Pairing
pub mod Sources
use peras.Prelude.{
  ℕ, zero, suc, ◌-◌, ◌/◌, Bool, true, false, not, ◌&&◌, ◌||◌, Option, none, some, List, [], ◌∷◌,
  ◌++◌, map, reverse, if◌then◌else◌, ltb, leb, ◌==◌, Text, length, take, min, max, retain, is_empty,
  add32, sat_add32, u32_max,
}
use peras.Proto.Envelope.{EventId, Seq, Timestamp}
use peras.Proto.Event.{Replacement, ReplacementKind}
use peras.Proto.Model.{SeqHead, ToolSpec}
use peras.Proto.Render.{Rendered, estimate_tokens}
use peras.Kernel.Data.{Externals, Entry, EntryKind, Op, State}
use peras.Kernel.Render.{erased}

unfoldable pub op_seq : Op → Seq
op_seq (Op.append e) = e.seq
op_seq (Op.replace seq id at rep) = seq

abbrev pub in_range : Seq × Seq → Entry → Bool
in_range (a, b) e = leb a e.seq && leb e.seq b

abbrev pub is_one_to_one : ReplacementKind → Bool
is_one_to_one ReplacementKind.rerender = true
is_one_to_one ReplacementKind.trim = true
is_one_to_one ReplacementKind.image_offload = true
is_one_to_one ReplacementKind.summary = false

abbrev pub is_rerender : ReplacementKind → Bool
is_rerender ReplacementKind.rerender = true
is_rerender _ = false

abbrev pub is_summary : ReplacementKind → Bool
is_summary ReplacementKind.summary = true
is_summary _ = false

-- An entry that keeps its place and gets new content.
unfoldable pub rewritten : ReplacementKind → Entry → Rendered → Entry
rewritten kind e r = record e {
  rendered = r;
  source = if is_rerender kind then e.source else none;
  trimmed = e.trimmed || not (is_rerender kind);
}

unfoldable pub rewrite_all : ReplacementKind → List Entry → List Rendered → List Entry
unfolding rewritten
rewrite_all kind [] rs = []
rewrite_all kind (e ∷ es) [] = []
rewrite_all kind (e ∷ es) (r ∷ rs) = rewritten kind e r ∷ rewrite_all kind es rs

unfoldable pub fresh_entry : EventId → Timestamp → Replacement → Rendered → Entry
fresh_entry id at rep r = record {
  seq = rep.range.0;
  id = id;
  kind = if is_summary rep.kind then EntryKind.summary else EntryKind.other;
  rendered = r;
  untrusted = rep.untrusted_sources;
  source = none;
  trimmed = true;
  erased = false;
  at = at;
}

unfoldable pub new_entries : EventId → Timestamp → Replacement → List Entry → List Entry
unfolding rewrite_all fresh_entry
new_entries id at rep removed =
    if is_one_to_one rep.kind && length rep.content == length removed
    then rewrite_all rep.kind removed rep.content
    else map (fresh_entry id at rep) rep.content

-- The entries before the first one in range; none if no entry is in range.
unfoldable pub before_first : (Entry → Bool) → List Entry → Option (List Entry)
before_first p [] = none
before_first p (e ∷ es) =
    let later = before_first p es in
    if p e then some [] else elim later [ none ↦ none | some pre ↦ some (e ∷ pre) ]

-- What follows the first entry in range, without the entries in range.
unfoldable pub after_first : (Entry → Bool) → List Entry → List Entry
unfolding retain
after_first p [] = []
after_first p (e ∷ es) =
    let later = after_first p es in if p e then retain (λ d. not (p d)) es else later

-- The entries in range are removed, and the new ones stand where the first of them was.
unfoldable pub apply_replacement : List Entry → EventId → Timestamp → Replacement → List Entry
unfolding new_entries before_first after_first retain
apply_replacement ctx id at rep = elim (before_first (in_range rep.range) ctx) [
  | none ↦ ctx
  | some pre ↦
      pre
      ++ (new_entries id at rep (retain (in_range rep.range) ctx)
          ++ after_first (in_range rep.range) ctx)
]

-- The erased form of an entry.
unfoldable pub erase_entry : Externals → Entry → Entry
erase_entry x e = record e {
  rendered = erased x e.rendered;
  source = none;
  trimmed = true;
  erased = true;
}

-- The groups of a context, as ranges of indices: a tool result belongs to the group before it.
abbrev pub is_tool_result : EntryKind → Bool
is_tool_result EntryKind.tool_result = true
is_tool_result _ = false

-- `out.last_mut().unwrap().1 = end`
unfoldable pub set_last_end : ℕ → List (ℕ × ℕ) → List (ℕ × ℕ)
set_last_end n [] = []
set_last_end n ((a, b) ∷ []) = (a, n) ∷ []
set_last_end n (g ∷ h ∷ gs) = g ∷ set_last_end n (h ∷ gs)

unfoldable pub groups_from : ℕ → List (ℕ × ℕ) → List Entry → List (ℕ × ℕ)
unfolding set_last_end is_empty
groups_from i out [] = out
groups_from i out (e ∷ es) =
    groups_from (suc i)
      (if is_tool_result e.kind && not (is_empty out)
        then set_last_end (suc i) out
        else out ++ (i, suc i) ∷ [])
      es

unfoldable pub groups : List Entry → List (ℕ × ℕ)
unfolding groups_from
groups ctx = groups_from 0 [] ctx

-- `ctx[a..b].iter().map(|e| e.rendered.tokens).sum()`, a u32 sum.
unfoldable pub sum_tokens : List Entry → ℕ
unfolding add32
sum_tokens [] = 0
sum_tokens (e ∷ es) = add32 e.rendered.tokens (sum_tokens es)

unfoldable pub skip : ℕ → List Entry → List Entry
skip zero es = es
skip (suc n) [] = []
skip (suc n) (e ∷ es) = skip n es

unfoldable pub group_tokens : List Entry → ℕ × ℕ → ℕ
unfolding sum_tokens skip
group_tokens ctx (a, b) = sum_tokens (take (b - a) (skip a ctx))

-- The loop of `tail_start`, over the groups from the end.
tail_from : List Entry → ℕ → ℕ → ℕ → List (ℕ × ℕ) → ℕ
unfolding group_tokens add32
tail_from ctx keep total start [] = start
tail_from ctx keep total start (g ∷ gs) =
    let t = group_tokens ctx g in
    let more = tail_from ctx keep (add32 total t) g.0 gs in
    if ltb keep (add32 total t) then start else more

tail_of : List Entry → ℕ → List (ℕ × ℕ) → ℕ
unfolding tail_from
tail_of ctx keep [] = 0
tail_of ctx keep (last ∷ gs) = tail_from ctx keep (group_tokens ctx last) last.0 gs

unfoldable pub tail_start : List Entry → ℕ → ℕ
unfolding tail_of
tail_start ctx keep = tail_of ctx keep (reverse (groups ctx))

-- Last actual usage and the estimate of what was appended since, or a full estimate.
sum_texts : List Text → ℕ
unfolding add32
sum_texts [] = 0
sum_texts (t ∷ ts) = add32 (estimate_tokens t) (sum_texts ts)

sum_tools : (ToolSpec → Text) → List ToolSpec → ℕ
unfolding add32
sum_tools spec_json [] = 0
sum_tools spec_json (t ∷ ts) = add32 (estimate_tokens (spec_json t)) (sum_tools spec_json ts)

-- `spec_json` is `serde_json::to_string` at `ToolSpec`.
unfoldable pub head_tokens : (ToolSpec → Text) → SeqHead → ℕ
unfolding sum_texts sum_tools add32
head_tokens spec_json head = add32 (sum_texts head.system) (sum_tools spec_json head.tools)

unfoldable pub estimated_total : (ToolSpec → Text) → State → ℕ
unfolding head_tokens sum_tokens add32
estimated_total spec_json s =
    let h : ℕ = elim s.head [ none ↦ 0 | some head ↦ head_tokens spec_json head ] in
    add32 h (sum_tokens s.context)

unfoldable pub usage : (ToolSpec → Text) → State → ℕ
unfolding sat_add32
usage spec_json s = elim s.usage_basis [
  | some b ↦ sat_add32 b s.est_since
  | none ↦ estimated_total spec_json s
]

unfoldable pub hard_limit : State → ℕ
hard_limit s = elim s.config [
  | none ↦ u32_max
  | some cfg ↦ elim s.caps [
    | none ↦ u32_max
    | some caps ↦ caps.window - cfg.compaction.output_reserve
  ]
]

-- A range of whole groups to summarise.
pub record SummaryPlan : Type 0 where
  pub range : Seq × Seq
  pub entries : ℕ

unfoldable pub least : Seq → List Entry → Seq
least m [] = m
least m (e ∷ es) = least (min m e.seq) es

unfoldable pub greatest : Seq → List Entry → Seq
greatest m [] = m
greatest m (e ∷ es) = greatest (max m e.seq) es

abbrev is_lone_summary : List Entry → Bool
is_lone_summary (e ∷ []) = elim e.kind [ EntryKind.summary ↦ true | _ ↦ false ]
is_lone_summary _ = false

plan_part : ℕ → List Entry → Option SummaryPlan
unfolding least greatest
plan_part upto [] = none
plan_part upto (e ∷ es) =
    if is_lone_summary (e ∷ es)
    then none
    else some (record { range = (least e.seq es, greatest e.seq es); entries = upto })

unfoldable pub plan_from : List Entry → ℕ → Option SummaryPlan
unfolding plan_part
plan_from ctx upto = if upto == 0 then none else plan_part upto (take upto ctx)

unfoldable pub keep_recent : State → ℕ
keep_recent s = elim s.config [ none ↦ 0 | some cfg ↦ cfg.compaction.keep_recent_tokens ]

unfoldable pub plan_summary : State → Option SummaryPlan
unfolding keep_recent
plan_summary s = plan_from s.context (tail_start s.context (keep_recent s))

unfoldable pub plan_all : State → Option SummaryPlan
plan_all s = plan_from s.context (length s.context)

-- The loop of `plan_overflow_segment`, over all groups but the last.
overflow_from : List Entry → ℕ → ℕ → ℕ → List (ℕ × ℕ) → ℕ
unfolding group_tokens add32
overflow_from ctx budget upto total [] = upto
overflow_from ctx budget upto total (g ∷ gs) =
    let t = group_tokens ctx g in
    let more = overflow_from ctx budget g.1 (add32 total t) gs in
    if ltb 0 upto && ltb budget (add32 total t) then upto else more

unfoldable pub plan_overflow_segment : State → Option SummaryPlan
unfolding overflow_from
plan_overflow_segment s =
    let gs = groups s.context in
    let budget : ℕ = elim s.caps [ none ↦ u32_max | some caps ↦ caps.window / 2 ] in
    if ltb (length gs) 2
    then none
    else plan_from s.context (overflow_from s.context budget 0 0 (take (length gs - 1) gs))
