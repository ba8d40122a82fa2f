-- ===== src/Kernel/Evolve/Erase.antt =====
-- state.rs: `scrub_ops` and `on_tombstone`.
use peras.Prelude.{
  ℕ, zero, suc, Bool, false, not, ◌&&◌, ◌||◌, none, some, List, [], ◌∷◌, map, if◌then◌else◌, ◌==◌,
  contains, insert, any, length, is_empty, retain,
}
use peras.Proto.Envelope.{EventId, Seq}
use peras.Proto.Event.{Replacement}
use peras.Proto.Render.{Rendered}
use peras.Kernel.Data.{Externals, Entry, Op, Slot, State}
use peras.Kernel.Collections.{iter}
use peras.Kernel.Render.{erased}
use peras.Kernel.Context.{erase_entry, op_seq, in_range, is_summary}
use peras.Kernel.Turns.{is_abandoned, map_turn}
use peras.Kernel.Evolve.Project.{apply_op, project}

-- The contents of a replacement that stand for erased entries, one by one.
unfoldable pub erase_aligned : Externals → List EventId → List Entry → List Rendered → List Rendered
erase_aligned x fresh removed [] = []
erase_aligned x fresh [] (r ∷ rs) = r ∷ erase_aligned x fresh [] rs
erase_aligned x fresh (e ∷ es) (r ∷ rs) =
    (if contains fresh e.id then erased x r else r) ∷ erase_aligned x fresh es rs

unfoldable pub touched : List EventId → EventId → Replacement → Bool
unfolding any
touched fresh id rep =
    contains fresh id || (not (is_summary rep.kind) && any (contains fresh) rep.sources)

scrubbed_replacement :
    Externals → List EventId → Bool → List Entry → EventId → Replacement → Replacement
unfolding erase_aligned retain
scrubbed_replacement x fresh skip ctx id rep =
    let removed = retain (in_range rep.range) ctx in
    let aligned = not skip && (not (contains fresh id) && length removed == length rep.content) in
    record rep {
      content =
          if aligned then erase_aligned x fresh removed rep.content else map (erased x) rep.content;
    }

-- An operation without the erased bodies; `ctx` is the context before it.
unfoldable pub scrub_op : Externals → List EventId → Bool → List Entry → Op → Op
unfolding touched scrubbed_replacement
scrub_op x fresh skip ctx (Op.append e) =
    if contains fresh e.id then Op.append (erase_entry x e) else Op.append e
scrub_op x fresh skip ctx (Op.replace seq id at rep) =
    if touched fresh id rep
    then Op.replace seq id at (scrubbed_replacement x fresh skip ctx id rep)
    else Op.replace seq id at rep

-- The operations of one chunk, and the context behind them.
scrub_list :
    Externals → List EventId → List (Seq × Seq) → List Entry → List Op → List Op × List Entry
unfolding scrub_op apply_op
scrub_list x fresh abandoned ctx [] = ([], ctx)
scrub_list x fresh abandoned ctx (op ∷ ops) =
    let skip = is_abandoned abandoned (op_seq op) in
    let op' = scrub_op x fresh skip ctx op in
    let ctx' : List Entry = if skip then ctx else apply_op ctx op' in
    let (ops', last) = scrub_list x fresh abandoned ctx' ops in (op' ∷ ops', last)

scrub_chunks :
    Externals
    → List EventId
    → List (Seq × Seq)
    → List Entry
    → List (List Op)
    → List (List Op) × List Entry
unfolding scrub_list
scrub_chunks x fresh abandoned ctx [] = ([], ctx)
scrub_chunks x fresh abandoned ctx (c ∷ cs) =
    let (c', ctx') = scrub_list x fresh abandoned ctx c in
    let (cs', last) = scrub_chunks x fresh abandoned ctx' cs in (c' ∷ cs', last)

unfoldable pub scrub_ops : Externals → List EventId → State → State
unfolding scrub_chunks
scrub_ops x fresh s =
    let (full, ctx) = scrub_chunks x fresh s.abandoned [] s.ops.full in
    let (last, _) = scrub_list x fresh s.abandoned ctx s.ops.last in
    record s { ops = record { full = full; last = last } }

-- A summary that is not erased and has an erased source.
unfoldable pub cascades : List EventId → Op → Bool
unfolding any
cascades erased (Op.append e) = false
cascades erased (Op.replace seq id at rep) =
    is_summary rep.kind && (not (contains erased id) && any (contains erased) rep.sources)

abbrev pub op_id : Op → EventId
op_id (Op.append e) = e.id
op_id (Op.replace seq id at rep) = id

-- One pass of the `loop` of `on_tombstone`, which grows the set as it goes.
unfoldable pub cascade_pass : List EventId → List Op → List EventId
unfolding cascades
cascade_pass erased [] = erased
cascade_pass erased (op ∷ ops) =
    cascade_pass (if cascades erased op then insert (op_id op) erased else erased) ops

-- The `loop` itself: passes until one adds nothing. Each pass but the last adds the id of an
-- operation, so one more pass than operations is enough.
unfoldable pub cascade : ℕ → List EventId → List Op → List EventId
unfolding cascade_pass
cascade zero erased ops = erased
cascade (suc fuel) erased ops =
    let grown = cascade_pass erased ops in
    let more = cascade fuel grown ops in if length grown == length erased then grown else more

unfoldable pub erased_by : EventId → State → List EventId
unfolding cascade
erased_by target s = let ops = iter s.ops in cascade (suc (length ops)) (insert target s.erased) ops

erase_deferred : Externals → List EventId → Slot → Slot
erase_deferred x fresh sl = elim sl.deferred [
  | none ↦ sl
  | some e ↦ if contains fresh e.id then record sl { deferred = some (erase_entry x e) } else sl
]

unfoldable pub on_tombstone : Externals → EventId → State → State
unfolding erased_by erase_deferred retain is_empty
on_tombstone x target s =
    let all_erased = erased_by target s in
    let fresh = retain (λ id. not (contains s.erased id)) all_erased in
    let s1 = record s { erased = all_erased } in
    let s2 = scrub_ops x fresh s1 in
    let s3 = record s2 { context = project x s2 none } in
    let s4 = map_turn (λ t. record t { slots = map (erase_deferred x fresh) t.slots }) s3 in
    if is_empty fresh then s1 else record s4 { usage_basis = none }
