-- ===== src/Kernel/Sched.antt =====
-- crates/kernel/src/sched.rs: the conflict graph over declared accesses and the next batch.
pub mod Overlap
pub mod Batches
pub mod Writes
use peras.Prelude.{
  ℕ, suc, ◌+◌, Bool, true, false, not, ◌&&◌, ◌||◌, Option, none, some, List, [], ◌∷◌, ◌++◌,
  if◌then◌else◌, ◌==◌, Text, txt, text_eq, starts_with, trim_end, any, get_elem?, is_empty,
}
use peras.Proto.Resource.{
  ResourceUri, fs, scheme, same_scheme, has_scheme, Access, is_write, access_eq, EffectClass, pure,
  local_write, opaque, is_opaque, is_read_only,
}
use peras.Proto.Verdict.{ToolCall}

-- `['*', '?', '[', '{']`
abbrev pub is_glob_char : ℕ → Bool
is_glob_char c = c == b'*' || c == b'?' || c == b'[' || c == b'{'

unfoldable pub has_glob : Text → Bool
unfolding any
has_glob s = any is_glob_char s

unfoldable pub literal_prefix : Text → Text
literal_prefix [] = []
literal_prefix (c ∷ s) = if is_glob_char c then [] else c ∷ literal_prefix s

abbrev pub under : Text → Text → Bool
under x y = starts_with x (y ++ txt "/")

-- Two paths without globs: the same, or one above the other.
unfoldable pub nested_paths : Text → Text → Bool
nested_paths x y = text_eq x y || (under x y || under y x)

unfoldable pub overlaps : ResourceUri → ResourceUri → Bool
unfolding nested_paths
overlaps a b =
    if text_eq a b
    then true
    else if not (same_scheme (scheme a) (scheme b))
    then false
    else if not (has_glob a) && not (has_glob b)
    then has_scheme fs a && nested_paths (trim_end b'/' a) (trim_end b'/' b)
    else starts_with (literal_prefix a) (literal_prefix b)
      || starts_with (literal_prefix b) (literal_prefix a)

-- The closure `se` of `conflicts`.
unfoldable pub side_effecting : ToolCall → Bool
unfolding any
side_effecting c = not (is_read_only c.class) || any is_write c.access

-- Two accesses clash when one of them writes and they overlap.
unfoldable pub clash : Access → Access → Bool
clash x y = (is_write x || is_write y) && overlaps x.resource y.resource

unfoldable pub clashes : List Access → List Access → Bool
unfolding any clash
clashes xs ys = any (λ x. any (clash x) ys) xs

unfoldable pub conflicts : ToolCall → ToolCall → Bool
unfolding is_empty
conflicts a b =
    if is_opaque a.class || is_opaque b.class
    then true
    else if (side_effecting a && side_effecting b) && (is_empty a.access || is_empty b.access)
    then true
    else clashes a.access b.access

conflicts_at : List ToolCall → ToolCall → ℕ → Bool
conflicts_at calls c j = elim (get_elem? calls j) [ none ↦ false | some d ↦ conflicts c d ]

-- The loop of `next_batch` over the calls that are left, the first of them at index `i`.
batch_from : List ToolCall → ℕ → List ToolCall → List ℕ → List ℕ → List ℕ
unfolding any conflicts_at
batch_from calls i [] chosen skipped = chosen
batch_from calls i (c ∷ cs) chosen skipped =
    let blocked = any (conflicts_at calls c) (chosen ++ skipped) in
    batch_from calls (suc i) cs (if blocked then chosen else chosen ++ i ∷ [])
      (if blocked then skipped ++ i ∷ [] else skipped)

unfoldable pub next_batch : List ToolCall → List ℕ
unfolding batch_from
next_batch calls = batch_from calls 0 calls [] []

-- The two loops of `batch_writes`.
unfoldable pub add_writes : List Access → List Access → List Access
unfolding any
add_writes out [] = out
add_writes out (a ∷ more) =
    add_writes (if is_write a && not (any (access_eq a) out) then out ++ a ∷ [] else out) more

writes_from : List Access → List ToolCall → List Access
unfolding add_writes
writes_from out [] = out
writes_from out (c ∷ cs) = writes_from (add_writes out c.access) cs

unfoldable pub batch_writes : List ToolCall → List Access
unfolding writes_from
batch_writes calls = writes_from [] calls

-- Does the class call for a checkpoint by itself?
abbrev pub changes_files : EffectClass → Bool
changes_files local_write = true
changes_files opaque = true
changes_files _ = false

unfoldable pub needs_checkpoint : List ToolCall → Bool
unfolding any
needs_checkpoint calls = any (λ c. changes_files c.class || any is_write c.access) calls
