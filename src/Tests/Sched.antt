-- ===== src/Tests/Sched.antt =====
-- The scheduler at concrete calls.
use peras.Prelude.{
  ℕ, ◌≡◌, refl, arith, inl, Bool, true, false, not, ◌||◌, List, [], ◌∷◌, Text, txt, any, is_empty,
  retain, Memᴰ, starts_with, text_eq, trim_end,
}
use peras.Proto.Resource.{Access}
use peras.Proto.Verdict.{ToolCall}
use peras.Kernel.Sched.{
  next_batch, conflicts, overlaps, batch_writes, needs_checkpoint, changes_files, has_glob,
  side_effecting, clashes, literal_prefix,
}
use peras.Kernel.Sched.Overlap.{overlaps_of_common}
use peras.Kernel.Sched.Batches.{
  next_batch_lem, next_batch_independent, next_batch_first, is_free, range,
}
use peras.Kernel.Sched.Writes.{batch_writes_lem, needs_checkpoint_lem, IsDistinct, declares}
use peras.Proto.Resource.{access_eq, same_scheme, has_scheme, scheme, prefix}
use peras.Tests.Fixtures.{read_call, write_call, config_call}

abbrev calls : List ToolCall
calls = read_call ∷ write_call ∷ config_call ∷ []

next_batch_lem_example : next_batch calls ≡ retain (is_free calls) (range 0 3)
next_batch_lem_example = next_batch_lem calls

next_batch_independent_example :
    (conflicts read_call config_call ≡ false) × (conflicts config_call read_call ≡ false)
unfolding next_batch conflicts side_effecting clashes overlaps text_eq txt same_scheme scheme
    starts_with prefix has_glob has_scheme trim_end
next_batch_independent_example =
    next_batch_independent calls 0 2 read_call config_call (Memᴰ.tail (Memᴰ.head refl)) refl refl
      (inl (omega arith))

next_batch_first_example : (rest : List ℕ) × (next_batch calls ≡ 0 ∷ rest)
next_batch_first_example = next_batch_first read_call (write_call ∷ config_call ∷ [])

-- A pattern that matches every text with its literal prefix.
abbrev by_prefix : Text → Text → Bool
by_prefix p u = starts_with u (literal_prefix p)

overlaps_of_common_example : overlaps (txt "fs:///w/*") (txt "fs:///w/src/*") ≡ true
unfolding txt scheme starts_with prefix has_glob literal_prefix
overlaps_of_common_example =
    overlaps_of_common by_prefix (λ p. false) (λ p u e m. m) (txt "fs:///w/*") (txt "fs:///w/src/*")
      (txt "fs:///w/src/a") refl refl refl refl refl refl

batch_writes_lem_example :
    IsDistinct (batch_writes calls)
    × ((a : Access) → any (access_eq a) (batch_writes calls) ≡ declares a calls)
batch_writes_lem_example = batch_writes_lem calls

needs_checkpoint_lem_example :
    needs_checkpoint calls
    ≡ (any (λ (c : ToolCall). changes_files c.class) calls || not (is_empty (batch_writes calls)))
needs_checkpoint_lem_example = needs_checkpoint_lem calls
