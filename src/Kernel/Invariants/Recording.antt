-- ===== src/Kernel/Invariants/Recording.antt =====
-- What a journal leaves in the clock and the index of its fold.
use peras.Prelude.{
  ◌≡◌, ◌≤◌, ◌<◌, ◌∙◌, refl, sym, subst, arith, add64, u64_max, not, true, some, List, [], ◌∷◌, Memᴰ,
  text_eq, text_eq_self, Bool, ◌&&◌,
}
use peras.Proto.Envelope.{EventId}
use peras.Proto.Event.{Envelope}
use peras.Kernel.Data.{Externals, State}
use peras.Kernel.Collections.{index_get}
use peras.Kernel.Evolve.{evolve}
use peras.Kernel.Initial.{fold}
use peras.Kernel.Invariants.Clock.{next_seq-evolve, index_get-evolve}

-- No event of the journal has the id.
unfoldable pub is_fresh : EventId → List Envelope → Bool
is_fresh id [] = true
is_fresh id (ev ∷ evs) = not (text_eq id ev.id) && is_fresh id evs

-- No two events share an id, and no sequence number is the last u64.
abbrev pub IsJournal : List Envelope → Type 0
IsJournal [] = Unit
IsJournal (ev ∷ evs) = (is_fresh ev.id evs ≡ true) × (ev.seq < u64_max) × IsJournal evs

-- The index finds the event at its sequence number, and the clock is past it.
abbrev pub IsRecorded : State → Envelope → Type 0
IsRecorded s ev = (index_get ev.id s.index ≡ some ev.seq) × (ev.seq < s.next_seq)

next_seq-fold-le :
    (x : Externals) (evs : List Envelope) (s : State) → s.next_seq ≤ (fold x evs s).next_seq
unfolding fold
next_seq-fold-le x [] s = omega arith
next_seq-fold-le x (ev ∷ evs) s =
    omega (arith, next_seq-evolve x ev s, next_seq-fold-le x evs (evolve x ev s))

index_get-fold_fresh :
    (x : Externals) (id : EventId) (evs : List Envelope) (s : State)
    → is_fresh id evs ≡ true
    → index_get id (fold x evs s).index ≡ index_get id s.index
unfolding fold is_fresh
index_get-fold_fresh x id [] s h = refl
index_get-fold_fresh x id (ev ∷ evs) s h =
    index_get-fold_fresh x id evs (evolve x ev s) (ground (arith, h))
    ∙ ground (arith, h, index_get-evolve x ev s id)

head-IsRecorded :
    (x : Externals) (ev : Envelope) (evs : List Envelope) (s : State)
    → is_fresh ev.id evs ≡ true
    → ev.seq < u64_max
    → IsRecorded (fold x evs (evolve x ev s)) ev
unfolding add64
head-IsRecorded x ev evs s f b =
    let s1 = evolve x ev s in
    (
      index_get-fold_fresh x ev.id evs s1 f
          ∙ ground (arith, index_get-evolve x ev s ev.id, text_eq_self ev.id),
      omega (arith, b, next_seq-evolve x ev s, next_seq-fold-le x evs s1),
    )

-- Every event of a journal whose events have distinct ids and sequence numbers below the last u64
-- is recorded in the state after the whole journal, whatever the state before it: the index finds
-- its id at its sequence number, and the next number is past it.
pub fold-IsRecorded :
    (x : Externals) (evs : List Envelope) (s : State) (ev : Envelope)
    → IsJournal evs
    → Memᴰ ev evs
    → IsRecorded (fold x evs s) ev
unfolding fold
fold-IsRecorded x [] s ev j m = elim m [ ]
fold-IsRecorded x (e ∷ evs) s ev (f, b, j) (Memᴰ.head q) =
    subst (λ (k : Envelope). IsRecorded (fold x evs (evolve x e s)) k) (sym q)
      (head-IsRecorded x e evs s f b)
fold-IsRecorded x (e ∷ evs) s ev (f, b, j) (Memᴰ.tail m) =
    fold-IsRecorded x evs (evolve x e s) ev j m
