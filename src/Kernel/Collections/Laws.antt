-- ===== src/Kernel/Collections/Laws.antt =====
-- `Chunked` is a list with `push` at its end; `SeqIndex` is a map.
use peras.Prelude.{
  ◌<◌, ◌*◌, ◌≡◌, ◌∙◌, ap, Bool-cases, inl, inr, some, List, [], ◌∷◌, ◌++◌, length, leb,
  if◌then◌else◌, lookup, put, lookup-put, text_key, text_eq, arith,
}
use mathlib.Core.List.{append_assoc, append-nil, reverse-append}
use peras.Proto.Envelope.{EventId, Seq}
use peras.Kernel.Collections.{
  Chunked, chunk, push, iter, flat, from_list, SeqIndex, index_insert, index_get, find_chunk,
}

module _ {ℓ} {T : Type ℓ} where
  flat-snoc : (cs : List (List T)) (c : List T) → flat (cs ++ c ∷ []) ≡ flat cs ++ c
  unfolding flat
  flat-snoc [] c = append-nil c
  flat-snoc (d ∷ cs) c = ap (λ l. d ++ l) (flat-snoc cs c) ∙ (rw append_assoc)

  -- Whether or not a chunk fills up, a push is an append.
  pub iter-push : (v : T) (c : Chunked T) → iter (push v c) ≡ iter c ++ v ∷ []
  unfolding iter push
  iter-push v c = elim (Bool-cases (leb chunk (length (c.last ++ v ∷ [])))) [
    | inl e ↦ rw e (simp (flat-snoc, append-nil, append_assoc))
    | inr e ↦ rw e (simp append_assoc)
  ]

  -- Pushing the elements of a list one by one, whatever chunks fill up, appends them in order.
  pub iter-from_list : (c : Chunked T) (vs : List T) → iter (from_list c vs) ≡ iter c ++ vs
  unfolding from_list
  iter-from_list c [] = rw append-nil
  iter-from_list c (v ∷ vs) = iter-from_list (push v c) vs ∙ (simp (iter-push, append_assoc))

-- The tail stays shorter than a chunk.
pub push-short {ℓ} : {T : Type ℓ} (v : T) (c : Chunked T) → length (push v c).last < chunk
unfolding push
push-short v c = ground arith

-- Lookup after insertion, also when the recent part is frozen by it.
pub index_get-insert :
    (id j : EventId) (seq : Seq) (ix : SeqIndex)
    → index_get j (index_insert id seq ix) ≡ (if text_eq j id then some seq else index_get j ix)
unfolding index_get index_insert find_chunk lookup
index_get-insert id j seq ix = elim (Bool-cases (leb (8 * chunk) (length (put id seq ix.recent)))) [
  | inl e ↦ rw e (
      rw (reverse-append ix.frozen (put id seq ix.recent ∷ []))
        (ground (arith, lookup-put id j seq ix.recent)))
  | inr e ↦ rw e (ground (arith, lookup-put id j seq ix.recent))
]
