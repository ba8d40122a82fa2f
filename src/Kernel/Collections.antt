-- ===== src/Kernel/Collections.antt =====
-- The two containers of crates/kernel/src/state.rs that are cheap to clone: `Chunked` and
-- `SeqIndex`. Sharing (`Arc`) is not modelled, since no operation can observe it.
pub mod Laws
use peras.Prelude.{
  ℕ, Option, none, some, List, [], ◌∷◌, ◌++◌, reverse, length, leb, if◌then◌else◌, Map, Key, lookup,
  put, text_key, ◌*◌,
}
use peras.Proto.Envelope.{EventId, Seq}

-- `CHUNK`
abbrev pub chunk : ℕ
chunk = 64

pub record Chunked {ℓ} (T : Type ℓ) : Type ℓ where
  pub full : List (List T)
  pub last : List T

abbrev pub empty_chunked {ℓ} : {T : Type ℓ} → Chunked T
empty_chunked = record { full = []; last = [] }

-- `self.full.iter().flat_map(..)`
unfoldable pub flat {ℓ} : {T : Type ℓ} → List (List T) → List T
flat [] = []
flat (c ∷ cs) = c ++ flat cs

module _ {ℓ} {T : Type ℓ} where
  unfoldable pub push : T → Chunked T → Chunked T
  push v c =
      let tail = c.last ++ v ∷ [] in
      if leb chunk (length tail)
      then record { full = c.full ++ tail ∷ []; last = [] }
      else record { full = c.full; last = tail }

  unfoldable pub iter : Chunked T → List T
  unfolding flat
  iter c = flat c.full ++ c.last

  -- `Deserialize`: push the elements one by one.
  unfoldable pub from_list : Chunked T → List T → Chunked T
  from_list c [] = c
  from_list c (v ∷ vs) = from_list (push v c) vs

pub record SeqIndex : Type 0 where
  pub frozen : List (Map EventId Seq)
  pub recent : Map EventId Seq

abbrev pub empty_index : SeqIndex
empty_index = record { frozen = []; recent = [] }

unfoldable pub index_insert : EventId → Seq → SeqIndex → SeqIndex
index_insert id seq ix =
    let recent' = put id seq ix.recent in
    if leb (8 * chunk) (length recent')
    then record { frozen = ix.frozen ++ recent' ∷ []; recent = [] }
    else record { frozen = ix.frozen; recent = recent' }

-- `frozen.iter().rev().find_map(|c| c.get(id))`, over the list already reversed
unfoldable pub find_chunk : EventId → List (Map EventId Seq) → Option Seq
find_chunk id [] = none
find_chunk id (c ∷ cs) =
    let later = find_chunk id cs in elim (lookup id c) [ some seq ↦ some seq | none ↦ later ]

unfoldable pub index_get : EventId → SeqIndex → Option Seq
unfolding find_chunk
index_get id ix = elim (lookup id ix.recent) [
  | some seq ↦ some seq
  | none ↦ find_chunk id (reverse ix.frozen)
]
