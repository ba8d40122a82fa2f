-- ===== src/Kernel/Evolve/Closure.antt =====
-- The cascade of `on_tombstone`: it ends, and nothing is left to erase.
use peras.Prelude.{
  ℕ, zero, suc, ◌≡◌, ◌<◌, ◌≤◌, refl, arith, true, false, List, [], ◌∷◌, Text, length, any, any-true,
  any-of_mem, contains, insert, contains-insert, text_eq, text_eq_self, text_eq_iff, if◌then◌else◌,
  Bool-cases, inl, inr, ◌⊎◌, Memᴰ, ◌==◌, All,
}
use peras.Proto.Envelope.{EventId}
use peras.Kernel.Data.{State, Op}
use peras.Kernel.Collections.{iter}
use peras.Kernel.Evolve.Erase.{cascades, cascade_pass, cascade, op_id, erased_by}

length-insert :
    (t : Text) (us : List Text) → contains us t ≡ false → length (insert t us) ≡ suc (length us)
unfolding insert contains any
length-insert t [] h = refl
length-insert t (u ∷ us) h = ground (arith, length-insert t us)

-- A summary that cascades is not erased yet.
cascades-missing :
    (erased : List EventId) (op : Op)
    → cascades erased op ≡ true
    → contains erased (op_id op) ≡ false
unfolding cascades
cascades-missing erased op h = ground arith

-- The number of operations whose id is not erased.
missing : List EventId → List Op → ℕ
missing erased [] = 0
missing erased (op ∷ ops) =
    let rest = missing erased ops in if contains erased (op_id op) then rest else suc rest

abbrev pub Covers : List EventId → List EventId → Type 0
Covers a b = (id : EventId) → contains b id ≡ true → contains a id ≡ true

insert-Covers : (id : EventId) (erased : List EventId) → Covers (insert id erased) erased
insert-Covers id erased j h = let e = contains-insert id j erased in ground (arith, e)

-- The set after one operation of a pass.
abbrev grown : List EventId → Op → List EventId
grown erased op = if cascades erased op then insert (op_id op) erased else erased

grown-Covers : (erased : List EventId) (op : Op) → Covers (grown erased op) erased
grown-Covers erased op id h = let e = insert-Covers (op_id op) erased id h in ground (arith, e)

cascade_pass-Covers :
    (erased : List EventId) (ops : List Op) → Covers (cascade_pass erased ops) erased
unfolding cascade_pass
cascade_pass-Covers erased [] id h = h
cascade_pass-Covers erased (op ∷ ops) id h =
    cascade_pass-Covers (grown erased op) ops id (grown-Covers erased op id h)

missing_mono : (a b : List EventId) (ops : List Op) → Covers a b → missing a ops ≤ missing b ops
unfolding missing
missing_mono a b [] c = omega arith
missing_mono a b (op ∷ ops) c =
    let rest = missing_mono a b ops c in let here = c (op_id op) in ground (arith, rest, here)

-- Erasing the id of an operation of the list leaves fewer to erase.
missing-insert :
    (op : Op) (erased : List EventId) (ops : List Op)
    → Memᴰ op ops
    → contains erased (op_id op) ≡ false
    → missing (insert (op_id op) erased) ops < missing erased ops
unfolding missing
missing-insert op erased [] m h = elim m [ ]
missing-insert op erased (o ∷ ops) (Memᴰ.head e) h =
    let rest =
      missing_mono (insert (op_id op) erased) erased ops (insert-Covers (op_id op) erased) in
    let q = contains-insert (op_id op) (op_id op) erased in
    let r = text_eq_self (op_id op) in rw⁻¹ e (ground (arith, rest, q, r))
missing-insert op erased (o ∷ ops) (Memᴰ.tail m) h =
    let rest = missing-insert op erased ops m h in
    let here = insert-Covers (op_id op) erased (op_id o) in ground (arith, rest, here)

pass_length :
    (erased : List EventId) (ops : List Op) → length erased ≤ length (cascade_pass erased ops)
unfolding cascade_pass
pass_length erased [] = omega arith
pass_length erased (op ∷ ops) =
    let rest = pass_length (grown erased op) ops in
    let one = length-insert (op_id op) erased in
    let new = cascades-missing erased op in ground (arith, rest, one, new)

-- Nothing cascades.
abbrev pub IsClosed : List EventId → List Op → Type 0
IsClosed erased ops = All (λ op. cascades erased op ≡ false) ops

-- A pass finds nothing, or it leaves fewer operations to erase.
pass-progress :
    (erased : List EventId) (all ops : List Op)
    → ((o : Op) → Memᴰ o ops → Memᴰ o all)
    → (IsClosed erased ops × (cascade_pass erased ops ≡ erased))
      ⊎ ((missing (cascade_pass erased ops) all < missing erased all)
          × (length erased < length (cascade_pass erased ops)))
unfolding cascade_pass
pass-progress erased all [] sub = inl (tt, refl)
pass-progress erased all (op ∷ ops) sub = elim (Bool-cases (cascades erased op)) [
  | inl e ↦
      let new = cascades-missing erased op e in
      let fewer = missing-insert op erased all (sub op (Memᴰ.head refl)) new in
      let ids = insert (op_id op) erased in
      let rest = missing_mono (cascade_pass ids ops) ids all (cascade_pass-Covers ids ops) in
      let one = length-insert (op_id op) erased new in
      let more = pass_length ids ops in
      rw e (inr (omega (arith, fewer, rest), omega (arith, one, more)))
  | inr e ↦ rw e (elim (pass-progress erased all ops (λ o m. sub o (Memᴰ.tail m))) [
    | inl (closed, same) ↦ inl ((refl, closed), same)
    | inr (fewer, longer) ↦ inr (fewer, longer)
  ])
]

cascade-IsClosed :
    (fuel : ℕ) (erased : List EventId) (ops : List Op)
    → missing erased ops < fuel
    → IsClosed (cascade fuel erased ops) ops
unfolding cascade
cascade-IsClosed zero erased ops h = absurd (omega arith)
cascade-IsClosed (suc fuel) erased ops h = elim (pass-progress erased ops ops (λ o m. m)) [
  | inl (closed, same) ↦
      let q : (length (cascade_pass erased ops) == length erased) ≡ true = rw same (ground arith) in
      rw q (rw same closed)
  | inr (fewer, longer) ↦
      let q : (length (cascade_pass erased ops) == length erased) ≡ false = ground arith in
      rw q (cascade-IsClosed fuel (cascade_pass erased ops) ops (omega (arith, fewer)))
]

missing-length : (erased : List EventId) (ops : List Op) → missing erased ops ≤ length ops
unfolding missing
missing-length erased [] = omega arith
missing-length erased (op ∷ ops) = let rest = missing-length erased ops in ground (arith, rest)

cascade-Covers :
    (fuel : ℕ) (erased : List EventId) (ops : List Op) → Covers (cascade fuel erased ops) erased
unfolding cascade
cascade-Covers zero erased ops id h = h
cascade-Covers (suc fuel) erased ops id h =
    let one = cascade_pass-Covers erased ops id h in
    let rest = cascade-Covers fuel (cascade_pass erased ops) ops id one in ground (arith, one, rest)

any-contains :
    (a b : List EventId) (ids : List EventId)
    → Covers b a
    → any (contains a) ids ≡ true
    → any (contains b) ids ≡ true
any-contains a b ids c h =
    let (x, m, q) = any-true (contains a) ids h in any-of_mem (contains b) x ids m (c x q)

-- A closed set that has the set before an operation has the set after it.
grown-below :
    (erased b : List EventId) (op : Op)
    → Covers b erased
    → cascades b op ≡ false
    → Covers b (grown erased op)
unfolding cascades
grown-below erased b (Op.append e) c q j h = c j h
grown-below erased b (Op.replace seq id at rep) c q j h =
    let up = any-contains erased b rep.sources c in
    let keep = c j in
    let e = contains-insert id j erased in
    let same = text_eq_iff j id in
    let found : text_eq j id ≡ true → contains b id ≡ true → contains b j ≡ true =
      λ t k. rw (same.0 t) k in
    ground (arith, up, keep, e, found)

pass-below :
    (erased b : List EventId) (ops : List Op)
    → Covers b erased
    → IsClosed b ops
    → Covers b (cascade_pass erased ops)
unfolding cascade_pass
pass-below erased b [] c q = c
pass-below erased b (op ∷ ops) c (q, qs) =
    pass-below (grown erased op) b ops (grown-below erased b op c q) qs

cascade-below :
    (fuel : ℕ) (erased b : List EventId) (ops : List Op)
    → Covers b erased
    → IsClosed b ops
    → Covers b (cascade fuel erased ops)
unfolding cascade
cascade-below zero erased b ops c q id h = c id h
cascade-below (suc fuel) erased b ops c q id h =
    let one = pass-below erased b ops c q in
    let here = one id in
    let rest = cascade-below fuel (cascade_pass erased ops) b ops one q id in
    ground (arith, here, rest)

-- The ids that a tombstone erases: its target, what was erased before, and every summary with an
-- erased source, so that no summary with an erased source is left. The fuel is enough to get there.
pub erased_by-IsClosed :
    (target : EventId) (s : State)
    → Covers (erased_by target s) (insert target s.erased)
      × IsClosed (erased_by target s) (iter s.ops)
unfolding erased_by
erased_by-IsClosed target s =
    let ops = iter s.ops in
    let start = insert target s.erased in
    let enough = missing-length start ops in
    (
      cascade-Covers (suc (length ops)) start ops,
      cascade-IsClosed (suc (length ops)) start ops (omega (arith, enough)),
    )

-- A tombstone erases no more than it must: any set that has its target and what was erased before,
-- and that leaves no summary with an erased source, has all that it erases.
pub erased_by-least :
    (target : EventId) (s : State) (b : List EventId)
    → Covers b (insert target s.erased)
    → IsClosed b (iter s.ops)
    → Covers b (erased_by target s)
unfolding erased_by
erased_by-least target s b =
    cascade-below (suc (length (iter s.ops))) (insert target s.erased) b (iter s.ops)
