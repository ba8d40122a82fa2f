-- ===== src/Kernel/Sched/Writes.antt =====
-- `batch_writes` lists each declared write once; `needs_checkpoint` covers it.
use peras.Prelude.{
  ◌≡◌, ◌∙◌, refl, ap, Bool-eq_of_iff, inl, inr, Bool, true, false, not, ◌&&◌, ◌||◌, Bool-cases,
  List, [], ◌∷◌, ◌++◌, arith, any, any-append, any-true, any-of_mem, is_empty,
}
use peras.Proto.Resource.{Access, is_write, access_eq}
use peras.Proto.Resource.Laws.{access_eq_iff}
use peras.Proto.Verdict.{ToolCall}
use peras.Kernel.Sched.{add_writes, writes_from, batch_writes, needs_checkpoint, changes_files}

-- A list of accesses holds each of them once.
pub data IsDistinct : List Access → Type 0 where
  nil : IsDistinct []
  snoc :
      {xs : List Access} (a : Access) {ys : List Access}
      → IsDistinct xs
      → any (access_eq a) xs ≡ false
      → ys ≡ xs ++ a ∷ []
      → IsDistinct ys

add_writes-IsDistinct : (out xs : List Access) → IsDistinct out → IsDistinct (add_writes out xs)
unfolding add_writes
add_writes-IsDistinct out [] h = h
add_writes-IsDistinct out (a ∷ more) h =
    elim (Bool-cases (is_write a && not (any (access_eq a) out))) [
      | inl e ↦
          rw e
            (add_writes-IsDistinct (out ++ a ∷ []) more (IsDistinct.snoc a h (ground arith) refl))
      | inr e ↦ rw e (add_writes-IsDistinct out more h)
    ]

writes_from-IsDistinct :
    (out : List Access) (calls : List ToolCall)
    → IsDistinct out
    → IsDistinct (writes_from out calls)
unfolding writes_from
writes_from-IsDistinct out [] h = h
writes_from-IsDistinct out (c ∷ cs) h =
    writes_from-IsDistinct (add_writes out c.access) cs (add_writes-IsDistinct out c.access h)

-- The calls declare the write `a`.
abbrev pub declares : Access → List ToolCall → Bool
declares a calls = any (λ c. any (λ x. is_write x && access_eq a x) c.access) calls

abbrev writes : Access → List Access → Bool
writes a xs = any (λ x. is_write x && access_eq a x) xs

-- An access that equals one already listed is listed.
listed :
    (a x : Access) (out : List Access)
    → access_eq a x ≡ true
    → any (access_eq a) out ≡ any (access_eq x) out
listed a x out h = let e : a ≡ x = (access_eq_iff a x).0 h in rw e refl

add_writes_mem :
    (a : Access) (out xs : List Access)
    → any (access_eq a) (add_writes out xs) ≡ (any (access_eq a) out || writes a xs)
unfolding add_writes any
add_writes_mem a out [] = ground arith
add_writes_mem a out (x ∷ more) = elim (Bool-cases (is_write x && not (any (access_eq x) out))) [
  | inl e ↦
      rw e (
        add_writes_mem a (out ++ x ∷ []) more ∙ (rw any-append (ground (arith, e, listed a x out))))
  | inr e ↦ rw e (add_writes_mem a out more ∙ ground (arith, e, listed a x out))
]

writes_from_mem :
    (a : Access) (out : List Access) (calls : List ToolCall)
    → any (access_eq a) (writes_from out calls) ≡ (any (access_eq a) out || declares a calls)
unfolding writes_from any
writes_from_mem a out [] = ground arith
writes_from_mem a out (c ∷ cs) =
    writes_from_mem a (add_writes out c.access) cs
    ∙ (rw (add_writes_mem a out c.access) (ground arith))

-- The writes of a batch: exactly the declared ones, each once.
pub batch_writes_lem :
    (calls : List ToolCall)
    → IsDistinct (batch_writes calls)
      × ((a : Access) → any (access_eq a) (batch_writes calls) ≡ declares a calls)
unfolding batch_writes any
batch_writes_lem calls =
    (writes_from-IsDistinct [] calls IsDistinct.nil, λ a. writes_from_mem a [] calls)

any-|| {ℓ} :
    {A : Type ℓ} (p q : A → Bool) (xs : List A) → any (λ x. p x || q x) xs ≡ (any p xs || any q xs)
unfolding any
any-|| p q [] = refl
any-|| p q (x ∷ xs) = ground (arith, any-|| p q xs)

abbrev writing : ToolCall → Bool
writing c = any is_write c.access

some_write :
    (calls : List ToolCall) (ws : List Access)
    → ((a : Access) → any (access_eq a) ws ≡ declares a calls)
    → not (is_empty ws) ≡ true
    → any writing calls ≡ true
unfolding is_empty any
some_write calls [] h e = cc
some_write calls (a ∷ ws) h e =
    let (c, mc, hc) =
      any-true (λ (c : ToolCall). writes a c.access) calls
        (ground (arith, h a, (access_eq_iff a a).1 refl)) in
    let (x, mx, hx) = any-true (λ x. is_write x && access_eq a x) c.access hc in
    any-of_mem writing c calls mc (any-of_mem is_write x c.access mx (ground arith))

write_some :
    (calls : List ToolCall) (ws : List Access)
    → ((a : Access) → any (access_eq a) ws ≡ declares a calls)
    → any writing calls ≡ true
    → not (is_empty ws) ≡ true
unfolding is_empty any
write_some calls (a ∷ ws) h e = refl
write_some calls [] h e =
    let (c, mc, hc) = any-true writing calls e in
    let (x, mx, hx) = any-true is_write c.access hc in
    let found : declares x calls ≡ true =
      any-of_mem (λ (c : ToolCall). writes x c.access) c calls mc
        (any-of_mem (λ y. is_write y && access_eq x y) x c.access mx
          (ground (arith, hx, (access_eq_iff x x).1 refl))) in
    cc (h x, found)

-- A batch is checkpointed first exactly if it has a call whose class changes files, or declares
-- a write.
pub needs_checkpoint_lem :
    (calls : List ToolCall)
    → needs_checkpoint calls
      ≡ (any (λ c. changes_files c.class) calls || not (is_empty (batch_writes calls)))
unfolding needs_checkpoint
needs_checkpoint_lem calls =
    let ws = batch_writes calls in
    let all_writes = (batch_writes_lem calls).1 in
    any-|| (λ c. changes_files c.class) writing calls
    ∙ ap (λ b. any (λ c. changes_files c.class) calls || b)
        (Bool-eq_of_iff _ _ (write_some calls ws all_writes) (some_write calls ws all_writes))
