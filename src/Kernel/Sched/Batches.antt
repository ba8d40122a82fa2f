-- ===== src/Kernel/Sched/Batches.antt =====
-- `next_batch` against its specification.
use peras.Prelude.{
  ℕ, zero, suc, ◌<◌, ◌≡◌, ◌≢◌, ◌⊎◌, refl, ap, sym, ◌∙◌, Bool, false, not, ◌||◌, Bool-cases, inl,
  inr, none, some, List, [], ◌∷◌, ◌++◌, arith, length, get_elem?, take, any, any-append, any-false,
  retain, mem-retain, Memᴰ,
}
use mathlib.Core.List.{append_assoc, append-nil}
use native.Mathlib.Decide.{dec_lt}
use peras.Proto.Verdict.{ToolCall}
use peras.Kernel.Sched.Overlap.{conflicts_comm}
use peras.Kernel.Sched.{conflicts, conflicts_at, batch_from, next_batch}

-- A call is free if it conflicts with no call before it.
unfoldable pub is_free : List ToolCall → ℕ → Bool
unfolding any
is_free calls i = elim (get_elem? calls i) [
  | none ↦ false
  | some c ↦ not (any (conflicts c) (take i calls))
]

unfoldable pub range : ℕ → ℕ → List ℕ
range i zero = []
range i (suc n) = i ∷ range (suc i) n

module _ {ℓ} {A : Type ℓ} where
  get_elem?-middle :
      (pre : List A) (x : A) (post : List A) → get_elem? (pre ++ x ∷ post) (length pre) ≡ some x
  get_elem?-middle [] x post = refl
  get_elem?-middle (y ∷ pre) x post = get_elem?-middle pre x post

  take-middle : (pre post : List A) → take (length pre) (pre ++ post) ≡ pre
  take-middle [] post = refl
  take-middle (y ∷ pre) post = ap (λ l. y ∷ l) (take-middle pre post)

  length-snoc : (pre : List A) (x : A) → length (pre ++ x ∷ []) ≡ suc (length pre)
  length-snoc [] x = refl
  length-snoc (y ∷ pre) x = ap suc (length-snoc pre x)

-- One more call, chosen or skipped, is one more call behind the loop.
pushed {ℓ} :
    {A : Type ℓ} (p : ℕ → Bool) (q : A → Bool) (chosen skipped : List ℕ) (pre : List A) (i : ℕ)
    (x : A)
    → any p (chosen ++ skipped) ≡ any q pre
    → p i ≡ q x
    → (any p (chosen ++ (skipped ++ i ∷ [])) ≡ any q (pre ++ x ∷ []))
      × (any p ((chosen ++ i ∷ []) ++ skipped) ≡ any q (pre ++ x ∷ []))
unfolding any
pushed p q chosen skipped pre i x h e =
    let h' : (any p chosen || any p skipped) ≡ any q pre = sym (any-append p chosen skipped) ∙ h in
    (simp any-append (ground (arith, h', e)), simp any-append (ground (arith, h', e)))

module _ (calls : List ToolCall) where
  conflicts_at-middle :
      (pre : List ToolCall) (x : ToolCall) (post : List ToolCall)
      → calls ≡ pre ++ x ∷ post
      → (c : ToolCall) → conflicts_at calls c (length pre) ≡ conflicts c x
  unfolding conflicts_at
  conflicts_at-middle pre x post e c = rw (e, conflicts_at, get_elem?-middle pre x post)

  is_free-middle :
      (pre : List ToolCall) (x : ToolCall) (post : List ToolCall)
      → calls ≡ pre ++ x ∷ post
      → is_free calls (length pre) ≡ not (any (conflicts x) pre)
  unfolding is_free
  is_free-middle pre x post e =
      rw (e, is_free, get_elem?-middle pre x post) (rw (e, take-middle pre (x ∷ post)))

  -- The loop appends, to what it has chosen, the free calls among those that are left.
  batch_from_lem :
      (rest pre : List ToolCall) (i : ℕ) (chosen skipped : List ℕ)
      → calls ≡ pre ++ rest
      → i ≡ length pre
      → ((c : ToolCall) → any (conflicts_at calls c) (chosen ++ skipped) ≡ any (conflicts c) pre)
      → batch_from calls i rest chosen skipped
        ≡ chosen ++ retain (is_free calls) (range i (length rest))
  unfolding batch_from retain range
  batch_from_lem [] pre i chosen skipped e n inv = sym (append-nil chosen)
  batch_from_lem (x ∷ post) pre i chosen skipped e n inv =
      let e' : calls ≡ (pre ++ x ∷ []) ++ post = rw append_assoc e in
      let n' : suc i ≡ length (pre ++ x ∷ []) = rw length-snoc (ap suc n) in
      let at : (c : ToolCall) → conflicts_at calls c i ≡ conflicts c x =
        rw n (conflicts_at-middle pre x post e) in
      let keep = λ (c : ToolCall).
        pushed (conflicts_at calls c) (conflicts c) chosen skipped pre i x (inv c) (at c) in
      let free : is_free calls i ≡ not (any (conflicts x) pre) =
        rw n (is_free-middle pre x post e) in
      elim (Bool-cases (any (conflicts x) pre)) [
        | inl b ↦
            rw (inv x, b)
              (rw (free, b)
                (batch_from_lem post (pre ++ x ∷ []) (suc i) chosen (skipped ++ i ∷ []) e' n'
                  (λ c. (keep c).0)))
        | inr b ↦
            rw (inv x, b)
              (rw (free, b)
                (batch_from_lem post (pre ++ x ∷ []) (suc i) (chosen ++ i ∷ []) skipped e' n'
                    (λ c. (keep c).1)
                  ∙ append_assoc chosen (i ∷ [])
                      (retain (is_free calls) (range (suc i) (length post)))))
      ]

-- The greedy batch is, in order, the calls that conflict with no call before them.
pub next_batch_lem :
    (calls : List ToolCall) → next_batch calls ≡ retain (is_free calls) (range 0 (length calls))
unfolding next_batch
next_batch_lem calls = batch_from_lem calls calls [] 0 [] [] refl refl (λ c. refl)

mem-take {ℓ} :
    {A : Type ℓ} (xs : List A) (i j : ℕ) (x : A)
    → i < j
    → get_elem? xs i ≡ some x
    → Memᴰ x (take j xs)
mem-take [] i j x h e = cc
mem-take (y ∷ ys) i zero x h e = elim h [ ]
mem-take (y ∷ ys) zero (suc j) x h e = Memᴰ.head (ground arith)
mem-take (y ∷ ys) (suc i) (suc j) x h e = Memᴰ.tail (mem-take ys i j x (omega arith) e)

-- A call in the batch conflicts with no call before it, in the batch or not.
batch-no_overtake :
    (calls : List ToolCall) (i j : ℕ) (a b : ToolCall)
    → Memᴰ j (next_batch calls)
    → i < j
    → get_elem? calls i ≡ some a
    → get_elem? calls j ≡ some b
    → conflicts b a ≡ false
unfolding is_free
batch-no_overtake calls i j a b m h ea eb =
    let (_, free) =
      mem-retain (is_free calls) j (range 0 (length calls)) (rw next_batch_lem at m) in
    let clear : any (conflicts b) (take j calls) ≡ false = ground (arith, free, eb) in
    any-false (conflicts b) a (take j calls) clear (mem-take calls i j a h ea)

-- A call in the batch conflicts, from either side, with no call before it, and with no other
-- call of the batch.
pub next_batch_independent :
    (calls : List ToolCall) (i j : ℕ) (a b : ToolCall)
    → Memᴰ j (next_batch calls)
    → get_elem? calls i ≡ some a
    → get_elem? calls j ≡ some b
    → (i < j) ⊎ (Memᴰ i (next_batch calls) × (i ≢ j))
    → (conflicts a b ≡ false) × (conflicts b a ≡ false)
next_batch_independent calls i j a b m ea eb (inl h) =
    let q = batch-no_overtake calls i j a b m h ea eb in (conflicts_comm a b ∙ q, q)
next_batch_independent calls i j a b m ea eb (inr (k, ne)) = elim (dec_lt i j) [
  | yes h ↦ let q = batch-no_overtake calls i j a b m h ea eb in (conflicts_comm a b ∙ q, q)
  | no h ↦
      let q = batch-no_overtake calls j i b a k (omega arith) eb ea in (q, conflicts_comm b a ∙ q)
]

-- Progress: the first of the calls that are left is in every batch.
pub next_batch_first :
    (c : ToolCall) (cs : List ToolCall) → (rest : List ℕ) × (next_batch (c ∷ cs) ≡ 0 ∷ rest)
unfolding is_free retain range any
next_batch_first c cs = (retain (is_free (c ∷ cs)) (range 1 (length cs)), next_batch_lem (c ∷ cs))
