-- ===== src/Kernel/Gate/Evaluate/Strictness.antt =====
-- How strict the combined verdicts are.
use peras.Prelude.{
  ℕ, max, ◌≡◌, refl, ◌⊎◌, inl, inr, true, false, Option, none, some, List, [], ◌∷◌, ◌++◌, ltb,
  if◌then◌else◌, Text, arith, contains, is_empty, any, any-append, text_eq, Bool-cases,
}
use peras.Proto.Envelope.{Timestamp}
use peras.Proto.Verdict.{ToolCall, Verdict, Ring, ApprovalLevel, strictness}
use peras.Proto.Config.{PolicyAction, allow, ask, deny}
use peras.Kernel.Data.{Externals, State}
use peras.Kernel.Gate.Ring1.{invariants}
use peras.Kernel.Gate.Policy.{policy}
use peras.Kernel.Gate.Evaluate.{
  budget, ring1, ring2, ring3, evaluate, merge_rules, staged_writes, changes_verdict, tighten,
  reviewed,
}

-- The strictness that each ring asks for by itself.
abbrev pub ring1_strictness : List Text → ℕ
ring1_strictness [] = 0
ring1_strictness (h ∷ hs) = 2

abbrev pub ring2_strictness : PolicyAction → ℕ
ring2_strictness allow = 0
ring2_strictness ask = 2
ring2_strictness deny = 4

abbrev pub ring3_strictness : Option Text → ℕ
ring3_strictness none = 0
ring3_strictness (some why) = 4

rings_strictness :
    (call : ToolCall) (rewrites : ℕ) (i : List Text × Option Text) (p : PolicyAction × List Text)
    (b : Option Text)
    → strictness (ring3 b (ring2 call rewrites p (ring1 call rewrites i))).verdict
      ≡ max (max (ring1_strictness i.0) (ring2_strictness p.0)) (ring3_strictness b)
unfolding ring1 ring2 ring3 strictness is_empty
rings_strictness call rewrites ([], r) (allow, rules) none = refl
rings_strictness call rewrites ([], r) (ask, rules) none = refl
rings_strictness call rewrites ([], r) (deny, rules) none = refl
rings_strictness call rewrites ([], r) (allow, rules) (some why) = refl
rings_strictness call rewrites ([], r) (ask, rules) (some why) = refl
rings_strictness call rewrites ([], r) (deny, rules) (some why) = refl
rings_strictness call rewrites (h ∷ hs, r) (allow, rules) none = refl
rings_strictness call rewrites (h ∷ hs, r) (ask, rules) none = refl
rings_strictness call rewrites (h ∷ hs, r) (deny, rules) none = refl
rings_strictness call rewrites (h ∷ hs, r) (allow, rules) (some why) = refl
rings_strictness call rewrites (h ∷ hs, r) (ask, rules) (some why) = refl
rings_strictness call rewrites (h ∷ hs, r) (deny, rules) (some why) = refl

-- The combined verdict is exactly as strict as the strictest of the three rings, and a denial
-- after more than three rewrites.
pub strictness-evaluate :
    (x : Externals) (s : State) (at : Timestamp) (call : ToolCall) (ordinal repeat rewrites : ℕ)
    → strictness (evaluate x s at call ordinal repeat rewrites).verdict ≡ (
        if ltb 3 rewrites
        then 4
        else max
            (max (ring1_strictness (invariants x s call).0) (ring2_strictness (policy x s call).0))
            (ring3_strictness (budget s at ordinal repeat)))
unfolding evaluate strictness
strictness-evaluate x s at call ordinal repeat rewrites = elim (Bool-cases (ltb 3 rewrites)) [
  | inl e ↦ rw e
  | inr e ↦ rw e (
      rings_strictness call rewrites (invariants x s call) (policy x s call)
        (budget s at ordinal repeat))
]

pub merge_rules-keeps :
    (known rules : List Text) (h : Text)
    → contains known h ≡ true
    → contains (merge_rules known rules) h ≡ true
unfolding merge_rules contains any
merge_rules-keeps known [] h e = e
merge_rules-keeps known (r ∷ rs) h e =
    merge_rules-keeps (if contains known r then known else known ++ r ∷ []) rs h
      (ground (arith, e, any-append (text_eq h) known (r ∷ [])))

-- A denial, or a question at the invariant level that names all of `hits`.
abbrev pub Escalates : List Text → Verdict → Type 0
Escalates hits (Verdict.deny _) = Unit
Escalates hits (Verdict.ask q) =
    (q.level ≡ ApprovalLevel.invariant)
    × (q.ring ≡ Ring.invariant)
    × ((h : Text) → contains hits h ≡ true → contains q.rules h ≡ true)
Escalates hits _ = ⊥

rings-Escalates :
    (call : ToolCall) (rewrites : ℕ) (i : List Text × Option Text) (p : PolicyAction × List Text)
    (b : Option Text)
    → is_empty i.0 ≡ false
    → Escalates i.0 (ring3 b (ring2 call rewrites p (ring1 call rewrites i))).verdict
unfolding ring1 ring2 ring3 is_empty
rings-Escalates call rewrites ([], r) p b e = cc
rings-Escalates call rewrites (h ∷ hs, r) (allow, rules) none e = (refl, refl, λ h k. k)
rings-Escalates call rewrites (h ∷ hs, r) (ask, rules) none e =
    (refl, refl, merge_rules-keeps (h ∷ hs) rules)
rings-Escalates call rewrites (h ∷ hs, r) (deny, rules) none e = tt
rings-Escalates call rewrites (h ∷ hs, r) (allow, rules) (some why) e = tt
rings-Escalates call rewrites (h ∷ hs, r) (ask, rules) (some why) e = tt
rings-Escalates call rewrites (h ∷ hs, r) (deny, rules) (some why) e = tt

-- A call that violates an invariant is denied, or asked about at the invariant level, with every
-- violated invariant named in the question: no rule and no budget lets it pass or lowers the level.
pub evaluate-Escalates :
    (x : Externals) (s : State) (at : Timestamp) (call : ToolCall) (ordinal repeat rewrites : ℕ)
    → is_empty (invariants x s call).0 ≡ false
    → Escalates (invariants x s call).0 (evaluate x s at call ordinal repeat rewrites).verdict
unfolding evaluate
evaluate-Escalates x s at call ordinal repeat rewrites h = elim (Bool-cases (ltb 3 rewrites)) [
  | inl e ↦ rw e tt
  | inr e ↦ rw e (
      rings-Escalates call rewrites (invariants x s call) (policy x s call)
        (budget s at ordinal repeat) h)
]

strictness-reviewed :
    (call : ToolCall) (staged : List Text) (p : PolicyAction × List Text)
    → strictness (reviewed call staged p).verdict ≡ ring2_strictness p.0
unfolding reviewed strictness
strictness-reviewed call staged (allow, rules) = refl
strictness-reviewed call staged (ask, rules) = refl
strictness-reviewed call staged (deny, rules) = refl

-- The review of staged changes asks whenever an invariant is violated, and else is as strict as
-- the rules.
pub strictness-changes_verdict :
    (x : Externals) (s : State) (call : ToolCall) (staged : List Text)
    → strictness (changes_verdict x s call staged).verdict ≡ (
        if is_empty (invariants x s (staged_writes s call staged)).0
        then ring2_strictness (policy x s (staged_writes s call staged)).0
        else 2)
unfolding changes_verdict strictness
strictness-changes_verdict x s call staged =
    let writes = staged_writes s call staged in
    elim (Bool-cases (is_empty (invariants x s writes).0)) [
      | inl e ↦ rw e (strictness-reviewed call staged (policy x s writes))
      | inr e ↦ rw e
    ]

-- Where the staged writes violate an invariant and a rule denies them, the review only asks,
-- while a call that declares the same writes is denied.
pub changes_verdict-looser :
    (x : Externals) (s : State) (at : Timestamp) (call : ToolCall) (staged : List Text)
    (ordinal repeat rewrites : ℕ)
    → is_empty (invariants x s (staged_writes s call staged)).0 ≡ false
    → (policy x s (staged_writes s call staged)).0 ≡ deny
    → (strictness (changes_verdict x s call staged).verdict ≡ 2)
      × (strictness (evaluate x s at (staged_writes s call staged) ordinal repeat rewrites).verdict
          ≡ 4)
changes_verdict-looser x s at call staged ordinal repeat rewrites h d =
    (rw strictness-changes_verdict (rw h), rw strictness-evaluate (ground (arith, d)))

-- A later verdict can only tighten: the result is one of the two, and the stricter.
pub strictness-tighten :
    (a b : Verdict)
    → (strictness (tighten a b) ≡ max (strictness a) (strictness b))
      × ((tighten a b ≡ a) ⊎ (tighten a b ≡ b))
unfolding tighten
strictness-tighten a b = (ground arith, ground arith)
