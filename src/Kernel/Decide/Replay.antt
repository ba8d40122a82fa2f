-- ===== src/Kernel/Decide/Replay.antt =====
-- `decide` against the journal: the clone of the state is the fold of the drafts, and the
-- configuration that the handlers expect is there.
use peras.Prelude.{
  ℕ, suc, ◌+◌, ◌≡◌, refl, subst, arith, Bool, true, false, Option, none, some, List, [], ◌∷◌, ◌++◌,
  length, length-append, if◌then◌else◌,
}
use peras.Proto.Envelope.{EffectId, Timestamp}
use peras.Proto.Effect.{Effect}
use peras.Proto.Event.{Event, Draft, internal_draft}
use peras.Proto.Config.{KernelConfig}
use peras.Kernel.Data.{Externals, State}
use peras.Kernel.Turns.{holds}
use peras.Kernel.Evolve.{evolve}
use peras.Kernel.Invariants.Standing.{standing-evolve}
use peras.Kernel.Decide.Commands.{
  Program, Cx, Outcome, run, sealed, emit_draft, issue_effect, resume_held, push_effect, next_id,
  user_draft, new_cx, ◌>>=◌,
}

-- What holds of the clone and the decision when the program returns.
abbrev pub Ends {ℓ} : {A : Type 0} → (Cx → Type ℓ) → Outcome A → Type ℓ
Ends P (Outcome.returned a cx) = P cx
Ends P (Outcome.rejected why) = Unit
Ends P Outcome.panicked = Unit

-- Each command keeps the predicate.
abbrev pub IsKept {ℓ} : Externals → (Cx → Type ℓ) → Type ℓ
IsKept x P =
    ((d : Draft) (cx : Cx) → P cx → P (emit_draft x d cx))
    × ((e : Effect) (cx : Cx) → P cx → P (issue_effect x e cx))
    × ((cx : Cx) → P cx → P (resume_held x cx))

pub Ends-configured {ℓ} :
    {A : Type 0} (P : Cx → Type ℓ) (f : KernelConfig → Outcome A) (o : Option KernelConfig)
    → ((c : KernelConfig) → Ends P (f c))
    → Ends P (elim o [ none ↦ Outcome.panicked | some c ↦ f c ])
Ends-configured P f none h = tt
Ends-configured P f (some c) h = h c

pub run-Ends {ℓ} :
    {A : Type 0} (x : Externals) (P : Cx → Type ℓ) (kept : IsKept x P) (p : Program A) (cx : Cx)
    → P cx
    → Ends P (run x p cx)
unfolding run
run-Ends x P kept (Program.ret a) cx h = h
run-Ends x P kept (Program.reject why) cx h = tt
run-Ends x P kept (Program.reading k) cx h = run-Ends x P kept (k cx.s) cx h
run-Ends x P kept (Program.timing k) cx h = run-Ends x P kept (k cx.at) cx h
run-Ends x P kept (Program.configured k) cx h =
    Ends-configured P (λ c. run x (k c) cx) cx.s.config (λ c. run-Ends x P kept (k c) cx h)
run-Ends x P kept (Program.emitting d p) cx h =
    run-Ends x P kept p (emit_draft x d cx) (kept.0 d cx h)
run-Ends x P kept (Program.issuing e k) cx h =
    run-Ends x P kept (k (next_id cx.s)) (issue_effect x e cx) (kept.1 e cx h)
run-Ends x P kept (Program.resuming p) cx h = run-Ends x P kept p (resume_held x cx) (kept.2 cx h)

pub if_either {ℓ} :
    (P : Cx → Type ℓ) (b : Bool) (cx cy : Cx) → P cx → P cy → P (if b then cx else cy)
if_either P true cx cy h k = h
if_either P false cx cy h k = k

pub if_by {ℓ} :
    (P : Cx → Type ℓ) (b : Bool) (cx cy : Cx)
    → (b ≡ true → P cx)
    → (b ≡ false → P cy)
    → P (if b then cx else cy)
if_by P true cx cy h k = h refl
if_by P false cx cy h k = k refl

-- The fold of drafts, each sealed as `emit` seals it.
unfoldable pub replay : Externals → Timestamp → ℕ → List Draft → State → State
replay x at k [] s = s
replay x at k (d ∷ ds) s = replay x at (suc k) ds (evolve x (sealed at s.next_seq k d) s)

replay-append :
    (x : Externals) (at : Timestamp) (k j : ℕ) (ds : List Draft) (d : Draft) (s : State)
    → j ≡ k + length ds
    → let t = replay x at k ds s in
      replay x at k (ds ++ d ∷ []) s ≡ evolve x (sealed at t.next_seq j d) t
unfolding replay
replay-append x at k j [] d s h = let e : j ≡ k = omega (arith, h) in rw e refl
replay-append x at k j (e ∷ ds) d s h =
    replay-append x at (suc k) j ds d (evolve x (sealed at s.next_seq k e) s) (omega (arith, h))

-- The clone is the fold of the drafts over the state that the decision began with.
abbrev pub IsReplay : Externals → Timestamp → State → Cx → Type 0
IsReplay x at s cx =
    (cx.at ≡ at) × (cx.k ≡ length cx.out.events) × (cx.s ≡ replay x at 0 cx.out.events s)

emit_draft-IsReplay :
    (x : Externals) (at : Timestamp) (s : State) (d : Draft) (cx : Cx)
    → IsReplay x at s cx
    → IsReplay x at s (emit_draft x d cx)
unfolding emit_draft
emit_draft-IsReplay x at s d cx (a, k, e) = (
  a,
  omega (arith, length-append cx.out.events (d ∷ []), k),
  let r = replay-append x at 0 cx.k cx.out.events d s (omega (arith, k)) in cc (a, e, r),
)

push_effect-IsReplay :
    (x : Externals) (at : Timestamp) (s : State) (id : EffectId) (o : Option Effect) (cx : Cx)
    → IsReplay x at s cx
    → IsReplay x at s (push_effect id o cx)
push_effect-IsReplay x at s id none cx h = h
push_effect-IsReplay x at s id (some e) cx h = h

issue_effect-IsReplay :
    (x : Externals) (at : Timestamp) (s : State) (e : Effect) (cx : Cx)
    → IsReplay x at s cx
    → IsReplay x at s (issue_effect x e cx)
unfolding issue_effect
issue_effect-IsReplay x at s e cx h =
    let d = internal_draft (Event.effect_issued (next_id cx.s) e) in
    let emitted = emit_draft-IsReplay x at s d cx h in
    if_either (IsReplay x at s) cx.s.paused _ _ emitted (push_effect-IsReplay x at s _ _ _ emitted)

IsReplay-IsKept : (x : Externals) (at : Timestamp) (s : State) → IsKept x (IsReplay x at s)
unfolding resume_held
IsReplay-IsKept x at s = (
  emit_draft-IsReplay x at s,
  issue_effect-IsReplay x at s,
  λ cx h. emit_draft-IsReplay x at s (user_draft Event.resumed) cx h,
)

-- Whatever a handler does, the clone it leaves is the fold of the drafts it has made.
pub run-IsReplay :
    {A : Type 0} (x : Externals) (p : Program A) (s : State) (at : Timestamp)
    → Ends (IsReplay x at s) (run x p (new_cx s at))
unfolding replay
run-IsReplay x p s at =
    run-Ends x (IsReplay x at s) (IsReplay-IsKept x at s) p (new_cx s at) (refl, refl, refl)

Ends-both_configured {ℓ κ} :
    {A B : Type 0} (P : Cx → Type ℓ) (Q : Cx → Type κ) (f : KernelConfig → Outcome A)
    (g : KernelConfig → Outcome B) (o : Option KernelConfig)
    → Ends P (elim o [ none ↦ Outcome.panicked | some c ↦ f c ])
    → ((c : KernelConfig) → Ends P (f c) → Ends Q (g c))
    → Ends Q (elim o [ none ↦ Outcome.panicked | some c ↦ g c ])
Ends-both_configured P Q f g none h k = tt
Ends-both_configured P Q f g (some c) h k = k c h

pub Ends-known {ℓ} :
    {A : Type 0} (P : Cx → Type ℓ) (f : KernelConfig → Outcome A) (o : Option KernelConfig)
    (c : KernelConfig)
    → o ≡ some c
    → Ends P (f c)
    → Ends P (elim o [ none ↦ Outcome.panicked | some c ↦ f c ])
Ends-known P f none c e h = tt
Ends-known P f (some d) c e h =
    let q : c ≡ d = cc e in subst (λ (k : KernelConfig). Ends P (f k)) q h

-- One program after another.
pub Ends-bind {ℓ κ} :
    {A B : Type 0} (P : Cx → Type ℓ) (Q : Cx → Type κ) (x : Externals) (p : Program A)
    (f : A → Program B) (cx : Cx)
    → Ends P (run x p cx)
    → ((a : A) (cy : Cx) → P cy → Ends Q (run x (f a) cy))
    → Ends Q (run x (p >>= f) cx)
unfolding run ◌>>=◌
Ends-bind P Q x (Program.ret a) f cx h k = k a cx h
Ends-bind P Q x (Program.reject why) f cx h k = tt
Ends-bind P Q x (Program.reading r) f cx h k = Ends-bind P Q x (r cx.s) f cx h k
Ends-bind P Q x (Program.timing r) f cx h k = Ends-bind P Q x (r cx.at) f cx h k
Ends-bind P Q x (Program.configured r) f cx h k =
    Ends-both_configured P Q (λ c. run x (r c) cx) (λ c. run x (r c >>= f) cx) cx.s.config h
      (λ c e. Ends-bind P Q x (r c) f cx e k)
Ends-bind P Q x (Program.emitting d p) f cx h k = Ends-bind P Q x p f (emit_draft x d cx) h k
Ends-bind P Q x (Program.issuing e r) f cx h k =
    Ends-bind P Q x (r (next_id cx.s)) f (issue_effect x e cx) h k
Ends-bind P Q x (Program.resuming p) f cx h k = Ends-bind P Q x p f (resume_held x cx) h k

pub Ends-map {ℓ κ} :
    {A : Type 0} (P : Cx → Type ℓ) (Q : Cx → Type κ) (o : Outcome A)
    → ((cx : Cx) → P cx → Q cx)
    → Ends P o
    → Ends Q o
Ends-map P Q (Outcome.returned a cx) f h = f cx h
Ends-map P Q (Outcome.rejected why) f h = tt
Ends-map P Q Outcome.panicked f h = tt

pub Ends-returned {ℓ} :
    {A : Type 0} (P : Cx → Type ℓ) (o : Outcome A) (a : A) (cx : Cx)
    → Ends P o
    → o ≡ Outcome.returned a cx
    → P cx
Ends-returned P o a cx h e = subst (Ends P) e h

-- Whatever a handler does: when it returns, the clone it decided with is the fold, by `evolve`, of
-- the drafts it made, in order, over the state that it began with.
pub run-replay :
    {A : Type 0} (x : Externals) (p : Program A) (s : State) (at : Timestamp) (a : A) (cx : Cx)
    → run x p (new_cx s at) ≡ Outcome.returned a cx
    → cx.s ≡ replay x at 0 cx.out.events s
run-replay x p s at a cx e =
    (Ends-returned (IsReplay x at s) (run x p (new_cx s at)) a cx (run-IsReplay x p s at) e).2

-- ---- the configuration ----
HasConfig : Cx → Type 0
HasConfig cx = holds cx.s.config ≡ true

emit_draft-HasConfig :
    (x : Externals) (d : Draft) (cx : Cx) → HasConfig cx → HasConfig (emit_draft x d cx)
unfolding emit_draft sealed HasConfig
emit_draft-HasConfig x d cx h =
    let e = standing-evolve x (sealed cx.at cx.s.next_seq cx.k d) cx.s in ground (arith, e)

push_effect-HasConfig :
    (id : EffectId) (o : Option Effect) (cx : Cx) → HasConfig cx → HasConfig (push_effect id o cx)
unfolding HasConfig
push_effect-HasConfig id none cx h = h
push_effect-HasConfig id (some e) cx h = h

issue_effect-HasConfig :
    (x : Externals) (e : Effect) (cx : Cx) → HasConfig cx → HasConfig (issue_effect x e cx)
unfolding issue_effect
issue_effect-HasConfig x e cx h =
    let emitted =
      emit_draft-HasConfig x (internal_draft (Event.effect_issued (next_id cx.s) e)) cx h in
    if_either HasConfig cx.s.paused _ _ emitted (push_effect-HasConfig _ _ _ emitted)

resume_held-HasConfig : (x : Externals) (cx : Cx) → HasConfig cx → HasConfig (resume_held x cx)
unfolding resume_held HasConfig
resume_held-HasConfig x cx h = emit_draft-HasConfig x (user_draft Event.resumed) cx h

-- The program did not meet a missing configuration.
abbrev pub IsSafe : {A : Type 0} → Outcome A → Type 0
IsSafe Outcome.panicked = ⊥
IsSafe _ = Unit

configured-IsSafe :
    {A : Type 0} (f : KernelConfig → Outcome A) (o : Option KernelConfig)
    → holds o ≡ true
    → ((c : KernelConfig) → IsSafe (f c))
    → IsSafe (elim o [ none ↦ Outcome.panicked | some c ↦ f c ])
configured-IsSafe f none e h = cc e
configured-IsSafe f (some c) e h = h c

pub run-IsSafe :
    {A : Type 0} (x : Externals) (p : Program A) (cx : Cx)
    → holds cx.s.config ≡ true
    → IsSafe (run x p cx)
unfolding run HasConfig
run-IsSafe x (Program.ret a) cx h = tt
run-IsSafe x (Program.reject why) cx h = tt
run-IsSafe x (Program.reading k) cx h = run-IsSafe x (k cx.s) cx h
run-IsSafe x (Program.timing k) cx h = run-IsSafe x (k cx.at) cx h
run-IsSafe x (Program.configured k) cx h =
    configured-IsSafe (λ c. run x (k c) cx) cx.s.config h (λ c. run-IsSafe x (k c) cx h)
run-IsSafe x (Program.emitting d p) cx h =
    run-IsSafe x p (emit_draft x d cx) (emit_draft-HasConfig x d cx h)
run-IsSafe x (Program.issuing e k) cx h =
    run-IsSafe x (k (next_id cx.s)) (issue_effect x e cx) (issue_effect-HasConfig x e cx h)
run-IsSafe x (Program.resuming p) cx h =
    run-IsSafe x p (resume_held x cx) (resume_held-HasConfig x cx h)
