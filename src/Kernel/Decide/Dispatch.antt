-- ===== src/Kernel/Decide/Dispatch.antt =====
-- What a decision dispatches: only what the journal knows of, and nothing while paused.
use peras.Prelude.{
  ◌≡◌, refl, sym, ap, subst, arith, Bool, true, false, ◌||◌, Option, none, some, List, [], ◌∷◌,
  ◌++◌, any, any-append, Memᴰ, mem-append_left, mem-append_right, mem-append_cases, inl, inr, ◌⊎◌,
  lookup,
}
use peras.Proto.Envelope.{EffectId, Timestamp}
use peras.Proto.Effect.{Effect}
use peras.Proto.Event.{Event, Draft, internal_draft}
use peras.Kernel.Data.{Externals, State, Issued}
use peras.Kernel.Turns.{effect_key, dispatchable}
use peras.Kernel.Invariants.Standing.{standing-evolve}
use peras.Kernel.Invariants.Holding.{Issues, held-evolve}
use peras.Kernel.Decide.Commands.{
  Program, Cx, run, sealed, emit_draft, issue_effect, resume_held, push_effect, next_id, user_draft,
  new_cx, held_effects,
}
use peras.Kernel.Decide.Replay.{Ends, run-Ends, if_by}

-- ---- the pause ----
abbrev pub is_resumed : Event → Bool
is_resumed Event.resumed = true
is_resumed _ = false

-- Whether one of the drafts resumes the session.
unfoldable pub resumes : List Draft → Bool
unfolding any
resumes ds = any (λ (d : Draft). is_resumed d.body) ds

-- Unless the session was resumed, it is paused and nothing was dispatched.
abbrev pub StaysPaused : Cx → Type 0
StaysPaused cx = resumes cx.out.events ≡ false → (cx.s.paused ≡ true) × (cx.out.effects ≡ [])

resumes-snoc :
    (ds : List Draft) (d : Draft) → resumes (ds ++ d ∷ []) ≡ (resumes ds || is_resumed d.body)
unfolding resumes any
resumes-snoc ds d = ground (arith, any-append (λ (e : Draft). is_resumed e.body) ds (d ∷ []))

emit_draft-StaysPaused :
    (x : Externals) (d : Draft) (cx : Cx) → StaysPaused cx → StaysPaused (emit_draft x d cx)
unfolding emit_draft sealed
emit_draft-StaysPaused x d cx h r =
    let split = resumes-snoc cx.out.events d in
    let before = h (ground (arith, split, r)) in
    let e = standing-evolve x (sealed cx.at cx.s.next_seq cx.k d) cx.s in
    (ground (arith, e, before, split, r), before.1)

push_effect-events :
    (id : EffectId) (o : Option Effect) (cx : Cx) → (push_effect id o cx).out.events ≡ cx.out.events
push_effect-events id none cx = refl
push_effect-events id (some e) cx = refl

-- A session that is not paused was resumed, and stays so.
resumed-StaysPaused :
    (id : EffectId) (o : Option Effect) (d : Draft) (x : Externals) (cx : Cx)
    → StaysPaused cx
    → cx.s.paused ≡ false
    → StaysPaused (push_effect id o (emit_draft x d cx))
unfolding emit_draft
resumed-StaysPaused id o d x cx h q r =
    let split = resumes-snoc cx.out.events d in
    let same = push_effect-events id o (emit_draft x d cx) in
    let was : resumes cx.out.events ≡ false = ground (arith, split, ap resumes same, r) in
    let p = (h was).0 in cc (p, q)

issue_effect-StaysPaused :
    (x : Externals) (e : Effect) (cx : Cx) → StaysPaused cx → StaysPaused (issue_effect x e cx)
unfolding issue_effect
issue_effect-StaysPaused x e cx h =
    let d = internal_draft (Event.effect_issued (next_id cx.s) e) in
    if_by StaysPaused cx.s.paused _ _ (λ q. emit_draft-StaysPaused x d cx h)
      (λ q. resumed-StaysPaused _ _ d x cx h q)

resume_held-StaysPaused :
    (x : Externals) (cx : Cx) → StaysPaused cx → StaysPaused (resume_held x cx)
unfolding resume_held emit_draft
resume_held-StaysPaused x cx h r =
    let split = resumes-snoc cx.out.events (user_draft Event.resumed) in
    let bad : true ≡ false = ground (arith, split, r) in cc bad

-- Whatever a handler does in a paused session, nothing is dispatched unless it resumes the session.
pub run-StaysPaused :
    {A : Type 0} (x : Externals) (p : Program A) (s : State) (at : Timestamp)
    → s.paused ≡ true
    → Ends StaysPaused (run x p (new_cx s at))
run-StaysPaused x p s at h =
    run-Ends x StaysPaused
      (emit_draft-StaysPaused x, issue_effect-StaysPaused x, resume_held-StaysPaused x) p
      (new_cx s at) (λ _. (h, refl))

-- ---- what is dispatched is known ----
-- The effect was held, or one of the drafts issues it.
abbrev pub IsKnown : State → List Draft → EffectId → Type 0
IsKnown s ds id = Memᴰ id s.held ⊎ ((d : Draft) × Memᴰ d ds × Issues d.body id)

-- What was dispatched, and what is held, is known.
abbrev pub KnowsAll : State → Cx → Type 0
KnowsAll s cx =
    ((id : EffectId) (e : Effect) → Memᴰ (id, e) cx.out.effects → IsKnown s cx.out.events id)
    × ((id : EffectId) → Memᴰ id cx.s.held → IsKnown s cx.out.events id)

IsKnown-append :
    (s : State) (ds : List Draft) (d : Draft) (id : EffectId)
    → IsKnown s ds id
    → IsKnown s (ds ++ d ∷ []) id
IsKnown-append s ds d id (inl h) = inl h
IsKnown-append s ds d id (inr (b, m, i)) = inr (b, mem-append_left b ds (d ∷ []) m, i)

emit_draft-KnowsAll :
    (x : Externals) (s : State) (d : Draft) (cx : Cx)
    → KnowsAll s cx
    → KnowsAll s (emit_draft x d cx)
unfolding emit_draft sealed
emit_draft-KnowsAll x s d cx (sent, waiting) = (
  λ id e m. IsKnown-append s cx.out.events d id (sent id e m),
  λ id m. elim (held-evolve x (sealed cx.at cx.s.next_seq cx.k d) cx.s id m) [
    | inl l ↦ IsKnown-append s cx.out.events d id (waiting id l)
    | inr i ↦ inr (d, mem-append_right d cx.out.events (d ∷ []) (Memᴰ.head refl), i)
  ],
)

push_effect-KnowsAll :
    (s : State) (id : EffectId) (o : Option Effect) (cx : Cx)
    → IsKnown s cx.out.events id
    → KnowsAll s cx
    → KnowsAll s (push_effect id o cx)
push_effect-KnowsAll s id none cx known h = h
push_effect-KnowsAll s id (some e) cx known (sent, waiting) = (
  λ j b m. elim (mem-append_cases (j, b) cx.out.effects ((id, e) ∷ []) m) [
    | inl l ↦ sent j b l
    | inr (Memᴰ.head q) ↦
        subst (IsKnown s cx.out.events) (sym (ap (λ (p : EffectId × Effect). p.0) q)) known
    | inr (Memᴰ.tail t) ↦ elim t [ ]
  ],
  waiting,
)

issue_effect-KnowsAll :
    (x : Externals) (s : State) (e : Effect) (cx : Cx)
    → KnowsAll s cx
    → KnowsAll s (issue_effect x e cx)
unfolding issue_effect emit_draft
issue_effect-KnowsAll x s e cx h =
    let d = internal_draft (Event.effect_issued (next_id cx.s) e) in
    let emitted = emit_draft-KnowsAll x s d cx h in
    let known : IsKnown s (cx.out.events ++ d ∷ []) (next_id cx.s) =
      inr (d, mem-append_right d cx.out.events (d ∷ []) (Memᴰ.head refl), (e, refl)) in
    if_by (KnowsAll s) cx.s.paused _ _ (λ q. emitted)
      (λ q. push_effect-KnowsAll s (next_id cx.s) _ _ known emitted)

mem_held :
    (o : Option Issued) (j id : EffectId) (e : Effect) (rest : List (EffectId × Effect))
    → Memᴰ (id, e) (elim o [ none ↦ rest | some i ↦ (j, dispatchable i) ∷ rest ])
    → (id ≡ j) ⊎ Memᴰ (id, e) rest
mem_held none j id e rest m = inr m
mem_held (some i) j id e rest (Memᴰ.head q) = inl (ap (λ (p : EffectId × Effect). p.0) q)
mem_held (some i) j id e rest (Memᴰ.tail m) = inr m

mem-held_effects :
    (ids : List EffectId) (s : State) (id : EffectId) (e : Effect)
    → Memᴰ (id, e) (held_effects ids s)
    → Memᴰ id ids
unfolding held_effects
mem-held_effects [] s id e m = elim m [ ]
mem-held_effects (j ∷ ids) s id e m =
    elim (mem_held (lookup j s.issued) j id e (held_effects ids s) m) [
      | inl q ↦ Memᴰ.head q
      | inr r ↦ Memᴰ.tail (mem-held_effects ids s id e r)
    ]

resume_held-KnowsAll :
    (x : Externals) (s : State) (cx : Cx) → KnowsAll s cx → KnowsAll s (resume_held x cx)
unfolding resume_held emit_draft
resume_held-KnowsAll x s cx (sent, waiting) =
    let d = user_draft Event.resumed in
    let (sent', waiting') = emit_draft-KnowsAll x s d cx (sent, waiting) in
    (
      λ id e m. elim (mem-append_cases (id, e) cx.out.effects (held_effects cx.s.held cx.s) m) [
        | inl l ↦ sent' id e l
        | inr r ↦
            IsKnown-append s cx.out.events d id
              (waiting id (mem-held_effects cx.s.held cx.s id e r))
      ],
      waiting',
    )

-- Whatever a handler does, an effect that it dispatches was held before, or one of its drafts
-- issues it.
pub run-KnowsAll :
    {A : Type 0} (x : Externals) (p : Program A) (s : State) (at : Timestamp)
    → Ends (KnowsAll s) (run x p (new_cx s at))
run-KnowsAll x p s at =
    run-Ends x (KnowsAll s)
      (emit_draft-KnowsAll x s, issue_effect-KnowsAll x s, resume_held-KnowsAll x s) p (new_cx s at)
      (λ id e m. elim m [ ], λ id m. inl m)
