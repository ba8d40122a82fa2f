-- ===== src/Kernel/Decide/Answering.antt =====
-- What `decide` promises on every input.
use peras.Prelude.{
  ◌≡◌, ◌≢◌, ◌∙◌, refl, sym, ap, subst, arith, inl, inr, Bool, true, false, ◌&&◌, ◌==◌, Option, none,
  some, [], txt, Memᴰ, lookup, Option-cases, text_key,
}
use peras.Proto.Envelope.{EffectId, Timestamp}
use peras.Proto.Config.{KernelConfig}
use peras.Proto.Effect.{Effect}
use peras.Proto.Input.{Input, EffectResult}
use peras.Kernel.Data.{Externals, State}
use peras.Kernel.Turns.{holds, effect_key}
use peras.Kernel.Decide.{Answered, decide, decision_of, on_input}
use peras.Kernel.Decide.Commands.{Decision, no_decision, new_cx, Outcome, run, ◌>>=◌}
use peras.Kernel.Decide.Completions.{completed}
use peras.Kernel.Decide.Replay.{Ends, Ends-map, IsSafe, run-IsSafe}
use peras.Kernel.Decide.Dispatch.{
  resumes, StaysPaused, run-StaysPaused, IsKnown, KnowsAll, run-KnowsAll,
}

some_case {ℓ κ} :
    {A : Type ℓ} {B : Type κ} (o : Option A) (a : A) (b c : B)
    → o ≡ some a
    → elim o [ none ↦ b | some d ↦ c ] ≡ c
some_case none a b c e = cc e
some_case (some d) a b c e = refl

none_case {ℓ κ} :
    {A : Type ℓ} {B : Type κ} (o : Option A) (b : B) (f : A → B)
    → o ≡ none
    → elim o [ none ↦ b | some d ↦ f d ] ≡ b
none_case none b f e = refl
none_case (some d) b f e = cc e

-- In a session that has started, `decide` runs the input's handler.
pub decide-run :
    (x : Externals) (s : State) (at : Timestamp) (input : Input) (c : KernelConfig)
    → s.config ≡ some c
    → decide x s at input ≡ decision_of (run x (on_input x input) (new_cx s at))
unfolding decide
decide-run x s at input c e = some_case s.config c _ _ e

-- What holds of a decision, whatever the input.
Decides {ℓ} : (Decision → Type ℓ) → Answered → Type ℓ
Decides P (Answered.decided d) = P d
Decides P _ = Unit

decision_of-Decides {ℓ} :
    (P : Decision → Type ℓ) (o : Outcome Bool)
    → P no_decision
    → Ends (λ cx. P cx.out) o
    → Decides P (decision_of o)
unfolding Decides
decision_of-Decides P (Outcome.returned true cx) n h = h
decision_of-Decides P (Outcome.returned false cx) n h = n
decision_of-Decides P (Outcome.rejected why) n h = tt
decision_of-Decides P Outcome.panicked n h = tt

decide-Decides {ℓ} :
    (P : Decision → Type ℓ) (x : Externals) (s : State) (at : Timestamp) (input : Input)
    → P no_decision
    → Ends (λ cx. P cx.out) (run x (on_input x input) (new_cx s at))
    → Decides P (decide x s at input)
unfolding decide Decides
decide-Decides P x s at input n h = go s.config
  where
    go :
        (o : Option KernelConfig)
        → Decides P (elim o [
          | none ↦ Answered.refused (txt "session not started: call start_session first")
          | some c ↦ decision_of (run x (on_input x input) (new_cx s at))
        ])
    go none = tt
    go (some c) = decision_of-Decides P _ n h

Decides-decided {ℓ} :
    (P : Decision → Type ℓ) (a : Answered) (d : Decision)
    → Decides P a
    → a ≡ Answered.decided d
    → P d
unfolding Decides
Decides-decided P a d h e = subst (Decides P) e h

-- ---- the promises ----
decision_of-IsSafe : (o : Outcome Bool) → IsSafe o → decision_of o ≢ Answered.panicked
decision_of-IsSafe (Outcome.returned true cx) h = λ e. cc e
decision_of-IsSafe (Outcome.returned false cx) h = λ e. cc e
decision_of-IsSafe (Outcome.rejected why) h = λ e. cc e
decision_of-IsSafe Outcome.panicked h = elim h [ ]

-- For every state and input, the handlers find the configuration that they expect: `decide` gives a
-- decision or refuses the input, and never panics on a missing configuration.
pub decide-panicked :
    (x : Externals) (s : State) (at : Timestamp) (input : Input)
    → decide x s at input ≢ Answered.panicked
unfolding decide
decide-panicked x s at input = elim (Option-cases s.config) [
  | inl e ↦ λ p. cc (sym (none_case s.config _ _ e) ∙ p)
  | inr (c, e) ↦ λ p.
      decision_of-IsSafe (run x (on_input x input) (new_cx s at))
        (run-IsSafe x (on_input x input) (new_cx s at) (ap holds e))
        (sym (decide-run x s at input c e) ∙ p)
]

-- While dispatch is paused, a decision that does not resume the session dispatches nothing,
-- whatever its input.
pub decide-StaysPaused :
    (x : Externals) (s : State) (at : Timestamp) (input : Input) (d : Decision)
    → s.paused ≡ true
    → decide x s at input ≡ Answered.decided d
    → resumes d.events ≡ false
    → d.effects ≡ []
decide-StaysPaused x s at input d p e =
    let Q = λ (d : Decision). resumes d.events ≡ false → d.effects ≡ [] in
    Decides-decided Q (decide x s at input) d
      (decide-Decides Q x s at input (λ _. refl)
        (Ends-map StaysPaused (λ cx. Q cx.out) (run x (on_input x input) (new_cx s at))
          (λ cx h r. (h r).1) (run-StaysPaused x (on_input x input) s at p)))
      e

-- Every effect that a decision dispatches is issued by one of its drafts or was held before the
-- input, so the journal knows of it before it is dispatched.
pub decide-IsKnown :
    (x : Externals) (s : State) (at : Timestamp) (input : Input) (d : Decision) (id : EffectId)
    (e : Effect)
    → decide x s at input ≡ Answered.decided d
    → Memᴰ (id, e) d.effects
    → IsKnown s d.events id
decide-IsKnown x s at input d id e q =
    let Q = λ (d : Decision). Memᴰ (id, e) d.effects → IsKnown s d.events id in
    Decides-decided Q (decide x s at input) d
      (decide-Decides Q x s at input (λ m. elim m [ ])
        (Ends-map (KnowsAll s) (λ cx. Q cx.out) (run x (on_input x input) (new_cx s at))
          (λ cx h. h.0 id e) (run-KnowsAll x (on_input x input) s at)))
      q

-- In flight: an effect of the current epoch that was issued and has not settled.
abbrev pub is_in_flight : State → EffectId → Bool
is_in_flight s id = (id.epoch == s.epoch) && holds (lookup id s.issued)

-- The result of an effect that is not in flight is not taken.
pub decide-stale :
    (x : Externals) (s : State) (at : Timestamp) (id : EffectId) (r : EffectResult)
    (c : KernelConfig)
    → s.config ≡ some c
    → is_in_flight s id ≡ false
    → decide x s at (Input.completed id r) ≡ Answered.decided no_decision
unfolding on_input completed run ◌>>=◌
decide-stale x s at id r c e h = decide-run x s at (Input.completed id r) c e ∙ ground (arith, h)
