-- ===== src/Kernel/Invariants/Holding.antt =====
-- The held effects that `evolve` leaves: those that were held, and the effect that is issued.
use peras.Prelude.{
  ◌≡◌, ◌∙◌, sym, ap, subst, arith, ◌⊎◌, inl, inr, ℕ, not, ◌&&◌, Bool, true, false, Text, List, [],
  ◌∷◌, ◌++◌, Memᴰ, mem-append_cases, mem-retain, Bool-cases, if◌then◌else◌, retain, lookup,
}
use peras.Proto.Envelope.{EffectId, SessionId, effect_id_eq}
use peras.Proto.Verdict.{TurnOutcome}
use peras.Proto.Config.{KernelConfig}
use peras.Proto.Effect.{Effect}
use peras.Proto.Event.{Event, Envelope}
use peras.Kernel.Data.{Externals, State, Taint, Issued}
use peras.Kernel.Turns.{holds, map_turn, effect_key}
use peras.Kernel.Evolve.{
  observed, handle, evolve, ended, outlives, on_turn_ended, on_settled, on_interrupted,
  on_session_started, configure,
}
use peras.Kernel.Evolve.Issue.{noted_issue, is_finish, on_issued}
use peras.Kernel.Evolve.Project.{taint}
use peras.Kernel.Frame.{Core, watched-map_turn}
use peras.Kernel.Frame.Quiet.{is_quiet, core-handle}
use peras.Kernel.Invariants.Clock.{core-on_issued}

-- The event issues the effect of the id.
abbrev pub Issues : Event → EffectId → Type 0
Issues body id = (e : Effect) × (body ≡ Event.effect_issued id e)

-- An effect joins the list if it waits.
joined_by : Bool → EffectId → List EffectId → List EffectId
joined_by true id held = held ++ id ∷ []
joined_by false id held = held

mem-joined :
    (b : Bool) (id : EffectId) (held : List EffectId) (j : EffectId)
    → Memᴰ j (joined_by b id held)
    → Memᴰ j held ⊎ (j ≡ id)
unfolding joined_by
mem-joined false id held j m = inl m
mem-joined true id held j m = elim (mem-append_cases j held (id ∷ []) m) [
  | inl l ↦ inl l
  | inr (Memᴰ.head e) ↦ inr e
  | inr (Memᴰ.tail t) ↦ elim t [ ]
]

held-noted :
    (id : EffectId) (e : Effect) (s : State)
    → (noted_issue id e s).held ≡ joined_by (not (is_finish e) && s.paused) id s.held
unfolding noted_issue joined_by
held-noted id e s = ground arith

held-issued :
    (x : Externals) (ev : Envelope) (id : EffectId) (e : Effect) (s : State)
    → (on_issued x id e ev.seq s).held ≡ joined_by (not (is_finish e) && s.paused) id s.held
held-issued x ev id e s =
    ap (λ (c : Core). c.6) (core-on_issued x id e ev.seq s) ∙ held-noted id e s

mem-ended :
    (o : TurnOutcome) (s : State) (j : EffectId) → Memᴰ j (on_turn_ended o s).held → Memᴰ j s.held
unfolding on_turn_ended ended
mem-ended (TurnOutcome.suspended r) s j m =
    subst (Memᴰ j)
      (ap (λ (w : Core × Taint). w.0.6) (watched-map_turn (λ t. record t { suspended = true }) s)) m
mem-ended _ s j m =
    (mem-retain
      (λ i. holds (lookup i (retain (λ (p : EffectId × Issued). outlives p.1.effect) s.issued))) j
      s.held m).0

held-settled :
    (id : EffectId) (s : State)
    → (on_settled id s).held ≡ retain (λ h. not (effect_id_eq h id)) s.held
unfolding on_settled map_turn
held-settled id s = ground arith

held-interrupted :
    (hard : Bool) (epoch : ℕ) (s : State)
    → (on_interrupted hard epoch s).held ≡ (if hard then [] else s.held)
unfolding on_interrupted map_turn
held-interrupted hard epoch s = ground arith

mem_unless :
    (b : Bool) (held : List EffectId) (j : EffectId) → Memᴰ j (if b then [] else held) → Memᴰ j held
mem_unless true held j m = elim m [ ]
mem_unless false held j m = m

held-started :
    (x : Externals) (session : SessionId) (h : Text) (config : KernelConfig) (s : State)
    → (on_session_started x session h config s).held ≡ s.held
unfolding on_session_started configure
held-started x session h config s = ground arith

held_loud :
    (x : Externals) (ev : Envelope) (body : Event) (s : State) (j : EffectId)
    → is_quiet body ≡ false
    → Memᴰ j (handle x ev body s).held
    → Memᴰ j s.held ⊎ Issues body j
unfolding handle configure
held_loud x ev (Event.effect_issued id e) s j q m =
    elim (mem-joined (not (is_finish e) && s.paused) id s.held j
      (subst (Memᴰ j) (held-issued x ev id e s) m)) [
        | inl l ↦ inl l
        | inr p ↦ inr (e, ap (λ i. Event.effect_issued i e) (sym p))
      ]
held_loud x ev (Event.effect_settled id) s j q m =
    inl
      (mem-retain (λ h. not (effect_id_eq h id)) j s.held (subst (Memᴰ j) (held-settled id s) m)).0
held_loud x ev (Event.turn_ended outcome) s j q m = inl (mem-ended outcome s j m)
held_loud x ev (Event.interrupted hard epoch) s j q m =
    inl (mem_unless hard s.held j (subst (Memᴰ j) (held-interrupted hard epoch s) m))
held_loud x ev (Event.session_started session profile_hash config parent) s j q m =
    inl (subst (Memᴰ j) (held-started x session profile_hash config s) m)
held_loud x ev (Event.config_changed profile_hash config) s j q m = inl m
held_loud x ev Event.paused s j q m = inl m
held_loud x ev Event.resumed s j q m = elim m [ ]
held_loud x ev _ s j q m = cc q

held-observed : (ev : Envelope) (s : State) → (observed ev s).held ≡ s.held
unfolding observed taint
held-observed ev s = ground arith

pub held-evolve :
    (x : Externals) (ev : Envelope) (s : State) (j : EffectId)
    → Memᴰ j (evolve x ev s).held
    → Memᴰ j s.held ⊎ Issues ev.body j
unfolding evolve
held-evolve x ev s j m =
    let known : Memᴰ j (observed ev s).held ⊎ Issues ev.body j =
      elim (Bool-cases (is_quiet ev.body)) [
        | inl q ↦
            inl (
              subst (Memᴰ j) (ap (λ (c : Core). c.6) (core-handle x ev ev.body (observed ev s) q))
                m)
        | inr q ↦ held_loud x ev ev.body (observed ev s) j q m
      ] in
    elim known [ inl l ↦ inl (subst (Memᴰ j) (held-observed ev s) l) | inr i ↦ inr i ]
