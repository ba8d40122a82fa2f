-- ===== src/Kernel/Invariants/Ended.antt =====
-- Effects that are no longer in flight: no event but the issue of the same id brings one back.
use peras.Prelude.{
  ℕ, ◌≡◌, refl, sym, ap, subst, arith, not, Bool, true, false, List, [], ◌∷◌, ◌&&◌, Bool-cases, inl,
  inr, lookup, lookup-put, lookup-remove, max, add64,
}
use peras.Proto.Envelope.{EffectId, effect_id_eq}
use peras.Proto.Verdict.{TurnOutcome}
use peras.Proto.Effect.{Effect}
use peras.Proto.Event.{Event, Envelope}
use peras.Kernel.Data.{Externals, State, Issued, Taint}
use peras.Kernel.Turns.{holds, effect_key, capture}
use peras.Kernel.Evolve.{
  observed, handle, evolve, ended, outlives, on_turn_ended, on_interrupted, configure,
}
use peras.Kernel.Evolve.Issue.{noted_issue, is_finish}
use peras.Kernel.Initial.{fold}
use peras.Kernel.Frame.{Core, watched-map_turn}
use peras.Kernel.Frame.Quiet.{is_quiet, core-handle}
use peras.Kernel.Invariants.Clock.{core-on_issued}
use peras.Kernel.Invariants.Flight.{
  Flight, flight, flight_of_core, holds-retain, settle, flight-settled, flight-interrupted,
  flight-softly, flight-started, flight-observed,
}

-- Nothing is in flight under the id.
abbrev pub Gone : EffectId → Flight → Type 0
Gone id f = holds (lookup id f.1) ≡ false

-- The event issues an effect under the id.
abbrev pub issues : Event → EffectId → Bool
issues (Event.effect_issued j e) id = effect_id_eq id j
issues _ id = false

noted-Gone :
    (j : EffectId) (e : Effect) (id : EffectId) (s : State)
    → effect_id_eq id j ≡ false
    → Gone id (flight s)
    → Gone id (flight (noted_issue j e s))
unfolding noted_issue
noted-Gone j e id s n h = elim (Bool-cases (is_finish e)) [
  | inl q ↦ rw (noted_issue, q) h
  | inr q ↦
      let put_other = λ (i : Issued). lookup-put j id i s.issued in
      rw (noted_issue, q)
        (ground
          (arith, n, h, put_other (capture (record s { next_n = max s.next_n (add64 j.n 1) }) e)))
]

ended-Gone : (id : EffectId) (s : State) → Gone id (flight s) → Gone id (flight (ended s))
unfolding ended
ended-Gone id s h =
    ground (arith, h, holds-retain (λ (p : EffectId × Issued). outlives p.1.effect) id s.issued)

ended_case-Gone :
    (o : TurnOutcome) (id : EffectId) (s : State)
    → Gone id (flight s)
    → Gone id (flight (on_turn_ended o s))
unfolding on_turn_ended
ended_case-Gone (TurnOutcome.done t) id s h = ended-Gone id s h
ended_case-Gone TurnOutcome.interrupted id s h = ended-Gone id s h
ended_case-Gone (TurnOutcome.suspended r) id s h =
    subst (λ c. Gone id (flight_of_core c))
      (sym
        (ap (λ (w : Core × Taint). w.0) (watched-map_turn (λ t. record t { suspended = true }) s)))
      h
ended_case-Gone (TurnOutcome.failed t) id s h = ended-Gone id s h
ended_case-Gone (TurnOutcome.budget_exhausted t) id s h = ended-Gone id s h

settle-Gone : (j id : EffectId) (f : Flight) → Gone id f → Gone id (settle j f)
unfolding settle
settle-Gone j id f h = ground (arith, h, lookup-remove j id f.1)

interrupted-Gone :
    (hard : Bool) (epoch : ℕ) (id : EffectId) (s : State)
    → Gone id (flight s)
    → Gone id (flight (on_interrupted hard epoch s))
unfolding lookup
interrupted-Gone true epoch id s h = subst (Gone id) (flight-interrupted epoch s) refl
interrupted-Gone false epoch id s h = subst (Gone id) (flight-softly epoch s) h

loud-Gone :
    (x : Externals) (ev : Envelope) (body : Event) (id : EffectId) (s : State)
    → is_quiet body ≡ false
    → issues body id ≡ false
    → Gone id (flight s)
    → Gone id (flight (handle x ev body s))
unfolding handle configure
loud-Gone x ev (Event.effect_issued j e) id s q n h =
    subst (λ c. Gone id (flight_of_core c)) (sym (core-on_issued x j e ev.seq s))
      (noted-Gone j e id s n h)
loud-Gone x ev (Event.effect_settled j) id s q n h =
    subst (Gone id) (sym (flight-settled j s)) (settle-Gone j id (flight s) h)
loud-Gone x ev Event.resumed id s q n h = h
loud-Gone x ev (Event.turn_ended outcome) id s q n h = ended_case-Gone outcome id s h
loud-Gone x ev (Event.interrupted hard epoch) id s q n h = interrupted-Gone hard epoch id s h
loud-Gone x ev (Event.session_started session profile_hash config parent) id s q n h =
    subst (Gone id) (flight-started x session profile_hash config s) h
loud-Gone x ev (Event.config_changed profile_hash config) id s q n h = h
loud-Gone x ev Event.paused id s q n h = h
loud-Gone x ev _ id s q n h = cc

handle-Gone :
    (x : Externals) (ev : Envelope) (id : EffectId) (s : State)
    → issues ev.body id ≡ false
    → Gone id (flight s)
    → Gone id (flight (handle x ev ev.body s))
handle-Gone x ev id s n h = elim (Bool-cases (is_quiet ev.body)) [
  | inl q ↦ subst (λ c. Gone id (flight_of_core c)) (sym (core-handle x ev ev.body s q)) h
  | inr q ↦ loud-Gone x ev ev.body id s q n h
]

evolve-Gone :
    (x : Externals) (ev : Envelope) (id : EffectId) (s : State)
    → issues ev.body id ≡ false
    → Gone id (flight s)
    → Gone id (flight (evolve x ev s))
unfolding evolve
evolve-Gone x ev id s n h =
    handle-Gone x ev id (observed ev s) n (subst (Gone id) (sym (flight-observed ev s)) h)

-- The event ends the effect: it settles it, or it is a hard interrupt.
abbrev pub ends_effect : Event → EffectId → Bool
ends_effect (Event.effect_settled j) id = effect_id_eq id j
ends_effect (Event.interrupted hard epoch) id = hard
ends_effect _ id = false

ending-handle :
    (x : Externals) (ev : Envelope) (body : Event) (id : EffectId) (s : State)
    → ends_effect body id ≡ true
    → Gone id (flight (handle x ev body s))
unfolding handle settle lookup
ending-handle x ev (Event.effect_settled j) id s h =
    subst (Gone id) (sym (flight-settled j s)) (ground (arith, h, lookup-remove j id s.issued))
ending-handle x ev (Event.interrupted true epoch) id s h =
    subst (Gone id) (flight-interrupted epoch s) refl
ending-handle x ev (Event.interrupted false epoch) id s h = cc h
ending-handle x ev _ id s h = cc h

pub ending-Gone :
    (x : Externals) (ev : Envelope) (id : EffectId) (s : State)
    → ends_effect ev.body id ≡ true
    → Gone id (flight (evolve x ev s))
unfolding evolve
ending-Gone x ev id s h = ending-handle x ev ev.body id (observed ev s) h

-- No event of the journal issues an effect under the id.
unfoldable pub issue_none : List Envelope → EffectId → Bool
issue_none [] id = true
issue_none (ev ∷ evs) id = not (issues ev.body id) && issue_none evs id

pub fold-Gone :
    (x : Externals) (evs : List Envelope) (id : EffectId) (s : State)
    → issue_none evs id ≡ true
    → Gone id (flight s)
    → Gone id (flight (fold x evs s))
unfolding fold issue_none
fold-Gone x [] id s n h = h
fold-Gone x (ev ∷ evs) id s n h =
    fold-Gone x evs id (evolve x ev s) (ground (arith, n))
      (evolve-Gone x ev id s (ground (arith, n)) h)
