-- ===== src/Kernel/Invariants/Flight.antt =====
-- The effects in flight: their ids stay below the counter, and held dispatches are in flight.
use peras.Prelude.{
  ℕ, ◌≡◌, ◌<◌, sym, ap, subst, arith, max, add64, u64_max, not, Bool, true, false, Text, List, [],
  ◌∷◌, ◌++◌, Memᴰ, Map, Bool-cases, inl, inr, if◌then◌else◌, lookup, put, remove, retain,
  lookup-put, lookup-remove, mem-retain, mem-append_cases,
}
use peras.Proto.Envelope.{EffectId, SessionId, effect_id_eq, effect_id_eq_iff}
use peras.Proto.Verdict.{TurnOutcome}
use peras.Proto.Config.{KernelConfig}
use peras.Proto.Effect.{Effect}
use peras.Proto.Event.{Event, Envelope}
use peras.Kernel.Data.{Externals, State, Issued, Taint}
use peras.Kernel.Turns.{map_turn, holds, effect_key, capture}
use peras.Kernel.Evolve.{
  observed, handle, evolve, ended, outlives, on_turn_ended, on_settled, on_interrupted,
  on_session_started, configure,
}
use peras.Kernel.Evolve.Project.{taint}
use peras.Kernel.Evolve.Issue.{noted_issue, is_finish}
use peras.Kernel.Frame.{Core, watched-map_turn}
use peras.Kernel.Frame.Quiet.{is_quiet, core-handle}
use peras.Kernel.Invariants.Clock.{core-on_issued}

-- The counter, the effects in flight and the held ones.
abbrev pub Flight : Type 0
Flight = ℕ × Map EffectId Issued × List EffectId

abbrev pub flight : State → Flight
flight s = (s.next_n, s.issued, s.held)

abbrev pub flight_of_core : Core → Flight
flight_of_core c = (c.4, c.5, c.6)

-- The ids in flight are below the counter, and the held effects are in flight.
abbrev pub IsSound : Flight → Type 0
IsSound f =
    ((id : EffectId) → holds (lookup id f.1) ≡ true → id.n < f.0)
    × ((id : EffectId) → Memᴰ id f.2 → holds (lookup id f.1) ≡ true)

pub holds-retain :
    (p : EffectId × Issued → Bool) (id : EffectId) (m : Map EffectId Issued)
    → holds (lookup id (retain p m)) ≡ true
    → holds (lookup id m) ≡ true
unfolding retain lookup
holds-retain p id [] h = h
holds-retain p id ((j, i) ∷ m) h = ground (arith, holds-retain p id m)

ended-IsSound : (s : State) → IsSound (flight s) → IsSound (flight (ended s))
unfolding ended
ended-IsSound s (fresh, held) = (
  λ id h. fresh id (holds-retain _ id s.issued h),
  λ id m.
      (mem-retain
        (λ i. holds (lookup i (retain (λ (p : EffectId × Issued). outlives p.1.effect) s.issued)))
        id s.held m).1,
)

unfoldable pub settle : EffectId → Flight → Flight
settle id f = (f.0, remove id f.1, retain (λ (h : EffectId). not (effect_id_eq h id)) f.2)

settle-IsSound : (id : EffectId) (f : Flight) → IsSound f → IsSound (settle id f)
unfolding settle
settle-IsSound id (n, issued, waiting) (fresh, held) = (
  λ j h. fresh j (let e = lookup-remove id j issued in ground (arith, e)),
  λ j m.
      let (here, other) = mem-retain (λ (h : EffectId). not (effect_id_eq h id)) j waiting m in
      let e = lookup-remove id j issued in let known = held j here in ground (arith, e, known),
)

pub flight-settled : (id : EffectId) (s : State) → flight (on_settled id s) ≡ settle id (flight s)
unfolding on_settled settle map_turn
flight-settled id s = ground arith

mem_other :
    (id : EffectId) (waiting : List EffectId) (j : EffectId)
    → effect_id_eq j id ≡ false
    → Memᴰ j (id ∷ [])
    → Memᴰ j waiting
mem_other id waiting j e (Memᴰ.head q) =
    let same = effect_id_eq_iff j id in let t : effect_id_eq j id ≡ true = same.1 q in cc (e, t)
mem_other id waiting j e (Memᴰ.tail t) = elim t [ ]

mem_waiting :
    (paused : Bool) (id : EffectId) (waiting : List EffectId) (j : EffectId)
    → effect_id_eq j id ≡ false
    → Memᴰ j (if paused then waiting ++ id ∷ [] else waiting)
    → Memᴰ j waiting
mem_waiting false id waiting j e m = m
mem_waiting true id waiting j e m = elim (mem-append_cases j waiting (id ∷ []) m) [
  | inl l ↦ l
  | inr r ↦ mem_other id waiting j e r
]

-- An effect joins those in flight, and those held when the session is paused.
join_flight : Bool → EffectId → Issued → Flight → Flight
join_flight paused id i f =
    (max f.0 (add64 id.n 1), put id i f.1, if paused then f.2 ++ id ∷ [] else f.2)

join-IsSound :
    (paused : Bool) (id : EffectId) (i : Issued) (f : Flight)
    → id.n < u64_max
    → IsSound f
    → IsSound (join_flight paused id i f)
unfolding join_flight add64
join-IsSound paused id i (n, issued, waiting) small (fresh, held) = (
  λ j h. elim (Bool-cases (effect_id_eq j id)) [
    | inl e ↦ let same = effect_id_eq_iff j id in ground (arith, same, small)
    | inr e ↦ let q = lookup-put id j i issued in let b = fresh j in ground (arith, q, b)
  ],
  λ j m. elim (Bool-cases (effect_id_eq j id)) [
    | inl e ↦ let q = lookup-put id j i issued in ground (arith, q)
    | inr e ↦
        let q = lookup-put id j i issued in
        let known = held j (mem_waiting paused id waiting j e m) in ground (arith, q, known)
  ],
)

raise-IsSound : (k : ℕ) (f : Flight) → IsSound f → IsSound (max f.0 k, f.1, f.2)
raise-IsSound k f (fresh, held) = (λ j h. let b = fresh j h in omega (arith, b), held)

noted-IsSound :
    (id : EffectId) (e : Effect) (s : State)
    → id.n < u64_max
    → IsSound (flight s)
    → IsSound (flight (noted_issue id e s))
unfolding noted_issue join_flight
noted-IsSound id e s small h = elim (Bool-cases (is_finish e)) [
  | inl q ↦ rw (noted_issue, q) (raise-IsSound (add64 id.n 1) (flight s) h)
  | inr q ↦
      rw (noted_issue, q)
        (join-IsSound s.paused id (capture (record s { next_n = max s.next_n (add64 id.n 1) }) e)
          (flight s) small h)
]

-- The id of an effect that the event issues is below the last u64.
abbrev pub CountsOn : Event → Type 0
CountsOn (Event.effect_issued id e) = id.n < u64_max
CountsOn _ = Unit

ended_case :
    (o : TurnOutcome) (s : State) → IsSound (flight s) → IsSound (flight (on_turn_ended o s))
unfolding on_turn_ended
ended_case (TurnOutcome.done t) s h = ended-IsSound s h
ended_case TurnOutcome.interrupted s h = ended-IsSound s h
ended_case (TurnOutcome.suspended r) s h =
    subst (λ c. IsSound (flight_of_core c))
      (sym
        (ap (λ (w : Core × Taint). w.0) (watched-map_turn (λ t. record t { suspended = true }) s)))
      h
ended_case (TurnOutcome.failed t) s h = ended-IsSound s h
ended_case (TurnOutcome.budget_exhausted t) s h = ended-IsSound s h

pub flight-interrupted :
    (epoch : ℕ) (s : State) → (s.next_n, [], []) ≡ flight (on_interrupted true epoch s)
unfolding on_interrupted map_turn
flight-interrupted epoch s = ground arith

pub flight-softly : (epoch : ℕ) (s : State) → flight s ≡ flight (on_interrupted false epoch s)
unfolding on_interrupted map_turn
flight-softly epoch s = ground arith

interrupted_case :
    (hard : Bool) (epoch : ℕ) (s : State)
    → IsSound (flight s)
    → IsSound (flight (on_interrupted hard epoch s))
unfolding lookup
interrupted_case true epoch s h =
    subst IsSound (flight-interrupted epoch s) (λ id q. cc q, λ id m. elim m [ ])
interrupted_case false epoch s h = subst IsSound (flight-softly epoch s) h

pub flight-started :
    (x : Externals) (session : SessionId) (profile_hash : Text) (config : KernelConfig) (s : State)
    → flight s ≡ flight (on_session_started x session profile_hash config s)
unfolding on_session_started configure
flight-started x session profile_hash config s = ground arith

loud-IsSound :
    (x : Externals) (ev : Envelope) (body : Event) (s : State)
    → is_quiet body ≡ false
    → CountsOn body
    → IsSound (flight s)
    → IsSound (flight (handle x ev body s))
unfolding handle on_session_started configure on_turn_ended on_interrupted map_turn
loud-IsSound x ev (Event.effect_issued id e) s q small h =
    subst (λ c. IsSound (flight_of_core c)) (sym (core-on_issued x id e ev.seq s))
      (noted-IsSound id e s small h)
loud-IsSound x ev (Event.effect_settled id) s q small h =
    subst IsSound (sym (flight-settled id s)) (settle-IsSound id (flight s) h)
loud-IsSound x ev Event.resumed s q small (fresh, held) = (fresh, λ id m. elim m [ ])
loud-IsSound x ev (Event.turn_ended outcome) s q small h = ended_case outcome s h
loud-IsSound x ev (Event.interrupted hard epoch) s q small h = interrupted_case hard epoch s h
loud-IsSound x ev (Event.session_started session profile_hash config parent) s q small h =
    subst IsSound (flight-started x session profile_hash config s) h
loud-IsSound x ev (Event.config_changed profile_hash config) s q small h = h
loud-IsSound x ev Event.paused s q small h = h
loud-IsSound x ev _ s q small h = cc q

pub flight-observed : (ev : Envelope) (s : State) → flight (observed ev s) ≡ flight s
unfolding observed taint
flight-observed ev s = ground arith

-- For every event but the issue of an effect under the last u64: when every effect in flight has an
-- id below the counter and every held effect is in flight, the same is true of the state after the
-- event.
pub flight-evolve-IsSound :
    (x : Externals) (ev : Envelope) (s : State)
    → CountsOn ev.body
    → IsSound (flight s)
    → IsSound (flight (evolve x ev s))
unfolding evolve
flight-evolve-IsSound x ev s small h =
    let h' = subst IsSound (sym (flight-observed ev s)) h in
    elim (Bool-cases (is_quiet ev.body)) [
      | inl q ↦
          subst (λ c. IsSound (flight_of_core c)) (sym (core-handle x ev ev.body (observed ev s) q))
            h'
      | inr q ↦ loud-IsSound x ev ev.body (observed ev s) q small h'
    ]
