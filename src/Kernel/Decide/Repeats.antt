-- ===== src/Kernel/Decide/Repeats.antt =====
-- Results that `decide` is given after their effect has ended.
use peras.Prelude.{◌≡◌, ◌∙◌, ap, arith, true, false, List, [], ◌∷◌, Option-cases, inl, inr, lookup}
use peras.Proto.Envelope.{EffectId, Timestamp}
use peras.Proto.Event.{Event, Envelope}
use peras.Proto.Input.{Input, EffectResult}
use peras.Kernel.Data.{Externals, State}
use peras.Kernel.Turns.{holds, effect_key}
use peras.Kernel.Evolve.{evolve}
use peras.Kernel.Initial.{fold}
use peras.Kernel.Invariants.Standing.{Standing, stands, standing-evolve}
use peras.Kernel.Invariants.Ended.{ends_effect, issue_none, ending-Gone, fold-Gone}
use peras.Kernel.Decide.{Answered, decide}
use peras.Kernel.Decide.Commands.{no_decision}
use peras.Kernel.Decide.Answering.{decide-stale}

stands_configured : (body : Event) (st : Standing) → st.0 ≡ true → (stands body st).0 ≡ true
stands_configured body st h = ground (arith, h)

evolve_configured :
    (x : Externals) (ev : Envelope) (s : State)
    → holds s.config ≡ true
    → holds (evolve x ev s).config ≡ true
evolve_configured x ev s h =
    ap (λ (st : Standing). st.0) (standing-evolve x ev s)
    ∙ stands_configured ev.body (holds s.config, s.paused) h

fold_configured :
    (x : Externals) (evs : List Envelope) (s : State)
    → holds s.config ≡ true
    → holds (fold x evs s).config ≡ true
unfolding fold
fold_configured x [] s h = h
fold_configured x (ev ∷ evs) s h =
    fold_configured x evs (evolve x ev s) (evolve_configured x ev s h)

-- In a session that has started, once an event of the journal has ended an effect (has settled it,
-- or was a hard interrupt), a result of that effect gives the empty decision, after any further
-- events that do not issue an effect under the same id: a result that is delivered twice, or after
-- an interrupt, changes nothing.
pub decide-ended_effect :
    (x : Externals) (s : State) (ev : Envelope) (evs : List Envelope) (at : Timestamp)
    (id : EffectId) (r : EffectResult)
    → holds s.config ≡ true
    → ends_effect ev.body id ≡ true
    → issue_none evs id ≡ true
    → decide x (fold x evs (evolve x ev s)) at (Input.completed id r) ≡ Answered.decided no_decision
decide-ended_effect x s ev evs at id r h e n =
    let t = fold x evs (evolve x ev s) in
    let gone : holds (lookup id t.issued) ≡ false =
      fold-Gone x evs id (evolve x ev s) n (ending-Gone x ev id s e) in
    let started = fold_configured x evs (evolve x ev s) (evolve_configured x ev s h) in
    elim (Option-cases t.config) [
      | inl q ↦ cc (started, q)
      | inr (c, q) ↦ decide-stale x t at id r c q (ground (arith, gone))
    ]
