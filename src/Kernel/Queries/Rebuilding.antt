-- ===== src/Kernel/Queries/Rebuilding.antt =====
-- `rebuild_effect` of crates/kernel/src/lib.rs against what `decide` dispatches.
use peras.Prelude.{◌≡◌, arith, false, some, [], ◌∷◌, ◌++◌, lookup}
use peras.Proto.Effect.{Effect}
use peras.Kernel.Data.{Externals, State}
use peras.Kernel.Turns.{effect_key, capture, dispatchable, outstanding}
use peras.Kernel.Evolve.Issue.{is_finish}
use peras.Kernel.Decide.Commands.{Cx, issue_effect, next_id}
use peras.Kernel.Decide.Issuing.{issue_effect-outstanding}
use peras.Kernel.Queries.{rebuild_effect}

rebuilt_dispatchable :
    (s : State) (e d : Effect) → rebuild_effect s e ≡ some d → dispatchable (capture s e) ≡ d
unfolding rebuild_effect
rebuilt_dispatchable s e d h = ground (arith, h)

-- What `rebuild_effect` makes of a journaled effect that does not end the turn, in the state before
-- its `EffectIssued`, is the request that the decision dispatched for it when the session was not
-- paused, and what a recovery dispatches for it.
pub issue_effect-rebuild_effect :
    (x : Externals) (e d : Effect) (cx : Cx)
    → is_finish e ≡ false
    → cx.s.paused ≡ false
    → rebuild_effect cx.s e ≡ some d
    → let id = next_id cx.s in
      let cy = issue_effect x e cx in
      (lookup id (outstanding cy.s) ≡ some d) × (cy.out.effects ≡ cx.out.effects ++ (id, d) ∷ [])
issue_effect-rebuild_effect x e d cx f p r =
    let q = rebuilt_dispatchable cx.s e d r in
    let (flying, sent) = issue_effect-outstanding x e cx f in
    (ground (arith, q, flying), ground (arith, p, q, sent))
