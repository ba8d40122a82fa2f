-- ===== src/Kernel/Decide/Issuing.antt =====
-- `issue` against recovery: what is dispatched is what `outstanding` gives for the effect.
use peras.Prelude.{
  max, add64, ◌≡◌, ◌∙◌, refl, sym, ap, subst, arith, true, false, Option, none, some, [], ◌∷◌, ◌++◌,
  map, if◌then◌else◌, lookup, put, lookup-put, Map, Bool-cases, inl, inr,
}
use peras.Proto.Envelope.{EffectId, effect_id_eq, effect_id_eq_iff}
use peras.Proto.Effect.{Effect, is_journal_ref}
use peras.Proto.Event.{Event, Envelope, internal_draft}
use peras.Kernel.Data.{Externals, State, Issued}
use peras.Kernel.Turns.{effect_key, capture, dispatchable, outstanding}
use peras.Kernel.Evolve.{evolve, observed, handle}
use peras.Kernel.Evolve.Issue.{noted_issue, is_finish}
use peras.Kernel.Evolve.Project.{taint}
use peras.Kernel.Frame.{Core}
use peras.Kernel.Invariants.Clock.{core-on_issued}
use peras.Kernel.Decide.Commands.{
  Cx, sealed, emit_draft, issue_effect, push_effect, next_id, to_dispatch,
}

abbrev pub entry_of : EffectId × Issued → EffectId × Effect
entry_of p = (p.0, dispatchable p.1)

lookup-outstanding :
    (id : EffectId) (i : Issued) (m : Map EffectId Issued)
    → lookup id m ≡ some i
    → lookup id (map entry_of m) ≡ some (dispatchable i)
unfolding lookup
lookup-outstanding id i [] h = cc h
lookup-outstanding id i ((j, k) ∷ m) h = ground (arith, h, lookup-outstanding id i m)

-- A capture reads the head and the context alone.
capture-eq :
    (s t : State) (e : Effect) → s.head ≡ t.head → s.context ≡ t.context → capture s e ≡ capture t e
unfolding capture
capture-eq s t (Effect.sample_ref r) h c = cc (h, c)
capture-eq s t (Effect.compact_ref r) h c = cc (h, c)
capture-eq s t e h c = refl

-- An effect that is no reference is dispatched as it is, from its capture as well.
dispatchable-plain :
    (s : State) (e : Effect) → is_journal_ref e ≡ false → dispatchable (capture s e) ≡ e
unfolding capture dispatchable
dispatchable-plain s (Effect.sample_ref r) h = cc h
dispatchable-plain s (Effect.compact_ref r) h = cc h
dispatchable-plain s e h = refl

head-observed : (ev : Envelope) (s : State) → (observed ev s).head ≡ s.head
unfolding observed taint
head-observed ev s = ground arith

context-observed : (ev : Envelope) (s : State) → (observed ev s).context ≡ s.context
unfolding observed taint
context-observed ev s = ground arith

issued-noted :
    (id : EffectId) (e : Effect) (s : State)
    → is_finish e ≡ false
    → (noted_issue id e s).issued
      ≡ put id (capture (record s { next_n = max s.next_n (add64 id.n 1) }) e) s.issued
unfolding noted_issue
issued-noted id e s h = ground (arith, h)

-- After its `EffectIssued`, an effect is in flight with what the state before captured.
lookup-issued :
    (x : Externals) (ev : Envelope) (id : EffectId) (e : Effect) (s : State)
    → is_finish e ≡ false
    → ev.body ≡ Event.effect_issued id e
    → lookup id (evolve x ev s).issued ≡ some (capture s e)
unfolding evolve handle
lookup-issued x ev id e s h b =
    let s1 = observed ev s in
    let s2 = record s1 { next_n = max s1.next_n (add64 id.n 1) } in
    let from : capture s2 e ≡ capture s e =
      capture-eq s2 s e (head-observed ev s) (context-observed ev s) in
    let flight : (evolve x ev s).issued ≡ put id (capture s2 e) s1.issued =
      rw b (ap (λ (c : Core). c.5) (core-on_issued x id e ev.seq s1) ∙ issued-noted id e s1 h) in
    let found = lookup-put id id (capture s2 e) s1.issued in
    let same : effect_id_eq id id ≡ true = (effect_id_eq_iff id id).1 refl in
    rw flight (ground (arith, found, same, from))

-- What is pushed for an effect that was captured.
to_dispatch-captured :
    (s : State) (e : Effect)
    → to_dispatch e (some (capture s e)) ≡ some (dispatchable (capture s e))
unfolding to_dispatch
to_dispatch-captured s e = ground (arith, dispatchable-plain s e)

push-some :
    (id : EffectId) (o : Option Effect) (e : Effect) (cx : Cx)
    → o ≡ some e
    → push_effect id o cx
      ≡ record cx { out = record cx.out { effects = cx.out.effects ++ (id, e) ∷ [] } }
push-some id none e cx h = cc h
push-some id (some d) e cx h = cc h

-- The clone with the effect's draft folded in.
abbrev issued_cx : Externals → Effect → Cx → Cx
issued_cx x e cx = emit_draft x (internal_draft (Event.effect_issued (next_id cx.s) e)) cx

lookup-issued_cx :
    (x : Externals) (e : Effect) (cx : Cx)
    → is_finish e ≡ false
    → lookup (next_id cx.s) (issued_cx x e cx).s.issued ≡ some (capture cx.s e)
unfolding emit_draft sealed
lookup-issued_cx x e cx f =
    lookup-issued x
      (sealed cx.at cx.s.next_seq cx.k (internal_draft (Event.effect_issued (next_id cx.s) e)))
      (next_id cx.s) e cx.s f refl

issue_paused :
    (x : Externals) (e : Effect) (cx : Cx)
    → cx.s.paused ≡ true
    → issue_effect x e cx ≡ issued_cx x e cx
unfolding issue_effect
issue_paused x e cx h = ground (arith, h)

issue_running :
    (x : Externals) (e : Effect) (cx : Cx)
    → is_finish e ≡ false
    → cx.s.paused ≡ false
    → let cy = issued_cx x e cx in
      issue_effect x e cx ≡ record cy {
        out = record cy.out {
          effects = cy.out.effects ++ (next_id cx.s, dispatchable (capture cx.s e)) ∷ [];
        };
      }
unfolding issue_effect
issue_running x e cx f h =
    let cy = issued_cx x e cx in
    let o = to_dispatch e (lookup (next_id cx.s) cy.s.issued) in
    let known : o ≡ some (dispatchable (capture cx.s e)) =
      ap (to_dispatch e) (lookup-issued_cx x e cx f) ∙ to_dispatch-captured cx.s e in
    let run : issue_effect x e cx ≡ push_effect (next_id cx.s) o cy = ground (arith, h) in
    run ∙ push-some (next_id cx.s) o (dispatchable (capture cx.s e)) cy known

-- Issuing an effect that does not end the turn puts it in flight, and a recovery would dispatch it
-- as `outstanding` gives it. The decision dispatches it in just that form, with a request rebuilt
-- from the head and the context of the clone, unless the session is paused: then it waits.
pub issue_effect-outstanding :
    (x : Externals) (e : Effect) (cx : Cx)
    → is_finish e ≡ false
    → let id = next_id cx.s in
      let cy = issue_effect x e cx in
      let d = dispatchable (capture cx.s e) in
      (lookup id (outstanding cy.s) ≡ some d)
      × (cy.out.effects ≡ (if cx.s.paused then cx.out.effects else cx.out.effects ++ (id, d) ∷ []))
unfolding emit_draft outstanding
issue_effect-outstanding x e cx f =
    let id = next_id cx.s in
    let d = dispatchable (capture cx.s e) in
    let P = λ (cy : Cx).
      (lookup id (outstanding cy.s) ≡ some d)
      × (cy.out.effects
          ≡ (if cx.s.paused then cx.out.effects else cx.out.effects ++ (id, d) ∷ [])) in
    let found =
      lookup-outstanding id (capture cx.s e) (issued_cx x e cx).s.issued
        (lookup-issued_cx x e cx f) in
    elim (Bool-cases cx.s.paused) [
      | inl h ↦ subst P (sym (issue_paused x e cx h)) (found, ground (arith, h))
      | inr h ↦ subst P (sym (issue_running x e cx f h)) (found, ground (arith, h))
    ]
