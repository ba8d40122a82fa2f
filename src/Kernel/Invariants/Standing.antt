-- ===== src/Kernel/Invariants/Standing.antt =====
-- What `evolve` keeps: that there is a configuration, and the pause until the session is resumed.
use peras.Prelude.{◌≡◌, ◌∙◌, sym, ap, arith, Bool, true, false, Bool-cases, inl, inr}
use peras.Proto.Envelope.{EffectId}
use peras.Proto.Effect.{Effect}
use peras.Proto.Event.{Event, Envelope}
use peras.Kernel.Data.{Externals, State}
use peras.Kernel.Turns.{holds, map_turn}
use peras.Kernel.Evolve.{
  observed, handle, evolve, ended, on_turn_ended, on_settled, on_interrupted, on_session_started,
  configure,
}
use peras.Kernel.Evolve.Issue.{noted_issue}
use peras.Kernel.Evolve.Project.{taint}
use peras.Kernel.Frame.{Core}
use peras.Kernel.Frame.Quiet.{is_quiet, core-handle}
use peras.Kernel.Invariants.Clock.{core-on_issued}

-- Whether there is a configuration, and whether dispatch is paused.
abbrev pub Standing : Type 0
Standing = Bool × Bool

abbrev pub standing : State → Standing
standing s = (holds s.config, s.paused)

abbrev standing_of_core : Core → Standing
standing_of_core c = (holds c.0, c.7)

standing-noted :
    (id : EffectId) (e : Effect) (s : State) → standing (noted_issue id e s) ≡ standing s
unfolding noted_issue
standing-noted id e s = ground arith

standing-observed : (ev : Envelope) (s : State) → standing (observed ev s) ≡ standing s
unfolding observed taint
standing-observed ev s = ground arith

-- The standing after an event.
abbrev pub stands : Event → Standing → Standing
stands (Event.session_started session profile_hash config parent) (c, p) = (true, p)
stands (Event.config_changed profile_hash config) (c, p) = (true, p)
stands Event.paused (c, p) = (c, true)
stands Event.resumed (c, p) = (c, false)
stands _ st = st

standing-loud :
    (x : Externals) (ev : Envelope) (body : Event) (s : State)
    → is_quiet body ≡ false
    → standing (handle x ev body s) ≡ stands body (standing s)
unfolding handle on_session_started configure on_turn_ended ended on_settled on_interrupted map_turn
standing-loud x ev (Event.effect_issued id e) s q =
    ap standing_of_core (core-on_issued x id e ev.seq s) ∙ standing-noted id e s
standing-loud x ev body s q = ground arith

stands_quiet : (body : Event) (st : Standing) → is_quiet body ≡ true → stands body st ≡ st
stands_quiet body st q = ground arith

pub standing-evolve :
    (x : Externals) (ev : Envelope) (s : State)
    → standing (evolve x ev s) ≡ stands ev.body (standing s)
unfolding evolve
standing-evolve x ev s =
    let o = ap (stands ev.body) (standing-observed ev s) in
    elim (Bool-cases (is_quiet ev.body)) [
      | inl q ↦
          ap standing_of_core (core-handle x ev ev.body (observed ev s) q)
          ∙ (standing-observed ev s ∙ sym (stands_quiet ev.body (standing s) q))
      | inr q ↦ standing-loud x ev ev.body (observed ev s) q ∙ o
    ]
