-- ===== src/Tests/Promises.antt =====
-- `decide` of crates/kernel/src/decide.rs on concrete inputs; and shortened renderings.
use peras.Prelude.{◌≡◌, ◌≢◌, refl, true, false, none, some, List, [], ◌∷◌, txt, Memᴰ, lookup, find}
use peras.Proto.Envelope.{EffectId, Trust}
use peras.Proto.Value.{object, end}
use peras.Proto.Render.{RBlock, nil, cons}
use peras.Proto.Signal.{Control}
use peras.Proto.Effect.{Effect, RestorePlan}
use peras.Proto.Event.{Event, Envelope}
use peras.Proto.Input.{Input, EffectResult}
use peras.Kernel.Data.{State}
use peras.Kernel.Render.{without_vendor}
use peras.Kernel.Render.Trimming.{trim_blocks, offload_blocks}
use peras.Kernel.Context.Plans.{pair_blocks}
use peras.Kernel.Context.Pairing.{pairing-shortened}
use peras.Kernel.Decide.{Answered, decide}
use peras.Kernel.Decide.Commands.{Decision, no_decision, user_draft, ◌>>=◌, resume_held, emit_draft}
use peras.Kernel.Decide.Inputs.{on_control}
use peras.Kernel.Decide.Steps.{advance}
use peras.Kernel.Evolve.{evolve}
use peras.Kernel.Turns.{dispatchable, max_continuations}
use peras.Kernel.Decide.Dispatch.{IsKnown, resumes}
use peras.Kernel.Decide.Answering.{decide-panicked, decide-StaysPaused, decide-IsKnown}
use peras.Kernel.Initial.{fold}
use peras.Kernel.Invariants.Ended.{issue_none}
use peras.Kernel.Decide.Repeats.{decide-ended_effect}
use peras.Tests.Fixtures.{literal_globs, configured, event_of}

decide-panicked_example :
    decide literal_globs configured 7 (Input.control Control.pause) ≢ Answered.panicked
decide-panicked_example = decide-panicked literal_globs configured 7 (Input.control Control.pause)

-- ---- the taint is cleared while dispatch is paused, and the resume after it ----
abbrev paused : State
paused = record configured { paused = true }

abbrev plan : RestorePlan
plan = record { to = txt "e1"; checkpoint = none }

abbrev first_id : EffectId
first_id = record { epoch = 0; n = 0 }

abbrev cleared : Decision
cleared = record { events = user_draft Event.taint_cleared ∷ []; effects = [] }

decide-StaysPaused_example : cleared.effects ≡ []
unfolding decide ◌>>=◌ on_control advance emit_draft evolve max_continuations find resumes
decide-StaysPaused_example =
    decide-StaysPaused literal_globs paused 7 (Input.control Control.clear_taint) cleared refl refl
      refl

abbrev holding : State
holding = record paused {
  held = first_id ∷ [];
  issued = (first_id, record { effect = Effect.restore plan; head = none; body = [] }) ∷ [];
  restoring = some (first_id, txt "e1");
}

abbrev released : Decision
released = record {
  events = user_draft Event.resumed ∷ [];
  effects = (first_id, Effect.restore plan) ∷ [];
}

decide-IsKnown_example : IsKnown holding released.events first_id
unfolding decide ◌>>=◌ on_control advance resume_held emit_draft evolve lookup dispatchable
decide-IsKnown_example =
    decide-IsKnown literal_globs holding 7 (Input.control Control.resume) released first_id
      (Effect.restore plan) refl (Memᴰ.head refl)

-- ---- a result after its effect has ended ----
abbrev settled_id : Envelope
settled_id = event_of 5 (txt "e5") Trust.internal (Event.effect_settled first_id)

abbrev later : List Envelope
later = event_of 6 (txt "e6") Trust.user Event.resumed ∷ []

decide-ended_effect_example :
    decide literal_globs
      (fold literal_globs later (evolve literal_globs settled_id holding))
      7
      (Input.completed first_id (EffectResult.failed (txt "late")))
    ≡ Answered.decided no_decision
unfolding issue_none
decide-ended_effect_example =
    decide-ended_effect literal_globs holding settled_id later 7 first_id
      (EffectResult.failed (txt "late")) refl refl refl

-- ---- a call with its result ----
abbrev call_blocks : List RBlock
call_blocks =
    RBlock.thinking (txt "hm") none
    ∷ RBlock.tool_use (txt "c1") (txt "edit") (object end)
    ∷ RBlock.tool_result (txt "c1") (cons (RBlock.text (txt "a long text")) nil) false
    ∷ []

pairing-shortened_example :
    (pair_blocks [] (trim_blocks 2 call_blocks).0 ≡ pair_blocks [] call_blocks)
    × (pair_blocks [] (offload_blocks call_blocks).0 ≡ pair_blocks [] call_blocks)
    × (pair_blocks [] (without_vendor call_blocks) ≡ pair_blocks [] call_blocks)
pairing-shortened_example = pairing-shortened 2 [] call_blocks
