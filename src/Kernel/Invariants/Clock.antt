-- ===== src/Kernel/Invariants/Clock.antt =====
-- The sequence numbers and the index of `evolve`.
use peras.Prelude.{
  ◌≡◌, ◌∙◌, ap, arith, max, add64, false, some, Bool-cases, Option-cases, inl, inr, if◌then◌else◌,
  text_eq,
}
use peras.Proto.Envelope.{EventId, EffectId, Seq}
use peras.Proto.Effect.{Effect}
use peras.Proto.Event.{Event, Envelope}
use peras.Kernel.Data.{Externals, State, Taint}
use peras.Kernel.Collections.{SeqIndex, index_get, index_insert}
use peras.Kernel.Collections.Laws.{index_get-insert}
use peras.Kernel.Turns.{map_turn}
use peras.Kernel.Evolve.{
  observed, handle, evolve, ended, on_turn_ended, on_settled, on_interrupted, on_session_started,
  configure,
}
use peras.Kernel.Evolve.Issue.{noted_issue, on_issued, issue_global}
use peras.Kernel.Evolve.Project.{taint}
use peras.Kernel.Frame.{Core, core}
use peras.Kernel.Frame.Handlers.{core-issue_global, watched-issue_turn}
use peras.Kernel.Frame.Quiet.{is_quiet, core-handle}

pub core-on_issued :
    (x : Externals) (id : EffectId) (e : Effect) (seq : Seq) (s : State)
    → core (on_issued x id e seq s) ≡ core (noted_issue id e s)
unfolding on_issued noted_issue
core-on_issued x id e seq s =
    let s1 = issue_global x id e seq (noted_issue id e s) in
    let from = core-issue_global x id e seq (noted_issue id e s) in
    elim (Option-cases s1.turn) [
      | inl n ↦ rw (on_issued, n) from
      | inr (t, n) ↦
          rw (on_issued, n) (ap (λ (w : Core × Taint). w.0) (watched-issue_turn id e t s1) ∙ from)
    ]

abbrev clock : State → Seq × SeqIndex
clock s = (s.next_seq, s.index)

abbrev clock_of_core : Core → Seq × SeqIndex
clock_of_core c = (c.2, c.3)

clock-noted : (id : EffectId) (e : Effect) (s : State) → clock (noted_issue id e s) ≡ clock s
unfolding noted_issue
clock-noted id e s = ground arith

clock-loud :
    (x : Externals) (ev : Envelope) (body : Event) (s : State)
    → is_quiet body ≡ false
    → clock (handle x ev body s) ≡ clock s
unfolding handle on_session_started configure on_turn_ended ended on_settled on_interrupted map_turn
clock-loud x ev (Event.effect_issued id e) s q =
    ap clock_of_core (core-on_issued x id e ev.seq s) ∙ clock-noted id e s
clock-loud x ev body s q = ground arith

clock-handle :
    (x : Externals) (ev : Envelope) (body : Event) (s : State)
    → clock (handle x ev body s) ≡ clock s
clock-handle x ev body s = elim (Bool-cases (is_quiet body)) [
  | inl q ↦ ap clock_of_core (core-handle x ev body s q)
  | inr q ↦ clock-loud x ev body s q
]

clock-observed :
    (ev : Envelope) (s : State)
    → clock (observed ev s) ≡ (max s.next_seq (add64 ev.seq 1), index_insert ev.id ev.seq s.index)
unfolding observed taint
clock-observed ev s = ground arith

-- For every event, the clock is the later of what it was and the number after the event, a u64.
pub next_seq-evolve :
    (x : Externals) (ev : Envelope) (s : State)
    → (evolve x ev s).next_seq ≡ max s.next_seq (add64 ev.seq 1)
unfolding evolve
next_seq-evolve x ev s =
    ap (λ (c : Seq × SeqIndex). c.0) (clock-handle x ev ev.body (observed ev s))
    ∙ ap (λ (c : Seq × SeqIndex). c.0) (clock-observed ev s)

-- For every event, the index finds the event's id at its sequence number, and finds every other id
-- where it found it before.
pub index_get-evolve :
    (x : Externals) (ev : Envelope) (s : State) (j : EventId)
    → index_get j (evolve x ev s).index
      ≡ (if text_eq j ev.id then some ev.seq else index_get j s.index)
unfolding evolve
index_get-evolve x ev s j =
    ap (λ (c : Seq × SeqIndex). index_get j c.1)
      (clock-handle x ev ev.body (observed ev s) ∙ clock-observed ev s)
    ∙ index_get-insert ev.id j ev.seq s.index
