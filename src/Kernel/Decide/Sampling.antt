-- ===== src/Kernel/Decide/Sampling.antt =====
-- crates/kernel/src/decide.rs: the safe point before a request, `prepare_and_sample`.
use peras.Prelude.{
  ℕ, ◌-◌, ◌%◌, Bool, true, false, not, ◌&&◌, Option, none, some, List, [], ◌∷◌, if◌then◌else◌, ltb,
  leb, Text, txt, text_eq, find, lookup, text_key, length, is_empty, reverse,
}
use peras.Proto.Envelope.{Timestamp, Trust, Origin}
use peras.Proto.Verdict.{HookPoint, Ring, TurnOutcome}
use peras.Proto.Config.{KernelConfig, SnapshotRule}
use peras.Proto.Effect.{Effect, GateSubject}
use peras.Proto.Event.{Event, TurnCause}
use peras.Kernel.Data.{Externals, State, Turn, Entry, Mail, TGate, PreCompact}
use peras.Kernel.Gate.Evaluate.{limited}
use peras.Kernel.Context.{plan_summary, plan_overflow_segment}
use peras.Kernel.Context.Pressure.{under_pressure}
use peras.Kernel.Context.Plans.{plan_trims}
use peras.Kernel.Turns.{hooked, holds}
use peras.Kernel.Decide.Commands.{
  Program, Action, ◌>>=◌, ◌>>◌, state, clock, cfg, issue, when, for_each,
}
use peras.Kernel.Decide.Emitting.{visible, replaced, ask_gate, end_turn, fail_turn}
use peras.Kernel.Decide.Instructions.{inject_instructions}
use peras.Kernel.Decide.Compaction.{pre_compact_gate, issue_compact, manual_compact_step}

-- The budget that the turn has used up, if any.
unfoldable pub turn_budget_exhausted : KernelConfig → State → Timestamp → Option Text
turn_budget_exhausted c s at = elim s.turn [
  | none ↦ none
  | some t ↦
      let b = c.budgets in
      if limited b.max_tokens && leb b.max_tokens s.tokens_used
      then some (txt "tokens")
      else if limited b.max_cost_micros && leb b.max_cost_micros s.cost_used
      then some (txt "cost")
      else if limited b.max_turn_ms && ltb b.max_turn_ms (at - t.started_at)
      then some (txt "turn time")
      else if limited b.max_calls_per_turn && leb b.max_calls_per_turn t.calls
      then some (txt "tool calls per turn")
      else none
]

user_text : Entry → Option Text
user_text e = elim e.source [
  | none ↦ none
  | some (body, trust) ↦ elim body [ Event.user_message t attachments ↦ some t | _ ↦ none ]
]

first_user_text : List Entry → Text
unfolding user_text
first_user_text [] = []
first_user_text (e ∷ es) =
    let rest = first_user_text es in elim (user_text e) [ none ↦ rest | some t ↦ t ]

unfoldable pub last_user_text : State → Text
unfolding first_user_text
last_user_text s = first_user_text (reverse s.context)

-- ---- snapshots ----
-- A snapshot is due if it changed and the interval of its rule has passed.
unfoldable pub is_due :
    List SnapshotRule → Timestamp → Text → Text → Option (Text × Timestamp) → Bool
is_due rules at key value none = true
is_due rules at key value (some (t, since)) =
    if text_eq t value then false else elim (find (λ (r : SnapshotRule). text_eq r.key key) rules) [
      | none ↦ true
      | some r ↦ not (ltb 0 r.min_interval_ms && ltb (at - since) r.min_interval_ms)
    ]

snapshot : Externals → List SnapshotRule → Text × Text → Action
unfolding is_due
snapshot x rules (key, value) = do
  s ← state
  at ← clock
  let last = lookup key s.snaps
  if is_empty value
      then when (holds last) (visible x Origin.system Trust.guidance (Event.snapshot_cleared key))
      else when (is_due rules at key value last)
          (visible x Origin.system Trust.guidance (Event.state_snapshot key value))

unfoldable pub snapshots : Externals → Action
unfolding snapshot
snapshots x = do c ← cfg; s ← state; for_each s.silent (snapshot x c.snapshots)

-- ---- the safe point ----
deliver_mail : Externals → Mail → Action
deliver_mail x m = visible x m.origin m.trust (Event.injected m.source m.text)

-- A checkpoint after a step that executed calls.
safe_checkpoint : Action
safe_checkpoint = do
  s ← state
  when (elim s.turn [ none ↦ false | some t ↦ t.executed_step && not t.sp_ckpt ])
      (issue (Effect.checkpoint (record { declared_writes = []; safe_point = true })))

abbrev is_ready : PreCompact → Bool
is_ready (PreCompact.ready points) = true
is_ready _ = false

-- The hook answered: the summary it was asked about is requested.
summarise_asked : Externals → State → Bool → Program Bool
summarise_asked x s overflow = elim (if overflow then plan_overflow_segment s else plan_summary s) [
  | some plan ↦ issue_compact plan overflow >> Program.ret true
  | none ↦
      if overflow
      then fail_turn x (txt "context overflow: history cannot be shortened further")
        >> Program.ret true
      else Program.ret false
]

-- Trims, and a summary if they are not enough.
relieve_pressure : Externals → State → Program Bool
relieve_pressure x s = do
  for_each (plan_trims x s false) replaced
  after ← state
  if under_pressure x after
      then elim (plan_summary after) [
        | none ↦ Program.ret false
        | some plan ↦
            (if hooked after HookPoint.pre_compact
              then pre_compact_gate
              else issue_compact plan false)
            >> Program.ret true
      ]
      else Program.ret false

-- Whether the step ends here, with a summary asked for or the turn failed.
make_room : Externals → State → Turn → Program Bool
unfolding summarise_asked relieve_pressure
make_room x s t =
    if is_ready t.precompact
    then summarise_asked x s t.overflow
    else if not t.relief && under_pressure x s
    then relieve_pressure x s
    else Program.ret false

-- `max_tokens` of lib.rs
unfoldable pub max_tokens : State → ℕ
max_tokens s = elim s.caps [ none ↦ 8192 | some caps ↦ caps.max_output ]

-- The request is the head with the whole context.
unfoldable pub sample_request : Externals → Program Bool
unfolding max_tokens
sample_request x = do
  s ← state
  elim s.head [
    | none ↦ fail_turn x (txt "no request sequence open") >> Program.ret true
    | some h ↦
        issue (
          Effect.sample_ref (record {
            seq_no = h.seq_no;
            entries = length s.context % 4294967296;
            max_tokens = max_tokens s;
          }))
        >> Program.ret true
  ]

-- The PreSample gate comes first.
gated_request : Externals → TGate → Program Bool
unfolding sample_request
gated_request x TGate.unset =
    ask_gate HookPoint.pre_sample Ring.hook GateSubject.pre_sample none >> Program.ret true
gated_request x (TGate.waiting id) = Program.ret true
gated_request x TGate.passed = sample_request x

request : Externals → Program Bool
unfolding gated_request
request x = do
  s ← state
  let gate : TGate = elim s.turn [ none ↦ TGate.passed | some t ↦ t.presample ]
  if hooked s HookPoint.pre_sample then gated_request x gate else sample_request x

abbrev is_compact_turn : TurnCause → Bool
is_compact_turn TurnCause.compact = true
is_compact_turn _ = false

-- A turn without a reply makes room and asks for one.
sampling_step : Externals → Program Bool
unfolding make_room request
sampling_step x = do
  s ← state
  ended ← elim s.turn [ none ↦ Program.ret false | some t ↦ make_room x s t ]
  if ended then Program.ret true else request x

safe_point : Externals → TurnCause → Program Bool
unfolding deliver_mail snapshots safe_checkpoint turn_budget_exhausted sampling_step
safe_point x cause = do
  inject_instructions x
  s ← state
  for_each s.mailbox (deliver_mail x)
  snapshots x
  safe_checkpoint
  after ← state
  at ← clock
  c ← cfg
  elim (turn_budget_exhausted c after at) [
    | some what ↦ end_turn (TurnOutcome.budget_exhausted what) >> Program.ret true
    | none ↦ if is_compact_turn cause then manual_compact_step else sampling_step x
  ]

abbrev is_unset : TGate → Bool
is_unset TGate.unset = true
is_unset _ = false

abbrev by_user : TurnCause → Bool
by_user TurnCause.user = true
by_user TurnCause.queued = true
by_user _ = false

-- The SessionStart and UserSubmit hooks come before the safe point.
prepare_turn : Externals → State → Turn → Program Bool
unfolding last_user_text safe_point
prepare_turn x s t =
    if hooked s HookPoint.session_start && is_unset s.session_gate
    then ask_gate HookPoint.session_start Ring.hook GateSubject.session_start none
      >> Program.ret true
    else if hooked s HookPoint.user_submit && (by_user t.cause && is_unset t.submit)
    then ask_gate HookPoint.user_submit Ring.hook (GateSubject.user_submit (last_user_text s)) none
      >> Program.ret true
    else safe_point x t.cause

unfoldable pub prepare_and_sample : Externals → Program Bool
unfolding prepare_turn
prepare_and_sample x = do
  s ← state
  elim s.turn [ none ↦ Program.ret false | some t ↦ prepare_turn x s t ]
