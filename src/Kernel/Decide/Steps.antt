-- ===== src/Kernel/Decide/Steps.antt =====
-- crates/kernel/src/decide.rs: the steps that follow an input until nothing is left to do; with
-- `subagents_started` of spawn.rs.
use peras.Prelude.{
  ℕ, zero, suc, Bool, true, false, not, ◌&&◌, ◌||◌, Option, none, some, List, [], ◌∷◌, map,
  if◌then◌else◌, ltb, Text, txt, glue, join, any, find, retain, is_empty, get_elem?, lookup,
  text_key,
}
use peras.Proto.Envelope.{SessionId, Origin, child}
use peras.Proto.Value.{string, object, field, end}
use peras.Proto.Verdict.{
  Verdict, Responder, Ring, HookPoint, Question, ToolCall, TurnOutcome, cancelled,
}
use peras.Proto.Config.{KernelConfig}
use peras.Proto.Signal.{Signal}
use peras.Proto.Effect.{Effect, GateSubject}
use peras.Proto.Event.{Event, GateRef, TurnCause}
use peras.Kernel.Data.{
  Externals, State, Turn, Slot, CallGate, Exec, PreCkpt, TGate, QueueItem, Mail, Reply,
}
use peras.Kernel.Sched.{next_batch, needs_checkpoint, batch_writes}
use peras.Kernel.Gate.Ring1.{runs_in_sandbox, is_subagent}
use peras.Kernel.Gate.Evaluate.{evaluate}
use peras.Kernel.Turns.{hooked, holds, is_waiting, is_running, compact_waiting, max_continuations}
use peras.Kernel.Decide.Commands.{
  Program, Action, ◌>>=◌, ◌>>◌, done, state, clock, cfg, emit, issue, when, for_each, user_draft,
}
use peras.Kernel.Decide.Emitting.{
  user, noted, ask_gate, tool_resulted, end_turn, suspend, is_open, start_turn,
}
use peras.Kernel.Decide.Sequences.{apply_config}
use peras.Kernel.Decide.Approvals.{is_invariant}
use peras.Kernel.Decide.Reviews.{record_verdict}
use peras.Kernel.Decide.Sampling.{prepare_and_sample}

-- ---- spawn.rs ----
started_child : SessionId → ToolCall → Action
started_child session c = do
  k ← cfg
  s ← state
  when (is_subagent k c && not (holds (lookup c.id s.children)))
      (user (Event.subagent_started c.id (child session c.id)))

unfoldable pub subagents_started : List ToolCall → Action
unfolding started_child
subagents_started calls = do
  s ← state
  elim s.session [ none ↦ done | some session ↦ for_each calls (started_child session) ]

-- ---- gating the recorded calls ----
unattended_question : KernelConfig → ToolCall → Question → Action
unattended_question c call q =
    if c.security.disposable_env && runs_in_sandbox call
    then record_verdict (GateRef.call call.id) HookPoint.permission Ring.human Verdict.allow
        Responder.disposable_env
    else (do
      user (Event.question_asked q (GateRef.call call.id))
      suspend
          (glue (
            txt "approval required for `"
            ∷ call.name
            ∷ txt "` ("
            ∷ join (txt ", ") q.rules
            ∷ txt ")"
            ∷ []))
          (some q))

-- An invariant-level question that nobody can answer suspends the turn, unless the call runs in a
-- disposable environment.
unfoldable pub human_gate : ToolCall → Question → Action
unfolding unattended_question
human_gate call q = do
  c ← cfg
  if holds c.unattended && is_invariant q.level then unattended_question c call q else (do
    user (Event.question_asked q (GateRef.call call.id))
    ask_gate HookPoint.permission Ring.human (GateSubject.tool call) (some q))

check_call : Externals → State → Slot → Action
check_call x s sl = do
  at ← clock
  let kv = evaluate x s at sl.call sl.ordinal sl.repeat sl.rewrites
  record_verdict (GateRef.call sl.call.id) HookPoint.pre_tool kv.ring kv.verdict kv.responder

-- What the call's gate asks for; a call that asks for nothing leaves it to the later ones.
gate_call : Externals → State → Slot → Program Bool → CallGate → Program Bool
unfolding check_call human_gate
gate_call x s sl later CallGate.unchecked = check_call x s sl >> Program.ret true
gate_call x s sl later (CallGate.need_hook q) =
    ask_gate HookPoint.pre_tool Ring.hook (GateSubject.tool sl.call) none >> Program.ret true
gate_call x s sl later (CallGate.need_human q) = human_gate sl.call q >> Program.ret true
gate_call x s sl later (CallGate.closed r) = tool_resulted x sl.call r false >> Program.ret true
gate_call x s sl later _ = later

unfoldable pub gate_calls : Externals → State → List Slot → Program Bool
unfolding gate_call
gate_calls x s [] = Program.ret false
gate_calls x s (sl ∷ more) = gate_call x s sl (gate_calls x s more) sl.gate

-- ---- running the permitted calls ----
abbrev is_deferred : CallGate → Bool
is_deferred CallGate.deferred = true
is_deferred _ = false

abbrev is_awaiting : CallGate → Bool
is_awaiting (CallGate.await_hook id q) = true
is_awaiting (CallGate.await_human qid id) = true
is_awaiting _ = false

abbrev is_permitted : CallGate → Bool
is_permitted CallGate.permitted = true
is_permitted _ = false

abbrev is_idle : Exec → Bool
is_idle Exec.idle = true
is_idle _ = false

abbrev pub is_busy : Slot → Bool
is_busy sl = is_running sl.exec || holds sl.post

unfoldable pub ready_calls : List Slot → List ToolCall
unfolding retain
ready_calls slots =
    map (λ (sl : Slot). sl.call)
      (retain (λ (sl : Slot). is_open sl && (is_permitted sl.gate && is_idle sl.exec)) slots)

-- `idx.iter().map(|&i| ready[i])`
unfoldable pub pick : List ToolCall → List ℕ → List ToolCall
pick calls [] = []
pick calls (i ∷ is) =
    let rest = pick calls is in elim (get_elem? calls i) [ none ↦ rest | some c ↦ c ∷ rest ]

unfoldable pub execute_batch : List ToolCall → Action
unfolding subagents_started
execute_batch calls = do
  issue (
      Effect.execute
        (record { calls = calls; grants = map (λ (c : ToolCall). (c.id, c.access)) calls }))
  subagents_started calls

-- A batch that changes files waits for the checkpoint before it.
checkpointed_batch : List ToolCall → PreCkpt → Program Bool
unfolding execute_batch
checkpointed_batch chosen (PreCkpt.pending id) = Program.ret false
checkpointed_batch chosen PreCkpt.unset =
    issue (Effect.checkpoint (record { declared_writes = batch_writes chosen; safe_point = false }))
    >> Program.ret true
checkpointed_batch chosen PreCkpt.done = execute_batch chosen >> Program.ret true

unfoldable pub batch_step : Turn → List ToolCall → Program Bool
unfolding checkpointed_batch pick
batch_step t ready =
    let chosen = pick ready (next_batch ready) in
    if needs_checkpoint chosen
    then checkpointed_batch chosen t.pre_ckpt
    else execute_batch chosen >> Program.ret true

-- ---- the end of the turn ----
unfoldable pub wind_down : Externals → Turn → Program Bool
wind_down x t = elim (find (λ (sl : Slot). is_open sl && not (is_busy sl)) t.slots) [
  | some sl ↦ tool_resulted x sl.call (cancelled sl.call.id) false >> Program.ret true
  | none ↦
      if holds t.sample || holds t.compact || any is_busy t.slots
      then Program.ret false
      else end_turn TurnOutcome.interrupted >> Program.ret true
]

stop_gate : Text → TGate → Program Bool
stop_gate t TGate.unset =
    ask_gate HookPoint.stop Ring.hook (GateSubject.stop t) none >> Program.ret true
stop_gate t (TGate.waiting id) = Program.ret false
stop_gate t TGate.passed = end_turn (TurnOutcome.done t) >> Program.ret true

unfoldable pub stop_step : Turn → Text → Program Bool
unfolding stop_gate
stop_step t text = do
  s ← state
  if hooked s HookPoint.stop
      then stop_gate text t.stop
      else end_turn (TurnOutcome.done text) >> Program.ret true

-- ---- a step of a turn ----
reply_step : Externals → State → Turn → Option Reply → Program Bool
unfolding stop_step
reply_step x s t none = prepare_and_sample x
reply_step x s t (some r) =
    if not r.has_calls && not (any (λ (m : Mail). m.steer) s.mailbox)
    then stop_step t r.text
    else prepare_and_sample x

run_step : Externals → State → Turn → Program Bool
unfolding batch_step reply_step ready_calls
run_step x s t =
    let ready = ready_calls t.slots in
    if any is_busy t.slots
    then Program.ret false
    else if is_empty ready
    then reply_step x s t t.reply
    else batch_step t ready

-- The turn waits for a reply, a summary or a gate.
unfoldable pub is_held_up : State → Turn → Bool
is_held_up s t =
    holds t.sample
    || holds t.compact
    || is_waiting t.submit
    || is_waiting t.presample
    || is_waiting t.stop
    || compact_waiting t.precompact
    || is_waiting s.session_gate

gated_step : Externals → State → Turn → Program Bool
unfolding is_held_up run_step
gated_step x s t =
    if is_held_up s t
    then Program.ret false
    else elim (find (λ (sl : Slot). not sl.result && is_deferred sl.gate) t.slots) [
      | some sl ↦
          suspend (glue (txt "gate deferred `" ∷ sl.call.name ∷ txt "`" ∷ [])) none
          >> Program.ret true
      | none ↦
          if any (λ (sl : Slot). not sl.result && is_awaiting sl.gate) t.slots
          then Program.ret false
          else run_step x s t
    ]

was_interrupted : Turn → Bool
was_interrupted t = elim t.reply [ none ↦ false | some r ↦ r.interrupted ]

turn_step : Externals → State → Turn → Program Bool
unfolding was_interrupted wind_down gated_step
turn_step x s t =
    if t.suspended
    then Program.ret false
    else if t.soft || was_interrupted t
    then wind_down x t
    else (do
      handled ← gate_calls x s (retain is_open t.slots)
      if handled then Program.ret true else gated_step x s t)

-- ---- a step between turns ----
abbrev from_user : QueueItem → Bool
from_user (QueueItem.user t attachments) = true
from_user (QueueItem.wake source reason) = false

abbrev wakes : List QueueItem → Option (Text × Text)
wakes [] = none
wakes (QueueItem.user t attachments ∷ more) = wakes more
wakes (QueueItem.wake source reason ∷ more) = some (source, reason)

item_cause : QueueItem → TurnCause
item_cause (QueueItem.user t attachments) = TurnCause.queued
item_cause (QueueItem.wake source reason) = TurnCause.wake

drop_wake : Externals → Text → Text → Action
drop_wake x source reason =
    emit
      (record (user_draft (
        noted (txt "kernel.signal_dropped") (
          object (
            field (txt "signal") (x.signal_value (Signal.wake source reason))
              (field (txt "reason") (string (txt "continuation budget exhausted")) end))))) {
                origin = Origin.session source;
              })

-- A wake that no input can revive is dropped, so that the queue does not keep it forever.
dropped_wake : State → Option (Text × Text)
dropped_wake s =
    if ltb s.continuations (max_continuations s) || any from_user s.queue
    then none
    else wakes s.queue

next_item : State → Option QueueItem
next_item s =
    let can_wake = ltb s.continuations (max_continuations s) in
    find (λ (q : QueueItem). from_user q || can_wake) s.queue

queue_step : Externals → State → Program Bool
unfolding dropped_wake drop_wake next_item item_cause
queue_step x s = elim (dropped_wake s) [
  | some (source, reason) ↦ drop_wake x source reason >> Program.ret true
  | none ↦ elim (next_item s) [
    | none ↦ Program.ret false
    | some item ↦ start_turn x (item_cause item) item >> Program.ret true
  ]
]

unfoldable pub idle_step : Externals → State → Program Bool
unfolding queue_step
idle_step x s = elim s.pending_config [
  | some new ↦ apply_config x new >> Program.ret true
  | none ↦ queue_step x s
]

unfoldable pub step : Externals → Program Bool
unfolding turn_step idle_step
step x = do
  s ← state
  if holds s.restoring
      then Program.ret false
      else elim s.turn [ none ↦ idle_step x s | some t ↦ turn_step x s t ]

-- The steps until one does nothing, `fuel` at most.
unfoldable pub advance : Externals → ℕ → Action
unfolding step
advance x zero = done
advance x (suc fuel) = do more ← step x; elim more [ true ↦ advance x fuel | false ↦ done ]
