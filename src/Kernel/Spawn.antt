-- ===== src/Kernel/Spawn.antt =====
-- crates/kernel/src/spawn.rs: what a child session inherits. The two handlers of `evolve` are in
-- Kernel.Evolve.Plugin.
pub mod Carving
use peras.Prelude.{
  ℕ, zero, suc, ◌-◌, min, Bool, true, false, ◌||◌, ◌==◌, Option, none, some, List, if◌then◌else◌,
  ltb, retain,
}
use peras.Proto.Envelope.{Seq}
use peras.Proto.Config.{Budgets}
use peras.Proto.Model.{SeqHead}
use peras.Kernel.Data.{Entry, State, Taint, Turn}

pub record ForkSeed : Type 0 where
  pub head : SeqHead
  pub entries : List Entry

unfoldable pub inherited_taint : State → Option Taint
inherited_taint s = if s.taint.tainted || s.taint.private_read then some s.taint else none

-- `until.is_none_or(|u| e.seq < u)`
unfoldable pub before_turn : Option Turn → Entry → Bool
before_turn none e = true
before_turn (some t) e = ltb e.seq t.start_seq

unfoldable pub fork_seed : State → Option ForkSeed
unfolding retain
fork_seed s = elim s.head [
  | none ↦ none
  | some head ↦ some (record { head = head; entries = retain (before_turn s.turn) s.context })
]

-- What is left of a limit, 0 being no limit.
unfoldable pub carve : ℕ → ℕ → ℕ → Option ℕ
carve limit used own =
    if limit == 0
    then some own
    else if limit - used == 0
    then none
    else some (if own == 0 then limit - used else min own (limit - used))

unfoldable pub narrow : ℕ → ℕ → ℕ
narrow p c = if p == 0 then c else if c == 0 then p else min p c

unfoldable pub carved : Budgets → Budgets → Option ℕ → Option ℕ → Option Budgets
unfolding narrow
carved parent child none cost = none
carved parent child (some tokens) none = none
carved parent child (some tokens) (some cost) = some (record {
  max_tokens = tokens;
  max_cost_micros = cost;
  max_turn_ms = narrow parent.max_turn_ms child.max_turn_ms;
  max_calls_per_turn = narrow parent.max_calls_per_turn child.max_calls_per_turn;
  max_repeat_calls = narrow parent.max_repeat_calls child.max_repeat_calls;
  max_continuations = min parent.max_continuations child.max_continuations;
})

unfoldable pub child_budgets : State → Budgets → Option Budgets
unfolding carved carve
child_budgets s child = elim s.config [
  | none ↦ none
  | some cfg ↦
      carved cfg.budgets child (carve cfg.budgets.max_tokens s.tokens_used child.max_tokens)
        (carve cfg.budgets.max_cost_micros s.cost_used child.max_cost_micros)
]
