-- ===== src/Kernel/Gate/Evaluate/Budget.antt =====
-- Ring 3 against the limits of the configuration.
use peras.Prelude.{ℕ, ◌≤◌, ◌<◌, ◌-◌, ◌≡◌, ◌↔◌, Option-cases, inl, inr, none, some, arith}
use peras.Proto.Envelope.{Timestamp}
use peras.Proto.Config.{Budgets, KernelConfig}
use peras.Kernel.Data.{State, Turn}
use peras.Kernel.Gate.Evaluate.{budget}

-- Every limit that is not 0 is respected; the call's own ordinal and repeat count include it.
pub record Within (b : Budgets) (s : State) (at : Timestamp) (ordinal repeat : ℕ) : Type 0 where
  pub tokens : 0 < b.max_tokens → s.tokens_used < b.max_tokens
  pub cost : 0 < b.max_cost_micros → s.cost_used < b.max_cost_micros
  pub calls : 0 < b.max_calls_per_turn → ordinal ≤ b.max_calls_per_turn
  pub repeats : 0 < b.max_repeat_calls → repeat ≤ b.max_repeat_calls
  pub time : (t : Turn) → s.turn ≡ some t → 0 < b.max_turn_ms → at - t.started_at ≤ b.max_turn_ms

-- Ring 3 has no objection exactly if every limit is respected.
pub budget-Within :
    (s : State) (cfg : KernelConfig) (at : Timestamp) (ordinal repeat : ℕ)
    → s.config ≡ some cfg
    → (budget s at ordinal repeat ≡ none) ↔ Within cfg.budgets s at ordinal repeat
unfolding budget
budget-Within s cfg at ordinal repeat c = (
  λ h. record {
    tokens = ground arith;
    cost = ground arith;
    calls = ground arith;
    repeats = ground arith;
    time = λ t e. ground arith;
  },
  λ w. elim (Option-cases s.turn) [
    | inl e ↦ ground arith
    | inr (t, e) ↦ ground (arith, w.time t e)
  ],
)
