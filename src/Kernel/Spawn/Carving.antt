-- ===== src/Kernel/Spawn/Carving.antt =====
-- The budgets of a child are carved out of its parent's.
use peras.Prelude.{ℕ, ◌≡◌, ◌<◌, ◌≤◌, ◌+◌, ◌⊎◌, ◌↔◌, inl, inr, arith, none, some, Option-cases}
use peras.Proto.Config.{Budgets, KernelConfig}
use peras.Kernel.Data.{State}
use peras.Kernel.Spawn.{child_budgets, carve, narrow, carved}

-- What a child may spend is left of the parent's limit `limit`, of which `used` is spent.
abbrev pub IsCarved : ℕ → ℕ → ℕ → Type 0
IsCarved limit used own = (limit ≡ 0) ⊎ ((0 < own) × (used + own ≤ limit))

-- A limit of each turn is at most the parent's.
abbrev pub IsNarrow : ℕ → ℕ → Type 0
IsNarrow limit own = (limit ≡ 0) ⊎ ((0 < own) × (own ≤ limit))

carve-IsCarved : (limit used own n : ℕ) → carve limit used own ≡ some n → IsCarved limit used n
unfolding carve
carve-IsCarved limit used own n h = ground arith

narrow-IsNarrow : (p c : ℕ) → IsNarrow p (narrow p c)
unfolding narrow
narrow-IsNarrow p c = ground arith

-- When a child may run: every limit of the parent that is not 0 binds it. Of tokens and cost it
-- has at least 1 and no more than is left, and its limits for each turn and its continuations are
-- at most the parent's.
pub child_budgets-IsCarved :
    (s : State) (child b : Budgets) (cfg : KernelConfig)
    → s.config ≡ some cfg
    → child_budgets s child ≡ some b
    → IsCarved cfg.budgets.max_tokens s.tokens_used b.max_tokens
      × IsCarved cfg.budgets.max_cost_micros s.cost_used b.max_cost_micros
      × IsNarrow cfg.budgets.max_turn_ms b.max_turn_ms
      × IsNarrow cfg.budgets.max_calls_per_turn b.max_calls_per_turn
      × IsNarrow cfg.budgets.max_repeat_calls b.max_repeat_calls
      × (b.max_continuations ≤ cfg.budgets.max_continuations)
unfolding child_budgets carved
child_budgets-IsCarved s child b cfg c h =
    let p = cfg.budgets in
    elim (Option-cases (carve p.max_tokens s.tokens_used child.max_tokens)) [
      | inl e ↦ ground (arith, c, h, e)
      | inr (n, e) ↦
          elim (Option-cases (carve p.max_cost_micros s.cost_used child.max_cost_micros)) [
            | inl f ↦ ground (arith, c, h, e, f)
            | inr (k, f) ↦
                let tokens = carve-IsCarved p.max_tokens s.tokens_used child.max_tokens n e in
                let cost = carve-IsCarved p.max_cost_micros s.cost_used child.max_cost_micros k f in
                let time = narrow-IsNarrow p.max_turn_ms child.max_turn_ms in
                let calls = narrow-IsNarrow p.max_calls_per_turn child.max_calls_per_turn in
                let repeats = narrow-IsNarrow p.max_repeat_calls child.max_repeat_calls in
                ground (arith, c, h, e, f, tokens, cost, time, calls, repeats)
          ]
    ]

-- Under a configuration, no child can run exactly if a limit of tokens or cost that is not 0 is
-- used up.
pub child_budgets-none :
    (s : State) (child : Budgets) (cfg : KernelConfig)
    → s.config ≡ some cfg
    → (child_budgets s child ≡ none) ↔ (
        ((0 < cfg.budgets.max_tokens) × (cfg.budgets.max_tokens ≤ s.tokens_used))
        ⊎ ((0 < cfg.budgets.max_cost_micros) × (cfg.budgets.max_cost_micros ≤ s.cost_used)))
unfolding child_budgets carved carve
child_budgets-none s child cfg c = (λ h. ground arith, λ h. ground arith)
