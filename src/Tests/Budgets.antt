-- ===== src/Tests/Budgets.antt =====
-- The budgets of a child of a session that has spent 40 of 100 tokens.
use peras.Prelude.{◌≡◌, ◌<◌, ◌≤◌, ◌⊎◌, ◌↔◌, refl, none, some}
use peras.Proto.Config.{Budgets, KernelConfig, default_budgets}
use peras.Kernel.Data.{State}
use peras.Kernel.Spawn.{child_budgets, carve, narrow}
use peras.Kernel.Spawn.Carving.{child_budgets-IsCarved, child_budgets-none, IsCarved, IsNarrow}
use peras.Tests.Fixtures.{config, configured}

abbrev limited : KernelConfig
limited = record config { budgets = record default_budgets { max_tokens = 100 } }

abbrev parent : State
parent = record configured { config = some limited; tokens_used = 40 }

abbrev carved_budgets : Budgets
carved_budgets = record default_budgets { max_tokens = 60 }

child_budgets-IsCarved_example :
    IsCarved 100 40 60 × IsCarved 0 0 0 × IsNarrow 0 0 × IsNarrow 200 200 × IsNarrow 5 5 × (8 ≤ 8)
unfolding child_budgets carve narrow
child_budgets-IsCarved_example =
    child_budgets-IsCarved parent default_budgets carved_budgets limited refl refl

child_budgets-none_example :
    (child_budgets parent default_budgets ≡ none) ↔ (((0 < 100) × (100 ≤ 40)) ⊎ ((0 < 0) × (0 ≤ 0)))
child_budgets-none_example = child_budgets-none parent default_budgets limited refl
