-- ===== src/Proto/Config.antt =====
-- crates/proto/src/config.rs: the compiled configuration that the kernel decides with.
use peras.Prelude.{ℕ, Bool, Option, List, Text}
use peras.Proto.Resource.{AccessMode}
use peras.Proto.Verdict.{HookPoint}
use peras.Proto.Model.{ModelCaps, ToolSpec}

pub data PolicyAction : Type 0 where
  allow ask deny : PolicyAction

pub data Layer : Type 0 where
  managed cli local_project shared_project user default : Layer

pub record PolicyRule : Type 0 where
  pub name : Text
  pub resource : Option Text
  pub tool : Option Text
  pub mode : Option AccessMode
  pub action : PolicyAction
  pub layer : Layer

pub record Budgets : Type 0 where
  pub max_tokens : ℕ
  pub max_cost_micros : ℕ
  pub max_turn_ms : ℕ
  pub max_calls_per_turn : ℕ
  pub max_repeat_calls : ℕ
  pub max_continuations : ℕ

abbrev pub default_budgets : Budgets
default_budgets = record {
  max_tokens = 0;
  max_cost_micros = 0;
  max_turn_ms = 0;
  max_calls_per_turn = 200;
  max_repeat_calls = 5;
  max_continuations = 8;
}

pub record SecurityConfig : Type 0 where
  pub workspace_root : Text
  pub workspace_trusted : Bool
  pub private_globs : List Text
  pub untrusted : List Text
  pub trusted_sources : List Text
  pub egress_allow : List Text
  pub persistence : List Text
  pub self_config : List Text
  pub disposable_env : Bool
  pub sandbox_available : Bool
  pub isolation_available : Bool

pub data OnAsk : Type 0 where
  allow deny defer : OnAsk

pub record SnapshotRule : Type 0 where
  pub key : Text
  pub min_interval_ms : ℕ

-- `pressure_ratio` is an f32, kept as its bit pattern.
pub record CompactionConfig : Type 0 where
  pub pressure_ratio : ℕ
  pub output_reserve : ℕ
  pub keep_recent_tokens : ℕ
  pub instruction : Text

pub record KernelConfig : Type 0 where
  pub caps : ModelCaps
  pub fallbacks : List ModelCaps
  pub system : List Text
  pub tools : List ToolSpec
  pub rules : List PolicyRule
  pub budgets : Budgets
  pub security : SecurityConfig
  pub unattended : Option OnAsk
  pub snapshots : List SnapshotRule
  pub compaction : CompactionConfig
  pub encoder_version : ℕ
  pub read_only_mode : Bool
  pub hooked : List HookPoint
  pub instruction_budget : ℕ
