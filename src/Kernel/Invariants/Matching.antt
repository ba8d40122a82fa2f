-- ===== src/Kernel/Invariants/Matching.antt =====
-- The matchers in force are those of the configuration in force, so that the policy of every state
-- that a journal leads to is the specified one.
use peras.Prelude.{
  ◌≡◌, refl, ◌∙◌, sym, ap, subst, arith, Bool, true, false, Option, none, some, List, [], ◌∷◌, map,
  Text, Bool-cases, Option-cases, inl, inr,
}
use peras.Proto.Envelope.{EffectId, SessionId}
use peras.Proto.Verdict.{ToolCall}
use peras.Proto.Config.{KernelConfig}
use peras.Proto.Effect.{Effect}
use peras.Proto.Event.{Event, Envelope}
use peras.Kernel.Data.{Externals, Matchers, State}
use peras.Kernel.Gate.Ring1.{matchers, compile, compile_config, rule_matcher}
use peras.Kernel.Gate.Policy.{policy}
use peras.Kernel.Gate.Policy.Spec.{policy_spec}
use peras.Kernel.Gate.Policy.Decision.{policy_lem}
use peras.Kernel.Turns.{map_turn}
use peras.Kernel.Evolve.{
  observed, handle, evolve, ended, on_turn_ended, on_settled, on_interrupted, on_session_started,
  configure,
}
use peras.Kernel.Evolve.Project.{taint}
use peras.Kernel.Evolve.Issue.{noted_issue}
use peras.Kernel.Initial.{initial, fold}
use peras.Kernel.Frame.{Core}
use peras.Kernel.Frame.Quiet.{is_quiet, core-handle}
use peras.Kernel.Invariants.Clock.{core-on_issued}

abbrev pub Settings : Type 0
Settings = Option KernelConfig × Option Matchers

abbrev settings : State → Settings
settings s = (s.config, s.m)

abbrev settings_of_core : Core → Settings
settings_of_core c = (c.0, c.1)

-- The cell of the matchers is empty or holds those of the configuration.
abbrev pub InForce : Externals → Settings → Type 0
InForce x (config, none) = Unit
InForce x (config, some m) = m ≡ compile_config x config

settings-noted :
    (id : EffectId) (e : Effect) (s : State) → settings (noted_issue id e s) ≡ settings s
unfolding noted_issue
settings-noted id e s = ground arith

settings-observed : (ev : Envelope) (s : State) → settings (observed ev s) ≡ settings s
unfolding observed taint
settings-observed ev s = ground arith

abbrev configures : Event → Bool
configures (Event.session_started session profile_hash config parent) = true
configures (Event.config_changed profile_hash config) = true
configures _ = false

started-new :
    (x : Externals) (session : SessionId) (h : Text) (config : KernelConfig) (s : State)
    → s.config ≡ none
    → (some config, some (compile x config)) ≡ settings (on_session_started x session h config s)
unfolding on_session_started configure
started-new x session h config s e = ground (arith, e)

started-again :
    (x : Externals) (session : SessionId) (h : Text) (config : KernelConfig) (s : State)
    (cfg : KernelConfig)
    → s.config ≡ some cfg
    → settings s ≡ settings (on_session_started x session h config s)
unfolding on_session_started
started-again x session h config s cfg e = ground (arith, e)

-- The events that are not quiet and do not configure the session.
settings-loud :
    (x : Externals) (ev : Envelope) (body : Event) (s : State)
    → is_quiet body ≡ false
    → configures body ≡ false
    → settings (handle x ev body s) ≡ settings s
unfolding handle on_turn_ended ended on_settled on_interrupted map_turn
settings-loud x ev (Event.effect_issued id e) s q c =
    ap settings_of_core (core-on_issued x id e ev.seq s) ∙ settings-noted id e s
settings-loud x ev body s q c = ground arith

started-InForce :
    (x : Externals) (session : SessionId) (h : Text) (config : KernelConfig) (s : State)
    → InForce x (settings s)
    → InForce x (settings (on_session_started x session h config s))
unfolding on_session_started configure compile_config
started-InForce x session h config s i = elim (Option-cases s.config) [
  | inl e ↦ subst (InForce x) (started-new x session h config s e) refl
  | inr (cfg, e) ↦ subst (InForce x) (started-again x session h config s cfg e) i
]

configured-InForce :
    (x : Externals) (ev : Envelope) (body : Event) (s : State)
    → configures body ≡ true
    → InForce x (settings s)
    → InForce x (settings (handle x ev body s))
unfolding handle configure compile_config
configured-InForce x ev (Event.session_started session h config parent) s c i =
    started-InForce x session h config s i
configured-InForce x ev (Event.config_changed h config) s c i = refl
configured-InForce x ev _ s c i = cc c

handle-InForce :
    (x : Externals) (ev : Envelope) (body : Event) (s : State)
    → InForce x (settings s)
    → InForce x (settings (handle x ev body s))
handle-InForce x ev body s i = elim (Bool-cases (configures body)) [
  | inl c ↦ configured-InForce x ev body s c i
  | inr c ↦ elim (Bool-cases (is_quiet body)) [
    | inl q ↦ subst (InForce x) (sym (ap settings_of_core (core-handle x ev body s q))) i
    | inr q ↦ subst (InForce x) (sym (settings-loud x ev body s q c)) i
  ]
]

pub evolve-InForce :
    (x : Externals) (ev : Envelope) (s : State)
    → InForce x (settings s)
    → InForce x (settings (evolve x ev s))
unfolding evolve
evolve-InForce x ev s i =
    handle-InForce x ev ev.body (observed ev s) (subst (InForce x) (sym (settings-observed ev s)) i)

fold-InForce :
    (x : Externals) (evs : List Envelope) (s : State)
    → InForce x (settings s)
    → InForce x (settings (fold x evs s))
unfolding fold
fold-InForce x [] s i = i
fold-InForce x (ev ∷ evs) s i = fold-InForce x evs (evolve x ev s) (evolve-InForce x ev s i)

abbrev cell : Externals → KernelConfig → Option Matchers → Matchers
cell x cfg (some m) = m
cell x cfg none = compile x cfg

rules_of_cell :
    (x : Externals) (cfg : KernelConfig) (o : Option Matchers)
    → InForce x (some cfg, o)
    → (cell x cfg o).rules ≡ map (rule_matcher x) cfg.rules
unfolding compile compile_config
rules_of_cell x cfg none i = refl
rules_of_cell x cfg (some m) i = ap (λ (n : Matchers). n.rules) i

rules-InForce :
    (x : Externals) (s : State) (cfg : KernelConfig)
    → s.config ≡ some cfg
    → InForce x (settings s)
    → (matchers x s).rules ≡ map (rule_matcher x) cfg.rules
unfolding matchers compile_config compile
rules-InForce x s cfg c i =
    let p = rules_of_cell x cfg s.m (subst (λ o. InForce x (o, s.m)) c i) in ground (arith, p, c)

-- In every state that a journal leads to from the empty one and that has a configuration, the
-- kernel's loop over the rules decides every call as the specification does under that
-- configuration: read-only mode and tool mismatches first, then deny, ask, allow.
pub policy-fold :
    (x : Externals) (evs : List Envelope) (cfg : KernelConfig) (call : ToolCall)
    → (fold x evs initial).config ≡ some cfg
    → (policy x (fold x evs initial) call).0 ≡ policy_spec x call (fold x evs initial) cfg
policy-fold x evs cfg call c =
    policy_lem x (fold x evs initial) cfg call c
      (rules-InForce x (fold x evs initial) cfg c (fold-InForce x evs initial tt))
