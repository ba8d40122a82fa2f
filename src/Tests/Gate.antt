-- ===== src/Tests/Gate.antt =====
-- The gate at concrete calls.
use peras.Prelude.{
  ◌≡◌, refl, max, ◌↔◌, ltb, if◌then◌else◌, false, none, [], ◌∷◌, txt, contains, trim_end, text_eq,
  is_empty,
}
use peras.Proto.Resource.{write_access, fs_uri}
use peras.Proto.Verdict.{strictness}
use peras.Proto.Config.{PolicyAction}
use peras.Kernel.Gate.Ring1.{
  invariants, exfiltrates, persists, modifies_config, matchers, unknown_effect, opaque_call,
  tool_mismatch, side_effecting, runs_isolated,
}
use peras.Kernel.Evolve.{evolve, configure}
use peras.Kernel.Gate.Policy.{policy, push_name}
use peras.Kernel.Gate.Policy.Spec.{policy_spec}
use peras.Kernel.Gate.Evaluate.{evaluate, budget, staged_writes, changes_verdict}
use peras.Kernel.Gate.Evaluate.Strictness.{
  strictness-evaluate, evaluate-Escalates, Escalates, changes_verdict-looser, ring1_strictness,
  ring2_strictness, ring3_strictness,
}
use peras.Kernel.Gate.Evaluate.Budget.{budget-Within, Within}
use peras.Kernel.Initial.{initial, fold}
use peras.Kernel.Invariants.Matching.{policy-fold}
use peras.Tests.Fixtures.{literal_globs, config, configured, write_call, config_call, started}

policy-fold_example :
    (policy literal_globs (fold literal_globs (started ∷ []) initial) config_call).0
    ≡ policy_spec literal_globs config_call (fold literal_globs (started ∷ []) initial) config
unfolding fold evolve configure
policy-fold_example = policy-fold literal_globs (started ∷ []) config config_call refl

evaluate-Escalates_example :
    Escalates
      (invariants literal_globs configured config_call).0
      (evaluate literal_globs configured 5 config_call 1 1 0).verdict
unfolding is_empty invariants exfiltrates persists modifies_config matchers text_eq txt
evaluate-Escalates_example = evaluate-Escalates literal_globs configured 5 config_call 1 1 0 refl

staged_hits :
    is_empty
      (invariants literal_globs configured
        (staged_writes configured write_call (txt "agent" ∷ []))).0
    ≡ false
unfolding is_empty invariants exfiltrates persists modifies_config matchers text_eq txt
    staged_writes write_access fs_uri trim_end unknown_effect opaque_call
staged_hits = refl

staged_denied :
    (policy literal_globs configured (staged_writes configured write_call (txt "agent" ∷ []))).0
    ≡ PolicyAction.deny
unfolding policy matchers text_eq txt staged_writes tool_mismatch write_access fs_uri trim_end
    side_effecting runs_isolated push_name contains
staged_denied = refl

changes_verdict-looser_example :
    (strictness (changes_verdict literal_globs configured write_call (txt "agent" ∷ [])).verdict
      ≡ 2)
    × (strictness
          (evaluate literal_globs configured 5
            (staged_writes configured write_call (txt "agent" ∷ []))
            1
            1
            0).verdict
        ≡ 4)
changes_verdict-looser_example =
    changes_verdict-looser literal_globs configured 5 write_call (txt "agent" ∷ []) 1 1 0
      staged_hits staged_denied

budget-Within_example : (budget configured 5 1 1 ≡ none) ↔ Within config.budgets configured 5 1 1
budget-Within_example = budget-Within configured config 5 1 1 refl

strictness-evaluate_example :
    strictness (evaluate literal_globs configured 5 config_call 1 1 0).verdict ≡ (
      if ltb 3 0
      then 4
      else max
          (max
            (ring1_strictness (invariants literal_globs configured config_call).0)
            (ring2_strictness (policy literal_globs configured config_call).0))
          (ring3_strictness (budget configured 5 1 1)))
strictness-evaluate_example = strictness-evaluate literal_globs configured 5 config_call 1 1 0
