-- ===== src/Kernel/Queries.antt =====
-- crates/kernel/src/lib.rs: what others read of the state.
pub mod Rebuilding
use peras.Prelude.{Bool, not, Option, none, some, List, map, if◌then◌else◌, contains}
use peras.Proto.Envelope.{EventId}
use peras.Proto.Verdict.{Question}
use peras.Proto.Effect.{Effect, Prompt, is_journal_ref}
use peras.Kernel.Data.{State, Subagent}
use peras.Kernel.Turns.{capture, dispatchable, renderings}
use peras.Kernel.Context.Sources.{ContextSource, source_of}
use peras.Kernel.Decide.Sampling.{max_tokens}

-- Whether the event was erased, by its tombstone or in cascade.
unfoldable pub is_erased : State → EventId → Bool
is_erased s id = contains s.erased id

-- The children in the order of the calls that started them.
unfoldable pub subagents : State → List Subagent
subagents s = map (λ p. p.1) s.children

unfoldable pub pending_questions : State → List Question
pending_questions s = map (λ p. p.1.question) s.questions

unfoldable pub context_sources : State → List ContextSource
unfolding source_of
context_sources s = map source_of s.context

-- The prompt that the next sample would carry.
unfoldable pub current_prompt : State → Option Prompt
unfolding max_tokens renderings
current_prompt s = elim s.head [
  | none ↦ none
  | some head ↦
      some (record { head = head; body = renderings s.context; max_tokens = max_tokens s })
]

-- The request that a journaled effect stands for, if the state has what it refers to.
unfoldable pub rebuild_effect : State → Effect → Option Effect
rebuild_effect s journaled =
    let d = dispatchable (capture s journaled) in if not (is_journal_ref d) then some d else none
