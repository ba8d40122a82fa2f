-- ===== src/Lib.antt =====
-- The pure decision core of the agent framework: the types of crates/proto and the kernel of
-- crates/kernel, whose state is a fold of the journal.
--
-- Parts, with paths from the repository's root:
-- - Prelude: Boolean tests on native numbers, lists, texts as lists of UTF-8 bytes, maps as
--   association lists in key order (`BTreeMap`).
-- - Proto: crates/proto/src, a module for each file: Resource (resource.rs), Envelope (envelope.rs,
--   ids.rs), Verdict (verdict.rs, tool.rs), Model, Signal, Config, Render, Effect, Event and Input
--   (event.rs, effect.rs). Equality has the derived comparisons, Names the names of
--   events, Upgrade the reading of records of older schemas (upgrade.rs).
-- - Kernel.Sched: crates/kernel/src/sched.rs, `next_batch` and what it uses.
-- - Kernel.Gate: crates/kernel/src/gate.rs. Ring1 has `invariants` and the compiled matchers, Policy
--   has ring 2, Evaluate has ring 3, `evaluate`, `changes_verdict` and `tighten`.
-- - Kernel.Render and Kernel.Context: render.rs and context.rs of crates/kernel/src. Render.Trimming
--   has the shortened renderings, Context.Plans what is shortened, Context.Pressure when,
--   Context.Sources where an entry comes from.
-- - Kernel.Collections, Kernel.Data, Kernel.Turns, Kernel.Evolve: crates/kernel/src/state.rs. `State`
--   has a field for each field of the source's record; `evolve` takes an envelope and gives the next
--   state, one function for each handler. Kernel.Initial has `State::default()` and the fold.
-- - Kernel.Spawn: crates/kernel/src/spawn.rs, what a child session inherits and may spend.
-- - Kernel.Decide: crates/kernel/src/decide.rs, and the methods of `Cx` in spawn.rs. A method is a
--   `Program` of commands (read the clone of the state, the time or the configuration; emit a draft;
--   issue an effect; resume the held ones; reject the input), and `run` performs them on a `Cx`,
--   which has the clone, the draft counter and the decision as the source's has. A missing
--   configuration, where the source panics, is an outcome. Commands has the programs, Emitting,
--   Sequences, Instructions, Approvals, Reviews, Gates, Compaction, Completions, Inputs, Sampling and
--   Steps the methods, Starts the start of a session, and Decide `decide` itself; the modules beside
--   them are about these.
-- - Kernel.Queries: crates/kernel/src/lib.rs, what others read of the state.
-- - Kernel.Frame: what the handlers leave alone. Kernel.Invariants: what every event keeps.
-- - Tests: the theorems at concrete values.
--
-- The gate and the scheduler read a `State` and a `ToolCall`; `evolve` records their verdicts and
-- issued effects; rendering and context serve `evolve` and requests. `decide` calls them all: it
-- folds each draft into its clone by `evolve` before it goes on.
--
-- Machine integers: saturating and wrapping sums are written out at u32 and u64, those of `next_seq`
-- and `next_n` too. Counters that go up by one for each turn or call are natural numbers. An
-- f32 is its bit pattern.
-- `BTreeMap` and `BTreeSet` are lists in key order; shared pointers are the values they point to.
-- A `MatcherCell` is an option: empty, or the matchers compiled from a configuration.
--
-- Fuel: `cascade` has one pass more than there are operations, and each pass but the last erases one
-- more of them; `blank_within` and the text scans have one unit for each byte; `Decide.Steps.advance`
-- has the 10,000 steps of the source's loop, which stops there as the source does.
--
-- Parameters: `Externals` has what the kernel takes from `globset`, `serde_json` and its encoding of
-- values; no law of it is assumed but in Kernel.Sched.Overlap, where a match begins with the literal
-- prefix of its pattern. `Proto.Upgrade.Steps.Serde` has the decoding of events and envelopes, with
-- no law.
--
-- Not modelled: serde encodings, the formatting of ids, the wire types and schemas of
-- crates/proto; and the other crates, which are I/O, front ends and compilation of settings.
mod Prelude
pub mod Proto
pub mod Kernel
pub mod Tests
