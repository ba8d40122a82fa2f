-- ===== src/Kernel/Decide/Commands.antt =====
-- crates/kernel/src/decide.rs: `Cx`, the private clone of the state and the decision so far, with
-- the ways a handler touches it: reading the clone, the clock and the configuration, `emit`,
-- `issue`, the dispatch of held effects by a resume, and a rejection.
use peras.Prelude.{
  ℕ, ◌+◌, Bool, Option, none, some, List, [], ◌∷◌, ◌++◌, if◌then◌else◌, Text, txt, glue, decimal,
  lookup,
}
use peras.Proto.Envelope.{EffectId, Timestamp, Audience}
use peras.Proto.Config.{KernelConfig}
use peras.Proto.Effect.{Effect, is_journal_ref}
use peras.Proto.Event.{Event, Envelope, Draft, internal_draft, event_schema}
use peras.Kernel.Data.{Externals, State, Issued}
use peras.Kernel.Turns.{effect_key, dispatchable}
use peras.Kernel.Evolve.{evolve}

pub record Decision : Type 0 where
  pub events : List Draft
  pub effects : List (EffectId × Effect)

abbrev pub no_decision : Decision
no_decision = record { events = []; effects = [] }

pub record Cx : Type 0 where
  pub s : State
  pub at : Timestamp
  pub out : Decision
  pub k : ℕ

-- `Cx::new`
abbrev pub new_cx : State → Timestamp → Cx
new_cx s at = record { s = s; at = at; out = no_decision; k = 0 }

-- The envelope that a draft is folded under; its id is never written to a journal.
unfoldable pub sealed : Timestamp → ℕ → ℕ → Draft → Envelope
sealed at next_seq k d = record {
  id = glue (txt "~draft." ∷ decimal next_seq ∷ txt "." ∷ decimal k ∷ []);
  parent = none;
  seq = next_seq;
  at = at;
  origin = d.origin;
  trust = d.trust;
  audience = d.audience;
  schema = event_schema;
  body = d.body;
  rendered = d.rendered;
}

unfoldable pub emit_draft : Externals → Draft → Cx → Cx
unfolding sealed
emit_draft x d cx = record cx {
  s = evolve x (sealed cx.at cx.s.next_seq cx.k d) cx.s;
  out = record cx.out { events = cx.out.events ++ d ∷ [] };
  k = cx.k + 1;
}

abbrev pub next_id : State → EffectId
next_id s = record { epoch = s.epoch; n = s.next_n }

-- What is dispatched: a reference as the fold captured it, another effect as it is.
unfoldable pub to_dispatch : Effect → Option Issued → Option Effect
to_dispatch e captured =
    if is_journal_ref e
    then elim captured [ none ↦ none | some i ↦ some (dispatchable i) ]
    else some e

abbrev pub push_effect : EffectId → Option Effect → Cx → Cx
push_effect id none cx = cx
push_effect id (some e) cx = record cx {
  out = record cx.out { effects = cx.out.effects ++ (id, e) ∷ [] };
}

unfoldable pub issue_effect : Externals → Effect → Cx → Cx
unfolding to_dispatch
issue_effect x e cx =
    let id = next_id cx.s in
    let cx1 = emit_draft x (internal_draft (Event.effect_issued id e)) cx in
    if cx.s.paused then cx1 else push_effect id (to_dispatch e (lookup id cx1.s.issued)) cx1

-- The held effects that are in flight, as they are dispatched.
unfoldable pub held_effects : List EffectId → State → List (EffectId × Effect)
held_effects [] s = []
held_effects (id ∷ ids) s =
    let rest = held_effects ids s in
    elim (lookup id s.issued) [ none ↦ rest | some i ↦ (id, dispatchable i) ∷ rest ]

-- `user_draft`
abbrev pub user_draft : Event → Draft
user_draft body = record (internal_draft body) { audience = Audience.user }

unfoldable pub resume_held : Externals → Cx → Cx
unfolding held_effects
resume_held x cx =
    let held = held_effects cx.s.held cx.s in
    let cx1 = emit_draft x (user_draft Event.resumed) cx in
    record cx1 { out = record cx1.out { effects = cx1.out.effects ++ held } }

-- What a handler does, command by command. `cfg` is `self.cfg()`, which expects a configuration.
pub data Program (A : Type 0) : Type 0 where
  ret : A → Program A
  reject : Text → Program A
  reading : (State → Program A) → Program A
  timing : (Timestamp → Program A) → Program A
  configured : (KernelConfig → Program A) → Program A
  emitting : Draft → Program A → Program A
  issuing : Effect → (EffectId → Program A) → Program A
  resuming : Program A → Program A

infixl 5 ◌>>=◌ ◌>>◌
unfoldable pub ◌>>=◌ : {A B : Type 0} → Program A → (A → Program B) → Program B
Program.ret a >>= f = f a
Program.reject why >>= f = Program.reject why
Program.reading k >>= f = Program.reading (λ s. k s >>= f)
Program.timing k >>= f = Program.timing (λ at. k at >>= f)
Program.configured k >>= f = Program.configured (λ c. k c >>= f)
Program.emitting d p >>= f = Program.emitting d (p >>= f)
Program.issuing e k >>= f = Program.issuing e (λ id. k id >>= f)
Program.resuming p >>= f = Program.resuming (p >>= f)

abbrev pub ◌>>◌ : {A B : Type 0} → Program A → Program B → Program B
m >> p = m >>= λ _. p

-- A handler that returns nothing.
abbrev pub Action : Type 0
Action = Program (Unit {0})

abbrev pub done : Action
done = Program.ret tt

-- The clone of the state, the time of the input, and the configuration in force.
abbrev pub state : Program State
state = Program.reading Program.ret

abbrev pub clock : Program Timestamp
clock = Program.timing Program.ret

abbrev pub cfg : Program KernelConfig
cfg = Program.configured Program.ret

abbrev pub emit : Draft → Action
emit d = Program.emitting d done

abbrev pub issue : Effect → Action
issue e = Program.issuing e (λ _. done)

abbrev pub resume : Action
resume = Program.resuming done

abbrev pub when : Bool → Action → Action
when c p = if c then p else done

abbrev pub for_each {ℓ} : {A : Type ℓ} → List A → (A → Action) → Action
for_each [] f = done
for_each (a ∷ rest) f = f a >> for_each rest f

-- How a program ends: with a result and the clone, with the kernel's refusal of the input, or in
-- `expect("config present")`.
pub data Outcome (A : Type 0) : Type 0 where
  returned : A → Cx → Outcome A
  rejected : Text → Outcome A
  panicked : Outcome A

unfoldable pub run : {A : Type 0} → Externals → Program A → Cx → Outcome A
run x (Program.ret a) cx = Outcome.returned a cx
run x (Program.reject why) cx = Outcome.rejected why
run x (Program.reading k) cx = run x (k cx.s) cx
run x (Program.timing k) cx = run x (k cx.at) cx
run x (Program.configured k) cx = elim cx.s.config [
  | none ↦ Outcome.panicked
  | some c ↦ run x (k c) cx
]
run x (Program.emitting d p) cx = run x p (emit_draft x d cx)
run x (Program.issuing e k) cx = run x (k (next_id cx.s)) (issue_effect x e cx)
run x (Program.resuming p) cx = run x p (resume_held x cx)
