-- ===== src/Tests/Journal.antt =====
-- Events, erasures and requests at concrete states.
use peras.Prelude.{
  ℕ, ◌≡◌, refl, arith, true, false, none, some, List, [], ◌∷◌, ◌++◌, Memᴰ, txt, text_eq, insert,
  lookup, contains, if◌then◌else◌,
}
use peras.Proto.Envelope.{EventId, Trust}
use peras.Proto.Model.{SeqHead}
use peras.Proto.Verdict.{Question, ApprovalLevel, Ring, Verdict}
use peras.Proto.Render.{Role, text_fragment}
use peras.Proto.Effect.{
  Effect, sample, checkpoint, journaled, split_last, instruction_of, sample_ref, compact_ref,
}
use peras.Proto.Event.{Event, Envelope, ReplacementKind}
use peras.Kernel.Data.{State, Entry, EntryKind, Op, Slot, CallGate, Exec}
use peras.Kernel.Collections.{index_get, iter}
use peras.Kernel.Evolve.{evolve, default_profile}
use peras.Kernel.Evolve.Erase.{erased_by, cascades}
use peras.Kernel.Evolve.Closure.{erased_by-IsClosed, erased_by-least, Covers, IsClosed}
use peras.Kernel.Evolve.Verdicts.{hook_slot}
use peras.Kernel.Evolve.Hooks.{hook_slot-Guarded, Guarded}
use peras.Kernel.Invariants.Clock.{index_get-evolve}
use peras.Kernel.Invariants.Recording.{fold-IsRecorded, IsRecorded, is_fresh}
use peras.Kernel.Initial.{fold}
use peras.Kernel.Invariants.Flight.{flight-evolve-IsSound, IsSound, flight}
use peras.Kernel.Invariants.Taints.{evolve-Grows, untrusted-evolve, Grows}
use peras.Kernel.Turns.{capture, dispatchable, renderings, outstanding, effect_key}
use peras.Kernel.Decide.Commands.{Cx, new_cx, next_id, issue_effect}
use peras.Kernel.Queries.{rebuild_effect}
use peras.Kernel.Queries.Rebuilding.{issue_effect-rebuild_effect}
use peras.Kernel.Turns.Requests.{
  dispatchable-capture_sample, dispatchable-capture_compact, sent, compaction,
}
use peras.Tests.Fixtures.{literal_globs, configured, read_call, web_page, event_of}

abbrev two_events : List Envelope
two_events =
    event_of 7 (txt "e7") Trust.user Event.paused
    ∷ event_of 8 (txt "e8") Trust.user Event.resumed
    ∷ []

fold-IsRecorded_example :
    IsRecorded
      (fold literal_globs two_events configured)
      (event_of 7 (txt "e7") Trust.user Event.paused)
unfolding is_fresh text_eq txt
fold-IsRecorded_example =
    fold-IsRecorded literal_globs two_events configured
      (event_of 7 (txt "e7") Trust.user Event.paused) (refl, omega arith, (refl, omega arith, tt))
      (Memᴰ.head refl)

index_get-evolve_example :
    index_get (txt "e7") (evolve literal_globs web_page configured).index
    ≡ (if text_eq (txt "e7") (txt "e7") then some 7 else index_get (txt "e7") configured.index)
index_get-evolve_example = index_get-evolve literal_globs web_page configured (txt "e7")

-- A checkpoint is issued while the session is paused.
abbrev paused_session : State
paused_session = record configured { paused = true }

abbrev issue : Envelope
issue = event_of 3 (txt "e3") Trust.internal (
    Event.effect_issued (record { epoch = 0; n = 4 })
      (checkpoint (record { declared_writes = []; safe_point = true })))

paused_session-IsSound : IsSound (flight paused_session)
unfolding lookup
paused_session-IsSound = (λ id h. cc h, λ id m. elim m [ ])

flight-evolve-IsSound_example : IsSound (flight (evolve literal_globs issue paused_session))
flight-evolve-IsSound_example =
    flight-evolve-IsSound literal_globs issue paused_session (omega arith) paused_session-IsSound

evolve-Grows_example : Grows configured.taint (evolve literal_globs web_page configured).taint
evolve-Grows_example = evolve-Grows literal_globs web_page configured (λ e. cc e)

untrusted-evolve_example : (evolve literal_globs web_page configured).taint.tainted ≡ true
untrusted-evolve_example = untrusted-evolve literal_globs web_page configured refl refl (λ e. cc e)

-- The summary `e5` covers `e1`, and the summary `e6` covers `e5`.
abbrev summary_of : EventId → List EventId → ℕ → Op
summary_of id sources seq = Op.replace seq id 1000 (record {
  kind = ReplacementKind.summary;
  range = (0, seq);
  sources = sources;
  untrusted_sources = [];
  content = [];
})

abbrev summarised : State
summarised = record configured {
  ops = record {
    full = [];
    last = summary_of (txt "e6") (txt "e5" ∷ []) 6 ∷ summary_of (txt "e5") (txt "e1" ∷ []) 5 ∷ [];
  };
}

erased_by-IsClosed_example :
    Covers (erased_by (txt "e1") summarised) (insert (txt "e1") [])
    × IsClosed (erased_by (txt "e1") summarised) (iter summarised.ops)
erased_by-IsClosed_example = erased_by-IsClosed (txt "e1") summarised

abbrev all_three : List EventId
all_three = txt "e1" ∷ txt "e5" ∷ txt "e6" ∷ []

all_three-Covers : Covers all_three (insert (txt "e1") [])
unfolding contains insert
all_three-Covers id h = ground arith

all_three-IsClosed : IsClosed all_three (iter summarised.ops)
unfolding contains iter text_eq txt cascades
all_three-IsClosed = (refl, (refl, tt))

erased_by-least_example : Covers all_three (erased_by (txt "e1") summarised)
erased_by-least_example =
    erased_by-least (txt "e1") summarised all_three all_three-Covers all_three-IsClosed

abbrev invariant_question : Question
invariant_question = record {
  id = txt "q1";
  prompt = txt "Allow?";
  level = ApprovalLevel.invariant;
  ring = Ring.invariant;
  rules = txt "invariant:exfiltration" ∷ [];
  remember_destination = none;
}

abbrev hooked_slot : Slot
hooked_slot = record {
  call = read_call;
  gate = CallGate.need_hook (some invariant_question);
  exec = Exec.idle;
  rewrites = 0;
  in_reply = true;
  result = false;
  post = none;
  ordinal = 1;
  repeat = 1;
  deferred = none;
}

hook_slot-Guarded_example : Guarded invariant_question (hook_slot Verdict.allow hooked_slot).gate
hook_slot-Guarded_example = hook_slot-Guarded Verdict.allow hooked_slot invariant_question refl

abbrev head : SeqHead
head = record {
  seq_no = 2;
  model = txt "scripted";
  system = [];
  tools = [];
  render = default_profile;
  encoder_version = 1;
}

abbrev hello : Entry
hello = record {
  seq = 1;
  id = txt "e1";
  kind = EntryKind.user;
  rendered = text_fragment Role.user (txt "hello");
  untrusted = [];
  source = none;
  trimmed = false;
  erased = false;
  at = 1000;
}

abbrev talking : State
talking = record configured { head = some head; context = hello ∷ hello ∷ [] }

abbrev sample_reference : Effect
sample_reference = sample_ref (record { seq_no = 2; entries = 1; max_tokens = 8192 })

dispatchable-capture_sample_example :
    dispatchable (capture talking sample_reference)
    ≡ sample (record { head = head; body = sent talking 1; max_tokens = 8192 })
unfolding journaled renderings
dispatchable-capture_sample_example =
    dispatchable-capture_sample talking head 1 8192 sample_reference refl (omega arith)
      (omega arith) refl

abbrev compact_reference : Effect
compact_reference = compact_ref (record {
  seq_no = 2;
  entries = 1;
  instruction = txt "Summarise.";
  max_tokens = 8192;
  range = (0, 1);
  overflow = false;
})

dispatchable-capture_compact_example :
    dispatchable (capture talking compact_reference)
    ≡ compaction talking head 1 (txt "Summarise.") 8192 (0, 1) false
unfolding journaled split_last renderings instruction_of text_fragment
dispatchable-capture_compact_example =
    dispatchable-capture_compact talking head 1 (txt "Summarise.") 8192 (0, 1) false
      compact_reference refl (omega arith) (omega arith) refl

abbrev talking_cx : Cx
talking_cx = new_cx talking 7

abbrev request : Effect
request = sample (record { head = head; body = sent talking 1; max_tokens = 8192 })

issue_effect-rebuild_effect_example :
    let id = next_id talking_cx.s in
    let cy = issue_effect literal_globs sample_reference talking_cx in
    (lookup id (outstanding cy.s) ≡ some request)
    × (cy.out.effects ≡ talking_cx.out.effects ++ (id, request) ∷ [])
unfolding rebuild_effect renderings dispatchable capture
issue_effect-rebuild_effect_example =
    issue_effect-rebuild_effect literal_globs sample_reference request talking_cx refl refl refl
