-- ===== src/Kernel/Decide/Vetoes.antt =====
-- Approvals at the invariant level: what `gated` records when the responder may not give them.
use peras.Prelude.{
  ℕ, ◌≡◌, refl, sym, subst, arith, Bool, true, false, not, ◌&&◌, Option, none, some, List, [], ◌∷◌,
  ◌++◌, all, if◌then◌else◌, Text, lookup, text_key,
}
use peras.Proto.Envelope.{EffectId, Timestamp}
use peras.Proto.Verdict.{
  Verdict, Responder, Answer, Ring, ApprovalLevel, HookPoint, Question, ToolCall, ToolResult,
}
use peras.Proto.Config.{KernelConfig}
use peras.Proto.Effect.{Effect, GateRequest, GateSubject}
use peras.Proto.Event.{Event, Draft, GateRef, internal_draft}
use peras.Kernel.Data.{Externals, State}
use peras.Kernel.Gate.Ring1.{runs_in_sandbox}
use peras.Kernel.Gate.Evaluate.{is_deny}
use peras.Kernel.Turns.{holds}
use peras.Kernel.Decide.Commands.{
  Action, Cx, Outcome, run, emit_draft, issue_effect, push_effect, next_id, new_cx, ◌>>=◌, when,
  user_draft,
}
use peras.Kernel.Decide.Approvals.{vouched, may_approve, check_human, answer_of}
use peras.Kernel.Decide.Emitting.{user}
use peras.Kernel.Decide.Reviews.{record_verdict, merge, merge_by_verdict}
use peras.Kernel.Decide.Gates.{
  is_human, destination_of, final_answer, allow_some, answered, by_subject, gated, gated_as,
  turn_number,
}
use peras.Kernel.Decide.Replay.{Ends, if_either, Ends-bind, Ends-known, Ends-returned}

-- The event approves nothing: no verdict but a denial, no answer but a denial, no destination, no
-- merge that applies its changes.
abbrev pub approves_nothing : Event → Bool
approves_nothing (Event.verdict_recorded subject point ring verdict who) = is_deny verdict
approves_nothing (Event.question_answered q (Answer.deny reason) who) = true
approves_nothing (Event.question_answered q answer who) = false
approves_nothing (Event.destination_allowed d) = false
approves_nothing (Event.effect_issued id (Effect.merge plan)) = not plan.apply
approves_nothing _ = true

unfoldable pub approve_nothing : List Draft → Bool
unfolding all
approve_nothing ds = all (λ (d : Draft). approves_nothing d.body) ds

abbrev Vetoed : Cx → Type 0
Vetoed cx = approve_nothing cx.out.events ≡ true

approve_nothing-append :
    (ds : List Draft) (d : Draft)
    → approve_nothing (ds ++ d ∷ []) ≡ (approve_nothing ds && approves_nothing d.body)
unfolding approve_nothing all
approve_nothing-append [] d = ground arith
approve_nothing-append (b ∷ ds) d = ground (arith, approve_nothing-append ds d)

emitted-Vetoed :
    (x : Externals) (d : Draft) (cx : Cx)
    → approves_nothing d.body ≡ true
    → Vetoed cx
    → Vetoed (emit_draft x d cx)
unfolding emit_draft
emitted-Vetoed x d cx e h = ground (arith, approve_nothing-append cx.out.events d, e, h)

-- A responder that may not approve: whatever the verdict was, it becomes a denial.
is_deny-check_human :
    (c : KernelConfig) (req : GateRequest) (v : Verdict) (who : Responder)
    → req.level ≡ ApprovalLevel.invariant
    → may_approve c req.subject who ≡ false
    → is_deny (check_human c req v who) ≡ true
unfolding check_human
is_deny-check_human c req v who l m = ground (arith, l, m)

-- Responders that may not approve at the invariant level: code in unattended mode, a disposable
-- environment outside of which the call runs or into which the changes do not go, and every other
-- one but a human.
abbrev pub IsOutside : GateSubject → Type 0
IsOutside (GateSubject.tool call) = runs_in_sandbox call ≡ false
IsOutside (GateSubject.changes call result) = Unit
IsOutside _ = ⊥

abbrev pub IsBarred : KernelConfig → GateSubject → Responder → Type 0
IsBarred c g (Responder.human who) = ⊥
IsBarred c g Responder.code = holds c.unattended ≡ true
IsBarred c g Responder.disposable_env = IsOutside g
IsBarred c g _ = Unit

barred_outside : (g : GateSubject) → IsOutside g → vouched g ≡ false
unfolding vouched
barred_outside (GateSubject.tool call) o = o
barred_outside (GateSubject.changes call result) o = refl
barred_outside _ o = elim o [ ]

barred_lem :
    (c : KernelConfig) (g : GateSubject) (who : Responder)
    → IsBarred c g who
    → may_approve c g who ≡ false
unfolding may_approve
barred_lem c g (Responder.human who) b = elim b [ ]
barred_lem c g Responder.code b = ground (arith, b)
barred_lem c g Responder.disposable_env b = barred_outside g b
barred_lem c g _ b = refl

pushed-Vetoed :
    (id : EffectId) (o : Option Effect) (cx : Cx) → Vetoed cx → Vetoed (push_effect id o cx)
pushed-Vetoed id none cx h = h
pushed-Vetoed id (some e) cx h = h

Ends-when :
    (P : Cx → Type 0) (x : Externals) (b : Bool) (p : Action) (cx : Cx)
    → P cx
    → Ends P (run x p cx)
    → Ends P (run x (when b p) cx)
unfolding run
Ends-when P x true p cx h k = k
Ends-when P x false p cx h k = h

none_allowed : (x : Externals) (cx : Cx) → Vetoed cx → Ends Vetoed (run x (allow_some none) cx)
unfolding run allow_some
none_allowed x cx h = h

issued-Vetoed :
    (x : Externals) (e : Effect) (cx : Cx)
    → approves_nothing (Event.effect_issued (next_id cx.s) e) ≡ true
    → Vetoed cx
    → Vetoed (issue_effect x e cx)
unfolding issue_effect
issued-Vetoed x e cx a h =
    let k = emitted-Vetoed x (internal_draft (Event.effect_issued (next_id cx.s) e)) cx a h in
    if_either Vetoed cx.s.paused _ _ k (pushed-Vetoed _ _ _ k)

merged-Vetoed :
    (x : Externals) (call : ToolCall) (result : ToolResult) (v : Verdict) (cx : Cx)
    → is_deny v ≡ true
    → Vetoed cx
    → Ends Vetoed (run x (merge_by_verdict call result v) cx)
unfolding run merge_by_verdict merge
merged-Vetoed x call result (Verdict.deny why) cx d h = issued-Vetoed x _ cx refl h
merged-Vetoed x call result v cx d h = cc d

-- The request is about a call, before it runs or about the changes that it staged.
abbrev pub IsAboutCall : GateSubject → Type 0
IsAboutCall (GateSubject.tool call) = Unit
IsAboutCall (GateSubject.changes call result) = Unit
IsAboutCall _ = ⊥

recorded-Vetoed :
    (x : Externals) (req : GateRequest) (v : Verdict) (who : Responder) (number : ℕ)
    (g : GateSubject) (cx : Cx)
    → IsAboutCall g
    → is_deny v ≡ true
    → Vetoed cx
    → Ends Vetoed (run x (by_subject x req v who number g) cx)
unfolding run ◌>>=◌ by_subject record_verdict
recorded-Vetoed x req v who number (GateSubject.tool call) cx a d h =
    emitted-Vetoed x
      (internal_draft (Event.verdict_recorded (GateRef.call call.id) req.point req.ring v who)) cx d
      h
recorded-Vetoed x req v who number (GateSubject.changes call result) cx a d h =
    let body = Event.verdict_recorded (GateRef.call call.id) HookPoint.post_tool req.ring v who in
    merged-Vetoed x call result v (emit_draft x (internal_draft body) cx) d
      (emitted-Vetoed x (internal_draft body) cx d h)
recorded-Vetoed x req v who number _ cx a d h = elim a [ ]

destination_of-deny :
    (q : Question) (v : Verdict) (remember : Bool)
    → is_deny v ≡ true
    → destination_of q v remember ≡ none
unfolding destination_of
destination_of-deny q v remember h = ground (arith, h)

answer_denies :
    (q : Question) (v : Verdict) (who : Responder) (o : Option Text)
    → is_deny v ≡ true
    → approves_nothing (Event.question_answered q.id (final_answer (answer_of v) o) who) ≡ true
unfolding final_answer answer_of
answer_denies q v who o h = ground (arith, h)

answered-Vetoed :
    (x : Externals) (o : Option Question) (v : Verdict) (who : Responder) (remember : Bool)
    (cx : Cx)
    → is_deny v ≡ true
    → Vetoed cx
    → Ends Vetoed (run x (answered o v who remember) cx)
unfolding answered run ◌>>=◌
answered-Vetoed x none v who remember cx d h = h
answered-Vetoed x (some q) v who remember cx d h =
    let o = destination_of q v remember in
    let body = Event.question_answered q.id (final_answer (answer_of v) o) who in
    let asked = holds (lookup q.id cx.s.questions) in
    Ends-bind Vetoed Vetoed x (when asked (user body)) (λ _. allow_some o) cx
      (Ends-when Vetoed x asked (user body) cx h
        (emitted-Vetoed x (user_draft body) cx (answer_denies q v who o d) h))
      (λ a cy k.
        subst (λ (p : Option Text). Ends Vetoed (run x (allow_some p) cy))
          (sym (destination_of-deny q v remember d)) (none_allowed x cy k))

gated_as-Vetoed :
    (x : Externals) (req : GateRequest) (v : Verdict) (who : Responder) (remember : Bool)
    (number : ℕ) (cx : Cx)
    → IsAboutCall req.subject
    → is_deny v ≡ true
    → Vetoed cx
    → Ends Vetoed (run x (gated_as x req v who remember number) cx)
unfolding gated_as
gated_as-Vetoed x req v who remember number cx a d h =
    Ends-bind Vetoed Vetoed x (when (is_human req.ring) (answered req.question v who remember))
      (λ _. by_subject x req v who number req.subject) cx
      (Ends-when Vetoed x (is_human req.ring) (answered req.question v who remember) cx h
        (answered-Vetoed x req.question v who remember cx d h))
      (λ _ cy k. recorded-Vetoed x req v who number req.subject cy a d k)

-- An approval that the policy reserves to humans is not given by another responder. For a human gate
-- at the invariant level about a call or about the changes that it staged, and a responder that is
-- code in unattended mode, or a disposable environment for a call that runs outside of it or for
-- changes, or neither of these nor a human: every verdict that is recorded and every answer is a
-- denial, no destination is allowed, and no changes are applied.
pub gated-approve_nothing :
    (x : Externals) (s : State) (at : Timestamp) (c : KernelConfig) (req : GateRequest)
    (v : Verdict) (who : Responder) (remember : Bool) (cx : Cx)
    → s.config ≡ some c
    → req.ring ≡ Ring.human
    → req.level ≡ ApprovalLevel.invariant
    → IsAboutCall req.subject
    → IsBarred c req.subject who
    → run x (gated x req v who remember) (new_cx s at) ≡ Outcome.returned tt cx
    → approve_nothing cx.out.events ≡ true
unfolding run ◌>>=◌ gated approve_nothing all
gated-approve_nothing x s at c req v who remember cx e r l a b h =
    let checked = λ (k : KernelConfig). if is_human req.ring then check_human k req v who else v in
    let m = barred_lem c req.subject who b in
    let denied : is_deny (checked c) ≡ true =
      ground (arith, r, is_deny-check_human c req v who l m) in
    Ends-returned Vetoed (run x (gated x req v who remember) (new_cx s at)) tt cx
      (Ends-known Vetoed
        (λ k. run x (gated_as x req (checked k) who remember (turn_number s)) (new_cx s at))
        s.config c e
        (gated_as-Vetoed x req (checked c) who remember (turn_number s) (new_cx s at) a denied
          refl))
      h
