-- ===== src/Kernel/Evolve/Hooks.antt =====
-- What a hook's verdict can do to a call about which the kernel has a question.
use peras.Prelude.{◌≡◌, arith, true, some}
use peras.Proto.Verdict.{Question, Verdict, Proposal, ApprovalLevel, level_ge}
use peras.Kernel.Data.{CallGate, Slot}
use peras.Kernel.Evolve.Verdicts.{hook_slot, prior_of, ask_prior, stricter, hook_question}

-- The call does not run: it is closed, deferred or checked again, or a human is asked at the
-- level of the question at least.
abbrev pub Guarded : Question → CallGate → Type 0
Guarded q (CallGate.closed r) = Unit
Guarded q CallGate.deferred = Unit
Guarded q CallGate.unchecked = Unit
Guarded q (CallGate.need_human asked) = level_ge asked.level q.level ≡ true
Guarded q _ = ⊥

level_ge_refl : (l : ApprovalLevel) → level_ge l l ≡ true
level_ge_refl l = ground arith

stricter-Guarded : (q b : Question) → Guarded q (CallGate.need_human (stricter (some q) b))
unfolding stricter
stricter-Guarded q b = ground (arith, level_ge_refl q.level)

-- A hook's verdict, whatever it is, lets no call run about which rings 1 to 3 have a question:
-- the question stays, or another one of its level at least, or the call is closed, deferred or
-- checked again.
pub hook_slot-Guarded :
    (v : Verdict) (sl : Slot) (q : Question)
    → prior_of sl.gate ≡ some q
    → Guarded q (hook_slot v sl).gate
unfolding hook_slot ask_prior
hook_slot-Guarded (Verdict.deny r) sl q h = tt
hook_slot-Guarded Verdict.defer sl q h = tt
hook_slot-Guarded (Verdict.rewrite (Proposal.call c)) sl q h = tt
hook_slot-Guarded (Verdict.rewrite (Proposal.result r)) sl q h = tt
hook_slot-Guarded (Verdict.rewrite (Proposal.user_text t)) sl q h = tt
hook_slot-Guarded (Verdict.ask asked) sl q h =
    rw h (stricter-Guarded q (hook_question sl.call.id sl.rewrites asked))
hook_slot-Guarded Verdict.allow sl q h = rw h (level_ge_refl q.level)
hook_slot-Guarded (Verdict.annotate ctx) sl q h = rw h (level_ge_refl q.level)
hook_slot-Guarded (Verdict.continue r) sl q h = rw h (level_ge_refl q.level)
