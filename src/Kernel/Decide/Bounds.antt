-- ===== src/Kernel/Decide/Bounds.antt =====
-- The byte budget of injected instruction files.
use peras.Prelude.{
  ℕ, zero, suc, ◌+◌, ◌-◌, ◌≤◌, ◌≡◌, refl, arith, Bool, true, false, ◌&&◌, some, List, [], ◌∷◌, ◌++◌,
  length, take, if◌then◌else◌, ltb, is_empty, Text,
}
use peras.Proto.Envelope.{Origin, Timestamp}
use peras.Proto.Config.{KernelConfig}
use peras.Proto.Event.{Event, Draft, internal_draft}
use peras.Kernel.Data.{Externals, State}
use peras.Kernel.Gate.Canonical.{cut_end}
use peras.Kernel.Decide.Commands.{Program, Cx, Outcome, run, emit_draft, ◌>>=◌, new_cx, for_each}
use peras.Kernel.Decide.Emitting.{visible, visible_draft}
use peras.Kernel.Decide.Instructions.{
  File, fitted, omit, omitted, kept, broadest_first, used_bytes, inject_within, inject_pending,
  inject_files, instructions_trust, omitted_event, then_omit, then_show, pending_text,
}
use peras.Kernel.Decide.Replay.{Ends, Ends-bind, Ends-configured, Ends-returned, Ends-known}

bytes_of : Event → ℕ
bytes_of (Event.instructions_injected path t) = length t
bytes_of _ = 0

-- The bytes of instruction files that the drafts bring into the context.
unfoldable pub injected_bytes : List Draft → ℕ
unfolding bytes_of
injected_bytes [] = 0
injected_bytes (d ∷ ds) = bytes_of d.body + injected_bytes ds

injected_bytes-append :
    (ds : List Draft) (d : Draft)
    → injected_bytes (ds ++ d ∷ []) ≡ injected_bytes ds + bytes_of d.body
unfolding injected_bytes
injected_bytes-append [] d = omega arith
injected_bytes-append (b ∷ ds) d = omega (arith, injected_bytes-append ds d)

cut_end-le : (t : Text) (n : ℕ) → cut_end t n ≤ n
unfolding cut_end
cut_end-le t zero = omega arith
cut_end-le t (suc n) = ground (arith, cut_end-le t n)

length-take-le : (n : ℕ) (t : Text) → length (take n t) ≤ n
length-take-le zero t = omega arith
length-take-le (suc n) [] = omega arith
length-take-le (suc n) (c ∷ t) = omega (arith, length-take-le n t)

length-fitted : (left : ℕ) (t : Text) → length (fitted left t) ≤ left
unfolding fitted
length-fitted left t = ground (arith, cut_end-le t left, length-take-le (cut_end t left) t)

Ends-if {ℓ} :
    {A : Type 0} (P : Cx → Type ℓ) (x : Externals) (b : Bool) (p q : Program A) (cx : Cx)
    → Ends P (run x p cx)
    → Ends P (run x q cx)
    → Ends P (run x (if b then p else q) cx)
Ends-if P x true p q cx h k = h
Ends-if P x false p q cx h k = k

-- At most `room` bytes more than before.
abbrev Within : ℕ → Cx → Type 0
Within room cx = injected_bytes cx.out.events ≤ room

emitted_bytes :
    (x : Externals) (d : Draft) (cx : Cx)
    → injected_bytes (emit_draft x d cx).out.events ≡ injected_bytes cx.out.events + bytes_of d.body
unfolding emit_draft
emitted_bytes x d cx = injected_bytes-append cx.out.events d

-- A draft of `n` bytes at most uses no more than `n` of what is left.
emitted-Within :
    (x : Externals) (left room n : ℕ) (d : Draft) (cx : Cx)
    → bytes_of d.body ≤ n
    → n ≤ left
    → injected_bytes cx.out.events + left ≤ room
    → injected_bytes (emit_draft x d cx).out.events + (left - n) ≤ room
emitted-Within x left room n d cx few fits h = omega (arith, h, few, fits, emitted_bytes x d cx)

inject_files-Within :
    (x : Externals) (left room : ℕ) (files : List File) (cx : Cx)
    → injected_bytes cx.out.events + left ≤ room
    → Ends (Within room) (run x (inject_files x left files) cx)
unfolding inject_files run ◌>>=◌ visible bytes_of
inject_files-Within x left room [] cx h = omega (arith, h)
inject_files-Within x left room ((path, t) ∷ files) cx h =
    let shown = fitted left t in
    let n = length shown in
    let fits = length-fitted left t in
    let rest = left - n in
    let omitting = internal_draft (omitted_event path (pending_text cx.s path)) in
    let showing = λ (c : KernelConfig).
      visible_draft x cx.s Origin.system (instructions_trust c path)
        (Event.instructions_injected path shown) in
    let more = inject_files x rest files in
    Ends-if (Within room) x (ltb left (length t) && is_empty shown) (then_omit path more)
      (then_show x path shown more) cx
      (inject_files-Within x rest room files (emit_draft x omitting cx)
        (emitted-Within x left room n omitting cx (omega arith) fits h))
      (Ends-configured (Within room) (λ c. run x more (emit_draft x (showing c) cx)) cx.s.config
        (λ c.
          inject_files-Within x rest room files (emit_draft x (showing c) cx)
            (emitted-Within x left room n (showing c) cx (omega arith) fits h)))

omit_all-Within :
    (x : Externals) (room : ℕ) (files : List File) (cx : Cx)
    → injected_bytes cx.out.events ≤ room
    → Ends (Within room) (run x (for_each files (λ (f : File). omit f.0 f.1)) cx)
unfolding run ◌>>=◌ bytes_of
omit_all-Within x room [] cx h = h
omit_all-Within x room ((path, t) ∷ files) cx h =
    let d = internal_draft (omitted_event path t) in
    omit_all-Within x room files (emit_draft x d cx)
      (let e = emitted_bytes x d cx in let n : bytes_of d.body ≡ 0 = refl in omega (arith, h, e, n))

inject_within-Within :
    (x : Externals) (left : ℕ) (files : List File) (s : State) (at : Timestamp)
    → Ends (Within left) (run x (inject_within x left files) (new_cx s at))
unfolding inject_within injected_bytes
inject_within-Within x left files s at =
    Ends-bind (Within 0) (Within left) x
      (for_each (omitted left files) (λ (f : File). omit f.0 f.1))
      (λ _. inject_files x left (kept left files)) (new_cx s at)
      (omit_all-Within x 0 (omitted left files) (new_cx s at) (omega arith))
      (λ a cy h. inject_files-Within x left left (kept left files) cy (omega (arith, h)))

-- What the pending files bring into the context fits what the budget leaves beside the files that
-- are in the context already.
pub inject_pending-bounded :
    (x : Externals) (s : State) (at : Timestamp) (c : KernelConfig) (cx : Cx)
    → s.config ≡ some c
    → run x (inject_pending x) (new_cx s at) ≡ Outcome.returned tt cx
    → injected_bytes cx.out.events ≤ c.instruction_budget - used_bytes s
unfolding run ◌>>=◌ inject_pending
inject_pending-bounded x s at c cx e r =
    let room = c.instruction_budget - used_bytes s in
    let files = broadest_first s.instr_pending in
    Ends-returned (Within room) (run x (inject_pending x) (new_cx s at)) tt cx
      (Ends-known (Within room)
        (λ k. run x (inject_within x (k.instruction_budget - used_bytes s) files) (new_cx s at))
        s.config c e (inject_within-Within x room files s at))
      r
