-- ===== src/Kernel/Decide/Instructions.antt =====
-- crates/kernel/src/spawn.rs: `inject_instructions`, at the safe point before a request.
use peras.Prelude.{
  ℕ, suc, ◌+◌, ◌-◌, Bool, true, false, not, ◌&&◌, none, some, List, [], ◌∷◌, if◌then◌else◌, ltb,
  ◌==◌, Text, txt, text_eq, text_lt, glue, lookup, text_key, retain, any, length, take, is_empty,
}
use peras.Proto.Envelope.{EventId, Trust, Origin}
use peras.Proto.Value.{string, object, field, end}
use peras.Proto.Config.{KernelConfig}
use peras.Proto.Event.{Event}
use peras.Kernel.Data.{Externals, State, Entry, InstrState}
use peras.Kernel.Gate.Canonical.{cut_end}
use peras.Kernel.Turns.{holds}
use peras.Kernel.Evolve.Plugin.{fnv}
use peras.Kernel.Decide.Commands.{Action, ◌>>=◌, ◌>>◌, done, state, cfg, when, for_each}
use peras.Kernel.Decide.Emitting.{internal, visible, noted}

-- A path and its text.
abbrev pub File : Type 0
File = Text × Text

unfoldable pub instructions_trust : KernelConfig → Text → Trust
instructions_trust c path =
    if c.security.workspace_trusted
    then Trust.guidance
    else Trust.untrusted (glue (txt "fs://" ∷ path ∷ []))

in_context : State → EventId → Bool
in_context s id = any (λ (e : Entry). text_eq e.id id) s.context

-- Whether the file was injected and nothing newer waits, and whether it still is in the context.
abbrev settled_file : State → Text × InstrState → Bool
settled_file s f = not (holds (lookup f.0 s.instr_pending))

injected_file : State → Bool → Text × InstrState → Bool
unfolding in_context
injected_file s present f = elim f.1.event [
  | none ↦ false
  | some id ↦ if present then in_context s id else not (in_context s id)
]

files_of : List (Text × InstrState) → List File
files_of [] = []
files_of ((p, i) ∷ fs) = (p, i.text) ∷ files_of fs

-- The injected files that compaction removed from the context.
unfoldable pub lost_files : State → List File
unfolding injected_file files_of
lost_files s = files_of (retain (λ f. settled_file s f && injected_file s false f) s.instr)

unfoldable pub total_length : List File → ℕ
total_length [] = 0
total_length ((p, t) ∷ fs) = length t + total_length fs

-- The bytes of the files in the context.
unfoldable pub used_bytes : State → ℕ
unfolding injected_file files_of total_length
used_bytes s =
    total_length (files_of (retain (λ f. settled_file s f && injected_file s true f) s.instr))

-- `path.matches('/').count()`
count_slashes : Text → ℕ
count_slashes [] = 0
count_slashes (c ∷ s) = if c == b'/' then suc (count_slashes s) else count_slashes s

-- By the number of slashes, then by the path.
broader : Text → Text → Bool
unfolding count_slashes
broader p q =
    if count_slashes p == count_slashes q
    then text_lt p q
    else ltb (count_slashes p) (count_slashes q)

insert_file : File → List File → List File
unfolding broader
insert_file f [] = f ∷ []
insert_file f (g ∷ gs) =
    let later = insert_file f gs in if broader g.0 f.0 then g ∷ later else f ∷ g ∷ gs

unfoldable pub broadest_first : List File → List File
unfolding insert_file
broadest_first [] = []
broadest_first (f ∷ fs) = insert_file f (broadest_first fs)

-- The broadest files are left out while the rest is too long; the last one stays.
unfoldable pub omitted : ℕ → List File → List File
unfolding total_length
omitted left [] = []
omitted left (f ∷ []) = []
omitted left (f ∷ g ∷ fs) =
    let more = omitted left (g ∷ fs) in
    if ltb left (total_length (f ∷ g ∷ fs)) then f ∷ more else []

unfoldable pub kept : ℕ → List File → List File
unfolding total_length
kept left [] = []
kept left (f ∷ []) = f ∷ []
kept left (f ∷ g ∷ fs) =
    let more = kept left (g ∷ fs) in
    if ltb left (total_length (f ∷ g ∷ fs)) then more else f ∷ g ∷ fs

-- A text cut to the bytes that are left, at the start of a character.
unfoldable pub fitted : ℕ → Text → Text
fitted left t = if ltb left (length t) then take (cut_end t left) t else t

abbrev pub omitted_event : Text → Text → Event
omitted_event path original =
    noted (txt "kernel.instructions_omitted")
      (object (field (txt "path") (string path) (field (txt "hash") (string (fnv original)) end)))

abbrev pub omit : Text → Text → Action
omit path original = internal (omitted_event path original)

-- `self.s.instr_pending[&path]`; the file is still pending when it is looked up.
unfoldable pub pending_text : State → Text → Text
pending_text s path = elim (lookup path s.instr_pending) [ none ↦ [] | some t ↦ t ]

abbrev pub then_omit : Text → Action → Action
then_omit path rest = do s ← state; omit path (pending_text s path); rest

abbrev pub then_show : Externals → Text → Text → Action → Action
then_show x path shown rest = do
  c ← cfg
  visible x Origin.system (instructions_trust c path) (Event.instructions_injected path shown)
  rest

-- Each file is injected, cut to what is left; one of which nothing is left is omitted.
unfoldable pub inject_files : Externals → ℕ → List File → Action
unfolding fitted instructions_trust pending_text
inject_files x left [] = done
inject_files x left ((path, t) ∷ fs) =
    let shown = fitted left t in
    let rest = inject_files x (left - length shown) fs in
    if ltb left (length t) && is_empty shown
    then then_omit path rest
    else then_show x path shown rest

reinject : Externals → File → Action
unfolding instructions_trust
reinject x f = do
  c ← cfg
  visible x Origin.system (instructions_trust c f.0) (Event.instructions_injected f.0 f.1)

unfoldable pub inject_within : Externals → ℕ → List File → Action
unfolding inject_files
inject_within x left files = do
  for_each (omitted left files) (λ (f : File). omit f.0 f.1)
  inject_files x left (kept left files)

unfoldable pub inject_pending : Externals → Action
unfolding inject_within used_bytes
inject_pending x = do
  s ← state
  c ← cfg
  inject_within x (c.instruction_budget - used_bytes s) (broadest_first s.instr_pending)

unfoldable pub inject_instructions : Externals → Action
unfolding reinject inject_pending
inject_instructions x = do
  s ← state
  when (not (is_empty s.instr && is_empty s.instr_pending)) (do
    for_each (lost_files s) (reinject x)
    after ← state
    when (not (is_empty after.instr_pending)) (inject_pending x))
