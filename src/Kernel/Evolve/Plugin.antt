-- ===== src/Kernel/Evolve/Plugin.antt =====
-- state.rs: the events of `Event::Plugin` that the kernel knows, and injected instruction files;
-- with `fnv` of decide.rs and the two handlers of spawn.rs.
use Prim.Native.Nat.{bit_xor}
use peras.Prelude.{
  ℕ, zero, suc, ◌+◌, ◌*◌, ◌/◌, ◌%◌, Bool, true, false, Option, none, some, List, [], ◌∷◌, ◌++◌,
  if◌then◌else◌, ltb, Text, txt, text_eq, is_empty, put, remove, lookup, text_key,
}
use peras.Proto.Envelope.{EventId}
use peras.Proto.Value.{Value, boolean, string, object, Fields, end, field}
use peras.Proto.Event.{Envelope}
use peras.Kernel.Data.{Externals, Entry, EntryKind, Turn, State}
use peras.Kernel.Turns.{map_turn}
use peras.Kernel.Evolve.Project.{taint, taint_all, append_some}
use peras.Kernel.Evolve.Signals.{on_pending_signal, on_dropped_signal}

-- FNV-1a over 64 bits, printed with 16 hexadecimal digits.
fnv_from : ℕ → Text → ℕ
fnv_from h [] = h
fnv_from h (b ∷ bs) = fnv_from (bit_xor h b * 0x100000001b3 % 18446744073709551616) bs

hex_digit : ℕ → ℕ
hex_digit d = if ltb d 10 then d + 48 else d + 87

hex_digits : ℕ → ℕ → Text → Text
unfolding hex_digit
hex_digits zero h acc = acc
hex_digits (suc k) h acc = hex_digits k (h / 16) (hex_digit (h % 16) ∷ acc)

unfoldable pub fnv : Text → Text
unfolding fnv_from hex_digits
fnv s = hex_digits 16 (fnv_from 0xcbf29ce484222325 s) []

-- `data.get(key)` with `as_str` and `as_bool`; the keys of an object are distinct.
get_field : Text → Fields → Option Value
get_field key end = none
get_field key (field k v fs) = if text_eq k key then some v else get_field key fs

unfoldable pub get_value : Text → Value → Option Value
unfolding get_field
get_value key (object fs) = get_field key fs
get_value key _ = none

abbrev pub as_str : Value → Option Text
as_str (string s) = some s
as_str _ = none

abbrev as_bool : Value → Option Bool
as_bool (boolean b) = some b
as_bool _ = none

abbrev pub bind {ℓ κ} : {A : Type ℓ} {B : Type κ} → Option A → (A → Option B) → Option B
bind none f = none
bind (some a) f = f a

pub get_str : Text → Value → Option Text
get_str key v = bind (get_value key v) as_str

pub is_set : Text → Value → Bool
is_set key v = elim (bind (get_value key v) as_bool) [ none ↦ false | some b ↦ b ]

pub texts_at : Externals → Text → Value → List Text
texts_at x key v = elim (bind (get_value key v) x.texts_of) [ none ↦ [] | some ls ↦ ls ]

-- The parent's taint at the time of the spawn; an unnamed one is labelled "parent".
unfoldable pub on_taint_inherited : Externals → EventId → Value → State → State
unfolding is_set texts_at is_empty
on_taint_inherited x id v s =
    let labels = texts_at x (txt "labels") v in
    let s1 =
      if is_set (txt "tainted") v
      then taint_all id labels (if is_empty labels then taint id (txt "parent") s else s)
      else s in
    if is_set (txt "private_read") v
    then record s1 { taint = record s1.taint { private_read = true } }
    else s1

fork_kind : Externals → Value → EntryKind
fork_kind x v = elim (bind (get_value (txt "kind") v) x.kind_of) [
  | none ↦ EntryKind.other
  | some k ↦ k
]

unfoldable pub fork_entry : Externals → Envelope → Value → Option Entry
unfolding fork_kind texts_at
fork_entry x ev v = elim ev.rendered [
  | none ↦ none
  | some rendered ↦ some (record {
    seq = ev.seq;
    id = ev.id;
    kind = fork_kind x v;
    rendered = rendered;
    untrusted = texts_at x (txt "untrusted") v;
    source = none;
    trimmed = false;
    erased = false;
    at = ev.at;
  })
]

-- `match s.instr_pending.remove(path)`
instr_hash : Text → Text → State → Text
instr_hash path t s = elim (lookup path s.instr_pending) [
  | some original ↦ fnv original
  | none ↦ elim (lookup path s.instr) [ some i ↦ i.hash | none ↦ fnv t ]
]

unfoldable pub on_instructions : EventId → Text → Text → State → State
unfolding instr_hash
on_instructions id path t s = record s {
  instr_pending = remove path s.instr_pending;
  instr = put path (record { hash = instr_hash path t s; event = some id; text = t }) s.instr;
}

unfoldable pub pending_instructions : Option Text → Option Text → State → State
pending_instructions (some path) (some t) s = record s {
  instr_pending = put path t s.instr_pending;
}
pending_instructions _ _ s = s

unfoldable pub omitted_instructions : Option Text → Option Text → State → State
omitted_instructions (some path) (some h) s = record s {
  instr_pending = remove path s.instr_pending;
  instr = put path (record { hash = h; event = none; text = [] }) s.instr;
}
omitted_instructions _ _ s = s

pub focus_turn : Text → Turn → Turn
focus_turn f t = record t { focus = t.focus ++ f ∷ [] }

unfoldable pub on_plugin : Externals → Envelope → Text → Value → State → State
unfolding get_str pending_instructions omitted_instructions focus_turn
on_plugin x ev kind v s =
    if text_eq kind (txt "kernel.pending_signal")
    then elim (x.signal_of v) [ none ↦ s | some sig ↦ on_pending_signal sig s ]
    else if text_eq kind (txt "kernel.pending_config")
    then elim (x.config_of v) [ none ↦ s | some cfg ↦ record s { pending_config = some cfg } ]
    else if text_eq kind (txt "kernel.compact_focus")
    then elim (as_str v) [ none ↦ s | some f ↦ map_turn (focus_turn f) s ]
    else if text_eq kind (txt "kernel.context_overflow")
    then map_turn (λ t. record t { overflow = true }) s
    else if text_eq kind (txt "kernel.signal_dropped")
    then elim (bind (get_value (txt "signal") v) x.signal_of) [
      | none ↦ s
      | some sig ↦ on_dropped_signal sig s
    ]
    else if text_eq kind (txt "kernel.taint_inherited")
    then on_taint_inherited x ev.id v s
    else if text_eq kind (txt "kernel.fork_entry")
    then append_some (fork_entry x ev v) s
    else if text_eq kind (txt "kernel.instructions_pending")
    then pending_instructions (get_str (txt "path") v) (get_str (txt "text") v) s
    else if text_eq kind (txt "kernel.instructions_omitted")
    then omitted_instructions (get_str (txt "path") v) (get_str (txt "hash") v) s
    else s
