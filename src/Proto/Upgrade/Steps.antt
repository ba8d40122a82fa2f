-- ===== src/Proto/Upgrade/Steps.antt =====
-- The steps of crates/proto/src/upgrade.rs, from one schema to the next.
use peras.Prelude.{
  ℕ, zero, suc, ◌-◌, ◌⊎◌, inl, inr, Bool, false, ◌==◌, Option, none, some, [], ◌∷◌, if◌then◌else◌,
  Text, txt, text_eq, glue, decimal,
}
use peras.Proto.Value.{
  Value, boolean, number, string, array, object, Items, nil, item, end, field, null,
}
use peras.Proto.Event.{Event, Envelope}
use peras.Proto.Upgrade.Json.{get, as_str, put, or_insert, count_items, nth_item}

pub data UpgradeError : Type 0 where
  too_new : ℕ → UpgradeError
  unknown malformed : Text → UpgradeError

pub data Result (A : Type 0) : Type 0 where
  ok : A → Result A
  err : UpgradeError → Result A

infixl 5 ◌>>=◌
abbrev pub ◌>>=◌ : {A B : Type 0} → Result A → (A → Result B) → Result B
Result.ok a >>= f = f a
Result.err e >>= f = Result.err e

-- `ok_or_else`
abbrev pub ok_or : {A : Type 0} → UpgradeError → Option A → Result A
ok_or e none = Result.err e
ok_or e (some a) = Result.ok a

-- `map_err`
abbrev pub or_malformed : {A : Type 0} → Text ⊎ A → Result A
or_malformed (inl why) = Result.err (UpgradeError.malformed why)
or_malformed (inr a) = Result.ok a

-- What the reader takes from `serde_json`: a number as a u64, and the encodings of events and
-- envelopes that serde derives. A failure is its message.
pub record Serde : Type 0 where
  pub as_u64 : Text → Option ℕ
  pub event_from : Value → Text ⊎ Event
  pub event_to : Event → Text ⊎ Value
  pub envelope_from : Value → Text ⊎ Envelope

abbrev number_of : Serde → Value → Option ℕ
number_of c (number n) = c.as_u64 n
number_of c _ = none

-- `v.get(key).and_then(Value::as_u64)`
unfoldable pub get_u64 : Serde → Text → Value → Option ℕ
get_u64 c key v = elim (get key v) [ none ↦ none | some x ↦ number_of c x ]

-- `v.get(key).and_then(Value::as_str)`
unfoldable pub str_field : Text → Value → Option Text
str_field key v = elim (get key v) [ none ↦ none | some x ↦ as_str x ]

-- Whether the field of the record is this text.
unfoldable pub has_str : Text → Value → Text → Bool
unfolding str_field
has_str key v t = elim (str_field key v) [ none ↦ false | some s ↦ text_eq s t ]

-- `v.get(key).and_then(Value::as_array)`
abbrev items_of : Option Value → Option Items
items_of (some (array vs)) = some vs
items_of _ = none

-- v0 had no `attachments` on `user_message`.
unfoldable pub v0_to_v1 : Value → Value
unfolding has_str
v0_to_v1 (object fs) =
    if has_str (txt "type") (object fs) (txt "user_message")
    then object (or_insert (txt "attachments") (array nil) fs)
    else object fs
v0_to_v1 v = v

-- ---- v1 to v2 ----
abbrev bad : Text → Text → UpgradeError
bad kind what = UpgradeError.malformed (glue (txt "effect_issued " ∷ kind ∷ txt ": " ∷ what ∷ []))

-- `p.pointer("/head/seq_no")`
head_seq : Serde → Value → Option ℕ
unfolding get_u64
head_seq c p = elim (get (txt "head") p) [ none ↦ none | some h ↦ get_u64 c (txt "seq_no") h ]

pub record PromptRef : Type 0 where
  pub seq_no : ℕ
  pub body : Items
  pub max_tokens : ℕ

-- The parts of a prompt that a reference keeps; `body.len()` is taken where it is used.
unfoldable pub prompt_ref : Serde → Text → Value → Result PromptRef
unfolding head_seq get_u64
prompt_ref c kind p = do
  seq_no ← ok_or (bad kind (txt "no head.seq_no")) (head_seq c p)
  body ← ok_or (bad kind (txt "no body")) (items_of (get (txt "body") p))
  max_tokens ← ok_or (bad kind (txt "no max_tokens")) (get_u64 c (txt "max_tokens") p)
  Result.ok (record { seq_no = seq_no; body = body; max_tokens = max_tokens })

-- The text of a single text block.
lone_text : Option Items → Option Text
unfolding str_field has_str
lone_text (some (item b nil)) =
    if has_str (txt "type") b (txt "text") then str_field (txt "text") b else none
lone_text _ = none

-- The text of the trailing instruction, `Rendered::text(Role::User, ..)`.
unfoldable pub instruction_text : Value → Option Text
unfolding has_str lone_text
instruction_text r =
    if has_str (txt "role") r (txt "user")
    then lone_text (items_of (get (txt "blocks") r))
    else none

abbrev last_of : Items → ℕ → Option Text
last_of body i = elim (nth_item body i) [ none ↦ none | some r ↦ instruction_text r ]

abbrev or_default : Value → Option Value → Value
or_default d none = d
or_default d (some v) = v

abbrev pub json_number : ℕ → Value
json_number n = number (decimal n)

unfoldable pub sample_value : PromptRef → Result Value
sample_value r = Result.ok (
    object (
      field (txt "effect") (string (txt "sample_ref")) (
        field (txt "seq_no") (json_number r.seq_no) (
          field (txt "entries") (json_number (count_items r.body))
            (field (txt "max_tokens") (json_number r.max_tokens) end)))))

unfoldable pub sample_reference : Serde → Value → Result Value
unfolding prompt_ref sample_value
sample_reference c effect = prompt_ref c (txt "sample") effect >>= sample_value

unfoldable pub compact_value : Value → PromptRef → Text → Result Value
compact_value effect r instruction = Result.ok (
    object (
      field (txt "effect") (string (txt "compact_ref")) (
        field (txt "seq_no") (json_number r.seq_no) (
          field (txt "entries") (json_number (count_items r.body - 1)) (
            field (txt "instruction") (string instruction) (
              field (txt "max_tokens") (json_number r.max_tokens) (
                field (txt "range") (or_default null (get (txt "range") effect)) (
                  field (txt "overflow") (or_default (boolean false) (get (txt "overflow") effect))
                    end))))))))

-- The last fragment of the body, if it is an instruction.
last_instruction : PromptRef → Result Text
unfolding instruction_text
last_instruction r =
    if count_items r.body == 0
    then Result.err (bad (txt "compact") (txt "empty body"))
    else ok_or (bad (txt "compact") (txt "last fragment is not the instruction"))
        (last_of r.body (count_items r.body - 1))

-- The reference that stands for a compaction, from the parts of its prompt.
unfoldable pub compact_from : Value → PromptRef → Result Value
unfolding last_instruction compact_value
compact_from effect r = last_instruction r >>= compact_value effect r

unfoldable pub compact_of : Serde → Value → Value → Result Value
unfolding prompt_ref compact_from
compact_of c effect prompt = prompt_ref c (txt "compact") prompt >>= compact_from effect

unfoldable pub compact_reference : Serde → Value → Result Value
unfolding compact_of
compact_reference c effect =
    ok_or (bad (txt "compact") (txt "no prompt")) (get (txt "prompt") effect)
    >>= compact_of c effect

unfoldable pub as_new : Value → Result (Option Value)
as_new e = Result.ok (some e)

-- What takes the place of an issued effect, if anything does.
unfoldable pub new_effect : Serde → Value → Result (Option Value)
unfolding sample_reference compact_reference as_new has_str
new_effect c effect =
    if has_str (txt "effect") effect (txt "sample")
    then (sample_reference c effect >>= as_new)
    else if has_str (txt "effect") effect (txt "compact")
    then (compact_reference c effect >>= as_new)
    else Result.ok none

-- `*effect = new`
abbrev pub put_effect : Value → Value → Value
put_effect (object fs) e = object (put (txt "effect") e fs)
put_effect v e = v

abbrev pub replaced : Value → Option Value → Value
replaced v none = v
replaced v (some e) = put_effect v e

unfoldable pub replacing : Value → Option Value → Result Value
replacing v o = Result.ok (replaced v o)

-- v1 had the whole prompt of a `sample` or a `compact` in `effect_issued`; v2 has a reference.
unfoldable pub v1_to_v2 : Serde → Value → Result Value
unfolding has_str new_effect replacing
v1_to_v2 c v =
    if has_str (txt "type") v (txt "effect_issued")
    then elim (get (txt "effect") v) [
      | none ↦ Result.ok v
      | some effect ↦ new_effect c effect >>= replacing v
    ]
    else Result.ok v

-- `&STEPS[schema..EVENT_SCHEMA]`, one after the other.
unfoldable pub steps_from : Serde → ℕ → Value → Result Value
unfolding v0_to_v1 v1_to_v2
steps_from c zero v = v1_to_v2 c (v0_to_v1 v)
steps_from c (suc zero) v = v1_to_v2 c v
steps_from c _ v = Result.ok v
