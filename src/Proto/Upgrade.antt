-- ===== src/Proto/Upgrade.antt =====
-- crates/proto/src/upgrade.rs: journal records of older schemas, upgraded when they are read.
pub mod Json
pub mod Steps
pub mod Laws
pub mod Again
use peras.Prelude.{
  ℕ, ◌%◌, inl, inr, Bool, true, false, ltb, Option, none, some, if◌then◌else◌, Text, txt, text_eq,
}
use peras.Proto.Value.{Value, boolean, object}
use peras.Proto.Event.{Event, Envelope, event_schema}
use Json.{get, put}
use Steps.{
  UpgradeError, Result, ◌>>=◌, ok_or, or_malformed, Serde, get_u64, str_field, json_number,
  steps_from,
}

abbrev is_true : Option Value → Bool
is_true (some (boolean b)) = b
is_true _ = false

abbrev or_unknown : Option Text → Text
or_unknown none = txt "?"
or_unknown (some ty) = ty

-- A body that does not decode: skipped if it says that it may be, refused otherwise.
unfoldable pub undecoded : Value → Text → Result (Option Event)
unfolding str_field
undecoded body why =
    let ty = or_unknown (str_field (txt "type") body) in
    if is_true (get (txt "ignorable") body)
    then Result.ok none
    else if text_eq ty (txt "?")
    then Result.err (UpgradeError.malformed why)
    else Result.err (UpgradeError.unknown ty)

unfoldable pub upgrade_body : Serde → ℕ → Value → Result (Option Event)
unfolding steps_from undecoded
upgrade_body c schema body =
    if ltb event_schema schema then Result.err (UpgradeError.too_new schema) else (do
      b ← steps_from c schema body
      elim (c.event_from b) [ inl why ↦ undecoded b why | inr e ↦ Result.ok (some e) ])

-- The envelope with its body and its schema brought up to date.
abbrev upgraded : Value → Value → Value
upgraded (object fs) body =
    object (put (txt "schema") (json_number event_schema) (put (txt "body") body fs))
upgraded v body = v

read_event : Serde → Value → Option Event → Result (Option Envelope)
read_event c raw none = Result.ok none
read_event c raw (some event) = do
  body ← or_malformed (c.event_to event)
  env ← or_malformed (c.envelope_from (upgraded raw body))
  Result.ok (some env)

-- The schema is cut to a u16, and 0 if it is missing.
unfoldable pub schema_of : Serde → Value → ℕ
unfolding get_u64
schema_of c raw = elim (get_u64 c (txt "schema") raw) [ none ↦ 0 | some n ↦ n % 65536 ]

unfoldable pub read_envelope : Serde → Value → Result (Option Envelope)
unfolding upgrade_body read_event schema_of
read_envelope c raw = do
  body ← ok_or (UpgradeError.malformed (txt "no body")) (get (txt "body") raw)
  event ← upgrade_body c (schema_of c raw) body
  read_event c raw event
