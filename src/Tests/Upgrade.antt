-- ===== src/Tests/Upgrade.antt =====
-- An old journal record, read by crates/proto/src/upgrade.rs.
use peras.Prelude.{
  ℕ, ◌+◌, ◌*◌, ◌-◌, ◌≡◌, refl, arith, inl, false, Option, some, [], ◌∷◌, Text, txt, text_eq,
  decimal,
}
use peras.Proto.Value.{Value, object, array, string, number, boolean, null, field, end, item, nil}
use peras.Proto.Upgrade.Json.{get, put, nth_item, count_items}
use peras.Proto.Upgrade.Steps.{Result, Serde, steps_from}
use peras.Proto.Upgrade.Again.{steps_from-again}

read_digits : ℕ → Text → ℕ
read_digits n [] = n
read_digits n (c ∷ cs) = read_digits (n * 10 + (c - 48)) cs

abbrev as_digits : Text → Option ℕ
as_digits t = some (read_digits 0 t)

-- Numbers are read as their digits, and nothing decodes.
abbrev digits : Serde
digits = record {
  as_u64 = as_digits;
  event_from = λ v. inl [];
  event_to = λ e. inl [];
  envelope_from = λ v. inl [];
}

abbrev instruction : Value
instruction = object (
    field (txt "role") (string (txt "user")) (
      field (txt "blocks")
        (array (
          item
            (object (
              field (txt "type") (string (txt "text"))
                (field (txt "text") (string (txt "go")) end)))
            nil))
        end))

abbrev prompt : Value
prompt = object (
    field (txt "head") (object (field (txt "seq_no") (number (txt "3")) end)) (
      field (txt "body") (array (item null (item instruction nil)))
        (field (txt "max_tokens") (number (txt "50")) end)))

abbrev old_record : Value
old_record = object (
    field (txt "type") (string (txt "effect_issued")) (
      field (txt "effect")
        (object (field (txt "effect") (string (txt "compact")) (field (txt "prompt") prompt end)))
        end))

abbrev new_record : Value
new_record = object (
    field (txt "type") (string (txt "effect_issued")) (
      field (txt "effect")
        (object (
          field (txt "effect") (string (txt "compact_ref")) (
            field (txt "seq_no") (number (txt "3")) (
              field (txt "entries") (number (txt "1")) (
                field (txt "instruction") (string (txt "go")) (
                  field (txt "max_tokens") (number (txt "50"))
                    (field (txt "range") null (field (txt "overflow") (boolean false) end))))))))
        end))

steps_from-again_example : steps_from digits 1 new_record ≡ Result.ok new_record
unfolding steps_from read_digits txt text_eq decimal get count_items nth_item put
steps_from-again_example = steps_from-again digits 1 1 old_record new_record (omega arith) refl
