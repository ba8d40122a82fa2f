-- ===== src/Proto/Equality.antt =====
-- The derived `PartialEq` of the records of model.rs and tool.rs that the kernel compares, and that
-- of `serde_json::Value`.
use peras.Prelude.{
  ℕ, suc, Bool, true, false, ◌&&◌, ◌==◌, Option, none, some, List, [], ◌∷◌, Text, txt, text_eq,
  if◌then◌else◌,
}
use peras.Proto.Resource.{class_eq}
use peras.Proto.Value.{
  Value, null, boolean, number, string, array, object, Items, nil, item, Fields, end, field,
}
use peras.Proto.Model.{RenderProfile, ToolSpec}

abbrev pub bool_eq : Bool → Bool → Bool
bool_eq true b = b
bool_eq false true = false
bool_eq false false = true

-- The two zeros of a float are equal.
number_eq : Text → Text → Bool
number_eq a b =
    let same_zero = λ (n : Text). if text_eq n (txt "-0.0") then txt "0.0" else n in
    text_eq (same_zero a) (same_zero b)

find_field : Text → Fields → Option Value
find_field key end = none
find_field key (field k v fs) = if text_eq k key then some v else find_field key fs

count_fields : Fields → ℕ
count_fields end = 0
count_fields (field k v fs) = suc (count_fields fs)

-- Two objects are equal if they hold the same fields, in any order.
unfoldable mutual
  unfolding number_eq find_field count_fields

  pub value_eq : Value → Value → Bool
  value_eq null null = true
  value_eq (boolean a) (boolean b) = bool_eq a b
  value_eq (number a) (number b) = number_eq a b
  value_eq (string a) (string b) = text_eq a b
  value_eq (array a) (array b) = items_eq a b
  value_eq (object a) (object b) = count_fields a == count_fields b && fields_in a b
  value_eq _ _ = false

  pub items_eq : Items → Items → Bool
  items_eq nil nil = true
  items_eq (item a us) (item b vs) = value_eq a b && items_eq us vs
  items_eq _ _ = false

  pub fields_in : Fields → Fields → Bool
  fields_in end gs = true
  fields_in (field k v fs) gs =
      elim (find_field k gs) [ none ↦ false | some w ↦ value_eq v w ] && fields_in fs gs

unfoldable pub texts_eq : List Text → List Text → Bool
texts_eq [] [] = true
texts_eq (a ∷ us) (b ∷ vs) = text_eq a b && texts_eq us vs
texts_eq _ _ = false

unfoldable pub profile_eq : RenderProfile → RenderProfile → Bool
profile_eq a b =
    text_eq a.name b.name
    && bool_eq a.mid_sequence_system b.mid_sequence_system
    && a.inline_limit_bytes == b.inline_limit_bytes
    && a.preview_bytes == b.preview_bytes
    && text_eq a.data_warning b.data_warning

unfoldable pub spec_eq : ToolSpec → ToolSpec → Bool
unfolding value_eq
spec_eq a b =
    text_eq a.name b.name
    && text_eq a.description b.description
    && value_eq a.input_schema b.input_schema
    && class_eq a.class b.class
    && bool_eq a.subagent b.subagent

unfoldable pub specs_eq : List ToolSpec → List ToolSpec → Bool
unfolding spec_eq
specs_eq [] [] = true
specs_eq (a ∷ us) (b ∷ vs) = spec_eq a b && specs_eq us vs
specs_eq _ _ = false
