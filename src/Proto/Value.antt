-- ===== src/Proto/Value.antt =====
-- `serde_json::Value`, as the proto types carry it. A number is kept as its printed form, an
-- object as its fields in insertion order (the `preserve_order` feature is on).
use peras.Prelude.{Bool, Text}

mutual
  pub data Value : Type 0 where
    null : Value
    boolean : Bool → Value
    number : Text → Value
    string : Text → Value
    array : Items → Value
    object : Fields → Value

  pub data Items : Type 0 where
    nil : Items
    item : Value → Items → Items

  pub data Fields : Type 0 where
    end : Fields
    field : Text → Value → Fields → Fields
