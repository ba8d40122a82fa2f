-- ===== src/Proto/Upgrade/Json.antt =====
-- What crates/proto/src/upgrade.rs calls on JSON values: lookups, insertion and replacement by key.
use peras.Prelude.{ℕ, zero, suc, ◌+◌, Option, none, some, if◌then◌else◌, Text, text_eq}
use peras.Proto.Value.{Value, string, object, Items, nil, item, Fields, end, field}

unfoldable pub field_of : Text → Fields → Option Value
field_of key end = none
field_of key (field k v fs) = if text_eq key k then some v else field_of key fs

-- `v.get(key)`; a value that is not an object has no keys.
unfoldable pub get : Text → Value → Option Value
unfolding field_of
get key (object fs) = field_of key fs
get key _ = none

-- `object[key] = v`: in place, or at the end.
unfoldable pub put : Text → Value → Fields → Fields
put key v end = field key v end
put key v (field k w fs) = if text_eq key k then field k v fs else field k w (put key v fs)

-- `object.entry(key).or_insert(v)`
unfoldable pub or_insert : Text → Value → Fields → Fields
or_insert key v end = field key v end
or_insert key v (field k w fs) =
    if text_eq key k then field k w fs else field k w (or_insert key v fs)

-- `v.as_str()`
abbrev pub as_str : Value → Option Text
as_str (string t) = some t
as_str _ = none

unfoldable pub count_items : Items → ℕ
count_items nil = 0
count_items (item v vs) = count_items vs + 1

unfoldable pub nth_item : Items → ℕ → Option Value
nth_item nil i = none
nth_item (item v vs) zero = some v
nth_item (item v vs) (suc i) = nth_item vs i
