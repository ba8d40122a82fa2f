-- ===== src/Kernel/Gate/Canonical.antt =====
-- `canonical`, `call_key`, `call_summary` and the question ids of gate.rs.
use peras.Prelude.{
  ℕ, zero, suc, ◌-◌, Bool, true, not, ◌&&◌, none, some, List, [], ◌∷◌, ◌++◌, ltb, leb,
  if◌then◌else◌, Text, txt, text_lt, decimal, join, get_elem?, take, length, starts_with, ends_with,
}
use peras.Proto.Value.{
  Value, null, boolean, number, string, array, object, Items, nil, item, Fields, end, field,
}
use peras.Proto.Envelope.{CallId, QuestionId}
use peras.Proto.Verdict.{ToolCall}
use peras.Kernel.Data.{Externals}

-- One field of an object, its value already printed.
abbrev pub Printed : Type 0
Printed = Text × Text

-- `keys.sort()`: an insertion by the byte order of the keys.
unfoldable pub insert_key : Printed → List Printed → List Printed
insert_key p [] = p ∷ []
insert_key p (q ∷ qs) =
    let later = insert_key p qs in if text_lt q.0 p.0 then q ∷ later else p ∷ q ∷ qs

unfoldable pub sort_keys : List Printed → List Printed
unfolding insert_key
sort_keys [] = []
sort_keys (p ∷ ps) = insert_key p (sort_keys ps)

module _ (x : Externals) where
  unfoldable pub print_fields : List Printed → Text
  print_fields [] = []
  print_fields ((k, v) ∷ []) = x.to_json (string k) ++ (txt ":" ++ v)
  print_fields ((k, v) ∷ q ∷ qs) =
      x.to_json (string k) ++ (txt ":" ++ (v ++ (txt "," ++ print_fields (q ∷ qs))))

unfoldable mutual
  pub canonical : Externals → Value → Text
  canonical x null = x.to_json null
  canonical x (boolean b) = x.to_json (boolean b)
  canonical x (number n) = x.to_json (number n)
  canonical x (string s) = x.to_json (string s)
  canonical x (array vs) = txt "[" ++ (join (txt ",") (canonical_items x vs) ++ txt "]")
  canonical x (object fs) =
      txt "{" ++ (print_fields x (sort_keys (canonical_fields x fs)) ++ txt "}")

  pub canonical_items : Externals → Items → List Text
  canonical_items x nil = []
  canonical_items x (item v vs) = canonical x v ∷ canonical_items x vs

  pub canonical_fields : Externals → Fields → List Printed
  canonical_fields x end = []
  canonical_fields x (field k v fs) = (k, canonical x v) ∷ canonical_fields x fs

unfoldable pub call_key : Externals → ToolCall → Text
call_key x c = c.name ++ (0 ∷ canonical x c.input)

-- `SUMMARY_BYTES`
abbrev pub summary_bytes : ℕ
summary_bytes = 80

-- `s.is_char_boundary(n)` of UTF-8 text: byte `n` does not continue a character.
unfoldable pub is_boundary : Text → ℕ → Bool
is_boundary s n = elim (get_elem? s n) [ none ↦ true | some b ↦ not (leb 128 b && ltb b 192) ]

-- `while !input.is_char_boundary(end) { end -= 1; }`
unfoldable pub cut_end : Text → ℕ → ℕ
cut_end s zero = zero
cut_end s (suc n) = let less = cut_end s n in if is_boundary s (suc n) then suc n else less

unfoldable pub call_summary : Externals → ToolCall → Text
call_summary x c =
    let input = canonical x c.input in
    if leb (length input) summary_bytes
    then c.name ++ (txt " " ++ input)
    else c.name ++ (txt " " ++ (take (cut_end input summary_bytes) input ++ txt "..."))

unfoldable pub question_id : CallId → ℕ → QuestionId
question_id call rewrites = txt "q:" ++ (call ++ (txt ":" ++ decimal rewrites))

unfoldable pub changes_question_id : CallId → QuestionId
changes_question_id call = txt "q:" ++ (call ++ txt ":changes")

unfoldable pub is_changes_question : QuestionId → Bool
is_changes_question id = starts_with id (txt "q:") && ends_with id (txt ":changes")

-- `LISTED_CHANGES`
abbrev pub listed_changes : ℕ
listed_changes = 20

unfoldable pub list_paths : List Text → Text
list_paths paths =
    let s = join (txt ", ") (take listed_changes paths) in
    if ltb listed_changes (length paths)
    then s ++ (txt " and " ++ (decimal (length paths - listed_changes) ++ txt " more"))
    else s
