-- ===== src/Prelude/Spaces.antt =====
-- `str::trim` on UTF-8 text: the Unicode white space at both ends is dropped.
use Prim.Native.Nat.{ℕ, zero, suc}
use mathlib.Core.Bool.{Bool, true, false, ◌&&◌, ◌||◌}
use mathlib.Core.List.{List, [], ◌∷◌, ◌++◌, reverse}
use peras.Prelude.Tests.{◌==◌, leb, if◌then◌else◌}
use peras.Prelude.Lists.{length}
use peras.Prelude.Texts.{Text}

-- White space of one, two and three bytes.
space_1 : ℕ → Bool
space_1 a = (leb 9 a && leb a 13) || a == 32

space_2 : ℕ → ℕ → Bool
space_2 a b = a == 0xC2 && (b == 0x85 || b == 0xA0)

space_3 : ℕ → ℕ → ℕ → Bool
space_3 a b c =
    (a == 0xE1 && (b == 0x9A && c == 0x80))
    || ((a == 0xE2
          && ((b == 0x80 && ((leb 0x80 c && leb c 0x8A) || (c == 0xA8 || (c == 0xA9 || c == 0xAF))))
              || (b == 0x81 && c == 0x9F)))
        || (a == 0xE3 && (b == 0x80 && c == 0x80)))

-- The length of the white space that a text starts with, the last bytes first if `back`.
space_width : Bool → Text → ℕ
unfolding space_1 space_2 space_3
space_width back [] = 0
space_width back (a ∷ []) = if space_1 a then 1 else 0
space_width back (a ∷ b ∷ []) =
    if space_1 a then 1 else if (if back then space_2 b a else space_2 a b) then 2 else 0
space_width back (a ∷ b ∷ c ∷ s) =
    if space_1 a
    then 1
    else if (if back then space_2 b a else space_2 a b)
    then 2
    else if (if back then space_3 c b a else space_3 a b c)
    then 3
    else 0

cut : ℕ → Text → Text
cut zero s = s
cut (suc n) [] = []
cut (suc n) (c ∷ s) = cut n s

drop_spaces : ℕ → Bool → Text → Text
unfolding space_width cut
drop_spaces zero back s = s
drop_spaces (suc fuel) back s = elim (space_width back s) [
  | zero ↦ s
  | suc n ↦ drop_spaces fuel back (cut (suc n) s)
]

unfoldable pub trim : Text → Text
unfolding drop_spaces
trim s =
    let front = drop_spaces (length s) false s in
    reverse (drop_spaces (length s) true (reverse front))

-- The pieces of a text, one after the other, as `format!` puts them.
unfoldable pub glue : List Text → Text
glue [] = []
glue (t ∷ ts) = t ++ glue ts
