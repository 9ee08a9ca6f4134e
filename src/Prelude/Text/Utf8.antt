-- ===== src/Prelude/Text/Utf8.antt =====
-- Which byte sequences are UTF-8, and which texts are white space, as Rust's `str` has it.
use Prim.Native.Nat.{ℕ, zero, suc}
use mathlib.Core.Bool.{Bool, true, false, ◌&&◌, ◌||◌}
use mathlib.Core.List.{List, [], ◌∷◌}
use lapas.Prelude.Tests.{leb, ◌==◌, if◌then◌else◌}

abbrev within : ℕ → ℕ → ℕ → Bool
within lo hi b = leb lo b && leb b hi

-- A continuation byte.
abbrev cont : ℕ → Bool
cont b = within 0x80 0xbf b

-- The well-formed sequences of two, three and four bytes.
abbrev two : ℕ → ℕ → Bool
two a b = within 0xc2 0xdf a && cont b

abbrev three : ℕ → ℕ → ℕ → Bool
three a b c =
    ((a == 0xe0 && within 0xa0 0xbf b)
      || (within 0xe1 0xec a && cont b)
      || (a == 0xed && within 0x80 0x9f b)
      || (within 0xee 0xef a && cont b))
    && cont c

abbrev four : ℕ → ℕ → ℕ → ℕ → Bool
four a b c d =
    ((a == 0xf0 && within 0x90 0xbf b)
      || (within 0xf1 0xf3 a && cont b)
      || (a == 0xf4 && within 0x80 0x8f b))
    && (cont c && cont d)

-- The length of the character that the text begins with, and 0 where none is well formed.
char_len : List ℕ → ℕ
char_len [] = 0
char_len (a ∷ []) = if leb a 0x7f then 1 else 0
char_len (a ∷ b ∷ []) = if leb a 0x7f then 1 else if two a b then 2 else 0
char_len (a ∷ b ∷ c ∷ []) =
    if leb a 0x7f then 1 else if two a b then 2 else if three a b c then 3 else 0
char_len (a ∷ b ∷ c ∷ d ∷ s) =
    if leb a 0x7f
    then 1
    else if two a b
    then 2
    else if three a b c
    then 3
    else if four a b c d
    then 4
    else 0

-- `passed` bytes of the present character are still to be passed.
utf8_from : ℕ → List ℕ → Bool
unfolding char_len
utf8_from passed [] = true
utf8_from (suc passed) (a ∷ s) = utf8_from passed s
utf8_from zero (a ∷ s) = elim (char_len (a ∷ s)) [ zero ↦ false | suc k ↦ utf8_from k s ]

-- `String::from_utf8` succeeds.
unfoldable pub is_utf8 : List ℕ → Bool
unfolding utf8_from
is_utf8 s = utf8_from 0 s

-- The characters of White_Space, by the length of their encoding.
abbrev space_one : ℕ → Bool
space_one a = within 9 13 a || a == 32

abbrev space_two : ℕ → ℕ → Bool
space_two a b = a == 0xc2 && (b == 0x85 || b == 0xa0)

abbrev space_three : ℕ → ℕ → ℕ → Bool
space_three a b c =
    (a == 0xe1 && b == 0x9a && c == 0x80)
    || (a == 0xe2 && b == 0x80 && (within 0x80 0x8a c || c == 0xa8 || c == 0xa9 || c == 0xaf))
    || (a == 0xe2 && b == 0x81 && c == 0x9f)
    || (a == 0xe3 && b == 0x80 && c == 0x80)

-- The length of the white space character that the text begins with, and 0 where there is none.
space_len : List ℕ → ℕ
space_len [] = 0
space_len (a ∷ []) = if space_one a then 1 else 0
space_len (a ∷ b ∷ []) = if space_one a then 1 else if space_two a b then 2 else 0
space_len (a ∷ b ∷ c ∷ s) =
    if space_one a then 1 else if space_two a b then 2 else if space_three a b c then 3 else 0

blank_from : ℕ → List ℕ → Bool
unfolding space_len
blank_from passed [] = true
blank_from (suc passed) (a ∷ s) = blank_from passed s
blank_from zero (a ∷ s) = elim (space_len (a ∷ s)) [ zero ↦ false | suc k ↦ blank_from k s ]

-- `s.trim() == ""`: the text is all white space.
unfoldable pub is_blank : List ℕ → Bool
unfolding blank_from
is_blank s = blank_from 0 s
