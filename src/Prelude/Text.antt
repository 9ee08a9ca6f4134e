-- ===== src/Prelude/Text.antt =====
-- Rust strings as their UTF-8 bytes, and what the code uses of `str`, `BufRead` and `Path`.
pub mod Laws
pub mod Utf8
use Prim.Native.Char.{code}
use Prim.Native.String.{String}
use Prim.Native.Nat.{ℕ, zero, suc, ◌-◌}
use mathlib.Core.Bool.{Bool, true, false, ◌&&◌, ◌||◌}
use mathlib.Core.Option.{Option, none, some}
use mathlib.Core.List.{List, [], ◌∷◌, ◌++◌, map}
use lapas.Prelude.Tests.{leb, ◌==◌, if◌then◌else◌}
use lapas.Prelude.Lists.{length}

-- The bytes of a `str` or a `String`.
abbrev pub Str : Type 0
Str = List ℕ

-- The bytes of an ASCII literal.
abbrev pub codes : String → Str
codes String.[] = []
codes (String.◌∷◌ c s) = code c ∷ codes s

-- `==` on strings.
unfoldable pub str_eq : Str → Str → Bool
str_eq [] [] = true
str_eq (a ∷ s) (b ∷ t) = a == b && str_eq s t
str_eq [] (b ∷ t) = false
str_eq (a ∷ s) [] = false

-- `s.starts_with(p)`.
unfoldable pub starts_with : Str → Str → Bool
starts_with s [] = true
starts_with [] (c ∷ p) = false
starts_with (a ∷ s) (c ∷ p) = a == c && starts_with s p

-- `s.contains(p)`.
unfoldable pub contains : Str → Str → Bool
unfolding starts_with
contains [] p = starts_with [] p
contains (a ∷ s) p = starts_with (a ∷ s) p || contains s p

-- A byte in front of the first part of a split.
abbrev pub onto_first : ℕ → List Str → List Str
onto_first a [] = (a ∷ []) ∷ []
onto_first a (w ∷ ws) = (a ∷ w) ∷ ws

-- `s.split(c)` for an ASCII character: always at least one part.
unfoldable pub split : ℕ → Str → List Str
split c [] = [] ∷ []
split c (a ∷ s) = let rest = split c s in if a == c then [] ∷ rest else onto_first a rest

-- The parts with the separator between them.
unfoldable pub join : ℕ → List Str → Str
join c [] = []
join c (w ∷ []) = w
join c (w ∷ v ∷ ws) = w ++ (c ∷ join c (v ∷ ws))

abbrev pub past : ℕ → Option (Str × Str) → Option (Str × Str)
past a none = none
past a (some (front, back)) = some (a ∷ front, back)

-- The text before and behind the first occurrence of a byte.
unfoldable pub split_once : ℕ → Str → Option (Str × Str)
split_once c [] = none
split_once c (a ∷ s) = let rest = split_once c s in if a == c then some ([], s) else past a rest

-- `s.splitn(n, c)`: at most `n` parts, the last with what remains.
unfoldable pub splitn : ℕ → ℕ → Str → List Str
unfolding split_once
splitn zero c s = []
splitn (suc zero) c s = s ∷ []
splitn (suc (suc n)) c s = elim (split_once c s) [
  | none ↦ s ∷ []
  | some (front, back) ↦ front ∷ splitn (suc n) c back
]

-- `s.replace(p, r)` for a pattern that is not empty; `skip` bytes of a match are still to be passed.
unfoldable pub replace_from : Str → Str → ℕ → Str → Str
unfolding starts_with
replace_from p r skip [] = []
replace_from p r (suc skip) (a ∷ s) = replace_from p r skip s
replace_from p r zero (a ∷ s) = elim (starts_with (a ∷ s) p) [
  | true ↦ r ++ replace_from p r (length p - 1) s
  | false ↦ a ∷ replace_from p r zero s
]

unfoldable pub replace : Str → Str → Str → Str
unfolding replace_from
replace p r s = replace_from p r zero s

-- `s.ends_with(p)` for a pattern of one byte.
unfoldable pub ends_with : ℕ → Str → Bool
ends_with c [] = false
ends_with c (a ∷ []) = a == c
ends_with c (a ∷ b ∷ s) = ends_with c (b ∷ s)

-- The text without its last byte.
unfoldable pub drop_last : Str → Str
drop_last [] = []
drop_last (a ∷ []) = []
drop_last (a ∷ b ∷ s) = a ∷ drop_last (b ∷ s)

-- A line without the carriage return that may end it.
abbrev pub strip_return : Str → Str
strip_return s = if ends_with 13 s then drop_last s else s

-- The lines of the parts between line feeds: a carriage return in front of a line feed is no part of
-- the line, and an empty part at the end is no line.
abbrev pub finished : List Str → List Str
finished [] = []
finished ([] ∷ []) = []
finished ((c ∷ w) ∷ []) = (c ∷ w) ∷ []
finished (w ∷ v ∷ ws) = strip_return w ∷ finished (v ∷ ws)

-- `BufRead::lines`.
unfoldable pub lines : Str → List Str
unfolding split ends_with drop_last
lines s = finished (split 10 s)
