-- ===== src/KeepEngine/Tests/Globs.antt =====
-- A regex crate for the tests: it escapes and matches the texts that `from_pattern` builds, with
-- `[^/]*` and `[^/]+` as the only repetitions.
use lapas.Prelude.{
  ℕ, zero, suc, ok, Option, none, some, Bool, true, false, not, ◌&&◌, ◌||◌, List, [], ◌∷◌,
  if◌then◌else◌, ◌==◌,
}
use lapas.Prelude.Text.{Str, codes, starts_with, contains}
use lapas.KeepEngine.Nodes.{RegexCrate}

pub data Token : Type 0 where
  char : ℕ → Token
  many some_more : Token

is_meta : ℕ → Bool
unfolding contains starts_with
is_meta c = contains (codes "\\.+*?()|[]{}^$#&-~") (c ∷ [])

escape_all : Str → Str
unfolding is_meta
escape_all [] = []
escape_all (c ∷ s) =
    let rest = escape_all s in
    let quoted : Str = b'\\' ∷ c ∷ rest in
    let plain : Str = c ∷ rest in if is_meta c then quoted else plain

-- The token that a regex text begins with, and how many bytes it has behind its first.
first_token : Str → Option Token × ℕ
unfolding starts_with
first_token [] = (none, 0)
first_token (c ∷ []) = if c == b'$' then (none, 0) else (some (char c), 0)
first_token (c ∷ d ∷ s) =
    if c == b'^'
    then (none, 0)
    else if c == b'\\'
    then (some (char d), 1)
    else if starts_with (c ∷ d ∷ s) (codes "[^/]*")
    then (some many, 4)
    else if starts_with (c ∷ d ∷ s) (codes "[^/]+")
    then (some some_more, 4)
    else (some (char c), 0)

tokens : ℕ → Str → List Token
unfolding first_token
tokens skip [] = []
tokens (suc skip) (c ∷ s) = tokens skip s
tokens zero (c ∷ s) =
    let (found, behind) = first_token (c ∷ s) in
    elim found [ none ↦ tokens behind s | some t ↦ t ∷ tokens behind s ]

any_suffix : (Str → Bool) → Str → Bool
any_suffix p [] = p []
any_suffix p (c ∷ s) = p (c ∷ s) || (not (c == b'/') && any_suffix p s)

matches : List Token → Str → Bool
unfolding any_suffix
matches [] [] = true
matches [] (d ∷ s) = false
matches (char c ∷ ts) [] = false
matches (char c ∷ ts) (d ∷ s) = c == d && matches ts s
matches (many ∷ ts) s = any_suffix (matches ts) s
matches (some_more ∷ ts) [] = false
matches (some_more ∷ ts) (d ∷ s) = not (d == b'/') && any_suffix (matches ts) s

unfoldable pub globs : RegexCrate
unfolding escape_all tokens matches
globs = record {
  Regex = List Token;
  new = λ text. ok (tokens 0 text);
  is_match = λ re s. matches re s;
  escape = escape_all;
}
