-- ===== src/Nss/Password.antt =====
-- What `get_api_password` finds in the environment file.
use lapas.Prelude.{
  ◌≡◌, ◌-◌, refl, true, false, List, [], ◌∷◌, ◌++◌, length, leb, All, ok, panic, arith,
  length-append, take_append, ℕ, ◌+◌,
}
use lapas.Prelude.Text.{Str, starts_with, ends_with, lines}
use lapas.Prelude.Text.Utf8.{is_utf8}
use lapas.Prelude.Text.Laws.{ends_with-append}
use lapas.Nss.Api.{slice, key, is_password_line, find_password, get_api_password}

abbrev quote : Str
quote = b'"' ∷ []

-- A line that the loop passes over.
abbrev pub IsPassed : Str → Type 0
IsPassed line = (is_utf8 line ≡ true) × (is_password_line line ≡ false)

find_password-append :
    (before : List Str) (line : Str) (after : List Str)
    → All IsPassed before
    → is_utf8 line ≡ true
    → is_password_line line ≡ true
    → find_password (before ++ (line ∷ after)) ≡ slice 14 (length line - 1) line
unfolding find_password
find_password-append [] line after h u p = rw (u, p)
find_password-append (b ∷ before) line after ((v, q), h) u p =
    rw (v, q) (find_password-append before line after h u p)

assigned : (pw : Str) → is_password_line (key ++ (pw ++ quote)) ≡ true
unfolding is_password_line starts_with ends_with
assigned pw = rw (ends_with-append b'"' (key ++ pw))

slice_upto : (pw : Str) (m : ℕ) → m ≡ 14 + length pw → slice 14 m (key ++ (pw ++ quote)) ≡ ok pw
unfolding slice
slice_upto pw m e =
    let total : length (key ++ (pw ++ quote)) ≡ 15 + length pw =
      omega (arith, length-append pw quote) in
    let low : leb 14 m ≡ true = ground arith in
    let high : leb m (length (key ++ (pw ++ quote))) ≡ true = ground arith in
    let part : m - 14 ≡ length pw = omega arith in rw (low, high, part, take_append pw quote)

slice_password :
    (pw : Str) → slice 14 (length (key ++ (pw ++ quote)) - 1) (key ++ (pw ++ quote)) ≡ ok pw
slice_password pw = slice_upto pw _ (omega (arith, length-append pw quote))

-- The first line that begins with `API_PASSWORD="`, ends with a quotation mark and has both: the
-- password is what stands between, whatever it contains. The lines before and this one are UTF-8.
pub get_api_password-found :
    (content pw : Str) (before after : List Str)
    → lines content ≡ before ++ ((key ++ (pw ++ quote)) ∷ after)
    → All IsPassed before
    → is_utf8 (key ++ (pw ++ quote)) ≡ true
    → get_api_password (ok content) ≡ ok pw
unfolding get_api_password
get_api_password-found content pw before after e h u =
    rw (e, find_password-append before _ after h u (assigned pw)) (slice_password pw)

-- Where the first such line is `API_PASSWORD="` with nothing behind, the library panics.
pub get_api_password-panics :
    (content : Str) (before after : List Str)
    → lines content ≡ before ++ (key ∷ after)
    → All IsPassed before
    → get_api_password (ok content) ≡ panic
unfolding get_api_password is_password_line slice is_utf8
get_api_password-panics content before after e h =
    rw (e, find_password-append before key after h refl refl)
