-- ===== src/Server/Config/Reads.antt =====
-- What the server reads from a configuration file of assignments.
use lapas.Prelude.{
  append_assoc, ◌≡◌, refl, ◌-◌, true, false, List, [], ◌∷◌, ◌++◌, map, length, ltb, All, ok, ◌>>=◌,
  arith, length-append, take_append,
}
use lapas.Prelude.Text.{lines, ends_with, Str, codes, str_eq, starts_with}
use lapas.Prelude.Text.Laws.{
  IsLine, text_of, lines-text_of, Lacks, splitn_two, ends_with-append, str_eq_refl, ends_with_other,
}
use lapas.Prelude.Text.Utf8.{is_utf8}
use lapas.Server.State.{Config, config_get}
use lapas.Server.Config.{unquoted, insert_parts, read_line, read_lines}

abbrev quote : Str
quote = b'"' ∷ []

-- `key="value"`, the quoted form of a line.
abbrev pub assignment : Str × Str → Str
assignment (key, value) = key ++ (b'=' ∷ b'"' ∷ (value ++ quote))

-- A key that can be read back, on one line of UTF-8.
pub record IsAssignment (a : Str × Str) : Type 0 where
  pub key : Lacks b'=' a.0
  pub comment : starts_with a.0 (codes "#") ≡ false
  pub text : is_utf8 (assignment a) ≡ true
  pub line : Lacks 10 (assignment a)

unquoted_lem : (value : Str) → unquoted (b'"' ∷ (value ++ quote)) ≡ value
unfolding unquoted starts_with
unquoted_lem value =
    let long : ltb 1 (length (b'"' ∷ (value ++ quote))) ≡ true =
      ground (arith, length-append value quote) in
    let part : length (b'"' ∷ (value ++ quote)) - 1 - 1 ≡ length value =
      omega (arith, length-append value quote) in
    rw (long, ends_with-append b'"' (b'"' ∷ value), part, take_append value quote)

comment_free :
    (key rest : Str)
    → starts_with key (codes "#") ≡ false
    → starts_with (key ++ (b'=' ∷ rest)) (codes "#") ≡ false
unfolding starts_with
comment_free [] rest h = refl
comment_free (a ∷ key) rest h = h

read_line-assignment :
    (config : Config) (a : Str × Str)
    → IsAssignment a
    → read_line config (assignment a) ≡ ok (a ∷ config)
unfolding read_line insert_parts
read_line-assignment config (key, value) h =
    rw (comment_free key _ h.comment, splitn_two b'=' key _ h.key, unquoted_lem value)

-- The later assignments stand in front.
abbrev onto : Config → List (Str × Str) → Config
onto config [] = config
onto config (a ∷ rest) = onto (a ∷ config) rest

-- No assignment of the list is to this key.
abbrev pub IsFree : Str → List (Str × Str) → Type 0
IsFree key after = All (λ a. str_eq a.0 key ≡ false) after

read_lines-assignments :
    (config : Config) (as_read : List (Str × Str))
    → All IsAssignment as_read
    → read_lines config (map assignment as_read) ≡ ok (onto config as_read)
unfolding read_lines
read_lines-assignments config [] h = refl
read_lines-assignments config (a ∷ rest) (h, hs) =
    rw (h.text, read_line-assignment config a h) (read_lines-assignments (a ∷ config) rest hs)

config_get-onto :
    (key value : Str) (config : Config) (after : List (Str × Str))
    → config_get key config ≡ ok value
    → IsFree key after
    → config_get key (onto config after) ≡ ok value
unfolding config_get
config_get-onto key value config [] e h = e
config_get-onto key value config ((k, v) ∷ rest) e (h, hs) =
    config_get-onto key value ((k, v) ∷ config) rest (rw h e) hs

onto-append :
    (config : Config) (before after : List (Str × Str))
    → onto config (before ++ after) ≡ onto (onto config before) after
onto-append config [] after = refl
onto-append config (a ∷ before) after = onto-append (a ∷ config) before after

assignment-ends : (a : Str × Str) → ends_with 13 (assignment a) ≡ false
assignment-ends (key, value) =
    rw⁻¹ (append_assoc key (b'=' ∷ b'"' ∷ value) quote)
      (ends_with_other 13 b'"' (key ++ (b'=' ∷ b'"' ∷ value)) refl)

lines-assignments :
    (as_read : List (Str × Str))
    → All IsAssignment as_read
    → lines (text_of (map assignment as_read)) ≡ map assignment as_read
lines-assignments as_read h = lines-text_of (map assignment as_read) (each as_read h)
  where
    each :
        (as_read : List (Str × Str))
        → All IsAssignment as_read
        → All IsLine (map assignment as_read)
    each [] h = tt
    each (a ∷ rest) (h, hs) = ((h.line, assignment-ends a), each rest hs)

-- From the text of a file of lines `key="value"`, each of them UTF-8 and ended by a line feed, with
-- keys that hold no `=` and begin with no `#`, and no line feed in keys and values: a key has the
-- value of its last assignment, whatever other characters the value holds.
pub config_get-read_lines :
    (key value : Str) (before after : List (Str × Str))
    → All IsAssignment (before ++ ((key, value) ∷ after))
    → IsFree key after
    → (read_lines [] (lines (text_of (map assignment (before ++ ((key, value) ∷ after)))))
        >>= config_get key)
      ≡ ok value
unfolding config_get
config_get-read_lines key value before after h free =
    let as_read = before ++ ((key, value) ∷ after) in
    rw (lines-assignments as_read h, read_lines-assignments [] as_read h, onto-append [] before)
      (config_get-onto key value ((key, value) ∷ onto [] before) after (rw (str_eq_refl key)) free)
