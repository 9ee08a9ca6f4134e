-- ===== src/Prelude/Text/Laws.antt =====
-- Laws of the text functions.
use Prim.Native.Nat.{ℕ}
use mathlib.Core.Path.{◌≡◌, refl, ap, ◌∙◌}
use mathlib.Core.Logic.{◌↔◌, ◌≢◌}
use mathlib.Core.Bool.{true}
use mathlib.Core.List.{List, [], ◌∷◌, ◌++◌}
use native.Mathlib.Omega.{arith}
use lapas.Prelude.Lists.{All}
use lapas.Prelude.Text.{
  lines, finished, Str, str_eq, split, join, onto_first, split_once, ends_with, some, splitn, ◌==◌,
  false,
}

pub str_eq→eq : (s t : Str) → str_eq s t ≡ true → s ≡ t
unfolding str_eq
str_eq→eq [] [] h = refl
str_eq→eq [] (b ∷ t) h = cc
str_eq→eq (a ∷ s) [] h = cc
str_eq→eq (a ∷ s) (b ∷ t) h = ground (arith, str_eq→eq s t)

pub str_eq_refl : (s : Str) → str_eq s s ≡ true
unfolding str_eq
str_eq_refl [] = refl
str_eq_refl (a ∷ s) = ground (arith, str_eq_refl s)

pub eq_iff : (s t : Str) → (str_eq s t ≡ true) ↔ (s ≡ t)
eq_iff s t = (str_eq→eq s t, λ e. rw e (str_eq_refl t))

-- No byte of the text is the separator.
abbrev pub Lacks : ℕ → Str → Type 0
Lacks c s = All (λ a. a ≢ c) s

split_part : (c : ℕ) (w : Str) → Lacks c w → split c w ≡ w ∷ []
unfolding split
split_part c [] h = refl
split_part c (a ∷ w) (h, hs) = ground (arith, split_part c w hs)

split-append : (c : ℕ) (w s : Str) → Lacks c w → split c (w ++ (c ∷ s)) ≡ w ∷ split c s
unfolding split
split-append c [] s h = ground arith
split-append c (a ∷ w) s (h, hs) = ground (arith, split-append c w s hs)

-- Parts that lack the separator survive being joined and split again.
pub split-join :
    (c : ℕ) (w : Str) (ws : List Str) → All (Lacks c) (w ∷ ws) → split c (join c (w ∷ ws)) ≡ w ∷ ws
unfolding join
split-join c w [] (h, _) = split_part c w h
split-join c w (v ∷ ws) (h, hs) =
    split-append c w (join c (v ∷ ws)) h ∙ ap (λ r. w ∷ r) (split-join c v ws hs)

pub split-ne-nil : (c : ℕ) (s : Str) → split c s ≢ []
unfolding split
split-ne-nil c [] h = cc
split-ne-nil c (a ∷ s) h = ground (arith, split-ne-nil c s)

onto_first-append :
    (a : ℕ) (ws vs : List Str) → ws ≢ [] → onto_first a (ws ++ vs) ≡ onto_first a ws ++ vs
onto_first-append a [] vs h = absurd (h refl)
onto_first-append a (w ∷ ws) vs h = refl

-- A separator splits a text into the parts before it and the parts behind it.
pub split_both : (c : ℕ) (s t : Str) → split c (s ++ (c ∷ t)) ≡ split c s ++ split c t
unfolding split
split_both c [] t = ground arith
split_both c (a ∷ s) t =
    rw (split_both c s t)
      (ground (arith, onto_first-append a (split c s) (split c t) (split-ne-nil c s)))

-- The text before the first separator.
pub split_once_lem : (c : ℕ) (w s : Str) → Lacks c w → split_once c (w ++ (c ∷ s)) ≡ some (w, s)
unfolding split_once
split_once_lem c [] s h = ground arith
split_once_lem c (a ∷ w) s (h, hs) = ground (arith, split_once_lem c w s hs)

pub ends_with-append : (c : ℕ) (s : Str) → ends_with c (s ++ (c ∷ [])) ≡ true
unfolding ends_with
ends_with-append c [] = ground arith
ends_with-append c (a ∷ []) = ground arith
ends_with-append c (a ∷ b ∷ s) = ends_with-append c (b ∷ s)

pub splitn_two : (c : ℕ) (w s : Str) → Lacks c w → splitn 2 c (w ++ (c ∷ s)) ≡ w ∷ s ∷ []
unfolding splitn
splitn_two c w s h = rw (splitn, split_once_lem c w s h)

-- A text that ends in another byte.
pub ends_with_other : (c d : ℕ) (s : Str) → (d == c) ≡ false → ends_with c (s ++ (d ∷ [])) ≡ false
unfolding ends_with
ends_with_other c d [] e = e
ends_with_other c d (a ∷ []) e = e
ends_with_other c d (a ∷ b ∷ s) e = ends_with_other c d (b ∷ s) e

-- Lines, each ended by a line feed.
abbrev pub text_of : List Str → Str
text_of [] = []
text_of (w ∷ ws) = w ++ (10 ∷ text_of ws)

-- A line that is read as it is.
abbrev pub IsLine : Str → Type 0
IsLine w = Lacks 10 w × (ends_with 13 w ≡ false)

finished_more :
    (w : Str) (ws : List Str)
    → ws ≢ []
    → ends_with 13 w ≡ false
    → finished (w ∷ ws) ≡ w ∷ finished ws
finished_more w [] h e = absurd (h refl)
finished_more [] (v ∷ ws) h e = rw e
finished_more (c ∷ w) (v ∷ ws) h e = rw e

pub lines-text_of : (ws : List Str) → All IsLine ws → lines (text_of ws) ≡ ws
unfolding lines split
lines-text_of [] h = refl
lines-text_of (w ∷ ws) ((lacks, ends), hs) = rw (split-append 10 w (text_of ws) lacks) (
    finished_more w (split 10 (text_of ws)) (split-ne-nil 10 (text_of ws)) ends
    ∙ ap (◌∷◌ w) (lines-text_of ws hs))
