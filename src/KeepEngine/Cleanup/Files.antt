-- ===== src/KeepEngine/Cleanup/Files.antt =====
-- The files of a folder by their paths, and how the parts of the walk change that list.
use lapas.Prelude.{
  ◌≡◌, refl, ◌∙◌, inl, inr, Bool, true, false, not, ◌&&◌, Bool-cases, Option, some, List, [], ◌∷◌,
  ◌++◌, append-nil, append_assoc, arith, filter, All,
}
use lapas.Prelude.Text.{Str}
use lapas.KeepEngine.Cleanup.{
  Entry, file, folder, Entries, empty, entry, FileSystem, child_path, is_empty, only, put, remains,
  remains_all,
}

unfoldable mutual
  pub files : Entry → Option Str → List Str
  files (file name) rel = child_path rel name ∷ []
  files (folder name es) rel = files_all es (some (child_path rel name))

  pub files_all : Entries → Option Str → List Str
  files_all empty rel = []
  files_all (entry e es) rel = files e rel ++ files_all es rel

pub files_all-put :
    (es more : Entries) (rel : Option Str)
    → files_all (put es more) rel ≡ files_all es rel ++ files_all more rel
unfolding files
files_all-put empty more rel = refl
files_all-put (entry e es) more rel = rw (files_all-put es more rel, append_assoc (files e rel))

pub files_all-only : (e : Entry) (rel : Option Str) → files_all (only e) rel ≡ files e rel
unfolding files
files_all-only e rel = append-nil (files e rel)

pub files_all-is_empty :
    (es : Entries) (rel : Option Str) → is_empty es ≡ true → files_all es rel ≡ []
unfolding files
files_all-is_empty empty rel h = refl
files_all-is_empty (entry e es) rel h = cc

module _ {A : Type 0} (p : A → Bool) where
  pub filter-append : (xs ys : List A) → filter p (xs ++ ys) ≡ filter p xs ++ filter p ys
  filter-append [] ys = refl
  filter-append (x ∷ xs) ys = ground (arith, filter-append xs ys)

  pub filter_none : (xs : List A) → All (λ x. p x ≡ false) xs → filter p xs ≡ []
  filter_none [] h = refl
  filter_none (x ∷ xs) (h, hs) = rw h (filter_none xs hs)

  pub filter_eq_self : (xs : List A) → All (λ x. p x ≡ true) xs → filter p xs ≡ xs
  filter_eq_self [] h = refl
  filter_eq_self (x ∷ xs) (h, hs) = rw (h, filter_eq_self xs hs)

pub All-append {κ} :
    {A : Type 0} (P : A → Type κ) (xs ys : List A) → All P xs → All P ys → All P (xs ++ ys)
All-append P [] ys h k = k
All-append P (x ∷ xs) ys (h, hs) k = (h, All-append P xs ys hs k)

pub All-append_parts {κ} :
    {A : Type 0} (P : A → Type κ) (xs ys : List A) → All P (xs ++ ys) → All P xs × All P ys
All-append_parts P [] ys h = (tt, h)
All-append_parts P (x ∷ xs) ys (h, hs) = let (k, l) = All-append_parts P xs ys hs in ((h, k), l)

-- A path under a folder.
abbrev pub IsUnder : Str → Str → Type 0
IsUnder p f = (more : Str) × (f ≡ p ++ (b'/' ∷ more))

IsUnder-child : (p name f : Str) → IsUnder (p ++ (b'/' ∷ name)) f → IsUnder p f
IsUnder-child p name f (more, e) =
    (name ++ (b'/' ∷ more), e ∙ append_assoc p (b'/' ∷ name) (b'/' ∷ more))

All-map :
    {A : Type 0} (P Q : A → Type 0) (xs : List A) → ((x : A) → P x → Q x) → All P xs → All Q xs
All-map P Q [] f h = tt
All-map P Q (x ∷ xs) f (h, hs) = (f x h, All-map P Q xs f hs)

mutual
  unfolding files

  files-IsUnder : (e : Entry) (p : Str) → All (IsUnder p) (files e (some p))
  files-IsUnder (file name) p = ((name, refl), tt)
  files-IsUnder (folder name es) p =
      All-map (IsUnder (p ++ (b'/' ∷ name))) (IsUnder p) _ (IsUnder-child p name)
        (files_all-IsUnder es (p ++ (b'/' ∷ name)))

  -- What a folder holds stands under it.
  pub files_all-IsUnder : (es : Entries) (p : Str) → All (IsUnder p) (files_all es (some p))
  files_all-IsUnder empty p = tt
  files_all-IsUnder (entry e es) p =
      All-append (IsUnder p) (files e (some p)) _ (files-IsUnder e p) (files_all-IsUnder es p)

module _ (P : Str → Type 0) (fs : FileSystem) where
  -- A recursive removal leaves nothing but files that were there.
  mutual
    unfolding remains files

    pub All-remains :
        (e : Entry) (rel : Option Str)
        → All P (files e rel)
        → All P (files_all (remains fs e rel) rel)
    All-remains (file name) rel h = elim (Bool-cases (fs.survives (child_path rel name))) [
      | inl m ↦ rw m h
      | inr m ↦ rw m tt
    ]
    All-remains (folder name es) rel h =
        let inner = remains_all fs es (some (child_path rel name)) in
        elim (Bool-cases (is_empty inner && not (fs.survives (child_path rel name)))) [
          | inl m ↦ rw m tt
          | inr m ↦ rw m (
              All-append P (files_all inner (some (child_path rel name))) []
                (All-remains_all es (some (child_path rel name)) h) tt)
        ]

    All-remains_all :
        (es : Entries) (rel : Option Str)
        → All P (files_all es rel)
        → All P (files_all (remains_all fs es rel) rel)
    All-remains_all empty rel h = h
    All-remains_all (entry e es) rel h =
        let (h1, h2) = All-append_parts P (files e rel) (files_all es rel) h in
        rw files_all-put (
          All-append P _ (files_all (remains_all fs es rel) rel) (All-remains e rel h1)
            (All-remains_all es rel h2))
