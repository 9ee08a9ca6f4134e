-- ===== src/Client/Sort.antt =====
-- Rust's stable `sort_by_key`, on keys that are numbers.
pub mod Laws
use lapas.Prelude.{ℕ, List, [], ◌∷◌, leb, if◌then◌else◌}

module _ {A : Type 0} (key : A → ℕ) where
  -- In front of the first entry with a key that is not smaller.
  unfoldable pub insert_by_key : A → List A → List A
  insert_by_key x [] = x ∷ []
  insert_by_key x (y ∷ ys) =
      let rest = insert_by_key x ys in if leb (key x) (key y) then x ∷ y ∷ ys else y ∷ rest

  unfoldable pub sort_by_key : List A → List A
  unfolding insert_by_key
  sort_by_key [] = []
  sort_by_key (x ∷ xs) = insert_by_key x (sort_by_key xs)
