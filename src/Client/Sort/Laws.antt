-- ===== src/Client/Sort/Laws.antt =====
-- `sort_by_key` puts the keys in order and keeps entries with the same key in theirs.
use lapas.Prelude.{
  ℕ, ◌≤◌, ◌≡◌, refl, ◌∙◌, List, [], ◌∷◌, filter, leb, ◌==◌, arith, Bool-cases, inl, inr, All,
}
use lapas.Client.Sort.{insert_by_key, sort_by_key}

module _ {A : Type 0} (key : A → ℕ) where
  abbrev pub IsSortedBy : List A → Type 0
  IsSortedBy [] = Unit
  IsSortedBy (x ∷ xs) = All (λ y. key x ≤ key y) xs × IsSortedBy xs

  -- The entries with the key `k`, in order.
  abbrev pub with_key : ℕ → List A → List A
  with_key k = filter (λ x. key x == k)

  All-insert_by_key :
      (P : A → Type 0) (x : A) (ys : List A) → P x → All P ys → All P (insert_by_key key x ys)
  unfolding insert_by_key
  All-insert_by_key P x [] p h = (p, tt)
  All-insert_by_key P x (y ∷ ys) p (h, hs) = elim (Bool-cases (leb (key x) (key y))) [
    | inl e ↦ rw e (p, (h, hs))
    | inr e ↦ rw e (h, All-insert_by_key P x ys p hs)
  ]

  All-le_trans : (n m : ℕ) (ys : List A) → n ≤ m → All (λ y. m ≤ key y) ys → All (λ y. n ≤ key y) ys
  All-le_trans n m [] l h = tt
  All-le_trans n m (y ∷ ys) l (h, hs) = (omega arith, All-le_trans n m ys l hs)

  insert_by_key-IsSortedBy :
      (x : A) (ys : List A) → IsSortedBy ys → IsSortedBy (insert_by_key key x ys)
  unfolding insert_by_key
  insert_by_key-IsSortedBy x [] h = (tt, tt)
  insert_by_key-IsSortedBy x (y ∷ ys) (h, hs) = elim (Bool-cases (leb (key x) (key y))) [
    | inl e ↦
        let l : key x ≤ key y = ground arith in
        rw e ((l, All-le_trans (key x) (key y) ys l h), (h, hs))
    | inr e ↦
        let l : key y ≤ key x = ground arith in
        rw e (All-insert_by_key (λ z. key y ≤ key z) x ys l h, insert_by_key-IsSortedBy x ys hs)
  ]

  insert_by_key-with_key :
      (k : ℕ) (x : A) (ys : List A) → with_key k (insert_by_key key x ys) ≡ with_key k (x ∷ ys)
  unfolding insert_by_key
  insert_by_key-with_key k x [] = refl
  insert_by_key-with_key k x (y ∷ ys) = elim (Bool-cases (leb (key x) (key y))) [
    | inl e ↦ rw e
    | inr e ↦ ground (arith, insert_by_key-with_key k x ys)
  ]

  -- The result is in ascending order, and for each key it has the same entries in the same order.
  pub sort_by_key_lem :
      (xs : List A)
      → IsSortedBy (sort_by_key key xs)
        × ((k : ℕ) → with_key k (sort_by_key key xs) ≡ with_key k xs)
  unfolding sort_by_key
  sort_by_key_lem [] = (tt, λ k. refl)
  sort_by_key_lem (x ∷ xs) =
      let (sorted, same) = sort_by_key_lem xs in
      (
        insert_by_key-IsSortedBy x _ sorted,
        λ k. insert_by_key-with_key k x (sort_by_key key xs) ∙ rw (same k),
      )
