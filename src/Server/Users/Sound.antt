-- ===== src/Server/Users/Sound.antt =====
-- The names and the ids in the index stay distinct.
use lapas.Prelude.{
  ◌+◌, ◌^◌, ◌<◌, ◌≡◌, ◌≢◌, ◌⊎◌, false, List, [], ◌∷◌, ◌++◌, All, arith, Bool-cases, inl, inr, err,
  ltb, length, ◌==◌,
}
use lapas.Prelude.Text.{Str, codes, str_eq}
use lapas.Prelude.Text.Laws.{str_eq_refl}
use lapas.Server.Users.{
  UserIndexEntry, UserIndex, UserService, Crates, Outside, taken, pushed, push_user, add_user,
}

-- No two entries have the same key.
abbrev pub Apart : {A K : Type 0} → (A → K) → List A → Type 0
Apart key [] = Unit
Apart key (x ∷ xs) = All (λ y. key x ≢ key y) xs × Apart key xs

-- Every id is one that was given out, and names and ids are unique.
pub record IsSound {D : Type 0} (index : UserIndex D) : Type 0 where
  pub given : All (λ u. u.id < index.next_id) index.users
  pub ids : Apart (λ u. u.id) index.users
  pub names : Apart (λ u. u.name) index.users

module _ {A : Type 0} where
  pub All-push : (P : A → Type 0) (xs : List A) (x : A) → All P xs → P x → All P (xs ++ (x ∷ []))
  All-push P [] x h p = (p, tt)
  All-push P (y ∷ xs) x (h, hs) p = (h, All-push P xs x hs p)

  Apart-push :
      {K : Type 0} (key : A → K) (xs : List A) (x : A)
      → Apart key xs
      → All (λ y. key y ≢ key x) xs
      → Apart key (xs ++ (x ∷ []))
  Apart-push key [] x h k = (tt, tt)
  Apart-push key (y ∷ xs) x (h, hs) (k, ks) =
      (All-push (λ z. key y ≢ key z) xs x h k, Apart-push key xs x hs ks)

  pub All-weaken : (P Q : A → Type 0) (xs : List A) → ((x : A) → P x → Q x) → All P xs → All Q xs
  All-weaken P Q [] f h = tt
  All-weaken P Q (x ∷ xs) f (h, hs) = (f x h, All-weaken P Q xs f hs)

module _ {D : Type 0} where
  not_taken :
      (name : Str) (us : List (UserIndexEntry D))
      → taken name us ≡ false
      → All (λ u. u.name ≢ name) us
  unfolding taken
  not_taken name [] e = tt
  not_taken name (u ∷ us) e = elim (Bool-cases (str_eq u.name name)) [
    | inl m ↦ cc
    | inr m ↦ ((λ q. let r = str_eq_refl name in cc), not_taken name us ground arith)
  ]

  module _ (crates : Crates D) (os : Outside D) where
    pushed-IsSound :
        (username password : Str) (index : UserIndex D)
        → index.next_id + 1 < 2 ^ 64
        → taken username index.users ≡ false
        → IsSound index
        → IsSound (pushed crates os username password index)
    pushed-IsSound username password index l e sound = record {
      given =
          All-push _ index.users _
            (All-weaken _ _ index.users (λ u (h : u.id < index.next_id). omega arith) sound.given)
            (omega arith);
      ids = Apart-push _ index.users _ sound.ids (
          All-weaken _ _ index.users (λ u (h : u.id < index.next_id). λ q. omega arith)
            sound.given);
      names = Apart-push _ index.users _ sound.names (not_taken username index.users e);
    }

    -- The call is refused and changes nothing, or the name is free and the user is pushed.
    pub add_user-cases :
        (username password : Str) (s : UserService D)
        → ((message : Str) × (add_user crates os username password s
              ≡ record { after = s; result = err message }))
          ⊎ ((taken username s.user_index.users ≡ false)
              × (add_user crates os username password s ≡ push_user crates os username password s))
    unfolding add_user
    add_user-cases username password s = elim (Bool-cases (ltb (length username) 3)) [
      | inl a ↦ inl (codes "Username too short!", rw a)
      | inr a ↦ elim (Bool-cases (taken username s.user_index.users)) [
        | inl b ↦ inl (codes "User with the requested name already exists!", rw (a, b))
        | inr b ↦ elim (Bool-cases (length password == 0)) [
          | inl c ↦ inl (codes "Password must not be empty!", rw (a, b, c))
          | inr c ↦ inr (b, rw (a, b, c))
        ]
      ]
    ]

    -- Where `next_id` is below 2^64 - 1, whatever the call returns and whatever the file system does,
    -- the names and the ids in the index stay distinct, and the ids below `next_id`.
    pub add_user-IsSound :
        (username password : Str) (s : UserService D)
        → s.user_index.next_id + 1 < 2 ^ 64
        → IsSound s.user_index
        → IsSound (add_user crates os username password s).after.user_index
    unfolding push_user
    add_user-IsSound username password s l sound = elim (add_user-cases username password s) [
      | inl (message, e) ↦ rw e sound
      | inr (free, e) ↦ rw e (pushed-IsSound username password s.user_index l free sound)
    ]
