-- ===== src/Server/Users/Added.antt =====
-- What a new user means for the lookups and the listings.
use lapas.Prelude.{
  subst, ◌≡◌, refl, false, some, List, [], ◌∷◌, ◌++◌, find, ok, inl, inr, Bool-cases, All, arith,
  map, length-map, length-append,
}
use lapas.Prelude.Text.{Str, str_eq}
use lapas.Prelude.Text.Laws.{str_eq_refl}
use lapas.Proto.RoundTrip.{IsVec, IsShadow, IsPasswd}
use lapas.Server.Users.{
  UserIndexEntry, Crates, Outside, UserService, taken, new_user, push_user, add_user, shadow_all,
  passwd_all, to_shadow, to_passwd,
}
use lapas.Server.Users.Sound.{add_user-cases}

module _ {D : Type 0} where
  -- A user whose name was free is the first with it.
  find-pushed :
      (u : UserIndexEntry D) (us : List (UserIndexEntry D))
      → taken u.name us ≡ false
      → find (λ v. str_eq v.name u.name) (us ++ (u ∷ [])) ≡ some u
  unfolding taken
  find-pushed u [] e = rw (str_eq_refl u.name) refl
  find-pushed u (v ∷ us) e = elim (Bool-cases (str_eq v.name u.name)) [
    | inl m ↦ cc
    | inr m ↦ rw m (find-pushed u us (rw m at e))
  ]

  module _ (crates : Crates D) (os : Outside D) where
    pub find-add_user :
        (username new_password : Str) (s : UserService D)
        → (add_user crates os username new_password s).result ≡ ok tt
        → find
            (λ u. str_eq u.name username)
            (add_user crates os username new_password s).after.user_index.users
          ≡ some (new_user crates os username new_password s.user_index.next_id)
    unfolding push_user
    find-add_user username new_password s h =
        elim (add_user-cases crates os username new_password s) [
          | inl (message, e) ↦ cc
          | inr (free, e) ↦ rw e (
              find-pushed (new_user crates os username new_password s.user_index.next_id)
                s.user_index.users free)
        ]

  -- Users whose hashes fit a packet fit one without them.
  map-IsPasswd :
      (us : List (UserIndexEntry D))
      → All IsShadow (map to_shadow us)
      → All IsPasswd (map to_passwd us)
  map-IsPasswd [] h = tt
  map-IsPasswd (u ∷ us) ((l, name, hash), hs) = ((l, name), map-IsPasswd us hs)

  pub passwd_all-IsVec :
      (s : UserService D) → IsVec IsShadow (shadow_all s) → IsVec IsPasswd (passwd_all s)
  unfolding shadow_all passwd_all
  passwd_all-IsVec s (l, h) =
      let us = s.user_index.users in
      (omega (arith, length-map us to_shadow, length-map us to_passwd), map-IsPasswd us h)

  -- Users fit a packet where they do with one more.
  map-init :
      (us vs : List (UserIndexEntry D))
      → All IsShadow (map to_shadow (us ++ vs))
      → All IsShadow (map to_shadow us)
  map-init [] vs h = tt
  map-init (u ∷ us) vs (h, hs) = (h, map-init us vs hs)

  module _ (crates : Crates D) (os : Outside D) where
    pub before_add_user-IsVec :
        (username new_password : Str) (s : UserService D)
        → IsVec IsShadow (shadow_all (add_user crates os username new_password s).after)
        → IsVec IsShadow (shadow_all s)
    unfolding push_user shadow_all
    before_add_user-IsVec username new_password s (l, h) =
        elim (add_user-cases crates os username new_password s) [
          | inl (message, e) ↦ (rw e at l, rw e at h)
          | inr (free, e) ↦
              let us = s.user_index.users in
              let u = new_user crates os username new_password s.user_index.next_id in
              let (k, m) =
                subst (λ d. IsVec IsShadow (map to_shadow d.after.user_index.users)) e (l, h) in
              (
                omega (
                  arith,
                  length-map us to_shadow,
                  length-map (us ++ (u ∷ [])) to_shadow,
                  length-append us (u ∷ []),
                ),
                map-init us (u ∷ []) m,
              )
        ]
