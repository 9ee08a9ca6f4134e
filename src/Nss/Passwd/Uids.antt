-- ===== src/Nss/Passwd/Uids.antt =====
-- The uids in the entries, against the ids of the server.
use lapas.Prelude.{
  ◌≤◌, ℕ, ◌^◌, ◌<◌, ◌≡◌, ◌≢◌, refl, List, [], ◌∷◌, map, Outcome, ok, err, panic, arith, All, find,
  ◌==◌, inl, inr, Bool-cases, ok-injective,
}
use lapas.Proto.Models.{LapasUserPasswd}
use lapas.Server.Users.{UserIndexEntry, UserService, passwd_all, to_passwd}
use lapas.Server.Users.Sound.{Apart, IsSound, All-weaken}
use lapas.Nss.Passwd.{Passwd, success, user_to_passwd, found, get_entry_by_uid, get_all_entries}

find_uid :
    (uid : ℕ) (users : List LapasUserPasswd)
    → uid < 2 ^ 32
    → (e : Passwd) → found user_to_passwd (find (λ u. u.id == uid) users) ≡ success e
    → e.uid ≡ uid
unfolding user_to_passwd
find_uid uid [] l e h = cc
find_uid uid (u ∷ us) l e h = elim (Bool-cases (u.id == uid)) [
  | inl q ↦
      let same : u.id ≡ uid = ground arith in
      let it : success (user_to_passwd u) ≡ success e = rw q at h in
      let uids : (user_to_passwd u).uid ≡ e.uid = cc in omega arith
  | inr q ↦ find_uid uid us l e (rw q at h)
]

-- An entry that is found by a uid, which is a u32, has this uid, also where ids do not fit 32 bits.
get_entry_by_uid-uid :
    (uid : ℕ) (listing : Outcome (List LapasUserPasswd)) (e : Passwd)
    → uid < 2 ^ 32
    → get_entry_by_uid uid listing ≡ ok (success e)
    → e.uid ≡ uid
unfolding get_entry_by_uid
get_entry_by_uid-uid uid (ok users) e l h = find_uid uid users l e (ok-injective _ _ h)
get_entry_by_uid-uid uid (err m) e l h = cc
get_entry_by_uid-uid uid panic e l h = cc

module _ {D : Type 0} where
  -- The entry of a user of the server.
  abbrev pub entry_of : UserIndexEntry D → Passwd
  entry_of u = user_to_passwd (to_passwd u)

  All-uid_ne :
      (v : UserIndexEntry D) (us : List (UserIndexEntry D))
      → v.id < 2 ^ 32
      → All (λ u. u.id < 2 ^ 32) us
      → All (λ u. v.id ≢ u.id) us
      → All (λ e. (entry_of v).uid ≢ e.uid) (map user_to_passwd (map to_passwd us))
  unfolding user_to_passwd
  All-uid_ne v [] l ls h = tt
  All-uid_ne v (u ∷ us) l (m, ls) (h, hs) =
      (λ (e : (entry_of v).uid ≡ (entry_of u).uid). h (omega arith), All-uid_ne v us l ls hs)

  uids-Apart :
      (us : List (UserIndexEntry D))
      → All (λ u. u.id < 2 ^ 32) us
      → Apart (λ u. u.id) us
      → Apart (λ e. e.uid) (map user_to_passwd (map to_passwd us))
  uids-Apart [] l h = tt
  uids-Apart (u ∷ us) (l, ls) (h, hs) = (All-uid_ne u us l ls h, uids-Apart us ls hs)

  All-name_ne :
      (v : UserIndexEntry D) (us : List (UserIndexEntry D))
      → All (λ u. v.name ≢ u.name) us
      → All (λ e. (entry_of v).name ≢ e.name) (map user_to_passwd (map to_passwd us))
  unfolding user_to_passwd
  All-name_ne v [] h = tt
  All-name_ne v (u ∷ us) (h, hs) = (h, All-name_ne v us hs)

  names-Apart :
      (us : List (UserIndexEntry D))
      → Apart (λ u. u.name) us
      → Apart (λ e. e.name) (map user_to_passwd (map to_passwd us))
  names-Apart [] h = tt
  names-Apart (u ∷ us) (h, hs) = (All-name_ne u us h, names-Apart us hs)

  -- For a sound index of the server whose ids all fit 32 bits, `get_all_entries` returns entries of
  -- which no two share a uid or a name.
  pub get_all_entries-Apart :
      (service : UserService D)
      → IsSound service.user_index
      → service.user_index.next_id ≤ 2 ^ 32
      → (es : List Passwd) × (get_all_entries (ok (passwd_all service)) ≡ ok (success es))
        × Apart (λ e. e.uid) es
        × Apart (λ e. e.name) es
  unfolding get_all_entries passwd_all
  get_all_entries-Apart service sound l =
      let us = service.user_index.users in
      (
        map user_to_passwd (map to_passwd us),
        refl,
        uids-Apart us
            (All-weaken _ _ us (λ u (h : u.id < service.user_index.next_id). omega arith)
              sound.given)
            sound.ids,
        names-Apart us sound.names,
      )
