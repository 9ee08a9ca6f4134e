-- ===== src/Nss/Lookup.antt =====
-- A lookup from the library through the daemon to the server's users.
use lapas.Prelude.{
  ℕ, ◌<◌, ◌≡◌, refl, ap, ◌∙◌, Bool, none, some, List, [], ◌∷◌, map, ok, find, Bool-cases, inl, inr,
  ◌==◌,
}
use lapas.Prelude.Text.{Str, str_eq}
use lapas.Proto.Serde.{Result, Chrono}
use lapas.Proto.Models.{ApiAuth}
use lapas.Proto.Packet.{passwd_get_list, passwd_get_list_response}
use lapas.Proto.RoundTrip.{IsPacket, IsRfc3339}
use lapas.Server.Users.{UserService, UserIndexEntry, passwd_all, shadow_all, to_passwd, to_shadow}
use lapas.Client.Cache.{Polls, get}
use lapas.Client.Cache.Waits.{get-filled}
use lapas.Client.LocalAuth.{passwd_of}
use lapas.Client.Commands.Served.{arriving}
use lapas.Nss.Api.{Host, passwd_list}
use lapas.Nss.Passwd.{found, get_entry_by_name, get_entry_by_uid, user_to_passwd}
use lapas.Nss.Passwd.Uids.{entry_of}
use lapas.Nss.Served.{local_replies, passwd_served}

pub found-map :
    {A B C : Type 0} (p : B → Bool) (f : A → B) (g : B → C) (xs : List A)
    → found g (find p (map f xs)) ≡ found (λ x. g (f x)) (find (λ x. p (f x)) xs)
found-map p f g [] = refl
found-map p f g (x ∷ xs) = elim (Bool-cases (p (f x))) [
  | inl e ↦ rw e
  | inr e ↦ rw e (found-map p f g xs)
]

passwd_of-shadow_all :
    {D : Type 0} (us : List (UserIndexEntry D))
    → map passwd_of (map to_shadow us) ≡ map to_passwd us
passwd_of-shadow_all [] = refl
passwd_of-shadow_all (u ∷ us) = ap (◌∷◌ (to_passwd u)) (passwd_of-shadow_all us)

module _ (chrono : Chrono) (laws : IsRfc3339 chrono) where
  open chrono use {DateTime}

  -- With the laws of chrono, and users that fit a packet: where the daemon's cache holds the server's
  -- listing at one of the first fifty polls and nothing before, a lookup by name or by uid over the
  -- socket finds the entry of the first user of the server's index with that name or id.
  pub lookup_served :
      (auth : ApiAuth) (cache : Polls DateTime) (service : UserService DateTime) (host : Host)
      (k : ℕ)
      → host.runtime ≡ ok tt
      → host.connected ≡ ok tt
      → k < 50
      → ((j : ℕ) → j < k → cache j ≡ none)
      → cache k ≡ some (shadow_all service)
      → IsPacket {D = DateTime} (passwd_get_list_response (Result.ok (passwd_all service)))
      → (name : Str) (uid : ℕ)
      → let listing =
          (passwd_list chrono host
            (arriving (local_replies chrono auth cache passwd_get_list) [])).result in
        (get_entry_by_name name listing
          ≡ ok (found entry_of (find (λ u. str_eq u.name name) service.user_index.users)))
        × (get_entry_by_uid uid listing
            ≡ ok (found entry_of (find (λ u. u.id == uid) service.user_index.users)))
  unfolding get_entry_by_name get_entry_by_uid passwd_all shadow_all
  lookup_served auth cache service host k run up l before e h name uid =
      let us = service.user_index.users in
      let q : map passwd_of (get cache) ≡ passwd_all service =
        ap (map passwd_of) (get-filled cache k (shadow_all service) l before e)
        ∙ passwd_of-shadow_all us in
      let listing = passwd_served chrono laws auth cache host run up (rw q h) ∙ ap ok q in
      (
        ap (get_entry_by_name name) listing
            ∙ ap ok (found-map (λ u. str_eq u.name name) to_passwd user_to_passwd us),
        ap (get_entry_by_uid uid) listing
            ∙ ap ok (found-map (λ u. u.id == uid) to_passwd user_to_passwd us),
      )
