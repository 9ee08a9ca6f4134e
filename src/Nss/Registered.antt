-- ===== src/Nss/Registered.antt =====
-- A lookup of a user that another client has just registered: from the server's index through the
-- notification, the daemon and its local server to the hook.
use lapas.Client.Cache.Waits.{get-filled}
use lapas.Nss.Shadow.{ℤ, get_shadow_by_name, user_to_shadow}
use lapas.Prelude.{ℕ, ◌<◌, ◌≡◌, ◌∙◌, refl, ap, Bool, none, some, [], Outcome, ok, true}
use lapas.Prelude.Text.{Str, str_eq}
use lapas.Prelude.Text.Laws.{str_eq_refl}
use lapas.Proto.Serde.{Result, Chrono}
use lapas.Proto.Models.{ApiAuth, password}
use lapas.Proto.Packet.{LapasProtocol, passwd_get_list, shadow_get_list_response, shadow_get_list}
use lapas.Proto.RoundTrip.{IsPacket, IsRfc3339, IsText}
use lapas.Server.Broadcast.{Broadcast, IsBroadcast}
use lapas.Server.Users.{
  UserIndexEntry, Crates, Outside, UserService, new_user, add_user, shadow_all, to_shadow,
  password_to_ghost_random_salt,
}
use lapas.Server.Users.Added.{find-add_user, passwd_all-IsVec, before_add_user-IsVec}
use lapas.Server.State.{State, Peer, DnsOutside, check_auth}
use lapas.Client.Cache.{Polls, UserCache, get}
use lapas.Client.Commands.Served.{arriving}
use lapas.Client.Daemon.Informed.{caught_up, caught_up_lem}
use lapas.Nss.Api.{Host, passwd_list, shadow_list, get_api_password}
use lapas.Nss.Passwd.{success, found, get_entry_by_name}
use lapas.Nss.Passwd.Uids.{entry_of}
use lapas.Nss.Served.{local_replies, shadow_served}
use lapas.Nss.Lookup.{lookup_served, found-map}

module _ (chrono : Chrono) (laws : IsRfc3339 chrono)
    (broadcast : Broadcast (LapasProtocol chrono.DateTime)) (tokio : IsBroadcast broadcast)
    (crates : Crates chrono.DateTime) (sha512_hex : Str → Str) (peer guest : Peer)
    (os : Outside chrono.DateTime) (dns : DnsOutside) (s : State chrono.DateTime)
    (auth guest_auth : ApiAuth) (username new_password : Str) where
  open chrono use {DateTime}

  abbrev added : UserService DateTime
  added = (add_user crates os username new_password s.user_service).after

  abbrev entered : UserIndexEntry DateTime
  entered = new_user crates os username new_password s.user_service.user_index.next_id

  abbrev pub caught : Outcome (Outcome Bool) → UserCache DateTime
  caught child =
      (caught_up chrono laws broadcast crates sha512_hex peer guest os dns s auth guest_auth
        username new_password child).after.user_cache

  informed :
      (child : Outcome (Outcome Bool))
      → check_auth sha512_hex s.config auth ≡ ok true
      → check_auth sha512_hex s.config guest_auth ≡ ok true
      → (add_user crates os username new_password s.user_service).result ≡ ok tt
      → IsPacket (shadow_get_list_response (Result.ok (shadow_all added)))
      → caught child ≡ some (shadow_all added)
  informed child a g h young =
      ap (λ d. d.after.user_cache)
        (caught_up_lem chrono laws broadcast crates sha512_hex peer guest os dns s auth guest_auth
          username new_password child tokio a g h
          (before_add_user-IsVec crates os username new_password s.user_service young) young)

  -- With the laws of chrono and the documented behaviour of the channel, and users that fit a packet:
  -- after another client has registered a user with an accepted password, and the daemon has handled
  -- the packets that the server sends it for this, a lookup of the new name over the daemon's socket
  -- finds the entry of the new user, with the id that was next.
  pub registered_found :
      (child : Outcome (Outcome Bool)) (cache : Polls DateTime) (host : Host) (k : ℕ)
      → check_auth sha512_hex s.config auth ≡ ok true
      → check_auth sha512_hex s.config guest_auth ≡ ok true
      → (add_user crates os username new_password s.user_service).result ≡ ok tt
      → IsPacket (shadow_get_list_response (Result.ok (shadow_all added)))
      → host.runtime ≡ ok tt
      → host.connected ≡ ok tt
      → k < 50
      → ((j : ℕ) → j < k → cache j ≡ none)
      → cache k ≡ caught child
      → get_entry_by_name username
          (passwd_list chrono host
            (arriving (local_replies chrono auth cache passwd_get_list) [])).result
        ≡ ok (success (entry_of entered))
  registered_found child cache host k a g h young run up l before e =
      let (by_name, by_uid) =
        lookup_served chrono laws auth cache added host k run up l before
          (e ∙ informed child a g h young) (passwd_all-IsVec added young) username 0 in
      by_name
      ∙ ap (λ o. ok (found entry_of o))
          (find-add_user crates os username new_password s.user_service h)

  -- With the laws of chrono and the documented behaviour of the channel, and users that fit a packet:
  -- after another client has registered a user with an accepted password, and the daemon has handled
  -- the packets that the server sends it for this, a lookup of the new name in the shadow entries, by a
  -- process that reads the daemon's password from the environment file, finds the entry of the new
  -- user, with the hash of the new password.
  pub registered_login :
      (timestamp : DateTime → ℤ) (num_days : ℤ → ℤ) (child : Outcome (Outcome Bool))
      (cache : Polls DateTime) (host : Host) (k : ℕ) (api_password : Str)
      → auth ≡ password api_password
      → get_api_password host.env_file ≡ ok api_password
      → IsText api_password
      → check_auth sha512_hex s.config auth ≡ ok true
      → check_auth sha512_hex s.config guest_auth ≡ ok true
      → (add_user crates os username new_password s.user_service).result ≡ ok tt
      → IsPacket (shadow_get_list_response (Result.ok (shadow_all added)))
      → host.runtime ≡ ok tt
      → host.connected ≡ ok tt
      → k < 50
      → ((j : ℕ) → j < k → cache j ≡ none)
      → cache k ≡ caught child
      → let entry = user_to_shadow timestamp num_days (to_shadow entered) in
        (get_shadow_by_name timestamp num_days username
            (shadow_list chrono host
              (arriving (local_replies chrono auth cache (shadow_get_list auth)) [])).result
          ≡ ok (success entry))
        × (entry.passwd ≡ password_to_ghost_random_salt crates os.salt new_password)
  unfolding get_shadow_by_name shadow_all
  registered_login timestamp num_days child cache host k api_password same file text a g h young run
        up l before e =
      let q : get cache ≡ shadow_all added =
        get-filled cache k (shadow_all added) l before (e ∙ informed child a g h young) in
      let us = added.user_index.users in
      let listing =
        shadow_served chrono laws cache host api_password api_password true run up file text
          (str_eq_refl api_password) (rw q young)
        ∙ ap ok q in
      (
        rw same (
            ap (get_shadow_by_name timestamp num_days username) listing
            ∙ ap ok (
                found-map (λ u. str_eq u.name username) to_shadow
                  (user_to_shadow timestamp num_days) us)
            ∙ ap (λ o. ok (found (λ u. user_to_shadow timestamp num_days (to_shadow u)) o))
                (find-add_user crates os username new_password s.user_service h)),
        refl,
      )
