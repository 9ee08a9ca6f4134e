-- ===== src/Nss/Tests/Registering.antt =====
-- A user is registered, and looked up on another machine.
use lapas.Nss.Api.{get_api_password, find_password, is_password_line, slice, shadow_list}
use lapas.Nss.Shadow.{ℤ, pos, Shadow, user_to_shadow, get_shadow_by_name}
use lapas.Nss.Registered.{registered_login}
use lapas.Prelude.Text.{lines, split}
use lapas.Proto.RoundTrip.{IsText}
use lapas.Proto.Packet.{shadow_get_list}
use lapas.Server.Users.{to_shadow}
use lapas.Prelude.{◌≡◌, refl, panic, [], ok, arith}
use lapas.Prelude.Text.{codes, str_eq}
use lapas.Prelude.Text.Utf8.{is_utf8}
use lapas.Proto.Serde.{Result}
use lapas.Proto.Models.{ApiAuth, password}
use lapas.Proto.Packet.{passwd_get_list, shadow_get_list_response}
use lapas.Proto.RoundTrip.{IsPacket}
use lapas.Proto.Tests.{Moment, calendar, calendar-IsRfc3339}
use lapas.Server.Tests.Channel.{tape, tape-IsBroadcast}
use lapas.Server.Users.{
  add_user, push_user, taken, write_user_index, write_text, new_user, shadow_all,
  password_to_ghost_random_salt,
}
use lapas.Server.State.{Peer}
use lapas.Client.Tests.{crates, hashed, peer, outside, dns, server, accepted}
use lapas.Client.Cache.{Polls}
use lapas.Client.Commands.Served.{arriving}
use lapas.Client.Daemon.Informed.{caught_up}
use lapas.Nss.Api.{Host, passwd_list}
use lapas.Nss.Passwd.{get_entry_by_name, success}
use lapas.Nss.Passwd.Uids.{entry_of}
use lapas.Nss.Served.{local_replies}
use lapas.Nss.Registered.{registered_found}

abbrev auth : ApiAuth
auth = password (codes "admin")

abbrev guest : Peer
guest = record { number = 2; ip = codes "10.0.0.8" }

abbrev host : Host
host = record { runtime = ok tt; connected = ok tt; env_file = ok (codes "API_PASSWORD=\"admin\"") }

carol_added :
    (add_user crates outside (codes "carol") (codes "pw") server.user_service).result ≡ ok tt
unfolding add_user push_user taken write_user_index write_text str_eq
carol_added = refl

three_shadows : IsPacket {D = Moment} (
    shadow_get_list_response (
      Result.ok (
        shadow_all
          (add_user crates outside (codes "carol") (codes "pw") server.user_service).after)))
unfolding add_user push_user taken write_user_index write_text str_eq shadow_all is_utf8
    password_to_ghost_random_salt
three_shadows = (
  omega arith,
  (
    (omega arith, (refl, omega arith), (refl, omega arith)),
    (
      (omega arith, (refl, omega arith), (refl, omega arith)),
      ((omega arith, (refl, omega arith), (refl, omega arith)), tt),
    ),
  ),
)

-- The cache of the daemon, which has kept up.
abbrev cache : Polls Moment
cache i =
    (caught_up calendar calendar-IsRfc3339 tape crates hashed peer guest outside dns server auth
      auth (codes "carol") (codes "pw") panic).after.user_cache

registered_found_example :
    get_entry_by_name
      (codes "carol")
      (passwd_list calendar host
        (arriving (local_replies calendar auth cache passwd_get_list) [])).result
    ≡ ok (success (entry_of (new_user crates outside (codes "carol") (codes "pw") 1002)))
registered_found_example =
    registered_found calendar calendar-IsRfc3339 tape tape-IsBroadcast crates hashed peer guest
      outside dns server auth auth (codes "carol") (codes "pw") panic cache host 0 accepted accepted
      carol_added three_shadows refl refl (omega arith) (λ j l. absurd (omega arith)) refl

api_password : get_api_password host.env_file ≡ ok (codes "admin")
unfolding get_api_password find_password is_password_line slice lines split is_utf8
api_password = refl

admin_text : IsText (codes "admin")
unfolding is_utf8
admin_text = (refl, omega arith)

-- Every time is the first day.
abbrev zero_days : ℤ → ℤ
zero_days t = pos 0

abbrev shadow : Shadow
shadow =
    user_to_shadow (λ t. pos 0) zero_days
      (to_shadow (new_user crates outside (codes "carol") (codes "pw") 1002))

registered_login_example :
    (get_shadow_by_name
        (λ t. pos 0)
        zero_days
        (codes "carol")
        (shadow_list calendar host
          (arriving (local_replies calendar auth cache (shadow_get_list auth)) [])).result
      ≡ ok (success shadow))
    × (shadow.passwd ≡ password_to_ghost_random_salt crates (codes "salt") (codes "pw"))
registered_login_example =
    registered_login calendar calendar-IsRfc3339 tape tape-IsBroadcast crates hashed peer guest
      outside dns server auth auth (codes "carol") (codes "pw") (λ t. pos 0) zero_days panic cache
      host 0 (codes "admin") refl api_password admin_text accepted accepted carol_added
      three_shadows refl refl (omega arith) (λ j l. absurd (omega arith)) refl
