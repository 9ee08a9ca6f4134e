-- ===== src/Client/LocalAuth.antt =====
-- bin/lapas_api_client/src/daemon.rs: the local server that hands the cached users to the NSS library.
pub mod Socket
use lapas.Prelude.{
  Bool, true, false, Option, none, some, List, [], ◌∷◌, map, Outcome, ok, err, panic, if◌then◌else◌,
  ◌==◌,
}
use lapas.Prelude.Text.{Str, codes, str_eq}
use lapas.Proto.Serde.{Result, Chrono}
use lapas.Proto.Models.{ApiAuth, password, LapasUserPasswd, LapasUserShadow}
use lapas.Proto.Packet.{
  version, LapasProtocol, control_handshake, control_handshake_response, passwd_get_list,
  passwd_get_list_response, shadow_get_list, shadow_get_list_response,
}
use lapas.Proto.Connection.{Talk, ◌>>=◌, ◌>>◌, pure, fail, send, receive}
use lapas.Client.Cache.{Polls, get}

abbrev pub passwd_of : {D : Type 0} → LapasUserShadow D → LapasUserPasswd
passwd_of u = record { id = u.id; name = u.name }

abbrev pub same_auth : ApiAuth → ApiAuth → Bool
same_auth (password auth_is) (password auth_should) = str_eq auth_is auth_should

module _ (chrono : Chrono) where
  open chrono use {DateTime}

  unfoldable pub check_handshake : LapasProtocol DateTime → Talk (Unit {0})
  unfolding send
  check_handshake (control_handshake v) =
      if v == version
      then send chrono (control_handshake_response (Result.ok tt))
      else send chrono (
          control_handshake_response (Result.err (codes "AuthServ: Incompatible Protocol Version")))
        >> fail (codes "AuthServ: Incompatible Protocol Version")
  check_handshake _ = fail (codes "AuthServ: Received unexpected packet!")

  -- The answer to the one request; a password that is not the daemon's gets none.
  unfoldable pub answer : ApiAuth → Polls DateTime → LapasProtocol DateTime → Talk (Unit {0})
  unfolding send
  answer auth user_cache passwd_get_list =
      send chrono (passwd_get_list_response (Result.ok (map passwd_of (get user_cache))))
  answer auth user_cache (shadow_get_list is_auth) =
      if same_auth is_auth auth
      then send chrono (shadow_get_list_response (Result.ok (get user_cache)))
      else pure tt
  answer auth user_cache _ = pure tt

  unfoldable pub handle_local_auth_client : ApiAuth → Polls DateTime → Talk (Unit {0})
  unfolding receive check_handshake answer
  handle_local_auth_client auth user_cache =
      (receive chrono >>= check_handshake) >> (receive chrono >>= answer auth user_cache)
