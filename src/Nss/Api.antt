-- ===== src/Nss/Api.antt =====
-- bin/lapas_nss/src/api.rs: the listings, asked from the local server, and the password for them.
use lapas.Prelude.{
  ℕ, ◌-◌, Bool, ◌&&◌, List, [], ◌∷◌, ◌++◌, length, take, drop, leb, Outcome, ok, err, panic, unwrap,
  if◌then◌else◌,
}
use lapas.Prelude.Text.{Str, codes, starts_with, ends_with, lines}
use lapas.Prelude.Text.Utf8.{is_utf8}
use lapas.Proto.Serde.{Result, Chrono}
use lapas.Proto.Models.{password, LapasUserPasswd, LapasUserShadow}
use lapas.Proto.Packet.{
  version, LapasProtocol, control_handshake, control_handshake_response, passwd_get_list,
  passwd_get_list_response, shadow_get_list, shadow_get_list_response,
}
use lapas.Proto.Connection.{Talk, ◌>>=◌, ◌>>◌, pure, fail, lift, send, receive}

-- `&s[a..b]`, which panics out of range; the bytes at both ends are ASCII where it is used.
unfoldable pub slice : ℕ → ℕ → Str → Outcome Str
slice a b s = if leb a b && leb b (length s) then ok (take (b - a) (drop a s)) else panic

abbrev pub key : Str
key = codes "API_PASSWORD=\""

-- The test of `get_api_password` on a line.
unfoldable pub is_password_line : Str → Bool
unfolding starts_with ends_with
is_password_line line = starts_with line key && ends_with b'"' line

-- The loop of `get_api_password`; a line that is not UTF-8 is an error of `next_line`.
unfoldable pub find_password : List Str → Outcome Str
find_password [] = err (codes "Failed to parse lapas-api environment file!")
find_password (line ∷ rest) =
    let others = find_password rest in
    if is_utf8 line
    then if is_password_line line then slice 14 (length line - 1) line else others
    else err (codes "stream did not contain valid UTF-8")

-- What the library meets: tokio's runtime, the socket and the environment file.
pub record Host : Type 0 where
  pub runtime : Outcome (Unit {0})
  pub connected : Outcome (Unit {0})
  pub env_file : Outcome Str

unfoldable pub get_api_password : Outcome Str → Outcome Str
unfolding find_password lines
get_api_password (ok content) = find_password (lines content)
get_api_password (err e) = err e
get_api_password panic = panic

module _ (chrono : Chrono) where
  open chrono use {DateTime}

  unfoldable pub greeted : LapasProtocol DateTime → Talk (Unit {0})
  greeted (control_handshake_response (Result.ok u)) = pure tt
  greeted (control_handshake_response (Result.err e)) =
      fail (codes "Conncting to lapas api server failed: " ++ e)
  greeted _ = fail (codes "Received unexpected response")

  unfoldable pub lapas_connect : Host → Talk (Unit {0})
  unfolding send receive greeted
  lapas_connect host =
      lift host.connected >> send chrono (control_handshake version) >> (receive chrono >>= greeted)

  unfoldable pub passwd_result : LapasProtocol DateTime → Talk (List LapasUserPasswd)
  passwd_result (passwd_get_list_response (Result.ok users)) = pure users
  passwd_result (passwd_get_list_response (Result.err e)) =
      fail (codes "Error while getting passwd list from lapas: " ++ e)
  passwd_result _ = fail (codes "Received unexpected response from server")

  unfoldable pub passwd_list : Host → Talk (List LapasUserPasswd)
  unfolding passwd_result send receive
  passwd_list host =
      lift (unwrap host.runtime)
      >> lapas_connect host
      >> send chrono passwd_get_list
      >> (receive chrono >>= passwd_result)

  unfoldable pub shadow_result : LapasProtocol DateTime → Talk (List (LapasUserShadow DateTime))
  shadow_result (shadow_get_list_response (Result.ok users)) = pure users
  shadow_result (shadow_get_list_response (Result.err e)) =
      fail (codes "Error while getting shadow list from lapas: " ++ e)
  shadow_result _ = fail (codes "Received unexpected response from server")

  unfoldable pub shadow_list : Host → Talk (List (LapasUserShadow DateTime))
  unfolding shadow_result get_api_password send receive
  shadow_list host =
      lift (unwrap host.runtime)
      >> lapas_connect host
      >> (lift (get_api_password host.env_file)
          >>= (λ api_password. send chrono (shadow_get_list (password api_password))))
      >> (receive chrono >>= shadow_result)
