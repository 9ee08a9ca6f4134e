-- ===== src/Proto/RoundTrip.antt =====
-- What `encode` writes, `decode` reads back.
pub mod Basic
pub mod Packets
use lapas.Prelude.{ℕ, ◌^◌, ◌<◌, ◌≡◌, true, List, [], ◌∷◌, ◌++◌, length, All}
use lapas.Prelude.Text.{Str}
use lapas.Prelude.Text.Utf8.{is_utf8}
use lapas.Proto.Serde.{Bytes, got, ProtoSerde, Result, Chrono}
use lapas.Proto.Models.{ApiAuth, password, LapasUserPasswd, LapasUserShadow}
use lapas.Proto.Packet.{
  LapasProtocol, control_handshake, control_handshake_response, control_ping, control_listen_events,
  control_check_auth, control_check_auth_response, user_register, user_register_response,
  user_dns_mapping, user_dns_mapping_response, passwd_get_list, passwd_get_list_response,
  shadow_get_list, shadow_get_list_response, notify_root_changed, notify_dns_mappings_changed,
  notify_users_changed,
}

-- The encoding of a value is read back, whatever stands behind it.
abbrev pub Reads : {A : Type 0} → ProtoSerde A → A → Type 0
Reads s a = (rest : Bytes) → s.decode (s.encode a ++ rest) ≡ got a rest

-- A `String` whose length fits its 32 bits.
abbrev pub IsText : Str → Type 0
IsText s = (is_utf8 s ≡ true) × (length s < 2 ^ 32)

abbrev pub IsResult : {A : Type 0} → (A → Type 0) → Result A Str → Type 0
IsResult P (Result.ok x) = P x
IsResult P (Result.err y) = IsText y

abbrev pub IsVec : {A : Type 0} → (A → Type 0) → List A → Type 0
IsVec P xs = (length xs < 2 ^ 64) × All P xs

abbrev pub IsAuth : ApiAuth → Type 0
IsAuth (password p) = IsText p

abbrev pub IsPasswd : LapasUserPasswd → Type 0
IsPasswd u = (u.id < 2 ^ 64) × IsText u.name

abbrev pub IsShadow : {D : Type 0} → LapasUserShadow D → Type 0
IsShadow u = (u.id < 2 ^ 64) × IsText u.name × IsText u.password_hash

-- A time whose RFC 3339 text is short and parses back to it. chrono writes the years from 0 to 9999 in
-- the four digits that RFC 3339 has, and reads no others.
abbrev pub Returns : (chrono : Chrono) → chrono.DateTime → Type 0
Returns chrono t =
    IsText (chrono.to_rfc3339 t) × (chrono.parse_from_rfc3339 (chrono.to_rfc3339 t) ≡ Result.ok t)

-- The times of a packet, which only a list of hashes has, come back from their texts.
abbrev pub IsDated : (chrono : Chrono) → LapasProtocol chrono.DateTime → Type 0
IsDated chrono (shadow_get_list_response (Result.ok us)) =
    All (λ (u : LapasUserShadow chrono.DateTime). Returns chrono u.last_update_ts) us
IsDated chrono _ = Unit

-- A `DateTime` of times in the years that RFC 3339 has: each has a short text, and comes back from it.
pub record IsRfc3339 (chrono : Chrono) : Type 0 where
  pub text : (t : chrono.DateTime) → IsText (chrono.to_rfc3339 t)
  pub parses : (t : chrono.DateTime) → chrono.parse_from_rfc3339 (chrono.to_rfc3339 t) ≡ Result.ok t

-- The values of Rust's types: integers and lengths in range, texts in UTF-8.
abbrev pub IsPacket : {D : Type 0} → LapasProtocol D → Type 0
IsPacket (control_handshake v) = v < 2 ^ 32
IsPacket (control_handshake_response r) = IsResult (λ x. Unit) r
IsPacket control_ping = Unit
IsPacket control_listen_events = Unit
IsPacket (control_check_auth a) = IsAuth a
IsPacket (control_check_auth_response r) = IsResult (λ x. Unit) r
IsPacket (user_register a n p) = IsAuth a × IsText n × IsText p
IsPacket (user_register_response r) = IsResult (λ x. Unit) r
IsPacket (user_dns_mapping a n) = IsAuth a × IsText n
IsPacket (user_dns_mapping_response r) = IsResult (λ x. Unit) r
IsPacket passwd_get_list = Unit
IsPacket (passwd_get_list_response r) = IsResult (IsVec IsPasswd) r
IsPacket (shadow_get_list a) = IsAuth a
IsPacket (shadow_get_list_response r) = IsResult (IsVec IsShadow) r
IsPacket notify_root_changed = Unit
IsPacket notify_dns_mappings_changed = Unit
IsPacket notify_users_changed = Unit
