-- ===== src/Proto/RoundTrip/Packets.antt =====
-- The round trip of whole packets.
use lapas.Prelude.{refl, ◌∙◌, List, [], ◌∷◌, All}
use lapas.Prelude.Text.{Str}
use lapas.Proto.Serde.{
  ProtoSerde, Result, pure, u32_serde, unit_serde, string_serde, vec_serde, result_serde, read_u32,
  write_u32, Chrono,
}
use lapas.Proto.Models.{LapasUserShadow, api_auth_serde, user_passwd_serde, user_shadow_serde}
use lapas.Proto.Packet.{
  LapasProtocol, control_handshake, control_handshake_response, control_ping, control_listen_events,
  control_check_auth, control_check_auth_response, user_register, user_register_response,
  user_dns_mapping, user_dns_mapping_response, passwd_get_list, passwd_get_list_response,
  shadow_get_list, shadow_get_list_response, notify_root_changed, notify_dns_mappings_changed,
  notify_users_changed, decode_packet, decode_fields, encode_packet, packet_serde, done,
  passwd_list, shadow_list,
}
use lapas.Proto.RoundTrip.{
  Reads, IsResult, IsVec, IsPasswd, IsShadow, IsPacket, IsRfc3339, Returns, IsDated,
}
use lapas.Proto.RoundTrip.Basic.{
  last_field, next_field, u32-Reads, string-Reads, vec-Reads, result-Reads, api_auth-Reads,
  user_passwd-Reads, user_shadow-Reads,
}

All-Reads :
    {A : Type 0} (P : A → Type 0) (s : ProtoSerde A) (xs : List A)
    → ((x : A) → P x → Reads s x)
    → All P xs
    → All (Reads s) xs
All-Reads P s [] f h = tt
All-Reads P s (x ∷ xs) f (h, hs) = (f x h, All-Reads P s xs f hs)

list-Reads :
    {A : Type 0} (P : A → Type 0) (s : ProtoSerde A) (r : Result (List A) Str)
    → ((x : A) → P x → Reads s x)
    → IsResult (IsVec P) r
    → Reads (result_serde (vec_serde s) string_serde) r
list-Reads P s (Result.ok xs) f (l, h) =
    result-Reads (vec_serde s) (Result.ok xs) (vec-Reads s xs (l, All-Reads P s xs f h))
list-Reads P s (Result.err y) f h = result-Reads (vec_serde s) (Result.err y) h

done-Reads :
    (r : Result (Unit {0}) Str)
    → IsResult (λ x. Unit {0}) r
    → Reads (result_serde unit_serde string_serde) r
done-Reads (Result.ok u) h = result-Reads unit_serde (Result.ok u) (λ rest. refl)
done-Reads (Result.err y) h = result-Reads unit_serde (Result.err y) h

All-both :
    {A : Type 0} (P Q : A → Type 0) (xs : List A) → All P xs → All Q xs → All (λ x. P x × Q x) xs
All-both P Q [] h k = tt
All-both P Q (x ∷ xs) (h, hs) (k, ks) = ((h, k), All-both P Q xs hs ks)

All-every : {A : Type 0} (P : A → Type 0) (xs : List A) → ((x : A) → P x) → All P xs
All-every P [] f = tt
All-every P (x ∷ xs) f = (f x, All-every P xs f)

module _ (chrono : Chrono) where
  dated_shadows :
      (r : Result (List (LapasUserShadow chrono.DateTime)) Str)
      → IsResult (IsVec IsShadow) r
      → IsDated chrono (shadow_get_list_response r)
      → IsResult (IsVec (λ u. IsShadow u × Returns chrono u.last_update_ts)) r
  dated_shadows (Result.ok us) (l, h) d =
      (l, All-both IsShadow (λ u. Returns chrono u.last_update_ts) us h d)
  dated_shadows (Result.err y) h d = h

  -- A packet whose own times come back from their texts, with no law for all times.
  pub dated-Reads :
      (p : LapasProtocol chrono.DateTime)
      → IsPacket p
      → IsDated chrono p
      → Reads (packet_serde chrono) p
  unfolding decode_packet decode_fields encode_packet read_u32 write_u32
  dated-Reads (control_handshake x) h d rest =
      last_field u32_serde x (λ v. pure (control_handshake v)) (u32-Reads x h) rest
  dated-Reads (control_handshake_response x) h d rest =
      last_field (done chrono) x _ (done-Reads x h) rest
  dated-Reads control_ping h d rest = refl
  dated-Reads control_listen_events h d rest = refl
  dated-Reads (control_check_auth x) h d rest =
      last_field api_auth_serde x _ (api_auth-Reads x h) rest
  dated-Reads (control_check_auth_response x) h d rest =
      last_field (done chrono) x _ (done-Reads x h) rest
  dated-Reads (user_register x y z) (h, k, l) d rest =
      next_field api_auth_serde x _ (api_auth-Reads x h) _ rest
      ∙ next_field string_serde y _ (string-Reads y k) _ rest
      ∙ last_field string_serde z _ (string-Reads z l) rest
  dated-Reads (user_register_response x) h d rest =
      last_field (done chrono) x _ (done-Reads x h) rest
  dated-Reads (user_dns_mapping x y) (h, k) d rest =
      next_field api_auth_serde x _ (api_auth-Reads x h) _ rest
      ∙ last_field string_serde y _ (string-Reads y k) rest
  dated-Reads (user_dns_mapping_response x) h d rest =
      last_field (done chrono) x _ (done-Reads x h) rest
  dated-Reads passwd_get_list h d rest = refl
  dated-Reads (passwd_get_list_response x) h d rest =
      last_field (passwd_list chrono) x _
        (list-Reads IsPasswd user_passwd_serde x user_passwd-Reads h) rest
  dated-Reads (shadow_get_list x) h d rest = last_field api_auth_serde x _ (api_auth-Reads x h) rest
  dated-Reads (shadow_get_list_response x) h d rest =
      last_field (shadow_list chrono) x _
        (list-Reads (λ u. IsShadow u × Returns chrono u.last_update_ts) (user_shadow_serde chrono) x
          (user_shadow-Reads chrono) (dated_shadows x h d))
        rest
  dated-Reads notify_root_changed h d rest = refl
  dated-Reads notify_dns_mappings_changed h d rest = refl
  dated-Reads notify_users_changed h d rest = refl

module _ (chrono : Chrono) (laws : IsRfc3339 chrono) where
  every-IsDated : (p : LapasProtocol chrono.DateTime) → IsDated chrono p
  every-IsDated (control_handshake v) = tt
  every-IsDated (control_handshake_response r) = tt
  every-IsDated control_ping = tt
  every-IsDated control_listen_events = tt
  every-IsDated (control_check_auth a) = tt
  every-IsDated (control_check_auth_response r) = tt
  every-IsDated (user_register a n q) = tt
  every-IsDated (user_register_response r) = tt
  every-IsDated (user_dns_mapping a n) = tt
  every-IsDated (user_dns_mapping_response r) = tt
  every-IsDated passwd_get_list = tt
  every-IsDated (passwd_get_list_response r) = tt
  every-IsDated (shadow_get_list a) = tt
  every-IsDated (shadow_get_list_response (Result.ok us)) =
      All-every (λ u. Returns chrono u.last_update_ts) us
        (λ u. (laws.text u.last_update_ts, laws.parses u.last_update_ts))
  every-IsDated (shadow_get_list_response (Result.err y)) = tt
  every-IsDated notify_root_changed = tt
  every-IsDated notify_dns_mappings_changed = tt
  every-IsDated notify_users_changed = tt

  -- Where every time has a short RFC 3339 text that chrono parses back to it, every packet whose numbers fit their types, whose texts are
  -- UTF-8 of fewer than 2^32 bytes and whose lists have fewer than 2^64 entries is read back from
  -- its encoding, and what stands behind it stays in the stream.
  pub packet-Reads :
      (p : LapasProtocol chrono.DateTime) → IsPacket p → Reads (packet_serde chrono) p
  packet-Reads p h = dated-Reads chrono p h (every-IsDated p)
