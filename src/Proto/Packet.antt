-- ===== src/Proto/Packet.antt =====
-- bin/lapas_api_proto/src/lib.rs: the packets, and the code that `define_protocol!` of
-- bin/lapas_api_proto/src/proto.rs makes of them. A packet's tag is its position in the list.
use lapas.Prelude.{ℕ, List, ◌++◌, if◌then◌else◌, ◌==◌}
use lapas.Prelude.Text.{Str, codes}
use lapas.Proto.Serde.{
  Bytes, Decoder, ◌>>=◌, pure, fail, ProtoSerde, Result, read_u32, write_u32, u32_serde, unit_serde,
  string_serde, vec_serde, result_serde, Chrono,
}
use lapas.Proto.Models.{
  ApiAuth, api_auth_serde, LapasUserPasswd, user_passwd_serde, LapasUserShadow, user_shadow_serde,
}

-- `lapas_api_proto::VERSION`.
abbrev pub version : ℕ
version = 6

pub data LapasProtocol (DateTime : Type 0) : Type 0 where
  control_handshake : ℕ → LapasProtocol DateTime
  control_handshake_response : Result (Unit {0}) Str → LapasProtocol DateTime
  control_ping : LapasProtocol DateTime
  control_listen_events : LapasProtocol DateTime
  control_check_auth : ApiAuth → LapasProtocol DateTime
  control_check_auth_response : Result (Unit {0}) Str → LapasProtocol DateTime
  user_register : ApiAuth → Str → Str → LapasProtocol DateTime
  user_register_response : Result (Unit {0}) Str → LapasProtocol DateTime
  user_dns_mapping : ApiAuth → Str → LapasProtocol DateTime
  user_dns_mapping_response : Result (Unit {0}) Str → LapasProtocol DateTime
  passwd_get_list : LapasProtocol DateTime
  passwd_get_list_response : Result (List LapasUserPasswd) Str → LapasProtocol DateTime
  shadow_get_list : ApiAuth → LapasProtocol DateTime
  shadow_get_list_response : Result (List (LapasUserShadow DateTime)) Str → LapasProtocol DateTime
  notify_root_changed : LapasProtocol DateTime
  notify_dns_mappings_changed : LapasProtocol DateTime
  notify_users_changed : LapasProtocol DateTime

module _ (chrono : Chrono) where
  open chrono use {DateTime}

  -- The encodings of the `result` fields.
  abbrev pub done : ProtoSerde (Result (Unit {0}) Str)
  done = result_serde unit_serde string_serde

  abbrev pub passwd_list : ProtoSerde (Result (List LapasUserPasswd) Str)
  passwd_list = result_serde (vec_serde user_passwd_serde) string_serde

  abbrev pub shadow_list : ProtoSerde (Result (List (LapasUserShadow DateTime)) Str)
  shadow_list = result_serde (vec_serde (user_shadow_serde chrono)) string_serde

  -- The fields of the packet with a tag.
  unfoldable pub decode_fields : ℕ → Decoder (LapasProtocol DateTime)
  decode_fields tag =
      if tag == 0
      then u32_serde.decode >>= (λ x. pure (control_handshake x))
      else if tag == 1
      then done.decode >>= (λ x. pure (control_handshake_response x))
      else if tag == 2
      then pure control_ping
      else if tag == 3
      then pure control_listen_events
      else if tag == 4
      then api_auth_serde.decode >>= (λ x. pure (control_check_auth x))
      else if tag == 5
      then done.decode >>= (λ x. pure (control_check_auth_response x))
      else if tag == 6
      then api_auth_serde.decode >>= (λ x.
        string_serde.decode >>= (λ y. string_serde.decode >>= (λ z. pure (user_register x y z))))
      else if tag == 7
      then done.decode >>= (λ x. pure (user_register_response x))
      else if tag == 8
      then api_auth_serde.decode
        >>= (λ x. string_serde.decode >>= (λ y. pure (user_dns_mapping x y)))
      else if tag == 9
      then done.decode >>= (λ x. pure (user_dns_mapping_response x))
      else if tag == 10
      then pure passwd_get_list
      else if tag == 11
      then passwd_list.decode >>= (λ x. pure (passwd_get_list_response x))
      else if tag == 12
      then api_auth_serde.decode >>= (λ x. pure (shadow_get_list x))
      else if tag == 13
      then shadow_list.decode >>= (λ x. pure (shadow_get_list_response x))
      else if tag == 14
      then pure notify_root_changed
      else if tag == 15
      then pure notify_dns_mappings_changed
      else if tag == 16
      then pure notify_users_changed
      else fail (codes "Unknown Packet received")

  unfoldable pub decode_packet : Decoder (LapasProtocol DateTime)
  decode_packet = read_u32 >>= decode_fields

  unfoldable pub encode_packet : LapasProtocol DateTime → Bytes
  encode_packet (control_handshake x) = write_u32 0 ++ u32_serde.encode x
  encode_packet (control_handshake_response x) = write_u32 1 ++ done.encode x
  encode_packet control_ping = write_u32 2
  encode_packet control_listen_events = write_u32 3
  encode_packet (control_check_auth x) = write_u32 4 ++ api_auth_serde.encode x
  encode_packet (control_check_auth_response x) = write_u32 5 ++ done.encode x
  encode_packet (user_register x y z) =
      write_u32 6 ++ (api_auth_serde.encode x ++ (string_serde.encode y ++ string_serde.encode z))
  encode_packet (user_register_response x) = write_u32 7 ++ done.encode x
  encode_packet (user_dns_mapping x y) =
      write_u32 8 ++ (api_auth_serde.encode x ++ string_serde.encode y)
  encode_packet (user_dns_mapping_response x) = write_u32 9 ++ done.encode x
  encode_packet passwd_get_list = write_u32 10
  encode_packet (passwd_get_list_response x) = write_u32 11 ++ passwd_list.encode x
  encode_packet (shadow_get_list x) = write_u32 12 ++ api_auth_serde.encode x
  encode_packet (shadow_get_list_response x) = write_u32 13 ++ shadow_list.encode x
  encode_packet notify_root_changed = write_u32 14
  encode_packet notify_dns_mappings_changed = write_u32 15
  encode_packet notify_users_changed = write_u32 16

  abbrev pub packet_serde : ProtoSerde (LapasProtocol DateTime)
  packet_serde = record { decode = decode_packet; encode = encode_packet }
