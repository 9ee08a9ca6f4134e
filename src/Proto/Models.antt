-- ===== src/Proto/Models.antt =====
-- bin/lapas_api_proto/src/models.rs: the structures inside the packets.
use lapas.Prelude.{ℕ, List, ◌++◌, if◌then◌else◌, ◌==◌}
use lapas.Prelude.Text.{Str, codes}
use lapas.Proto.Serde.{
  Decoder, ◌>>=◌, pure, fail, ProtoSerde, read_u8, write_u8, Chrono, read_u64, write_u64,
  decode_string, encode_string, decode_date_time,
}

pub data ApiAuth : Type 0 where
  password : Str → ApiAuth

unfoldable pub decode_api_auth : Decoder ApiAuth
unfolding read_u8
decode_api_auth = read_u8 >>= λ tag.
    if tag == 0
    then decode_string >>= (λ p. pure (password p))
    else fail (codes "Error while deserializing ApiPassword. Invalid Tag")

unfoldable pub encode_api_auth : ApiAuth → List ℕ
unfolding write_u8
encode_api_auth (password p) = write_u8 0 ++ encode_string p

abbrev pub api_auth_serde : ProtoSerde ApiAuth
api_auth_serde = record { decode = decode_api_auth; encode = encode_api_auth }

pub record LapasUserPasswd : Type 0 where
  pub id : ℕ
  pub name : Str

unfoldable pub decode_user_passwd : Decoder LapasUserPasswd
decode_user_passwd =
    read_u64 >>= λ id. decode_string >>= λ name. pure (record { id = id; name = name })

unfoldable pub encode_user_passwd : LapasUserPasswd → List ℕ
encode_user_passwd u = write_u64 u.id ++ encode_string u.name

abbrev pub user_passwd_serde : ProtoSerde LapasUserPasswd
user_passwd_serde = record { decode = decode_user_passwd; encode = encode_user_passwd }

pub record LapasUserShadow (DateTime : Type 0) : Type 0 where
  pub id : ℕ
  pub name : Str
  pub password_hash : Str
  pub last_update_ts : DateTime

module _ (chrono : Chrono) where
  open chrono use {DateTime, to_rfc3339}

  unfoldable pub decode_user_shadow : Decoder (LapasUserShadow DateTime)
  decode_user_shadow = read_u64 >>= λ id. decode_string >>= λ name. decode_string >>= λ hash.
      decode_date_time chrono >>= λ ts.
      pure (record { id = id; name = name; password_hash = hash; last_update_ts = ts })

  unfoldable pub encode_user_shadow : LapasUserShadow DateTime → List ℕ
  encode_user_shadow u =
      write_u64 u.id
      ++ (encode_string u.name
          ++ (encode_string u.password_hash ++ encode_string (to_rfc3339 u.last_update_ts)))

  abbrev pub user_shadow_serde : ProtoSerde (LapasUserShadow DateTime)
  user_shadow_serde = record { decode = decode_user_shadow; encode = encode_user_shadow }
