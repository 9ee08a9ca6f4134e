-- ===== src/Proto/Serde.antt =====
-- bin/lapas_api_proto/src/proto.rs: `ProtoSerde` and its implementations for the basic types. A reader
-- is the bytes that are still to come, a writer the bytes that were written; tokio's integers are
-- big-endian.
use lapas.Prelude.{
  ℕ, zero, suc, ◌+◌, ◌*◌, ◌/◌, ◌%◌, ◌^◌, List, [], ◌∷◌, ◌++◌, Option, none, some, if◌then◌else◌,
  ◌==◌, length,
}
use lapas.Prelude.Text.{Str, codes}
use lapas.Prelude.Text.Utf8.{is_utf8}

abbrev pub Bytes : Type 0
Bytes = List ℕ

-- The only I/O error of a reader here is that the stream ends.
pub data LapasProtocolError : Type 0 where
  io_error : LapasProtocolError
  protocol_error : Str → LapasProtocolError

-- What a `decode` returns: a value with the bytes behind it, or an error.
pub data Decoded {ℓ} (A : Type ℓ) : Type ℓ where
  got : A → Bytes → Decoded A
  failed : LapasProtocolError → Decoded A

abbrev pub Decoder {ℓ} : Type ℓ → Type ℓ
Decoder A = Bytes → Decoded A

infixl 5 ◌>>=◌
abbrev pub ◌>>=◌ {ℓ κ} : {A : Type ℓ} {B : Type κ} → Decoder A → (A → Decoder B) → Decoder B
◌>>=◌ d f s = elim (d s) [ got a rest ↦ f a rest | failed e ↦ failed e ]

abbrev pub pure {ℓ} : {A : Type ℓ} → A → Decoder A
pure a s = got a s

abbrev pub fail {ℓ} : {A : Type ℓ} → Str → Decoder A
fail message s = failed (protocol_error message)

-- `trait ProtoSerde`.
pub record ProtoSerde {ℓ} (A : Type ℓ) : Type ℓ where
  pub decode : Decoder A
  pub encode : A → Bytes

-- Rust's `Result`.
pub data Result {ℓ κ} (A : Type ℓ) (B : Type κ) : Type (ℓ ⊔ κ) where
  ok : A → Result A B
  err : B → Result A B

unfoldable pub read_u8 : Decoder ℕ
read_u8 [] = failed io_error
read_u8 (a ∷ s) = got a s

unfoldable pub write_u8 : ℕ → Bytes
write_u8 n = n % 256 ∷ []

unfoldable pub read_u32 : Decoder ℕ
read_u32 (a ∷ b ∷ c ∷ d ∷ s) = got (((a * 256 + b) * 256 + c) * 256 + d) s
read_u32 _ = failed io_error

unfoldable pub write_u32 : ℕ → Bytes
write_u32 n = n / 2 ^ 24 % 256 ∷ n / 2 ^ 16 % 256 ∷ n / 2 ^ 8 % 256 ∷ n % 256 ∷ []

unfoldable pub read_u64 : Decoder ℕ
unfolding read_u32
read_u64 = read_u32 >>= λ hi. read_u32 >>= λ lo. pure (hi * 2 ^ 32 + lo)

unfoldable pub write_u64 : ℕ → Bytes
unfolding write_u32
write_u64 n = write_u32 (n / 2 ^ 32) ++ write_u32 (n % 2 ^ 32)

abbrev pub u32_serde : ProtoSerde ℕ
u32_serde = record { decode = read_u32; encode = write_u32 }

abbrev pub u64_serde : ProtoSerde ℕ
u64_serde = record { decode = read_u64; encode = write_u64 }

abbrev pub unit_serde : ProtoSerde (Unit {0})
unit_serde = record { decode = λ s. got tt s; encode = λ u. [] }

module _ {A B : Type 0} (a : ProtoSerde A) (b : ProtoSerde B) where
  unfoldable pub decode_result : Decoder (Result A B)
  unfolding read_u8
  decode_result = read_u8 >>= λ tag.
      if tag == 0
      then a.decode >>= (λ x. pure (ok x))
      else if tag == 1
      then b.decode >>= (λ y. pure (err y))
      else fail (codes "Error while deserializing Result<,>. Tag")

  unfoldable pub encode_result : Result A B → Bytes
  unfolding write_u8
  encode_result (ok x) = write_u8 0 ++ a.encode x
  encode_result (err y) = write_u8 1 ++ b.encode y

  abbrev pub result_serde : ProtoSerde (Result A B)
  result_serde = record { decode = decode_result; encode = encode_result }

module _ {A : Type 0} (a : ProtoSerde A) where
  unfoldable pub decode_option : Decoder (Option A)
  unfolding read_u8
  decode_option = read_u8 >>= λ tag.
      if tag == 0
      then pure none
      else if tag == 1
      then a.decode >>= (λ x. pure (some x))
      else fail (codes "Error while deserializing Option. Invalid tag")

  unfoldable pub encode_option : Option A → Bytes
  unfolding write_u8
  encode_option (some x) = write_u8 1 ++ a.encode x
  encode_option none = write_u8 0

  -- `for _ in 0..cnt { result.push(T::decode(reader).await?); }`
  unfoldable pub decode_times : ℕ → Decoder (List A)
  decode_times zero s = got [] s
  decode_times (suc cnt) s = (a.decode >>= λ x. decode_times cnt >>= λ xs. pure (x ∷ xs)) s

  unfoldable pub decode_vec : Decoder (List A)
  decode_vec = read_u64 >>= decode_times

  unfoldable pub encode_items : List A → Bytes
  encode_items [] = []
  encode_items (x ∷ xs) = a.encode x ++ encode_items xs

  unfoldable pub encode_vec : List A → Bytes
  encode_vec xs = write_u64 (length xs) ++ encode_items xs

  abbrev pub vec_serde : ProtoSerde (List A)
  vec_serde = record { decode = decode_vec; encode = encode_vec }

-- `read_exact` into a buffer of `n` bytes, which `with_capacity(n)` is taken to give.
unfoldable pub read_exact : ℕ → Decoder Bytes
read_exact zero s = got [] s
read_exact (suc n) [] = failed io_error
read_exact (suc n) (b ∷ s) = elim (read_exact n s) [
  | got bs rest ↦ got (b ∷ bs) rest
  | failed e ↦ failed e
]

-- `String::from_utf8`, with its error.
unfoldable pub checked : Bytes → Decoder Str
checked bytes =
    if is_utf8 bytes
    then pure bytes
    else fail (codes "Error while deserializing String. Invalid encoding")

unfoldable pub decode_string : Decoder Str
decode_string = read_u32 >>= λ len. read_exact len >>= checked

-- `self.len() as u32` keeps the low 32 bits.
unfoldable pub encode_string : Str → Bytes
encode_string s = write_u32 (length s % 2 ^ 32) ++ s

abbrev pub string_serde : ProtoSerde Str
string_serde = record { decode = decode_string; encode = encode_string }

-- What the code uses of chrono's `DateTime<Utc>`: RFC 3339 texts, and the seconds since 1970.
pub record Chrono : Type 1 where
  pub DateTime : Type 0
  pub to_rfc3339 : DateTime → Str
  pub parse_from_rfc3339 : Str → Result DateTime Str

module _ (chrono : Chrono) where
  open chrono use {DateTime, to_rfc3339, parse_from_rfc3339}

  unfoldable pub parsed : Result DateTime Str → Decoder DateTime
  parsed (ok ts) = pure ts
  parsed (err e) = fail (codes "Failed to parse timestamp:\n" ++ e)

  unfoldable pub decode_date_time : Decoder DateTime
  decode_date_time = decode_string >>= λ text. parsed (parse_from_rfc3339 text)

  abbrev pub date_time_serde : ProtoSerde DateTime
  date_time_serde = record { decode = decode_date_time; encode = λ t. encode_string (to_rfc3339 t) }
