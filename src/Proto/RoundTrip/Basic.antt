-- ===== src/Proto/RoundTrip/Basic.antt =====
-- Round trips of the basic types and of the containers.
use lapas.Prelude.{
  ℕ, ◌%◌, ◌^◌, ◌<◌, ◌≡◌, refl, ap, ◌∙◌, true, List, [], ◌∷◌, ◌++◌, append_assoc, arith, length, All,
}
use lapas.Prelude.Text.{Str}
use lapas.Prelude.Text.Utf8.{is_utf8}
use lapas.Proto.Serde.{
  ◌>>=◌, Decoder, checked, parsed, Bytes, got, ProtoSerde, Result, read_u32, write_u32, read_u64,
  write_u64, read_exact, u32_serde, u64_serde, string_serde, vec_serde, result_serde, decode_result,
  encode_result, decode_times, decode_vec, encode_items, encode_vec, decode_string, encode_string,
  Chrono, decode_date_time, date_time_serde,
}
use lapas.Proto.Models.{
  ApiAuth, password, decode_api_auth, encode_api_auth, api_auth_serde, LapasUserPasswd,
  decode_user_passwd, encode_user_passwd, user_passwd_serde, LapasUserShadow, decode_user_shadow,
  encode_user_shadow, user_shadow_serde,
}
use lapas.Proto.RoundTrip.{Reads, IsText, IsResult, IsVec, IsAuth, IsPasswd, IsShadow, Returns}

module _ {A B : Type 0} (s : ProtoSerde A) (a : A) (f : A → Decoder B) (h : Reads s a) where
  -- A field at the end of what was written, and one with others behind it.
  pub last_field : (rest : Bytes) → (s.decode >>= f) (s.encode a ++ rest) ≡ f a rest
  last_field rest = rw (h rest, ◌>>=◌)

  pub next_field :
      (more rest : Bytes) → (s.decode >>= f) ((s.encode a ++ more) ++ rest) ≡ f a (more ++ rest)
  next_field more rest =
      ap (s.decode >>= f) (append_assoc (s.encode a) more rest) ∙ last_field (more ++ rest)

pub u32-Reads : (n : ℕ) → n < 2 ^ 32 → Reads u32_serde n
unfolding read_u32 write_u32
u32-Reads n h rest = ap (λ (k : ℕ). got k rest) (omega arith)

pub u64-Reads : (n : ℕ) → n < 2 ^ 64 → Reads u64_serde n
unfolding read_u64 write_u64
u64-Reads n h rest = ap (λ (k : ℕ). got k rest) (omega arith)

read_exact-append : (s rest : Bytes) → read_exact (length s) (s ++ rest) ≡ got s rest
unfolding read_exact
read_exact-append [] rest = refl
read_exact-append (b ∷ s) rest = rw (read_exact-append s rest, read_exact)

read_bytes :
    (s : Str) (rest : Bytes)
    → is_utf8 s ≡ true
    → (read_exact (length s) >>= checked) (s ++ rest) ≡ got s rest
unfolding checked
read_bytes s rest u = rw (read_exact-append s rest, ◌>>=◌) (rw u)

pub string-Reads : (s : Str) → IsText s → Reads string_serde s
unfolding decode_string encode_string
string-Reads s (u, h) rest =
    let m : length s % 2 ^ 32 ≡ length s = omega arith in
    rw m (next_field u32_serde (length s) _ (u32-Reads (length s) h) s rest ∙ read_bytes s rest u)

module _ {A : Type 0} (a : ProtoSerde A) where
  decode_times-encode_items :
      (xs : List A) (rest : Bytes)
      → All (Reads a) xs
      → decode_times a (length xs) (encode_items a xs ++ rest) ≡ got xs rest
  unfolding decode_times encode_items
  decode_times-encode_items [] rest h = refl
  decode_times-encode_items (x ∷ xs) rest (h, hs) =
      next_field a x _ h (encode_items a xs) rest ∙ rw (decode_times-encode_items xs rest hs, ◌>>=◌)

  pub vec-Reads : (xs : List A) → IsVec (Reads a) xs → Reads (vec_serde a) xs
  unfolding decode_vec encode_vec
  vec-Reads xs (l, h) rest =
      next_field u64_serde (length xs) (decode_times a) (u64-Reads (length xs) l)
        (encode_items a xs) rest
      ∙ decode_times-encode_items xs rest h

pub result-Reads :
    {A : Type 0} (a : ProtoSerde A) (r : Result A Str)
    → IsResult (Reads a) r
    → Reads (result_serde a string_serde) r
unfolding decode_result encode_result
result-Reads a (Result.ok x) h rest = last_field a x _ h rest
result-Reads a (Result.err y) h rest = last_field string_serde y _ (string-Reads y h) rest

pub api_auth-Reads : (a : ApiAuth) → IsAuth a → Reads api_auth_serde a
unfolding decode_api_auth encode_api_auth
api_auth-Reads (password p) h rest = last_field string_serde p _ (string-Reads p h) rest

pub user_passwd-Reads : (u : LapasUserPasswd) → IsPasswd u → Reads user_passwd_serde u
unfolding decode_user_passwd encode_user_passwd
user_passwd-Reads u (l, h) rest =
    next_field u64_serde u.id _ (u64-Reads u.id l) (encode_string u.name) rest
    ∙ last_field string_serde u.name _ (string-Reads u.name h) rest

module _ (chrono : Chrono) where
  open chrono use {DateTime, to_rfc3339}

  date_time-Reads : (t : DateTime) → Returns chrono t → Reads (date_time_serde chrono) t
  unfolding decode_date_time
  date_time-Reads t (text, parses) rest =
      last_field string_serde (to_rfc3339 t) _ (string-Reads (to_rfc3339 t) text) rest
      ∙ unfold parsed in ap (λ (r : Result DateTime Str). parsed chrono r rest) parses

  pub user_shadow-Reads :
      (u : LapasUserShadow DateTime)
      → IsShadow u × Returns chrono u.last_update_ts
      → Reads (user_shadow_serde chrono) u
  unfolding decode_user_shadow encode_user_shadow
  user_shadow-Reads u ((l, h, k), dated) rest =
      next_field u64_serde u.id _ (u64-Reads u.id l) _ rest
      ∙ next_field string_serde u.name _ (string-Reads u.name h) _ rest
      ∙ next_field string_serde u.password_hash _ (string-Reads u.password_hash k) _ rest
      ∙ last_field (date_time_serde chrono) u.last_update_ts _
          (date_time-Reads u.last_update_ts dated) rest
