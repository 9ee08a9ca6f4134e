-- ===== src/Proto/Decoded.antt =====
-- What `decode` returns on any bytes, also on those that no `encode` has written.
pub mod Packets
use lapas.Prelude.{
  ℕ, zero, suc, ◌+◌, ◌*◌, ◌^◌, ◌≤◌, ◌<◌, ◌≡◌, refl, Bool, true, false, List, [], ◌∷◌, length, All,
  arith, Bool-cases, inl, inr, if◌then◌else◌, ◌==◌,
}
use lapas.Prelude.Text.{Str}
use lapas.Prelude.Text.Utf8.{is_utf8}
use lapas.Proto.Serde.{
  Bytes, Decoded, got, failed, Decoder, ◌>>=◌, pure, fail, ProtoSerde, Result, read_u8, read_u32,
  read_u64, read_exact, checked, decode_string, string_serde, decode_times, decode_vec, vec_serde,
  decode_result, result_serde, Chrono, parsed, decode_date_time,
}
use lapas.Proto.Models.{
  ApiAuth, password, decode_api_auth, LapasUserPasswd, decode_user_passwd, LapasUserShadow,
  decode_user_shadow,
}
use lapas.Proto.RoundTrip.{IsText, IsResult, IsVec, IsAuth, IsPasswd, IsShadow}

abbrev pub IsByte : ℕ → Type 0
IsByte b = b < 256

-- A value is as `P` says, and what stands behind it is no more than the bytes that were there.
abbrev pub Held : {A : Type 0} → (A → Type 0) → Bytes → Decoded A → Type 0
Held P s (got a rest) = P a × All IsByte rest × (length rest ≤ length s)
Held P s (failed e) = Unit

abbrev pub Yields : {A : Type 0} → (A → Type 0) → Decoder A → Type 0
Yields P d = (s : Bytes) → All IsByte s → Held P s (d s)

module _ {A : Type 0} (P : A → Type 0) where
  Held-longer : (s t : Bytes) (r : Decoded A) → length s ≤ length t → Held P s r → Held P t r
  Held-longer s t (got a rest) l (p, bytes, m) = (p, bytes, omega arith)
  Held-longer s t (failed e) l h = tt

  pub pure-Yields : (a : A) → P a → Yields P (pure a)
  pure-Yields a p s bytes = (p, bytes, omega arith)

  pub if-Yields :
      (b : Bool) (d e : Decoder A) → Yields P d → Yields P e → Yields P (if b then d else e)
  if-Yields true d e h k = h
  if-Yields false d e h k = k

module _ {A B : Type 0} (P : A → Type 0) (Q : B → Type 0) where
  bound :
      (s : Bytes) (r : Decoded A) (f : A → Decoder B)
      → Held P s r
      → ((a : A) → P a → Yields Q (f a))
      → Held Q s (elim r [ got a rest ↦ f a rest | failed e ↦ failed e ])
  bound s (got a rest) f (p, bytes, l) k = Held-longer Q rest s (f a rest) l (k a p rest bytes)
  bound s (failed e) f h k = tt

  pub bind-Yields :
      (d : Decoder A) (f : A → Decoder B)
      → Yields P d
      → ((a : A) → P a → Yields Q (f a))
      → Yields Q (d >>= f)
  bind-Yields d f h k s bytes = bound s (d s) f (h s bytes) k

abbrev pub IsU32 : ℕ → Type 0
IsU32 n = n < 2 ^ 32

abbrev IsU64 : ℕ → Type 0
IsU64 n = n < 2 ^ 64

read_u8-Yields : Yields IsByte read_u8
unfolding read_u8
read_u8-Yields [] h = tt
read_u8-Yields (a ∷ s) (h, hs) = (h, hs, omega arith)

pub read_u32-Yields : Yields IsU32 read_u32
unfolding read_u32
read_u32-Yields [] h = tt
read_u32-Yields (a ∷ []) h = tt
read_u32-Yields (a ∷ b ∷ []) h = tt
read_u32-Yields (a ∷ b ∷ c ∷ []) h = tt
read_u32-Yields (a ∷ b ∷ c ∷ d ∷ s) (h, (k, (l, (m, bytes)))) = (omega arith, bytes, omega arith)

read_u64-Yields : Yields IsU64 read_u64
unfolding read_u64
read_u64-Yields = bind-Yields IsU32 IsU64 read_u32 _ read_u32-Yields (λ hi h.
    bind-Yields IsU32 IsU64 read_u32 _ read_u32-Yields
      (λ lo k. pure-Yields IsU64 (hi * 2 ^ 32 + lo) (omega arith)))

read_exact-Yields : (n : ℕ) → Yields (λ bs. length bs ≡ n) (read_exact n)
unfolding read_exact
read_exact-Yields zero s h = (refl, h, omega arith)
read_exact-Yields (suc n) [] h = tt
read_exact-Yields (suc n) (b ∷ s) (h, hs) = one_more (read_exact n s) (read_exact-Yields n s hs)
  where
    one_more :
        (r : Decoded Bytes)
        → Held (λ bs. length bs ≡ n) s r
        → Held
            (λ bs. length bs ≡ suc n)
            (b ∷ s)
            (elim r [ got bs rest ↦ got (b ∷ bs) rest | failed e ↦ failed e ])
    one_more (got bs rest) (l, bytes, m) = (omega arith, bytes, omega arith)
    one_more (failed e) k = tt

checked-Yields : (bs : Bytes) → length bs < 2 ^ 32 → Yields IsText (checked bs)
unfolding checked
checked-Yields bs l = elim (Bool-cases (is_utf8 bs)) [
  | inl e ↦ rw e (pure-Yields IsText bs (e, l))
  | inr e ↦ rw e (λ s h. tt)
]

pub decode_string-Yields : Yields IsText decode_string
unfolding decode_string
decode_string-Yields = bind-Yields IsU32 IsText read_u32 _ read_u32-Yields (λ n h.
    bind-Yields (λ bs. length bs ≡ n) IsText (read_exact n) checked (read_exact-Yields n)
      (λ bs e. checked-Yields bs (omega arith)))

module _ {A : Type 0} (P : A → Type 0) (a : ProtoSerde A) (h : Yields P a.decode) where
  abbrev IsList : ℕ → List A → Type 0
  IsList n xs = (length xs ≡ n) × All P xs

  decode_times-Yields : (n : ℕ) → Yields (IsList n) (decode_times a n)
  unfolding decode_times
  decode_times-Yields zero = pure-Yields (IsList 0) [] (refl, tt)
  decode_times-Yields (suc n) = bind-Yields P (IsList (suc n)) a.decode _ h (λ x p.
      bind-Yields (IsList n) (IsList (suc n)) (decode_times a n) _ (decode_times-Yields n)
        (λ xs (l, ps). pure-Yields (IsList (suc n)) (x ∷ xs) (omega arith, (p, ps))))

  pub decode_vec-Yields : Yields (IsVec P) (decode_vec a)
  unfolding decode_vec
  decode_vec-Yields =
      bind-Yields IsU64 (IsVec P) read_u64 (decode_times a) read_u64-Yields
        (λ n l s bytes. at_most n l s (decode_times a n s) (decode_times-Yields n s bytes))
    where
      at_most :
          (n : ℕ)
          → n < 2 ^ 64
          → (s : Bytes) (r : Decoded (List A)) → Held (IsList n) s r
          → Held (IsVec P) s r
      at_most n l s (got xs rest) ((e, ps), bytes, m) = ((omega arith, ps), bytes, m)
      at_most n l s (failed e) k = tt

  pub decode_result-Yields : Yields (IsResult P) (decode_result a string_serde)
  unfolding decode_result
  decode_result-Yields = bind-Yields IsByte (IsResult P) read_u8 _ read_u8-Yields (λ tag k.
      if-Yields (IsResult P) (tag == 0) _ _
        (bind-Yields P (IsResult P) a.decode _ h (λ x p. pure-Yields (IsResult P) (Result.ok x) p))
        (if-Yields (IsResult P) (tag == 1) _ _
          (bind-Yields IsText (IsResult P) decode_string _ decode_string-Yields
            (λ y p. pure-Yields (IsResult P) (Result.err y) p))
          (λ s bytes. tt)))

pub decode_api_auth-Yields : Yields IsAuth decode_api_auth
unfolding decode_api_auth
decode_api_auth-Yields = bind-Yields IsByte IsAuth read_u8 _ read_u8-Yields (λ tag k.
    if-Yields IsAuth (tag == 0) _ _
      (bind-Yields IsText IsAuth decode_string _ decode_string-Yields
        (λ p h. pure-Yields IsAuth (password p) h))
      (λ s bytes. tt))

pub decode_user_passwd-Yields : Yields IsPasswd decode_user_passwd
unfolding decode_user_passwd
decode_user_passwd-Yields = bind-Yields IsU64 IsPasswd read_u64 _ read_u64-Yields (λ id l.
    bind-Yields IsText IsPasswd decode_string _ decode_string-Yields
      (λ name h. pure-Yields IsPasswd (record { id = id; name = name }) (l, h)))

module _ (chrono : Chrono) where
  open chrono use {DateTime, parse_from_rfc3339}

  parsed-Yields : (r : Result DateTime Str) → Yields (λ t. Unit {0}) (parsed chrono r)
  unfolding parsed
  parsed-Yields (Result.ok t) = pure-Yields (λ t. Unit {0}) t tt
  parsed-Yields (Result.err e) = λ s bytes. tt

  decode_date_time-Yields : Yields (λ t. Unit {0}) (decode_date_time chrono)
  unfolding decode_date_time
  decode_date_time-Yields =
      bind-Yields IsText (λ t. Unit {0}) decode_string _ decode_string-Yields
        (λ text h. parsed-Yields (parse_from_rfc3339 text))

  pub decode_user_shadow-Yields : Yields IsShadow (decode_user_shadow chrono)
  unfolding decode_user_shadow
  decode_user_shadow-Yields = bind-Yields IsU64 IsShadow read_u64 _ read_u64-Yields (λ id l.
      bind-Yields IsText IsShadow decode_string _ decode_string-Yields (λ name h.
        bind-Yields IsText IsShadow decode_string _ decode_string-Yields (λ hash k.
          bind-Yields (λ t. Unit {0}) IsShadow (decode_date_time chrono) _ decode_date_time-Yields
            (λ ts u.
              pure-Yields IsShadow
                (record { id = id; name = name; password_hash = hash; last_update_ts = ts })
                (l, h, k)))))
