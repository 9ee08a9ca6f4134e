-- ===== src/Prelude/Outcomes.antt =====
-- How a call in the Rust code ends: with a value, with an error value, or with a panic.
use mathlib.Core.Path.{◌≡◌, refl}
use mathlib.Core.Logic.{◌⊎◌, inl, inr}
use mathlib.Core.Bool.{Bool, true, false}
use mathlib.Core.List.{List}
use Prim.Native.Nat.{ℕ}

-- An error carries its message, as UTF-8 bytes.
pub data Outcome {ℓ} (A : Type ℓ) : Type ℓ where
  ok : A → Outcome A
  err : List ℕ → Outcome A
  panic : Outcome A

-- What an operation on a state leaves behind and returns.
pub record Done (S A : Type 0) : Type 0 where
  pub after : S
  pub result : Outcome A

infixl 5 ◌>>=◌ ◌>>◌
abbrev pub ◌>>=◌ {ℓ κ} : {A : Type ℓ} {B : Type κ} → Outcome A → (A → Outcome B) → Outcome B
panic >>= next = panic
err message >>= next = err message
ok x >>= next = next x

abbrev pub ◌>>◌ {ℓ} : {B : Type ℓ} → Outcome (Unit {0}) → Outcome B → Outcome B
m >> k = m >>= λ _. k

-- Rust's `assert!`.
abbrev pub assert : Bool → Outcome (Unit {0})
assert true = ok tt
assert false = panic

-- An early `return Err(message)` under a test.
abbrev pub fail_if : Bool → List ℕ → Outcome (Unit {0})
fail_if true e = err e
fail_if false e = ok tt

-- Rust's `unwrap` and `expect`.
abbrev pub unwrap {ℓ} : {A : Type ℓ} → Outcome A → Outcome A
unwrap (ok a) = ok a
unwrap (err e) = panic
unwrap panic = panic

-- A call chain that returns a value has returned one at each step.
pub >>=-eq-ok {ℓ κ} :
    {A : Type ℓ} {B : Type κ} (call : Outcome A) (next : A → Outcome B) {z : B}
    → (call >>= next) ≡ ok z
    → (x : A) × (call ≡ ok x) × (next x ≡ ok z)
>>=-eq-ok panic next h = cc
>>=-eq-ok (err message) next h = cc
>>=-eq-ok (ok x) next h = (x, refl, h)

pub Outcome-cases {ℓ} :
    {A : Type ℓ} (m : Outcome A)
    → ((a : A) × (m ≡ ok a)) ⊎ (((e : List ℕ) × (m ≡ err e)) ⊎ (m ≡ panic))
Outcome-cases (ok a) = inl (a, refl)
Outcome-cases (err e) = inr (inl (e, refl))
Outcome-cases panic = inr (inr refl)

pub ok-injective {ℓ} : {A : Type ℓ} (a b : A) → ok a ≡ ok b → a ≡ b
ok-injective a b e = cc

pub unwrap-eq-ok {ℓ} : {A : Type ℓ} (m : Outcome A) (a : A) → unwrap m ≡ ok a → m ≡ ok a
unwrap-eq-ok (ok b) a h = h
unwrap-eq-ok (err e) a h = cc
unwrap-eq-ok panic a h = h
