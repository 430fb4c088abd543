-- ===== src/Assembler/Errors.antt =====
-- assembler/errors.h: the error codes. A function that returns ERR_OK and a value through a pointer
-- returns `ok`, any other code is `err`.
pub mod Names
use educpu.Prelude.{◌≡◌, ◌⊎◌, inl, inr, refl}

pub data AsmError : Type 0 where
  undefined_label duplicate_label imm_overflow jump_overflow unknown_mnemonic : AsmError
  wrong_operand_count invalid_register invalid_number invalid_directive io internal : AsmError

pub data Result {ℓ} (A : Type ℓ) : Type ℓ where
  ok : A → Result A
  err : AsmError → Result A

infixl 5 ◌>>=◌
abbrev pub ◌>>=◌ {ℓ κ} : {A : Type ℓ} {B : Type κ} → Result A → (A → Result B) → Result B
ok a >>= f = f a
err e >>= f = err e

-- A chain that succeeds has succeeded at its first step.
pub bind-eq-ok {ℓ κ} :
    {A : Type ℓ} {B : Type κ} (first : Result A) (next : A → Result B) {v : B}
    → (first >>= next) ≡ ok v
    → (u : A) × (first ≡ ok u) × (next u ≡ ok v)
bind-eq-ok (ok u) next whole = (u, refl, whole)
bind-eq-ok (err e) next whole = cc

pub Result-cases {ℓ} :
    {A : Type ℓ} (r : Result A) → ((a : A) × (r ≡ ok a)) ⊎ ((e : AsmError) × (r ≡ err e))
Result-cases (ok a) = inl (a, refl)
Result-cases (err e) = inr (e, refl)

-- What holds of the value, if there is one.
abbrev pub ResultAll {ℓ κ} : {A : Type ℓ} → (A → Type κ) → Result A → Type κ
ResultAll P (ok a) = P a
ResultAll P (err e) = Unit
