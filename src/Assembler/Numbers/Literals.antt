-- ===== src/Assembler/Numbers/Literals.antt =====
-- What `parse_number` makes of a literal: a sign, a prefix and digits.
use native.Mathlib.Nat.{pow-suc, pow-zero}
use educpu.Prelude.{
  ℕ, zero, suc, ◌+◌, ◌-◌, ◌*◌, ◌^◌, ◌≤◌, ◌<◌, ◌≡◌, ◌∙◌, refl, ap, arith, Bool, true, false, ◌||◌,
  List, [], ◌∷◌, ◌++◌, some, length, ltb, ◌==◌, if◌then◌else◌, if_yes, if_not, All,
}
use educpu.Prelude.Int.{ℤ, pos, negsuc}
use educpu.Assembler.Text.{Text, codes}
use educpu.Assembler.Numbers.{
  digit_value, digits_loop, skip_space, after_sign, skip_prefix, negate, clamped, strtol, to_i32,
  base_of, convert, number_at, parse_number,
}

pub data Radix : Type 0 where
  decimal hexadecimal binary : Radix

abbrev pub base : Radix → ℕ
base decimal = 10
base hexadecimal = 16
base binary = 2

abbrev pub prefix : Radix → Text
prefix decimal = []
prefix hexadecimal = codes "0x"
prefix binary = codes "0b"

abbrev pub sign : Bool → Text
sign false = []
sign true = codes "-"

-- The digit of a value below 16.
abbrev pub digit_code : ℕ → ℕ
digit_code d = if ltb d 10 then b'0' + d else b'a' + d - 10

abbrev pub digit_codes : List ℕ → Text
digit_codes [] = []
digit_codes (d ∷ ds) = digit_code d ∷ digit_codes ds

-- The number that digits stand for: each weighs the base to the power of the digits after it.
abbrev pub place_value : ℕ → List ℕ → ℕ
place_value b [] = 0
place_value b (d ∷ ds) = d * b ^ length ds + place_value b ds

abbrev pub signed : Bool → ℕ → ℤ
signed false n = pos n
signed true zero = pos 0
signed true (suc n) = negsuc n

digit_value-digit_code : (d : ℕ) → d < 16 → digit_value (digit_code d) ≡ d
digit_value-digit_code d h = ground arith

shift_in : (b acc d n v : ℕ) → (acc * b + d) * b ^ n + v ≡ acc * b ^ suc n + (d * b ^ n + v)
shift_in b acc d n v = grind (arith, pow-suc b n)

pub digits_loop-digit_codes :
    (b acc : ℕ) (ds : List ℕ)
    → b ≤ 16
    → All (λ d. d < b) ds
    → digits_loop b acc (digit_codes ds) ≡ (acc * b ^ length ds + place_value b ds, [])
unfolding digits_loop
digits_loop-digit_codes b acc [] small fits =
    ap (λ (n : ℕ). (n, [])) (let e : acc ≡ acc * b ^ 0 + 0 = grind (arith, pow-zero b) in e)
digits_loop-digit_codes b acc (d ∷ ds) small fits =
    let is : digit_value (digit_code d) ≡ d = digit_value-digit_code d (omega arith) in
    if_yes {b = ltb (digit_value (digit_code d)) b} _ _ (rw is (ground arith))
    ∙ digits_loop-digit_codes b (acc * b + digit_value (digit_code d)) ds small fits.1
    ∙ ap (λ (n : ℕ). (n, []))
        (ap (λ (t : ℕ). (acc * b + t) * b ^ length ds + place_value b ds) is
          ∙ shift_in b acc d (length ds) (place_value b ds))

-- A text that starts with a digit has no space, sign or second prefix to skip.
pub skip_space-digit_code :
    (d : ℕ) (s : Text) → d < 16 → skip_space (digit_code d ∷ s) ≡ digit_code d ∷ s
unfolding skip_space
skip_space-digit_code d s h = ground arith

pub after_sign-digit_code :
    (d : ℕ) (s : Text) → d < 16 → after_sign (digit_code d ∷ s) ≡ (false, digit_code d ∷ s)
unfolding after_sign
after_sign-digit_code d s h = ground arith

pub skip_prefix-digit_codes :
    (b : ℕ) (ds : List ℕ) → All (λ d. d < 16) ds → skip_prefix b (digit_codes ds) ≡ digit_codes ds
unfolding skip_prefix
skip_prefix-digit_codes b [] fits = refl
skip_prefix-digit_codes b (d ∷ []) fits = refl
skip_prefix-digit_codes b (d ∷ x ∷ []) fits = refl
skip_prefix-digit_codes b (d ∷ x ∷ e ∷ ds) fits = ground arith

base_of-digit_codes :
    (ds : List ℕ) → All (λ d. d < 10) ds → base_of (digit_codes ds) ≡ (10, digit_codes ds)
unfolding base_of
base_of-digit_codes [] fits = refl
base_of-digit_codes (d ∷ []) fits = refl
base_of-digit_codes (d ∷ x ∷ ds) fits = ground arith

All-wider : (b : ℕ) (ds : List ℕ) → b ≤ 16 → All (λ d. d < b) ds → All (λ d. d < 16) ds
All-wider b [] small fits = fits
All-wider b (d ∷ ds) small fits = (omega arith, All-wider b ds small fits.1)

to_i32-signed :
    (negative : Bool) (v : ℕ)
    → v < 2 ^ 31
    → to_i32 (if negative then negate (pos v) else pos v) ≡ signed negative v
unfolding to_i32 negate
to_i32-signed false v h = ground arith
to_i32-signed true zero h = refl
to_i32-signed true (suc v) h = ground arith

module _ (b d : ℕ) (ds : List ℕ) (small : b ≤ 16) (fits : All (λ e. e < b) (d ∷ ds))
    (in_range : place_value b (d ∷ ds) < 2 ^ 31) where
  strtol-digit_codes : strtol (digit_codes (d ∷ ds)) b ≡ (pos (place_value b (d ∷ ds)), [])
  unfolding strtol clamped
  strtol-digit_codes =
      let wide = All-wider b (d ∷ ds) small fits in
      rw
        (
          skip_space-digit_code d (digit_codes ds) wide.0,
          after_sign-digit_code d (digit_codes ds) wide.0,
          skip_prefix-digit_codes b (d ∷ ds) wide,
          digits_loop-digit_codes b 0 (d ∷ ds) small fits,
        )
        (let v = place_value b (d ∷ ds) in
          let shifted : 0 * b ^ suc (length ds) + v ≡ v = omega arith in rw shifted (ground arith))

  convert-digit_codes :
      (negative : Bool)
      → convert negative b (digit_codes (d ∷ ds)) ≡ some (signed negative (place_value b (d ∷ ds)))
  unfolding convert to_i32 negate
  convert-digit_codes negative = rw strtol-digit_codes (
      if_not {b = length {A = ℕ} [] == suc (length (digit_codes ds)) || false} _ _ (ground arith)
      ∙ ap some (to_i32-signed negative _ in_range))

-- A literal of a sign, a prefix and at least one digit, with a value below 2 ^ 31, is read as the
-- number that its digits stand for in its base.
pub parse_number-literal :
    (negative : Bool) (r : Radix) (d : ℕ) (ds : List ℕ)
    → All (λ e. e < base r) (d ∷ ds)
    → place_value (base r) (d ∷ ds) < 2 ^ 31
    → parse_number (sign negative ++ prefix r ++ digit_codes (d ∷ ds))
      ≡ some (signed negative (place_value (base r) (d ∷ ds)))
unfolding parse_number after_sign number_at base_of
parse_number-literal false decimal d ds fits in_range =
    rw (after_sign-digit_code d (digit_codes ds) (omega arith), base_of-digit_codes (d ∷ ds) fits)
      (convert-digit_codes 10 d ds (omega arith) fits in_range false)
parse_number-literal true decimal d ds fits in_range =
    rw (base_of-digit_codes (d ∷ ds) fits)
      (convert-digit_codes 10 d ds (omega arith) fits in_range true)
parse_number-literal false hexadecimal d ds fits in_range =
    convert-digit_codes 16 d ds (omega arith) fits in_range false
parse_number-literal true hexadecimal d ds fits in_range =
    convert-digit_codes 16 d ds (omega arith) fits in_range true
parse_number-literal false binary d ds fits in_range =
    convert-digit_codes 2 d ds (omega arith) fits in_range false
parse_number-literal true binary d ds fits in_range =
    convert-digit_codes 2 d ds (omega arith) fits in_range true
