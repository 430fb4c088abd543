-- ===== src/Assembler/Text/Printf.antt =====
-- The conversions of printf that both programs use.
use educpu.Prelude.{
  ℕ, zero, suc, ◌+◌, ◌-◌, ◌*◌, ◌/◌, ◌%◌, ◌^◌, ◌<◌, ◌≡◌, ◌∙◌, ap, arith, [], ◌∷◌, ◌++◌, length,
  replicate, ltb, if◌then◌else◌, if_yes, if_not, Bool-cases, inl, inr,
}
use native.Mathlib.Nat.{pow-suc, pow-zero}
use educpu.Assembler.Text.{Text}
use educpu.Assembler.Numbers.{digits_loop, digit_value}

abbrev pub hex_digit : ℕ → ℕ
hex_digit d = if ltb d 10 then b'0' + d else b'A' + d - 10

-- `%04X` of a uint16_t, `%02X` of a uint8_t.
abbrev pub hex_word : ℕ → Text
hex_word w =
    hex_digit (w / 2 ^ 12 % 16)
    ∷ hex_digit (w / 2 ^ 8 % 16)
    ∷ hex_digit (w / 2 ^ 4 % 16)
    ∷ hex_digit (w % 16)
    ∷ []

abbrev pub hex_byte : ℕ → Text
hex_byte w = hex_digit (w / 2 ^ 4 % 16) ∷ hex_digit (w % 16) ∷ []

-- `%u` and `%d` of a number that is not negative: twenty digits are enough for 64 bits.
unfoldable pub decimal_loop : ℕ → ℕ → Text → Text
decimal_loop zero n s = s
decimal_loop (suc left) n s =
    let rest = decimal_loop left (n / 10) ((b'0' + n % 10) ∷ s) in
    if ltb n 10 then (b'0' + n % 10) ∷ s else rest

abbrev pub decimal : ℕ → Text
decimal n = decimal_loop 20 n []

-- `%5u` and `%-32s`, with the width.
abbrev pub pad_left : ℕ → Text → Text
pad_left width s = replicate (width - length s) b' ' ++ s

abbrev pub pad_right : ℕ → Text → Text
pad_right width s = s ++ replicate (width - length s) b' '

digits_loop-digit :
    (acc d : ℕ) (s : Text)
    → d < 10
    → digits_loop 10 acc ((b'0' + d) ∷ s) ≡ digits_loop 10 (acc * 10 + d) s
unfolding digits_loop
digits_loop-digit acc d s h =
    let is : digit_value (b'0' + d) ≡ d = ground arith in
    if_yes {b = ltb (digit_value (b'0' + d)) 10} _ _ (rw is (ground arith))
    ∙ ap (λ (v : ℕ). digits_loop 10 (acc * 10 + v) s) is

last_digit :
    (n : ℕ) (s : Text) → n < 10 → digits_loop 10 0 ((b'0' + n % 10) ∷ s) ≡ digits_loop 10 n s
last_digit n s h =
    let same : 0 * 10 + n % 10 ≡ n = omega arith in
    digits_loop-digit 0 (n % 10) s (omega arith) ∙ ap (λ (v : ℕ). digits_loop 10 v s) same

digits_loop-decimal_loop :
    (left n : ℕ) (s : Text)
    → n < 10 ^ suc left
    → digits_loop 10 0 (decimal_loop (suc left) n s) ≡ digits_loop 10 n s
unfolding decimal_loop
digits_loop-decimal_loop zero n s h =
    let small : n < 10 = omega (arith, pow-suc 10 0, pow-zero 10) in
    ap (digits_loop 10 0) (if_yes {b = ltb n 10} _ _ (ground arith)) ∙ last_digit n s small
digits_loop-decimal_loop (suc left) n s h = elim (Bool-cases (ltb n 10)) [
  | inl small ↦ ap (digits_loop 10 0) (if_yes _ _ small) ∙ last_digit n s (ground (arith, small))
  | inr large ↦
      let below : n / 10 < 10 ^ suc left = omega (arith, pow-suc 10 (suc left)) in
      let same : n / 10 * 10 + n % 10 ≡ n = omega arith in
      ap (digits_loop 10 0) (if_not _ _ large)
      ∙ digits_loop-decimal_loop left (n / 10) ((b'0' + n % 10) ∷ s) below
      ∙ digits_loop-digit (n / 10) (n % 10) s (omega arith)
      ∙ ap (λ (v : ℕ). digits_loop 10 v s) same
]

-- A number of 64 bits is printed whole: its digits are read back as the number.
pub digits_loop-decimal : (n : ℕ) → n < 2 ^ 64 → digits_loop 10 0 (decimal n) ≡ (n, [])
unfolding digits_loop
digits_loop-decimal n h = digits_loop-decimal_loop 19 n [] (omega arith)
