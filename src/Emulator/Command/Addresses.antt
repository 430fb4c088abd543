-- ===== src/Emulator/Command/Addresses.antt =====
-- What `parse_hex_addr` makes of digits.
use educpu.Prelude.{
  ℕ, suc, ◌+◌, ◌*◌, ◌/◌, ◌%◌, refl, ◌^◌, ◌<◌, ◌≡◌, ◌∙◌, sym, ap, arith, false, ◌||◌, List, [], ◌∷◌,
  Option, none, some, length, leb, ltb, ◌==◌, if◌then◌else◌, if_yes, if_not, if_cases, All,
}
use educpu.Assembler.Text.{Text}
use educpu.Assembler.Numbers.Literals.{
  digit_codes, place_value, digits_loop-digit_codes, skip_space-digit_code, after_sign-digit_code,
  skip_prefix-digit_codes,
}
use educpu.Assembler.Numbers.{digits_loop, digit_value, skip_space, after_sign, skip_prefix}
use educpu.Assembler.Text.Printf.{hex_digit, hex_word}
use educpu.Emulator.Command.{strtoul, hex_addr, parse_hex_addr}

hex_addr-read :
    (s : Text) (n v : ℕ)
    → n ≡ v
    → 0 < length s
    → hex_addr s
        (if 0 == length s then some (0, s) else if leb (2 ^ 64) n then none else some (n, []))
      ≡ (if leb v 0xffff then some v else none)
unfolding hex_addr
hex_addr-read s n v same some_bytes =
    ap (hex_addr s) (if_not {b = 0 == length s} _ _ (ground arith))
    ∙ if_cases (λ (o : Option (ℕ × Text)). hex_addr s o ≡ (if leb v 0xffff then some v else none))
        (leb (2 ^ 64) n) (λ large. sym (if_not {b = leb v 0xffff} _ _ (ground arith)))
        (λ _.
          if_cases (λ (o : Option ℕ). o ≡ (if leb v 0xffff then some v else none))
            (0 == length s || false || ltb 0xffff n)
            (λ refused. sym (if_not {b = leb v 0xffff} _ _ (ground arith)))
            (λ taken. ap some same ∙ sym (if_yes {b = leb v 0xffff} _ _ (ground arith))))

-- Hexadecimal digits, one at least, are read as the number that they stand for, if it is an address,
-- and are refused otherwise, however many they are.
pub parse_hex_addr-digit_codes :
    (d : ℕ) (ds : List ℕ)
    → All (λ (v : ℕ). v < 16) (d ∷ ds)
    → parse_hex_addr (digit_codes (d ∷ ds))
      ≡ (if leb (place_value 16 (d ∷ ds)) 0xffff then some (place_value 16 (d ∷ ds)) else none)
unfolding parse_hex_addr strtoul hex_addr
parse_hex_addr-digit_codes d ds fits =
    rw
      (
        skip_space-digit_code d (digit_codes ds) fits.0,
        after_sign-digit_code d (digit_codes ds) fits.0,
        skip_prefix-digit_codes 16 (d ∷ ds) fits,
        digits_loop-digit_codes 16 0 (d ∷ ds) (omega arith) fits,
      )
      (hex_addr-read (digit_codes (d ∷ ds)) (0 * 16 ^ suc (length ds) + place_value 16 (d ∷ ds))
        (place_value 16 (d ∷ ds)) (omega arith) (omega arith))

digits_loop-hex_digit :
    (acc d : ℕ) (s : Text)
    → d < 16
    → digits_loop 16 acc (hex_digit d ∷ s) ≡ digits_loop 16 (acc * 16 + d) s
unfolding digits_loop
digits_loop-hex_digit acc d s h =
    let is : digit_value (hex_digit d) ≡ d = ground arith in
    if_yes {b = ltb (digit_value (hex_digit d)) 16} _ _ (rw is (ground arith))
    ∙ ap (λ (v : ℕ). digits_loop 16 (acc * 16 + v) s) is

skip_space-hex_digit : (d : ℕ) (s : Text) → d < 16 → skip_space (hex_digit d ∷ s) ≡ hex_digit d ∷ s
unfolding skip_space
skip_space-hex_digit d s h = ground arith

after_sign-hex_digit :
    (d : ℕ) (s : Text) → d < 16 → after_sign (hex_digit d ∷ s) ≡ (false, hex_digit d ∷ s)
unfolding after_sign
after_sign-hex_digit d s h = ground arith

skip_prefix-hex_digit :
    (a b c : ℕ) (s : Text)
    → b < 16
    → skip_prefix 16 (hex_digit a ∷ hex_digit b ∷ c ∷ s) ≡ hex_digit a ∷ hex_digit b ∷ c ∷ s
unfolding skip_prefix
skip_prefix-hex_digit a b c s h = ground arith

digits_loop-hex_word : (w : ℕ) → w < 2 ^ 16 → digits_loop 16 0 (hex_word w) ≡ (w, [])
unfolding digits_loop
digits_loop-hex_word w h =
    let a = w / 2 ^ 12 % 16 in
    let b = w / 2 ^ 8 % 16 in
    let c = w / 2 ^ 4 % 16 in
    let same : (((0 * 16 + a) * 16 + b) * 16 + c) * 16 + w % 16 ≡ w = omega arith in
    let last = hex_digit (w % 16) ∷ [] in
    digits_loop-hex_digit 0 a (hex_digit b ∷ hex_digit c ∷ last) (omega arith)
    ∙ digits_loop-hex_digit (0 * 16 + a) b (hex_digit c ∷ last) (omega arith)
    ∙ digits_loop-hex_digit ((0 * 16 + a) * 16 + b) c last (omega arith)
    ∙ digits_loop-hex_digit (((0 * 16 + a) * 16 + b) * 16 + c) (w % 16) [] (omega arith)
    ∙ ap (λ (v : ℕ). (v, [])) same

-- An address as the dumps print it is read as that address.
pub parse_hex_addr-hex_word : (w : ℕ) → w < 2 ^ 16 → parse_hex_addr (hex_word w) ≡ some w
unfolding parse_hex_addr strtoul
parse_hex_addr-hex_word w h =
    let a = w / 2 ^ 12 % 16 in
    let b = w / 2 ^ 8 % 16 in
    let c = hex_digit (w / 2 ^ 4 % 16) in
    let last = hex_digit (w % 16) ∷ [] in
    rw
      (
        skip_space-hex_digit a (hex_digit b ∷ c ∷ last) (omega arith),
        after_sign-hex_digit a (hex_digit b ∷ c ∷ last) (omega arith),
        skip_prefix-hex_digit a b c last (omega arith),
        digits_loop-hex_word w h,
      )
      (hex_addr-read (hex_word w) w w refl (omega arith)
        ∙ if_yes {b = leb w 0xffff} _ _ (ground arith))
