-- ===== src/Assembler/Numbers.antt =====
-- The number reader of assembler/parser.c: `parse_number`, with `strtol` as ISO C has it (2011), for a `long`
-- of 64 bits. `strtol` returns the value and the text from its end pointer on.
pub mod Literals
use educpu.Prelude.{
  ℕ, zero, suc, ◌+◌, ◌-◌, ◌*◌, ◌%◌, ◌^◌, Bool, true, false, ◌&&◌, ◌||◌, List, [], ◌∷◌, Option, none,
  some, length, ltb, leb, ◌==◌, if◌then◌else◌,
}
use educpu.Prelude.Int.{ℤ, pos, negsuc}
use educpu.Assembler.Text.{Text}

-- `isspace`, `isdigit`
abbrev pub is_space : ℕ → Bool
is_space c = c == b' ' || (leb 9 c && leb c 13)

abbrev pub is_digit : ℕ → Bool
is_digit c = leb b'0' c && leb c b'9'

-- The value of a digit of some base up to 36, or 36.
abbrev pub digit_value : ℕ → ℕ
digit_value c =
    if is_digit c
    then c - b'0'
    else if leb b'a' c && leb c b'z'
    then c - b'a' + 10
    else if leb b'A' c && leb c b'Z'
    then c - b'A' + 10
    else 36

unfoldable pub digits_loop : ℕ → ℕ → Text → ℕ × Text
digits_loop base acc [] = (acc, [])
digits_loop base acc (c ∷ s) =
    let rest = digits_loop base (acc * base + digit_value c) s in
    if ltb (digit_value c) base then rest else (acc, c ∷ s)

unfoldable pub skip_space : Text → Text
skip_space [] = []
skip_space (c ∷ s) = if is_space c then skip_space s else c ∷ s

-- Whether a sign is a minus, and the text after the sign.
unfoldable pub after_sign : Text → Bool × Text
after_sign [] = (false, [])
after_sign (c ∷ s) =
    if c == b'+' then (false, s) else if c == b'-' then (true, s) else (false, c ∷ s)

unfoldable pub skip_prefix : ℕ → Text → Text
skip_prefix base (z ∷ x ∷ d ∷ s) =
    if base == 16 && z == b'0' && (x == b'x' || x == b'X') && ltb (digit_value d) 16
    then d ∷ s
    else z ∷ x ∷ d ∷ s
skip_prefix base s = s

unfoldable pub negate : ℤ → ℤ
negate (pos zero) = pos 0
negate (pos (suc n)) = negsuc n
negate (negsuc n) = pos (suc n)

-- `n` or its negation, at most LONG_MAX and at least LONG_MIN.
unfoldable pub clamped : Bool → ℕ → ℤ
clamped false n = if leb (2 ^ 63) n then pos (2 ^ 63 - 1) else pos n
clamped true zero = pos 0
clamped true (suc n) = if leb (2 ^ 63) n then negsuc (2 ^ 63 - 1) else negsuc n

-- No digit: the value 0, and the end pointer where it was.
unfoldable pub strtol : Text → ℕ → ℤ × Text
unfolding digits_loop skip_space after_sign skip_prefix clamped
strtol s base =
    let (negative, unsigned) = after_sign (skip_space s) in
    let digits = skip_prefix base unsigned in
    let (n, rest) = digits_loop base 0 digits in
    if length rest == length digits then (pos 0, s) else (clamped negative n, rest)

-- The conversion to int32_t.
unfoldable pub to_i32 : ℤ → ℤ
to_i32 (pos n) =
    if ltb (n % 2 ^ 32) (2 ^ 31) then pos (n % 2 ^ 32) else negsuc (2 ^ 32 - 1 - n % 2 ^ 32)
to_i32 (negsuc n) =
    if ltb (n % 2 ^ 32) (2 ^ 31) then negsuc (n % 2 ^ 32) else pos (2 ^ 32 - 1 - n % 2 ^ 32)

-- The base that a prefix names, and the text after the prefix.
unfoldable pub base_of : Text → ℕ × Text
base_of (z ∷ x ∷ s) =
    if z == b'0' && (x == b'x' || x == b'X')
    then (16, s)
    else if z == b'0' && (x == b'b' || x == b'B')
    then (2, s)
    else (10, z ∷ x ∷ s)
base_of s = (10, s)

-- From `char *end = NULL` on.
unfoldable pub convert : Bool → ℕ → Text → Option ℤ
unfolding strtol negate to_i32
convert negative base p =
    let (v, rest) = strtol p base in
    if length rest == length p || leb 1 (length rest)
    then none
    else some (to_i32 (if negative then negate v else v))

unfoldable pub number_at : Bool → Text → Option ℤ
unfolding base_of convert
number_at negative [] = none
number_at negative (c ∷ s) = let (base, digits) = base_of (c ∷ s) in convert negative base digits

unfoldable pub parse_number : Text → Option ℤ
unfolding after_sign number_at
parse_number [] = none
parse_number (c ∷ s) = let (negative, p) = after_sign (c ∷ s) in number_at negative p
