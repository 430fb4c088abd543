-- ===== src/Assembler/Parser/Printed.antt =====
-- A line of the source language, printed, lexed and parsed.
use educpu.Prelude.{
  ℕ, ◌≤◌, ◌<◌, ◌≡◌, inl, inr, refl, arith, Bool, true, false, List, [], ◌∷◌, ◌++◌, none, length,
  All,
}
use educpu.Assembler.Errors.{ok}
use educpu.Assembler.Text.{Text, codes}
use educpu.Assembler.Numbers.Literals.{
  Radix, decimal, hexadecimal, binary, base, prefix, sign, digit_code, digit_codes,
}
use educpu.Assembler.Lexer.{is_alnum, is_ident_cont, max_tokens_per_line, lex_line}
use educpu.Assembler.Lexer.Print.{Printable, print_tokens}
use educpu.Assembler.Lexer.ReadBack.{lex_line-print_tokens}
use educpu.Assembler.Parser.{tok_number, tok_directive, Token, TokenLine, parse_line}
use educpu.Assembler.Parser.Source.{
  Number, IsNumber, literal, Arg, reg, num, name, tok, arg_token, arg_tokens, IsArg, Stmt, empty,
  instr, org, word, ascii, equ, IsStmt, stmt_tokens, Line, plain, labelled, IsLine, line_tokens,
  parsed_line,
}
use educpu.Assembler.Parser.ReadBack.{parse_line-line_tokens}

abbrev pub IsPrintable : Token → Type 0
IsPrintable t = Printable t.kind t.text

digit_code-alnum : (d : ℕ) → d < 16 → is_alnum (digit_code d) ≡ true
digit_code-alnum d h = ground arith

base-le : (r : Radix) → base r ≤ 16
base-le decimal = omega arith
base-le hexadecimal = omega arith
base-le binary = omega arith

digit_codes-alnum :
    (r : Radix) (ds : List ℕ)
    → All (λ d. d < base r) ds
    → All (λ c. is_alnum c ≡ true) (digit_codes ds)
digit_codes-alnum r [] h = tt
digit_codes-alnum r (d ∷ ds) h =
    (digit_code-alnum d (omega (arith, base-le r, h.0)), digit_codes-alnum r ds h.1)

length-digit_codes : (ds : List ℕ) → length (digit_codes ds) ≡ length ds
length-digit_codes [] = refl
length-digit_codes (d ∷ ds) = omega (arith, length-digit_codes ds)

-- A literal that starts with a sign, and one that does not.
literal_text-Printable :
    (negative : Bool) (r : Radix) (d : ℕ) (ds : List ℕ)
    → All (λ e. e < base r) (d ∷ ds)
    → length ds ≤ 100
    → Printable tok_number (sign negative ++ prefix r ++ digit_codes (d ∷ ds))
literal_text-Printable false decimal d [] h few = ground arith
literal_text-Printable false decimal d (e ∷ ds) h few = (
  inl (ground arith, digit_code-alnum e (omega arith)),
  (digit_codes-alnum decimal ds h.1.1, omega (arith, length-digit_codes ds)),
)
literal_text-Printable true decimal d ds h few = (
  inr (refl, ground arith),
  (digit_codes-alnum decimal ds h.1, omega (arith, length-digit_codes ds)),
)
literal_text-Printable false hexadecimal d ds h few = (
  inl (refl, refl),
  (digit_codes-alnum hexadecimal (d ∷ ds) h, omega (arith, length-digit_codes ds)),
)
literal_text-Printable true hexadecimal d ds h few = (
  inr (refl, refl),
  ((refl, digit_codes-alnum hexadecimal (d ∷ ds) h), omega (arith, length-digit_codes ds)),
)
literal_text-Printable false binary d ds h few =
    (inl (refl, refl), (digit_codes-alnum binary (d ∷ ds) h, omega (arith, length-digit_codes ds)))
literal_text-Printable true binary d ds h few = (
  inr (refl, refl),
  ((refl, digit_codes-alnum binary (d ∷ ds) h), omega (arith, length-digit_codes ds)),
)

literal-Printable : (n : Number) → IsNumber n → Printable tok_number (literal n)
literal-Printable n h =
    literal_text-Printable n.negative n.radix n.first n.digits h.digits_fit h.few_digits

arg_token-IsPrintable : (a : Arg) → IsArg a → IsPrintable (arg_token a)
arg_token-IsPrintable (reg n) h = (refl, ground arith, ((ground arith, tt), omega arith))
arg_token-IsPrintable (num n) h = literal-Printable n h
arg_token-IsPrintable (name s) h = h.0

arg_tokens-IsPrintable : (args : List Arg) → All IsArg args → All IsPrintable (arg_tokens args)
arg_tokens-IsPrintable [] h = tt
arg_tokens-IsPrintable (a ∷ args) h = (arg_token-IsPrintable a h.0, arg_tokens-IsPrintable args h.1)

-- The name of a directive.
directive-IsPrintable :
    (w : Text)
    → All (λ c. is_ident_cont c ≡ true) w
    → length w ≤ 10
    → IsPrintable (tok tok_directive (b'.' ∷ w))
directive-IsPrintable w h few = (refl, (h, omega arith))

stmt_tokens-IsPrintable : (s : Stmt) → IsStmt s → All IsPrintable (stmt_tokens s)
stmt_tokens-IsPrintable empty h = tt
stmt_tokens-IsPrintable (instr m args) h = (h.0, arg_tokens-IsPrintable args h.1)
stmt_tokens-IsPrintable (org n) h =
    (directive-IsPrintable (codes "org") (ground arith) (omega arith), (literal-Printable n h, tt))
stmt_tokens-IsPrintable (word a) h = (
  directive-IsPrintable (codes "word") (ground arith) (omega arith),
  (arg_token-IsPrintable a h, tt),
)
stmt_tokens-IsPrintable (ascii s) h =
    (directive-IsPrintable (codes "ascii") (ground arith) (omega arith), (h, tt))
stmt_tokens-IsPrintable (equ s n) h = (
  directive-IsPrintable (codes "equ") (ground arith) (omega arith),
  (h.0, (literal-Printable n h.1, tt)),
)

line_tokens-IsPrintable : (l : Line) → IsLine l → All IsPrintable (line_tokens l)
line_tokens-IsPrintable (plain s) h = stmt_tokens-IsPrintable s h
line_tokens-IsPrintable (labelled l s) h = (h.0, stmt_tokens-IsPrintable s h.1)

length-arg_tokens : (args : List Arg) → length (arg_tokens args) ≡ length args
length-arg_tokens [] = refl
length-arg_tokens (a ∷ args) = omega (arith, length-arg_tokens args)

length-stmt_tokens : (s : Stmt) → IsStmt s → length (stmt_tokens s) ≤ 4
length-stmt_tokens empty h = omega arith
length-stmt_tokens (instr m args) h = omega (arith, length-arg_tokens args, h.2)
length-stmt_tokens (org n) h = omega arith
length-stmt_tokens (word a) h = omega arith
length-stmt_tokens (ascii s) h = omega arith
length-stmt_tokens (equ s n) h = omega arith

length-line_tokens : (l : Line) → IsLine l → length (line_tokens l) ≤ max_tokens_per_line
length-line_tokens (plain s) h = omega (arith, length-stmt_tokens s h)
length-line_tokens (labelled l s) h = omega (arith, length-stmt_tokens s h.1)

abbrev pub print_line : Line → Text
print_line l = print_tokens (line_tokens l)

-- A line of the source language, as `IsLine` says, that is printed with a space after each token is
-- lexed and then parsed without an error as that line: its label, its mnemonic or directive, and
-- its operands with their kinds and values. `IsLine` says that its names and strings are such as
-- the lexer reads as one token, that no name of an operand is that of a register, that registers
-- are below 8, that a literal has digits of its base, 101 at most, and a value below 2 ^ 31, and
-- that an instruction has three operands at most.
pub parse_line-print_line :
    (l : Line) (n : ℕ)
    → IsLine l
    → (tl : TokenLine) × (lex_line (print_line l) n ≡ ok tl)
      × (parse_line tl ≡ (parsed_line l n, none))
parse_line-print_line l n h = (
  record { tokens = line_tokens l; line_no = n },
  lex_line-print_tokens (line_tokens l) n (line_tokens-IsPrintable l h) (length-line_tokens l h),
  parse_line-line_tokens l n h,
)
