-- ===== src/Assembler/Lexer.antt =====
-- assembler/lexer.c: the tokens of one line. The text has no terminator; a token that is refused,
-- with a report of ERR_INTERNAL, is `err internal`, and what is left in the line then is dropped, as
-- the only caller does. The outer loop takes fuel: `none` says that the fuel ran out.
pub mod Ends
pub mod Print
pub mod ReadBack
pub mod Numbering
use educpu.Prelude.{
  ℕ, zero, suc, ◌+◌, Bool, not, ◌&&◌, ◌||◌, List, [], ◌∷◌, ◌++◌, Option, none, some, length, leb,
  ◌==◌, if◌then◌else◌, true, false,
}
use educpu.Assembler.Errors.{Result, ok, err, ◌>>=◌, internal}
use educpu.Assembler.Text.{Text, take}
use educpu.Assembler.Numbers.{is_space, is_digit}
use educpu.Assembler.Parser.{
  TokenKind, tok_ident, tok_label, tok_number, tok_string, tok_directive, Token, TokenLine,
  max_token_len,
}

abbrev pub max_tokens_per_line : ℕ
max_tokens_per_line = 16

-- `isalpha` and `isalnum`, in the C locale.
abbrev pub is_alpha : ℕ → Bool
is_alpha c = (leb b'A' c && leb c b'Z') || (leb b'a' c && leb c b'z')

abbrev pub is_alnum : ℕ → Bool
is_alnum c = is_alpha c || is_digit c

abbrev pub is_ident_start : ℕ → Bool
is_ident_start c = is_alpha c || c == b'_' || c == b'.'

abbrev pub is_ident_cont : ℕ → Bool
is_ident_cont c = is_alnum c || c == b'_'

-- The bytes before the first zero byte, which `\0` in a string literal makes.
unfoldable pub c_string : Text → Text
c_string [] = []
c_string (c ∷ s) = if c == 0 then [] else c ∷ c_string s

unfoldable pub push_token : List Token → TokenKind → Text → Result (List Token)
unfolding c_string
push_token ts kind text =
    if leb max_tokens_per_line (length ts)
    then err internal
    else ok (ts ++ record { kind = kind; text = take max_token_len (c_string text) } ∷ [])

-- Whitespace and commas.
unfoldable pub skip_blanks : Text → Text
skip_blanks [] = []
skip_blanks (c ∷ s) = if is_space c || c == b',' then skip_blanks s else c ∷ s

-- The byte that a backslash and this byte stand for.
abbrev pub escape : ℕ → ℕ
escape c =
    if c == b'n'
    then 10
    else if c == b't'
    then 9
    else if c == b'r'
    then 13
    else if c == b'0'
    then 0
    else c

-- `buf[n++] = c`, if the buffer has room.
unfoldable pub store : ℕ → ℕ → Result (Text × Text) → Result (Text × Text)
store n c rest =
    if leb max_token_len n then err internal else (rest >>= λ (r : Text × Text). ok (c ∷ r.0, r.1))

-- The loop over a string literal, `n` bytes of which are stored: the bytes, and the text after the
-- closing quote.
unfoldable pub string_loop : ℕ → Text → Result (Text × Text)
unfolding store
string_loop n [] = err internal
string_loop n (c ∷ []) = if c == b'"' then ok ([], []) else err internal
string_loop n (c ∷ e ∷ s) = elim (c == b'"') [
  | true ↦ ok ([], e ∷ s)
  | false ↦ elim (c == b'\\') [
    | true ↦ store n (escape e) (string_loop (n + 1) s)
    | false ↦ store n c (string_loop (n + 1) (e ∷ s))
  ]
]

-- A loop that stores bytes while they pass the test and the buffer has room: the bytes, and the rest
-- of the text.
unfoldable pub run_loop : (ℕ → ℕ → Bool) → ℕ → Text → Text × Text
run_loop test n [] = ([], [])
run_loop test n (c ∷ s) =
    let (stored, rest) = run_loop test (n + 1) s in
    if test n c && not (leb max_token_len n) then (c ∷ stored, rest) else ([], c ∷ s)

abbrev in_number : ℕ → ℕ → Bool
in_number n c = is_alnum c

abbrev in_ident : ℕ → ℕ → Bool
in_ident n c = is_ident_cont c || (n == 0 && c == b'.')

abbrev is_sign : ℕ → Bool
is_sign c = c == b'-' || c == b'+'

-- A number after its sign, `n` bytes of which are stored.
unfoldable pub unsigned_number : ℕ → Text → Text × Text
unfolding run_loop
unsigned_number n (z ∷ x ∷ s) =
    if z == b'0' && (x == b'x' || x == b'X' || x == b'b' || x == b'B')
    then (let (stored, rest) = run_loop in_number (n + 2) s in (z ∷ x ∷ stored, rest))
    else run_loop in_number n (z ∷ x ∷ s)
unsigned_number n s = run_loop in_number n s

unfoldable pub number_text : Text → Text × Text
unfolding unsigned_number
number_text [] = ([], [])
number_text (c ∷ s) =
    if is_sign c
    then (let (stored, rest) = unsigned_number 1 s in (c ∷ stored, rest))
    else unsigned_number 0 (c ∷ s)

-- A digit, or a sign and a digit.
unfoldable pub starts_number : Text → Bool
starts_number [] = false
starts_number (c ∷ []) = is_digit c
starts_number (c ∷ d ∷ s) = is_digit c || (is_sign c && is_digit d)

-- A colon after an identifier makes it a label.
unfoldable pub ident_end : Bool → Text → Text → TokenKind × Text × Text
ident_end is_directive word [] = (if is_directive then tok_directive else tok_ident, word, [])
ident_end is_directive word (c ∷ s) =
    if c == b':'
    then (tok_label, word, s)
    else (if is_directive then tok_directive else tok_ident, word, c ∷ s)

string_end : Result (Text × Text) → Result (TokenKind × Text × Text)
string_end r = r >>= λ (p : Text × Text). ok (tok_string, p.0, p.1)

-- The kind and text of the token that starts with byte `c`, and the rest of the line.
unfoldable pub next_token : ℕ → Text → Result (TokenKind × Text × Text)
unfolding string_end string_loop number_text starts_number ident_end run_loop
next_token c s =
    if c == b'"'
    then string_end (string_loop 0 s)
    else if starts_number (c ∷ s)
    then (let (word, rest) = number_text (c ∷ s) in ok (tok_number, word, rest))
    else if is_ident_start c
    then (let (word, rest) = run_loop in_ident 0 (c ∷ s) in ok (ident_end (c == b'.') word rest))
    else err internal

abbrev pub Lexed : Type 0
Lexed = Option (Result (List Token))

-- A round of the outer loop: the token is pushed, and the loop goes on.
unfoldable pub push_and_go :
    Result (TokenKind × Text × Text) → List Token → (Text → List Token → Lexed) → Lexed
push_and_go (err e) ts next = some (err e)
push_and_go (ok (kind, word, rest)) ts next = elim (push_token ts kind word) [
  | err e ↦ some (err e)
  | ok more ↦ next rest more
]

unfoldable pub lex_round : Text → List Token → (Text → List Token → Lexed) → Lexed
unfolding push_and_go
lex_round [] ts next = some (ok ts)
lex_round (c ∷ s) ts next = if c == b';' then some (ok ts) else push_and_go (next_token c s) ts next

unfoldable pub lex_loop : ℕ → Text → List Token → Lexed
unfolding lex_round
lex_loop zero s ts = none
lex_loop (suc fuel) s ts = lex_round (skip_blanks s) ts (lex_loop fuel)

lexed_line : ℕ → Lexed → Result TokenLine
lexed_line line_no none = err internal
lexed_line line_no (some (err e)) = err e
lexed_line line_no (some (ok ts)) = ok (record { tokens = ts; line_no = line_no })

-- A round takes a byte at least, so that there are fewer rounds than the fuel.
unfoldable pub lex_line : Text → ℕ → Result TokenLine
unfolding lexed_line lex_loop
lex_line src line_no = lexed_line line_no (lex_loop (suc (length src)) src [])
