-- ===== src/Assembler/Parser/ReadBack.antt =====
-- The parser on the tokens of a line of the source language.
use educpu.Prelude.{
  ℕ, ◌+◌, ◌≤◌, ◌≡◌, inl, refl, arith, List, [], ◌∷◌, none, some, length, All, leb, if◌then◌else◌,
}
use educpu.Assembler.Text.{Text, codes, take_all, str_case_eq}
use educpu.Assembler.Numbers.{parse_number}
use educpu.Assembler.Numbers.Literals.{parse_number-literal}
use educpu.Assembler.Syntax.{no_operand}
use educpu.Assembler.Lexer.Print.{Printable, Printable-whole}
use educpu.Assembler.Parser.{
  TokenKind, tok_ident, tok_label, tok_number, tok_string, tok_directive, max_token_len, ParsedLine,
  no_line, register_or_label, number_operand, fill_by_kind, fill_value_operand, copy_tok, parse_org,
  org_value, parse_word, word_value, parse_ascii, ascii_value, parse_equ, equ_kinds, equ_value,
  parse_directive, operands_loop, parse_instruction, parse_head, parse_rest, parse_first,
  parse_tokens, parse_line,
}
use educpu.Assembler.Parser.Shape.{parse_register_iff}
use educpu.Assembler.Parser.Source.{
  Number, IsNumber, literal, value, Arg, reg, num, name, tok, arg_token, arg_tokens, arg_operand,
  arg_operands, IsArg, empty, instr, org, word, ascii, equ, IsStmt, stmt_line, Line, plain,
  labelled, IsLine, line_tokens, parsed_line,
}

parse_number-value : (n : Number) → IsNumber n → parse_number (literal n) ≡ some (value n)
parse_number-value n h =
    parse_number-literal n.negative n.radix n.first n.digits h.digits_fit h.value_fits

copy_tok-Printable : (k : TokenKind) (s : Text) → Printable k s → copy_tok s ≡ s
copy_tok-Printable k s h = take_all max_token_len s (Printable-whole k s h).1

fill_value_operand-arg :
    (a : Arg) → IsArg a → fill_value_operand (arg_token a) no_operand ≡ some (arg_operand a)
unfolding fill_value_operand fill_by_kind number_operand register_or_label
fill_value_operand-arg (reg n) h =
    rw ((parse_register_iff (b'R' ∷ (b'0' + n) ∷ []) n).1 (h, inl refl)) refl
fill_value_operand-arg (num n) h = rw (parse_number-value n h) refl
fill_value_operand-arg (name s) (ident, other) =
    rw (other, copy_tok-Printable tok_ident s ident) refl

-- Up to three operands, in an instruction that has none yet.
operands_loop-args :
    (m : Text) (args : List Arg)
    → All IsArg args
    → length args ≤ 3
    → operands_loop (arg_tokens args) 0 (record no_line.instr { mnemonic = m }) ≡ (
      record { mnemonic = m; ops = arg_operands args no_line.instr.ops; nops = length args },
      none,
    )
unfolding operands_loop
operands_loop-args m [] h few = refl
operands_loop-args m (a ∷ []) h few = rw (fill_value_operand-arg a h.0) refl
operands_loop-args m (a ∷ b ∷ []) h few =
    rw (fill_value_operand-arg a h.0) (rw (fill_value_operand-arg b h.1.0) refl)
operands_loop-args m (a ∷ b ∷ c ∷ []) h few =
    rw (fill_value_operand-arg a h.0)
      (rw (fill_value_operand-arg b h.1.0) (rw (fill_value_operand-arg c h.1.1.0) refl))
operands_loop-args m (a ∷ b ∷ c ∷ d ∷ args) h few = absurd (omega arith)

-- The line before its statement is read: a label, or none, and nothing else.
abbrev start : ℕ → Text → ParsedLine
start n l = record no_line { line_no = n; label = l }

instr-read :
    (m : Text) (args : List Arg) (n : ℕ) (l : Text)
    → IsStmt (instr m args)
    → parse_instruction (tok tok_ident m) (arg_tokens args) (start n l)
      ≡ (stmt_line (instr m args) (start n l), none)
unfolding parse_instruction
instr-read m args n l (ident, fit, few) =
    rw (copy_tok-Printable tok_ident m ident) (rw (operands_loop-args m args fit few) refl)

fill_value_operand-number :
    (v : Number)
    → IsNumber v
    → fill_value_operand (tok tok_number (literal v)) no_operand ≡ some (arg_operand (num v))
fill_value_operand-number v h = fill_value_operand-arg (num v) h

org-read :
    (v : Number) (n : ℕ) (l : Text)
    → IsNumber v
    → parse_directive
        (tok tok_directive (codes ".org"))
        (tok tok_number (literal v) ∷ [])
        (start n l)
      ≡ (stmt_line (org v) (start n l), none)
unfolding parse_directive parse_org org_value str_case_eq
org-read v n l h = rw (fill_value_operand-number v h) refl

word-read :
    (a : Arg) (n : ℕ) (l : Text)
    → IsArg a
    → parse_directive (tok tok_directive (codes ".word")) (arg_token a ∷ []) (start n l)
      ≡ (stmt_line (word a) (start n l), none)
unfolding parse_directive parse_word word_value str_case_eq
word-read a n l h = rw (fill_value_operand-arg a h) refl

ascii-read :
    (s : Text) (n : ℕ) (l : Text)
    → Printable tok_string s
    → parse_directive (tok tok_directive (codes ".ascii")) (tok tok_string s ∷ []) (start n l)
      ≡ (stmt_line (ascii s) (start n l), none)
unfolding parse_directive parse_ascii ascii_value str_case_eq
ascii-read s n l h =
    let size : (if leb max_token_len (length s) then max_token_len else length s) ≡ length s =
      ground (arith, h) in
    rw size (rw (take_all (length s) s (omega arith)) refl)

equ-read :
    (s : Text) (v : Number) (n : ℕ) (l : Text)
    → IsStmt (equ s v)
    → parse_directive
        (tok tok_directive (codes ".equ"))
        (tok tok_ident s ∷ tok tok_number (literal v) ∷ [])
        (start n l)
      ≡ (stmt_line (equ s v) (start n l), none)
unfolding parse_directive parse_equ equ_kinds equ_value str_case_eq
equ-read s v n l (ident, fits) =
    rw (parse_number-value v fits) (rw (copy_tok-Printable tok_ident s ident) refl)

pub parse_line-line_tokens :
    (l : Line) (n : ℕ)
    → IsLine l
    → parse_line (record { tokens = line_tokens l; line_no = n }) ≡ (parsed_line l n, none)
unfolding parse_line parse_tokens parse_first parse_rest parse_head
parse_line-line_tokens (plain empty) n h = refl
parse_line-line_tokens (plain (instr m args)) n h = instr-read m args n [] h
parse_line-line_tokens (plain (org v)) n h = org-read v n [] h
parse_line-line_tokens (plain (word a)) n h = word-read a n [] h
parse_line-line_tokens (plain (ascii s)) n h = ascii-read s n [] h
parse_line-line_tokens (plain (equ s v)) n h = equ-read s v n [] h
parse_line-line_tokens (labelled l empty) n (label, h) =
    rw (copy_tok-Printable tok_label l label) refl
parse_line-line_tokens (labelled l (instr m args)) n (label, h) =
    rw (copy_tok-Printable tok_label l label) (instr-read m args n l h)
parse_line-line_tokens (labelled l (org v)) n (label, h) =
    rw (copy_tok-Printable tok_label l label) (org-read v n l h)
parse_line-line_tokens (labelled l (word a)) n (label, h) =
    rw (copy_tok-Printable tok_label l label) (word-read a n l h)
parse_line-line_tokens (labelled l (ascii s)) n (label, h) =
    rw (copy_tok-Printable tok_label l label) (ascii-read s n l h)
parse_line-line_tokens (labelled l (equ s v)) n (label, h) =
    rw (copy_tok-Printable tok_label l label) (equ-read s v n l h)
