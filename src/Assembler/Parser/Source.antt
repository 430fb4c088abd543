-- ===== src/Assembler/Parser/Source.antt =====
-- The lines of the source language, and the tokens that they are written with.
use educpu.Prelude.{
  ℕ, ◌+◌, ◌^◌, ◌≤◌, ◌<◌, ◌≡◌, Bool, List, [], ◌∷◌, ◌++◌, none, length, All, replicate,
}
use educpu.Prelude.Int.{ℤ}
use educpu.Isa.{num_regs}
use educpu.Assembler.Text.{Text, codes}
use educpu.Assembler.Numbers.Literals.{Radix, base, prefix, sign, digit_codes, place_value, signed}
use educpu.Assembler.Syntax.{Operand, opd_reg, opd_imm, opd_label, no_operand}
use educpu.Assembler.Lexer.Print.{Printable}
use educpu.Assembler.Parser.{
  TokenKind, tok_ident, tok_label, tok_number, tok_string, tok_directive, Token, ParsedLine,
  pl_label, pl_instr, pl_directive, dir_org, dir_word, dir_ascii, dir_equ, no_line, parse_register,
}

-- A literal: its sign, its base and its digits, one at least.
pub record Number : Type 0 where
  pub negative : Bool
  pub radix : Radix
  pub first : ℕ
  pub digits : List ℕ

pub record IsNumber (n : Number) : Type 0 where
  pub digits_fit : All (λ d. d < base n.radix) (n.first ∷ n.digits)
  pub value_fits : place_value (base n.radix) (n.first ∷ n.digits) < 2 ^ 31
  pub few_digits : length n.digits ≤ 100

abbrev pub literal : Number → Text
literal n = sign n.negative ++ prefix n.radix ++ digit_codes (n.first ∷ n.digits)

abbrev pub value : Number → ℤ
value n = signed n.negative (place_value (base n.radix) (n.first ∷ n.digits))

pub data Arg : Type 0 where
  reg : ℕ → Arg
  num : Number → Arg
  name : Text → Arg

abbrev pub tok : TokenKind → Text → Token
tok kind text = record { kind = kind; text = text }

abbrev pub arg_token : Arg → Token
arg_token (reg n) = tok tok_ident (b'R' ∷ (b'0' + n) ∷ [])
arg_token (num n) = tok tok_number (literal n)
arg_token (name s) = tok tok_ident s

abbrev pub arg_tokens : List Arg → List Token
arg_tokens [] = []
arg_tokens (a ∷ args) = arg_token a ∷ arg_tokens args

abbrev pub arg_operand : Arg → Operand
arg_operand (reg n) = record no_operand { kind = opd_reg; reg = n }
arg_operand (num n) = record no_operand { kind = opd_imm; imm = value n }
arg_operand (name s) = record no_operand { kind = opd_label; label = s }

-- The operands over those of a line of zero bytes.
abbrev pub arg_operands : List Arg → List Operand → List Operand
arg_operands [] ops = ops
arg_operands (a ∷ args) [] = []
arg_operands (a ∷ args) (o ∷ ops) = arg_operand a ∷ arg_operands args ops

abbrev pub IsIdent : Text → Type 0
IsIdent s = Printable tok_ident s

abbrev pub IsArg : Arg → Type 0
IsArg (reg n) = n < num_regs
IsArg (num n) = IsNumber n
IsArg (name s) = IsIdent s × (parse_register s ≡ none)

-- What a line says after its label.
pub data Stmt : Type 0 where
  empty : Stmt
  instr : Text → List Arg → Stmt
  org : Number → Stmt
  word : Arg → Stmt
  ascii : Text → Stmt
  equ : Text → Number → Stmt

abbrev pub IsStmt : Stmt → Type 0
IsStmt empty = Unit
IsStmt (instr m args) = IsIdent m × All IsArg args × (length args ≤ 3)
IsStmt (org n) = IsNumber n
IsStmt (word a) = IsArg a
IsStmt (ascii s) = Printable tok_string s
IsStmt (equ s n) = IsIdent s × IsNumber n

abbrev pub stmt_tokens : Stmt → List Token
stmt_tokens empty = []
stmt_tokens (instr m args) = tok tok_ident m ∷ arg_tokens args
stmt_tokens (org n) = tok tok_directive (codes ".org") ∷ tok tok_number (literal n) ∷ []
stmt_tokens (word a) = tok tok_directive (codes ".word") ∷ arg_token a ∷ []
stmt_tokens (ascii s) = tok tok_directive (codes ".ascii") ∷ tok tok_string s ∷ []
stmt_tokens (equ s n) =
    tok tok_directive (codes ".equ") ∷ tok tok_ident s ∷ tok tok_number (literal n) ∷ []

-- The line that the parser makes of it, over one with the label and the line number.
abbrev pub stmt_line : Stmt → ParsedLine → ParsedLine
stmt_line empty out = out
stmt_line (instr m args) out = record out {
  kind = pl_instr;
  instr = record {
    mnemonic = m;
    ops = arg_operands args (replicate 3 no_operand);
    nops = length args;
  };
}
stmt_line (org n) out = record out {
  kind = pl_directive;
  dir = record out.dir { kind = dir_org; value = arg_operand (num n) };
}
stmt_line (word a) out = record out {
  kind = pl_directive;
  dir = record out.dir { kind = dir_word; value = arg_operand a };
}
stmt_line (ascii s) out = record out {
  kind = pl_directive;
  dir = record out.dir { kind = dir_ascii; str = s; str_len = length s };
}
stmt_line (equ s n) out = record out {
  kind = pl_directive;
  dir = record out.dir { kind = dir_equ; name = s; value = arg_operand (num n) };
}

-- A line, with a label or without one.
pub data Line : Type 0 where
  plain : Stmt → Line
  labelled : Text → Stmt → Line

-- A label may start with a dot.
abbrev pub IsLine : Line → Type 0
IsLine (plain s) = IsStmt s
IsLine (labelled l s) = Printable tok_label l × IsStmt s

abbrev pub line_tokens : Line → List Token
line_tokens (plain s) = stmt_tokens s
line_tokens (labelled l s) = tok tok_label l ∷ stmt_tokens s

abbrev pub parsed_line : Line → ℕ → ParsedLine
parsed_line (plain s) n = stmt_line s (record no_line { line_no = n })
parsed_line (labelled l s) n =
    stmt_line s (record no_line { kind = pl_label; line_no = n; label = l })
