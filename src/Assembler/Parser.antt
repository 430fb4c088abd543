-- ===== src/Assembler/Parser.antt =====
-- assembler/parser.c, with the tokens of assembler/lexer.h and the parsed lines of
-- assembler/parser.h. A function that fills an object and returns whether it succeeded returns the
-- object as it leaves it, and the code of the error that it reports, if any.
pub mod Shape
pub mod Line
pub mod Source
pub mod ReadBack
pub mod Printed
pub mod Numbering
use educpu.Prelude.{
  ℕ, suc, ◌+◌, ◌-◌, Bool, not, ◌&&◌, ◌||◌, List, [], ◌∷◌, Option, none, some, length, set,
  replicate, leb, ◌==◌, if◌then◌else◌,
}
use educpu.Prelude.Int.{ℤ}
use educpu.Isa.{num_regs}
use educpu.Assembler.Errors.{
  AsmError, wrong_operand_count, invalid_number, invalid_directive, unknown_mnemonic,
}
use educpu.Assembler.Text.{Text, codes, str_case_eq, take}
use educpu.Assembler.Numbers.{is_digit, parse_number}
use educpu.Assembler.Syntax.{
  Operand, opd_reg, opd_imm, opd_label, no_operand, OperandKind, Instr, operand,
}

pub data TokenKind : Type 0 where
  tok_none tok_ident tok_label tok_number tok_string tok_directive : TokenKind

pub record Token : Type 0 where
  pub kind : TokenKind
  pub text : Text

-- `count` is the length of `tokens`.
pub record TokenLine : Type 0 where
  pub tokens : List Token
  pub line_no : ℕ

abbrev pub max_token_len : ℕ
max_token_len = 127

pub data ParsedKind : Type 0 where
  pl_empty pl_label pl_instr pl_directive : ParsedKind

pub data DirectiveKind : Type 0 where
  dir_org dir_word dir_ascii dir_equ : DirectiveKind

pub record Directive : Type 0 where
  pub kind : DirectiveKind
  pub value : Operand
  pub str : Text
  pub str_len : ℕ
  pub name : Text

pub record ParsedLine : Type 0 where
  pub kind : ParsedKind
  pub line_no : ℕ
  pub address : ℕ
  pub label : Text
  pub instr : Instr
  pub dir : Directive

-- A parsed line of zero bytes.
abbrev pub no_line : ParsedLine
no_line = record {
  kind = pl_empty;
  line_no = 0;
  address = 0;
  label = [];
  instr = record { mnemonic = []; ops = replicate 3 no_operand; nops = 0 };
  dir = record { kind = dir_org; value = no_operand; str = []; str_len = 0; name = [] };
}

abbrev pub Parsed : Type 0
Parsed = ParsedLine × Option AsmError

-- `COPY_TOK`
abbrev pub copy_tok : Text → Text
copy_tok = take max_token_len

unfoldable pub parse_register : Text → Option ℕ
parse_register (c ∷ d ∷ []) =
    if (c == b'R' || c == b'r') && is_digit d && not (leb num_regs (d - b'0'))
    then some (d - b'0')
    else none
parse_register _ = none

register_or_label : Option ℕ → Text → Operand → Operand
register_or_label (some r) text op = record op { kind = opd_reg; reg = r }
register_or_label none text op = record op { kind = opd_label; label = copy_tok text }

number_operand : Option ℤ → Operand → Option Operand
number_operand none op = none
number_operand (some v) op = some (record op { kind = opd_imm; imm = v })

fill_by_kind : TokenKind → Text → Operand → Option Operand
fill_by_kind tok_number text op = number_operand (parse_number text) op
fill_by_kind tok_ident text op = some (register_or_label (parse_register text) text op)
fill_by_kind _ text op = none

-- `none` leaves the operand as it was.
unfoldable pub fill_value_operand : Token → Operand → Option Operand
unfolding fill_by_kind number_operand register_or_label
fill_value_operand t op = fill_by_kind t.kind t.text op

abbrev set_dir : ParsedLine → Directive → ParsedLine
set_dir out d = record out { dir = d }

-- `.org`, after its kind is set: the filled operand must be a number.
org_value : Option Operand → ParsedLine → Parsed
org_value none out = (out, some invalid_number)
org_value (some v) out = (
  set_dir out (record out.dir { value = v }),
  elim v.kind [ opd_imm ↦ none | _ ↦ some invalid_number ],
)

parse_org : List Token → ParsedLine → Parsed
unfolding org_value
parse_org [] out = (out, some wrong_operand_count)
parse_org (t ∷ ts) out =
    org_value (fill_value_operand t out.dir.value) (set_dir out (record out.dir { kind = dir_org }))

word_value : Option Operand → ParsedLine → Parsed
word_value none out = (out, some invalid_number)
word_value (some v) out = (set_dir out (record out.dir { value = v }), none)

parse_word : List Token → ParsedLine → Parsed
unfolding word_value
parse_word [] out = (out, some wrong_operand_count)
parse_word (t ∷ ts) out =
    word_value (fill_value_operand t out.dir.value)
      (set_dir out (record out.dir { kind = dir_word }))

ascii_value : TokenKind → Text → ParsedLine → Parsed
ascii_value tok_string s out =
    let n = if leb max_token_len (length s) then max_token_len else length s in
    (set_dir out (record out.dir { kind = dir_ascii; str = take n s; str_len = n }), none)
ascii_value _ s out = (out, some wrong_operand_count)

parse_ascii : List Token → ParsedLine → Parsed
unfolding ascii_value
parse_ascii [] out = (out, some wrong_operand_count)
parse_ascii (t ∷ ts) out = ascii_value t.kind t.text out

equ_value : Option ℤ → Text → ParsedLine → Parsed
equ_value none name out =
    (set_dir out (record out.dir { kind = dir_equ; name = copy_tok name }), some invalid_number)
equ_value (some v) name out = (
  set_dir out (record out.dir {
    kind = dir_equ;
    name = copy_tok name;
    value = record out.dir.value { kind = opd_imm; imm = v };
  }),
  none,
)

equ_kinds : TokenKind → TokenKind → Text → Text → ParsedLine → Parsed
unfolding equ_value
equ_kinds tok_ident tok_number name value out = equ_value (parse_number value) name out
equ_kinds _ _ name value out = (out, some wrong_operand_count)

parse_equ : List Token → ParsedLine → Parsed
unfolding equ_kinds
parse_equ (name ∷ value ∷ ts) out = equ_kinds name.kind value.kind name.text value.text out
parse_equ _ out = (out, some wrong_operand_count)

-- The directive `d` with the tokens after it.
unfoldable pub parse_directive : Token → List Token → ParsedLine → Parsed
unfolding parse_org parse_word parse_ascii parse_equ
parse_directive d args out =
    let out = record out { kind = pl_directive } in
    if str_case_eq d.text (codes ".org")
    then parse_org args out
    else if str_case_eq d.text (codes ".word")
    then parse_word args out
    else if str_case_eq d.text (codes ".ascii")
    then parse_ascii args out
    else if str_case_eq d.text (codes ".equ")
    then parse_equ args out
    else (out, some invalid_directive)

-- The loop over the operands: on an error `nops` is still 0.
unfoldable pub operands_loop : List Token → ℕ → Instr → Instr × Option AsmError
operands_loop [] n instr = (record instr { nops = n }, none)
operands_loop (t ∷ ts) n instr =
    if leb 3 n
    then (instr, some wrong_operand_count)
    else elim (fill_value_operand t (operand instr n)) [
      | none ↦ (instr, some wrong_operand_count)
      | some op ↦ operands_loop ts (n + 1) (record instr { ops = set instr.ops n op })
    ]

unfoldable pub parse_instruction : Token → List Token → ParsedLine → Parsed
unfolding operands_loop
parse_instruction head args out =
    let (instr, e) = operands_loop args 0 (record out.instr { mnemonic = copy_tok head.text }) in
    (record out { kind = pl_instr; instr = instr }, e)

parse_head : TokenKind → Token → List Token → ParsedLine → Parsed
unfolding parse_directive parse_instruction
parse_head tok_directive head args out = parse_directive head args out
parse_head tok_ident head args out = parse_instruction head args out
parse_head _ head args out = (out, some unknown_mnemonic)

-- What follows the label at the head of a line, if it has one.
parse_rest : List Token → ParsedLine → Parsed
unfolding parse_head
parse_rest [] out = (record out { kind = pl_label }, none)
parse_rest (head ∷ args) out = parse_head head.kind head args out

parse_first : TokenKind → Token → List Token → ParsedLine → Parsed
unfolding parse_rest
parse_first tok_label first rest out = parse_rest rest (record out { label = copy_tok first.text })
parse_first _ first rest out = parse_rest (first ∷ rest) out

parse_tokens : List Token → ParsedLine → Parsed
unfolding parse_first
parse_tokens [] out = (record out { kind = pl_empty }, none)
parse_tokens (first ∷ rest) out = parse_first first.kind first rest out

unfoldable pub parse_line : TokenLine → Parsed
unfolding parse_tokens
parse_line tl = parse_tokens tl.tokens (record no_line { line_no = tl.line_no })
