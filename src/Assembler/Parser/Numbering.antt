-- ===== src/Assembler/Parser/Numbering.antt =====
-- The line number of a parsed line is that of its tokens, whether the line is accepted or not.
use educpu.Prelude.{◌≡◌, refl, List, [], ◌∷◌, Option, none, some, if_both}
use educpu.Prelude.Int.{ℤ}
use educpu.Assembler.Text.{Text, str_case_eq, codes}
use educpu.Assembler.Numbers.{parse_number}
use educpu.Assembler.Syntax.{Operand}
use educpu.Assembler.Parser.{
  TokenKind, tok_ident, tok_label, tok_number, tok_string, tok_directive, Token, TokenLine,
  fill_value_operand, ParsedLine, Parsed, copy_tok, pl_directive, no_line, org_value, parse_org,
  word_value, parse_word, ascii_value, parse_ascii, equ_value, equ_kinds, parse_equ,
  parse_directive, parse_instruction, parse_head, parse_rest, parse_first, parse_tokens, parse_line,
}

abbrev Keeps : Parsed → ParsedLine → Type 0
Keeps p out = p.0.line_no ≡ out.line_no

parse_org-Keeps : (ts : List Token) (out : ParsedLine) → Keeps (parse_org ts out) out
unfolding parse_org org_value
parse_org-Keeps [] out = refl
parse_org-Keeps (t ∷ ts) out = by_value (fill_value_operand t out.dir.value) _
  where
    by_value : (o : Option Operand) (out : ParsedLine) → Keeps (org_value o out) out
    by_value none out = refl
    by_value (some v) out = refl

parse_word-Keeps : (ts : List Token) (out : ParsedLine) → Keeps (parse_word ts out) out
unfolding parse_word word_value
parse_word-Keeps [] out = refl
parse_word-Keeps (t ∷ ts) out = by_value (fill_value_operand t out.dir.value) _
  where
    by_value : (o : Option Operand) (out : ParsedLine) → Keeps (word_value o out) out
    by_value none out = refl
    by_value (some v) out = refl

ascii_value-Keeps : (k : TokenKind) (s : Text) (out : ParsedLine) → Keeps (ascii_value k s out) out
unfolding ascii_value
ascii_value-Keeps tok_string s out = refl
ascii_value-Keeps _ s out = refl

parse_ascii-Keeps : (ts : List Token) (out : ParsedLine) → Keeps (parse_ascii ts out) out
unfolding parse_ascii
parse_ascii-Keeps [] out = refl
parse_ascii-Keeps (t ∷ ts) out = ascii_value-Keeps t.kind t.text out

equ_value-Keeps : (v : Option ℤ) (name : Text) (out : ParsedLine) → Keeps (equ_value v name out) out
unfolding equ_value
equ_value-Keeps none name out = refl
equ_value-Keeps (some v) name out = refl

equ_kinds-Keeps :
    (k l : TokenKind) (name value : Text) (out : ParsedLine)
    → Keeps (equ_kinds k l name value out) out
unfolding equ_kinds
equ_kinds-Keeps tok_ident tok_number name value out = equ_value-Keeps (parse_number value) name out
equ_kinds-Keeps _ _ name value out = refl

parse_equ-Keeps : (ts : List Token) (out : ParsedLine) → Keeps (parse_equ ts out) out
unfolding parse_equ
parse_equ-Keeps (name ∷ value ∷ ts) out = equ_kinds-Keeps _ _ name.text value.text out
parse_equ-Keeps _ out = refl

parse_directive-Keeps :
    (d : Token) (args : List Token) (out : ParsedLine) → Keeps (parse_directive d args out) out
unfolding parse_directive
parse_directive-Keeps d args out =
    let here = record out { kind = pl_directive } in
    if_both (λ (p : Parsed). Keeps p out) (str_case_eq d.text (codes ".org"))
      (parse_org-Keeps args here)
      (if_both (λ (p : Parsed). Keeps p out) (str_case_eq d.text (codes ".word"))
        (parse_word-Keeps args here)
        (if_both (λ (p : Parsed). Keeps p out) (str_case_eq d.text (codes ".ascii"))
          (parse_ascii-Keeps args here)
          (if_both (λ (p : Parsed). Keeps p out) (str_case_eq d.text (codes ".equ"))
            (parse_equ-Keeps args here) refl)))

parse_head-Keeps :
    (k : TokenKind) (head : Token) (args : List Token) (out : ParsedLine)
    → Keeps (parse_head k head args out) out
unfolding parse_head parse_instruction
parse_head-Keeps tok_directive head args out = parse_directive-Keeps head args out
parse_head-Keeps tok_ident head args out = refl
parse_head-Keeps _ head args out = refl

parse_rest-Keeps : (ts : List Token) (out : ParsedLine) → Keeps (parse_rest ts out) out
unfolding parse_rest
parse_rest-Keeps [] out = refl
parse_rest-Keeps (head ∷ args) out = parse_head-Keeps head.kind head args out

parse_first-Keeps :
    (k : TokenKind) (first : Token) (ts : List Token) (out : ParsedLine)
    → Keeps (parse_first k first ts out) out
unfolding parse_first
parse_first-Keeps tok_label first ts out =
    parse_rest-Keeps ts (record out { label = copy_tok first.text })
parse_first-Keeps _ first ts out = parse_rest-Keeps (first ∷ ts) out

parse_tokens-Keeps : (ts : List Token) (out : ParsedLine) → Keeps (parse_tokens ts out) out
unfolding parse_tokens
parse_tokens-Keeps [] out = refl
parse_tokens-Keeps (first ∷ rest) out = parse_first-Keeps first.kind first rest out

pub parse_line-line_no : (tl : TokenLine) → (parse_line tl).0.line_no ≡ tl.line_no
unfolding parse_line
parse_line-line_no tl = parse_tokens-Keeps tl.tokens (record no_line { line_no = tl.line_no })
