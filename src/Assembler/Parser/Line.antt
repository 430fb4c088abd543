-- ===== src/Assembler/Parser/Line.antt =====
-- What `parse_line` leaves in a parsed line, whatever tokens it is given.
use educpu.Prelude.{
  ℕ, zero, suc, ◌≤◌, ◌≡◌, refl, arith, List, [], ◌∷◌, Option, none, some, length, leb,
  if◌then◌else◌, if_both,
}
use educpu.Prelude.Int.{ℤ}
use educpu.Assembler.Text.{Text, length-take, str_case_eq, codes, take}
use educpu.Assembler.Numbers.{parse_number}
use educpu.Assembler.Syntax.{Operand, Instr}
use educpu.Assembler.Parser.{
  TokenKind, tok_ident, tok_label, tok_number, tok_string, tok_directive, Token, TokenLine,
  max_token_len, Directive, ParsedLine, no_line, ParsedKind, pl_label, pl_directive, Parsed,
  set_dir, org_value, parse_org, word_value, parse_word, ascii_value, parse_ascii, equ_value,
  equ_kinds, parse_equ, parse_directive, parse_instruction, parse_head, parse_rest, parse_first,
  parse_tokens, parse_line, copy_tok,
}
use educpu.Assembler.Parser.Shape.{
  OptionAll, IsInt32, FitsToken, IsOperand, IsInstr, IsDirective, IsParsed, parse_number-IsInt32,
  fill_value_operand-IsOperand, operands_loop-IsInstr,
}

pub no_line-IsParsed : (n : ℕ) → IsParsed (record no_line { line_no = n })
no_line-IsParsed n = omega arith

head-IsParsed :
    (out : ParsedLine) (kind : ParsedKind) (label : Text)
    → IsParsed out
    → FitsToken label
    → IsParsed (record out { kind = kind; label = label })
head-IsParsed out kind label h fits = record {
  label_fits = fits;
  instr_fits = h.instr_fits;
  dir_fits = h.dir_fits;
}

mnemonic-IsInstr :
    (i : Instr) (s : Text) → IsInstr i → FitsToken s → IsInstr (record i { mnemonic = s })
mnemonic-IsInstr i s h fits = record {
  three = h.three;
  operands_fit = h.operands_fit;
  nops_fits = h.nops_fits;
  mnemonic_fits = fits;
}

set_dir-IsParsed :
    (out : ParsedLine) (d : Directive) → IsParsed out → IsDirective d → IsParsed (set_dir out d)
set_dir-IsParsed out d h fits = record {
  label_fits = h.label_fits;
  instr_fits = h.instr_fits;
  dir_fits = fits;
}

value-IsDirective :
    (d : Directive) (v : Operand)
    → IsDirective d
    → IsOperand v
    → IsDirective (record d { value = v })
value-IsDirective d v h fits = record {
  value_fits = fits;
  str_fits = h.str_fits;
  str_len_is = h.str_len_is;
  name_fits = h.name_fits;
}

org_value-IsParsed :
    (o : Option Operand) (out : ParsedLine)
    → OptionAll IsOperand o
    → IsParsed out
    → IsParsed (org_value o out).0
unfolding org_value
org_value-IsParsed none out fits h = h
org_value-IsParsed (some v) out fits h =
    set_dir-IsParsed out _ h (value-IsDirective out.dir v h.dir_fits fits)

word_value-IsParsed :
    (o : Option Operand) (out : ParsedLine)
    → OptionAll IsOperand o
    → IsParsed out
    → IsParsed (word_value o out).0
unfolding word_value
word_value-IsParsed none out fits h = h
word_value-IsParsed (some v) out fits h =
    set_dir-IsParsed out _ h (value-IsDirective out.dir v h.dir_fits fits)

parse_org-IsParsed :
    (ts : List Token) (out : ParsedLine) → IsParsed out → IsParsed (parse_org ts out).0
unfolding parse_org
parse_org-IsParsed [] out h = h
parse_org-IsParsed (t ∷ ts) out h =
    org_value-IsParsed _ _ (fill_value_operand-IsOperand t out.dir.value h.dir_fits.value_fits)
      (set_dir-IsParsed out _ h (omega (arith, h.dir_fits)))

parse_word-IsParsed :
    (ts : List Token) (out : ParsedLine) → IsParsed out → IsParsed (parse_word ts out).0
unfolding parse_word
parse_word-IsParsed [] out h = h
parse_word-IsParsed (t ∷ ts) out h =
    word_value-IsParsed _ _ (fill_value_operand-IsOperand t out.dir.value h.dir_fits.value_fits)
      (set_dir-IsParsed out _ h (omega (arith, h.dir_fits)))

equ_value-IsParsed :
    (v : Option ℤ) (name : Text) (out : ParsedLine)
    → OptionAll IsInt32 v
    → IsParsed out
    → IsParsed (equ_value v name out).0
unfolding equ_value
equ_value-IsParsed none name out fits h =
    set_dir-IsParsed out _ h (omega (arith, h.dir_fits, length-take max_token_len name))
equ_value-IsParsed (some v) name out fits h =
    set_dir-IsParsed out _ h (omega (arith, h.dir_fits, length-take max_token_len name, fits))

equ_kinds-IsParsed :
    (k l : TokenKind) (name value : Text) (out : ParsedLine)
    → IsParsed out
    → IsParsed (equ_kinds k l name value out).0
unfolding equ_kinds
equ_kinds-IsParsed tok_ident tok_number name value out h =
    equ_value-IsParsed (parse_number value) name out (parse_number-IsInt32 value) h
equ_kinds-IsParsed _ _ name value out h = h

parse_equ-IsParsed :
    (ts : List Token) (out : ParsedLine) → IsParsed out → IsParsed (parse_equ ts out).0
unfolding parse_equ
parse_equ-IsParsed (name ∷ value ∷ ts) out h = equ_kinds-IsParsed _ _ name.text value.text out h
parse_equ-IsParsed _ out h = h

length-take_eq : (n : ℕ) (s : Text) → n ≤ length s → length (take n s) ≡ n
length-take_eq zero s h = refl
length-take_eq (suc n) [] h = absurd (omega arith)
length-take_eq (suc n) (c ∷ s) h = omega (arith, length-take_eq n s)

ascii_value-IsParsed :
    (k : TokenKind) (s : Text) (out : ParsedLine) → IsParsed out → IsParsed (ascii_value k s out).0
unfolding ascii_value
ascii_value-IsParsed tok_string s out h =
    let n = if leb max_token_len (length s) then max_token_len else length s in
    let within : n ≤ length s = ground arith in
    let bounded : n ≤ max_token_len = ground arith in
    set_dir-IsParsed out _ h (omega (arith, h.dir_fits, length-take_eq n s within, bounded))
ascii_value-IsParsed _ s out h = h

parse_ascii-IsParsed :
    (ts : List Token) (out : ParsedLine) → IsParsed out → IsParsed (parse_ascii ts out).0
unfolding parse_ascii
parse_ascii-IsParsed [] out h = h
parse_ascii-IsParsed (t ∷ ts) out h = ascii_value-IsParsed t.kind t.text out h

parse_directive-IsParsed :
    (d : Token) (args : List Token) (out : ParsedLine)
    → IsParsed out
    → IsParsed (parse_directive d args out).0
unfolding parse_directive
parse_directive-IsParsed d args out h =
    let h = head-IsParsed out pl_directive out.label h h.label_fits in
    if_both (λ (p : Parsed). IsParsed p.0) (str_case_eq d.text (codes ".org"))
      (parse_org-IsParsed args _ h)
      (if_both (λ (p : Parsed). IsParsed p.0) (str_case_eq d.text (codes ".word"))
        (parse_word-IsParsed args _ h)
        (if_both (λ (p : Parsed). IsParsed p.0) (str_case_eq d.text (codes ".ascii"))
          (parse_ascii-IsParsed args _ h)
          (if_both (λ (p : Parsed). IsParsed p.0) (str_case_eq d.text (codes ".equ"))
            (parse_equ-IsParsed args _ h) h)))

parse_instruction-IsParsed :
    (head : Token) (args : List Token) (out : ParsedLine)
    → IsParsed out
    → IsParsed (parse_instruction head args out).0
unfolding parse_instruction
parse_instruction-IsParsed head args out h = record {
  label_fits = h.label_fits;
  instr_fits =
      operands_loop-IsInstr args 0 (record out.instr { mnemonic = copy_tok head.text })
        (omega arith)
        (mnemonic-IsInstr out.instr _ h.instr_fits (length-take max_token_len head.text));
  dir_fits = h.dir_fits;
}

parse_head-IsParsed :
    (k : TokenKind) (head : Token) (args : List Token) (out : ParsedLine)
    → IsParsed out
    → IsParsed (parse_head k head args out).0
unfolding parse_head
parse_head-IsParsed tok_directive head args out h = parse_directive-IsParsed head args out h
parse_head-IsParsed tok_ident head args out h = parse_instruction-IsParsed head args out h
parse_head-IsParsed _ head args out h = h

parse_rest-IsParsed :
    (ts : List Token) (out : ParsedLine) → IsParsed out → IsParsed (parse_rest ts out).0
unfolding parse_rest
parse_rest-IsParsed [] out h = head-IsParsed out pl_label out.label h h.label_fits
parse_rest-IsParsed (head ∷ args) out h = parse_head-IsParsed head.kind head args out h

parse_first-IsParsed :
    (k : TokenKind) (first : Token) (ts : List Token) (out : ParsedLine)
    → IsParsed out
    → IsParsed (parse_first k first ts out).0
unfolding parse_first
parse_first-IsParsed tok_label first ts out h =
    parse_rest-IsParsed ts _ (head-IsParsed out out.kind _ h (length-take max_token_len first.text))
parse_first-IsParsed _ first ts out h = parse_rest-IsParsed (first ∷ ts) out h

-- Whatever the tokens of a line, and whether the line is accepted or not, the parsed line fits its C
-- type: the instruction has three operands of which at most three are used, each register is below
-- 8, each immediate an int32_t, and each string fits the array of a token; the length kept with a
-- string of `.ascii` is its length.
pub parse_line-IsParsed : (tl : TokenLine) → IsParsed (parse_line tl).0
unfolding parse_line parse_tokens
parse_line-IsParsed tl = by_tokens tl.tokens
  where
    by_tokens :
        (ts : List Token) → IsParsed (parse_tokens ts (record no_line { line_no = tl.line_no })).0
    by_tokens [] = omega arith
    by_tokens (first ∷ rest) =
        parse_first-IsParsed first.kind first rest _ (no_line-IsParsed tl.line_no)
