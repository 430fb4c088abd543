-- ===== src/Assembler/Parser/Shape.antt =====
-- Operands and instructions that fit the C types of their fields, and which texts name registers.
use educpu.Prelude.{
  ℕ, ◌+◌, ◌-◌, ◌^◌, ◌≤◌, ◌<◌, ◌≡◌, ◌⊎◌, ◌↔◌, inl, inr, ◌∙◌, arith, Bool, true, false, ◌||◌, List,
  [], ◌∷◌, Option, none, some, length, length-set, set, leb, ◌==◌, if◌then◌else◌, Bool-cases, All,
  All-set, All-get_or,
}
use educpu.Prelude.Int.{ℤ, pos, negsuc, ◌≤ℤ◌}
use educpu.Isa.{num_regs}
use educpu.Assembler.Errors.{AsmError, wrong_operand_count}
use educpu.Assembler.Text.{Text, length-take}
use educpu.Assembler.Numbers.{
  to_i32, convert, number_at, parse_number, after_sign, base_of, strtol, negate,
}
use educpu.Assembler.Syntax.{Operand, no_operand, Instr, operand}
use educpu.Assembler.Parser.{
  TokenKind, tok_ident, tok_number, Token, max_token_len, Directive, ParsedLine, parse_register,
  register_or_label, number_operand, fill_by_kind, fill_value_operand, operands_loop,
}

abbrev pub OptionAll : {A : Type 0} → (A → Type 0) → Option A → Type 0
OptionAll P none = Unit
OptionAll P (some a) = P a

abbrev pub IsInt32 : ℤ → Type 0
IsInt32 z = (negsuc (2 ^ 31 - 1) ≤ℤ z) × (z ≤ℤ pos (2 ^ 31 - 1))

-- A string that fits the array of a token.
abbrev pub FitsToken : Text → Type 0
FitsToken s = length s ≤ max_token_len

pub record IsOperand (op : Operand) : Type 0 where
  pub reg_fits : op.reg < num_regs
  pub imm_fits : IsInt32 op.imm
  pub label_fits : FitsToken op.label

pub record IsInstr (i : Instr) : Type 0 where
  pub three : length i.ops ≡ 3
  pub operands_fit : All IsOperand i.ops
  pub nops_fits : i.nops ≤ 3
  pub mnemonic_fits : FitsToken i.mnemonic

pub record IsDirective (d : Directive) : Type 0 where
  pub value_fits : IsOperand d.value
  pub str_fits : FitsToken d.str
  pub str_len_is : d.str_len ≡ length d.str
  pub name_fits : FitsToken d.name

pub record IsParsed (p : ParsedLine) : Type 0 where
  pub label_fits : FitsToken p.label
  pub instr_fits : IsInstr p.instr
  pub dir_fits : IsDirective p.dir

to_i32-IsInt32 : (z : ℤ) → IsInt32 (to_i32 z)
unfolding to_i32
to_i32-IsInt32 (pos n) = ground arith
to_i32-IsInt32 (negsuc n) = ground arith

converted-IsInt32 :
    (failed : Bool) (z : ℤ) → OptionAll IsInt32 (if failed then none else some (to_i32 z))
converted-IsInt32 true z = tt
converted-IsInt32 false z = to_i32-IsInt32 z

convert-IsInt32 :
    (negative : Bool) (base : ℕ) (p : Text) → OptionAll IsInt32 (convert negative base p)
unfolding convert
convert-IsInt32 negative base p =
    converted-IsInt32 (length (strtol p base).1 == length p || leb 1 (length (strtol p base).1))
      (if negative then negate (strtol p base).0 else (strtol p base).0)

number_at-IsInt32 : (negative : Bool) (s : Text) → OptionAll IsInt32 (number_at negative s)
unfolding number_at
number_at-IsInt32 negative [] = tt
number_at-IsInt32 negative (c ∷ s) =
    convert-IsInt32 negative (base_of (c ∷ s)).0 (base_of (c ∷ s)).1

pub parse_number-IsInt32 : (s : Text) → OptionAll IsInt32 (parse_number s)
unfolding parse_number
parse_number-IsInt32 [] = tt
parse_number-IsInt32 (c ∷ s) = number_at-IsInt32 (after_sign (c ∷ s)).0 (after_sign (c ∷ s)).1

-- A text names register `n` exactly when it is `R` or `r` and the digit `n`, from 0 to 7.
pub parse_register_iff :
    (s : Text) (n : ℕ)
    → (parse_register s ≡ some n)
      ↔ ((n < 8) × ((s ≡ b'R' ∷ (b'0' + n) ∷ []) ⊎ (s ≡ b'r' ∷ (b'0' + n) ∷ [])))
unfolding parse_register
parse_register_iff [] n = ground arith
parse_register_iff (c ∷ []) n = ground arith
parse_register_iff (c ∷ d ∷ []) n = ground arith
parse_register_iff (c ∷ d ∷ e ∷ s) n = ground arith

parse_register-lt : (s : Text) → OptionAll (λ n. n < num_regs) (parse_register s)
unfolding parse_register
parse_register-lt (c ∷ d ∷ []) = ground arith
parse_register-lt _ = tt

register_or_label-IsOperand :
    (r : Option ℕ) (s : Text) (op : Operand)
    → OptionAll (λ n. n < num_regs) r
    → IsOperand op
    → IsOperand (register_or_label r s op)
unfolding register_or_label
register_or_label-IsOperand none s op r h = record {
  reg_fits = h.reg_fits;
  imm_fits = h.imm_fits;
  label_fits = length-take max_token_len s;
}
register_or_label-IsOperand (some n) s op r h = record {
  reg_fits = r;
  imm_fits = h.imm_fits;
  label_fits = h.label_fits;
}

number_operand-IsOperand :
    (v : Option ℤ) (op : Operand)
    → OptionAll IsInt32 v
    → IsOperand op
    → OptionAll IsOperand (number_operand v op)
unfolding number_operand
number_operand-IsOperand none op fits h = tt
number_operand-IsOperand (some v) op fits h = record {
  reg_fits = h.reg_fits;
  imm_fits = fits;
  label_fits = h.label_fits;
}

fill_by_kind-IsOperand :
    (k : TokenKind) (s : Text) (op : Operand)
    → IsOperand op
    → OptionAll IsOperand (fill_by_kind k s op)
unfolding fill_by_kind
fill_by_kind-IsOperand tok_number s op h = number_operand-IsOperand _ op (parse_number-IsInt32 s) h
fill_by_kind-IsOperand tok_ident s op h = register_or_label-IsOperand _ s op (parse_register-lt s) h
fill_by_kind-IsOperand _ s op h = tt

pub fill_value_operand-IsOperand :
    (t : Token) (op : Operand) → IsOperand op → OptionAll IsOperand (fill_value_operand t op)
unfolding fill_value_operand
fill_value_operand-IsOperand t op h = fill_by_kind-IsOperand t.kind t.text op h

pub no_operand-IsOperand : IsOperand no_operand
no_operand-IsOperand = omega arith

-- One round of the operand loop: an operand that is not read ends it, another is stored.
filled-IsInstr :
    (o : Option Operand) (i : Instr) (next : Operand → Instr × Option AsmError)
    → IsInstr i
    → OptionAll IsOperand o
    → ((op : Operand) → IsOperand op → IsInstr (next op).0)
    → IsInstr
        (elim o as (λ _. Instr × Option AsmError) [
          | none ↦ (i, some wrong_operand_count)
          | some op ↦ next op
        ]).0
filled-IsInstr none i next h fits rest = h
filled-IsInstr (some op) i next h fits rest = rest op fits

pub operands_loop-IsInstr :
    (ts : List Token) (n : ℕ) (i : Instr) → n ≤ 3 → IsInstr i → IsInstr (operands_loop ts n i).0
unfolding operands_loop
operands_loop-IsInstr [] n i le h = record {
  three = h.three;
  operands_fit = h.operands_fit;
  nops_fits = le;
  mnemonic_fits = h.mnemonic_fits;
}
operands_loop-IsInstr (t ∷ ts) n i le h = elim (Bool-cases (leb 3 n)) [
  | inl full ↦ rw full h
  | inr room ↦ rw room (
      filled-IsInstr (fill_value_operand t (operand i n)) i
        (λ op. operands_loop ts (n + 1) (record i { ops = set i.ops n op })) h
        (fill_value_operand-IsOperand t (operand i n)
          (All-get_or IsOperand i.ops n no_operand no_operand-IsOperand h.operands_fit))
        (λ op fits.
          operands_loop-IsInstr ts (n + 1) (record i { ops = set i.ops n op }) (ground arith)
            (record {
              three = length-set i.ops n op ∙ h.three;
              operands_fit = All-set IsOperand i.ops n op fits h.operands_fit;
              nops_fits = h.nops_fits;
              mnemonic_fits = h.mnemonic_fits;
            })))
]
