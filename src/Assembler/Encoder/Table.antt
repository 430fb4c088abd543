-- ===== src/Assembler/Encoder/Table.antt =====
-- The table of assembler/encoder.c against the mnemonics of Encoder/Meaning.
use educpu.Prelude.{
  ℕ, ◌≡◌, ◌∙◌, refl, sym, ap, arith, inl, inr, List, [], ◌∷◌, some, if_yes, if_not, Bool-cases, All,
}
use educpu.Isa.{
  op_add, op_sub, op_and, op_or, op_xor, op_not, op_shl, op_shr, op_addi, op_lw, op_sw, op_mov,
  op_cmp, op_jmp, op_jeq, op_jne, op_jlt, op_jgt, op_call, op_ret, op_halt,
}
use educpu.Assembler.Text.{Text, to_lower, str_eq, str_case_eq}
use educpu.Assembler.Encoder.{
  Fmt, fmt_r3, fmt_r2, fmt_r_cmp, fmt_i3, fmt_i_mov, fmt_j, fmt_none, OpDef, op_defs, find_in,
  find_op,
}
use educpu.Assembler.Encoder.Meaning.{
  Op, add, sub, conjunction, disjunction, difference, complement, shift_left, shift_right, add_imm,
  load, store, move, compare, jump, jump_eq, jump_ne, jump_lt, jump_gt, call, ret, stop, mnemonics,
  capital, capitals, op_in, op_of,
}

abbrev pub fmt_of : Op → Fmt
fmt_of add = fmt_r3
fmt_of sub = fmt_r3
fmt_of conjunction = fmt_r3
fmt_of disjunction = fmt_r3
fmt_of difference = fmt_r3
fmt_of shift_left = fmt_r3
fmt_of shift_right = fmt_r3
fmt_of complement = fmt_r2
fmt_of add_imm = fmt_i3
fmt_of load = fmt_i3
fmt_of store = fmt_i3
fmt_of move = fmt_i_mov
fmt_of compare = fmt_r_cmp
fmt_of ret = fmt_none
fmt_of stop = fmt_none
fmt_of _ = fmt_j

abbrev pub opcode_of : Op → ℕ
opcode_of add = op_add
opcode_of sub = op_sub
opcode_of conjunction = op_and
opcode_of disjunction = op_or
opcode_of difference = op_xor
opcode_of complement = op_not
opcode_of shift_left = op_shl
opcode_of shift_right = op_shr
opcode_of add_imm = op_addi
opcode_of load = op_lw
opcode_of store = op_sw
opcode_of move = op_mov
opcode_of compare = op_cmp
opcode_of jump = op_jmp
opcode_of jump_eq = op_jeq
opcode_of jump_ne = op_jne
opcode_of jump_lt = op_jlt
opcode_of jump_gt = op_jgt
opcode_of call = op_call
opcode_of ret = op_ret
opcode_of stop = op_halt

-- The definition of the table is that of the instruction.
abbrev pub Defines : OpDef → Op → Type 0
Defines d o = (d.fmt ≡ fmt_of o) × (d.opcode ≡ opcode_of o)

IsCapital : ℕ → Type 0
IsCapital c = capital c ≡ c

-- The two tables have the same names, in capital letters, for the same instructions.
abbrev Agree : List OpDef → List (Text × Op) → Type 0
Agree [] [] = Unit
Agree (d ∷ ds) ((name, o) ∷ rest) =
    (d.name ≡ name) × All IsCapital name × Defines d o × Agree ds rest
Agree _ _ = ⊥

tables-Agree : Agree op_defs mnemonics
unfolding IsCapital
tables-Agree = ground arith

str_case_eq-capitals :
    (name m : Text) → All IsCapital name → str_case_eq name m ≡ str_eq name (capitals m)
unfolding str_case_eq str_eq to_lower IsCapital
str_case_eq-capitals [] [] h = refl
str_case_eq-capitals [] (c ∷ m) h = refl
str_case_eq-capitals (x ∷ name) [] h = refl
str_case_eq-capitals (x ∷ name) (c ∷ m) h = ground (arith, str_case_eq-capitals name m h.1)

op_in-find_in :
    (ds : List OpDef) (table : List (Text × Op)) (m : Text) {d : OpDef}
    → Agree ds table
    → find_in ds m ≡ some d
    → (o : Op) × (op_in table m ≡ some o) × Defines d o
unfolding find_in
op_in-find_in [] [] m h is = absurd (cc)
op_in-find_in [] (e ∷ rest) m h is = absurd h
op_in-find_in (x ∷ ds) [] m h is = absurd h
op_in-find_in (x ∷ ds) ((name, o) ∷ rest) m {d} (same, capital, defines, others) is =
    let test : str_case_eq x.name m ≡ str_eq name (capitals m) =
      ap (λ (n : Text). str_case_eq n m) same ∙ str_case_eq-capitals name m capital in
    elim (Bool-cases (str_eq name (capitals m))) [
      | inl hit ↦
          let found : some x ≡ some d = sym (if_yes _ _ (test ∙ hit)) ∙ is in
          let here : x ≡ d = cc in (o, if_yes _ _ hit, rw here at defines)
      | inr miss ↦
          let (o', found, defines') =
            op_in-find_in ds rest m others (sym (if_not _ _ (test ∙ miss)) ∙ is) in
          (o', if_not _ _ miss ∙ found, defines')
    ]

-- What the table finds for a mnemonic is what the mnemonic names.
pub op_of-find_op :
    (m : Text) {d : OpDef} → find_op m ≡ some d → (o : Op) × (op_of m ≡ some o) × Defines d o
unfolding find_op
op_of-find_op m is = op_in-find_in op_defs mnemonics m tables-Agree is
