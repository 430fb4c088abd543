-- ===== src/Assembler/Encoder/Operands.antt =====
-- What a successful `encode_instr` says of the instruction and of the word.
use educpu.Prelude.{
  ℕ, ◌+◌, ◌≡◌, ◌⊎◌, inl, inr, sym, ◌∙◌, arith, true, some, List, [], ◌∷◌, All, if_yes, if_not,
  Bool-cases,
}
use educpu.Prelude.Int.{ℤ, pos, ◌-ℤ◌}
use educpu.Isa.{
  op_addi, op_lw, op_sw, op_not, op_cmp, op_mov, op_jmp, op_jeq, op_jne, op_jlt, op_jgt, op_call,
  op_ret, op_halt,
}
use educpu.Emulator.Control.{is_three_register}
use educpu.Assembler.Errors.{Result, ok}
use educpu.Assembler.Syntax.{opd_reg, opd_imm, Operand, Instr, operand}
use educpu.Assembler.Text.{Text, str_case_eq}
use educpu.Assembler.Encoder.{
  Fmt, fmt_r3, fmt_r2, fmt_r_cmp, fmt_i3, fmt_i_mov, fmt_j, fmt_none, OpDef, op_defs, find_in,
  find_op, want_reg, want_imm, jump_offset, with_count,
}

-- The opcodes that the table gives to each format.
abbrev pub OpcodeOf : Fmt → ℕ → Type 0
OpcodeOf fmt_r3 op = is_three_register op ≡ true
OpcodeOf fmt_r2 op = op ≡ op_not
OpcodeOf fmt_r_cmp op = op ≡ op_cmp
OpcodeOf fmt_i3 op = (op ≡ op_addi) ⊎ (op ≡ op_lw) ⊎ (op ≡ op_sw)
OpcodeOf fmt_i_mov op = op ≡ op_mov
OpcodeOf fmt_j op =
    (op ≡ op_jmp) ⊎ (op ≡ op_jeq) ⊎ (op ≡ op_jne) ⊎ (op ≡ op_jlt) ⊎ (op ≡ op_jgt) ⊎ (op ≡ op_call)
OpcodeOf fmt_none op = (op ≡ op_ret) ⊎ (op ≡ op_halt)

IsEntry : OpDef → Type 0
IsEntry d = OpcodeOf d.fmt d.opcode

op_defs-All : All IsEntry op_defs
unfolding IsEntry
op_defs-All = ground arith

pub find_in-All {κ} :
    (P : OpDef → Type κ) (ds : List OpDef) (name : Text) {d : OpDef}
    → All P ds
    → find_in ds name ≡ some d
    → P d
unfolding find_in
find_in-All P [] name all e = absurd (cc)
find_in-All P (x ∷ ds) name {d} all e = elim (Bool-cases (str_case_eq x.name name)) [
  | inl hit ↦
      let found : some x ≡ some d = sym (if_yes _ _ hit) ∙ e in
      let same : x ≡ d = cc in rw same at all.0
  | inr miss ↦ find_in-All P ds name all.1 (sym (if_not _ _ miss) ∙ e)
]

pub find_op-OpcodeOf : (name : Text) {d : OpDef} → find_op name ≡ some d → OpcodeOf d.fmt d.opcode
unfolding find_op IsEntry
find_op-OpcodeOf name e = find_in-All IsEntry op_defs name op_defs-All e

-- Operand k is a register, an immediate.
abbrev pub IsReg : Instr → ℕ → Type 0
IsReg i k = (operand i k).kind ≡ opd_reg

abbrev pub IsImm : Instr → ℕ → Type 0
IsImm i k = (operand i k).kind ≡ opd_imm

pub want_reg-ok : (o : Operand) {r : ℕ} → want_reg o ≡ ok r → (o.kind ≡ opd_reg) × (r ≡ o.reg)
unfolding want_reg
want_reg-ok o e = ground arith

pub want_imm-ok : (o : Operand) {z : ℤ} → want_imm o ≡ ok z → (o.kind ≡ opd_imm) × (z ≡ o.imm)
unfolding want_imm
want_imm-ok o e = ground arith

pub jump_offset-ok :
    (o : Operand) (pc : ℕ) {z : ℤ}
    → jump_offset o pc ≡ ok z
    → (o.kind ≡ opd_imm) × (z ≡ o.imm -ℤ pos (pc + 1))
unfolding jump_offset
jump_offset-ok o pc e = ground arith

pub with_count-ok :
    (i : Instr) (n : ℕ) (rest : Result ℕ) {w : ℕ}
    → with_count i n rest ≡ ok w
    → (i.nops ≡ n) × (rest ≡ ok w)
with_count-ok i n rest e = ground arith
