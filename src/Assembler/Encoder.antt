-- ===== src/Assembler/Encoder.antt =====
-- assembler/encoder.c.
pub mod Formats
pub mod Operands
pub mod Reads
pub mod Accepts
pub mod Meaning
pub mod Table
pub mod Execute
pub mod Step
use educpu.Prelude.{
  ℕ, ◌+◌, ◌*◌, ◌%◌, ◌^◌, Bool, true, false, ◌||◌, List, [], ◌∷◌, Option, none, some, bit_and,
  bit_or, ltb, leb, ◌==◌, if◌then◌else◌,
}
use educpu.Prelude.Int.{ℤ, pos, ◌-ℤ◌, ltb_ℤ, to_u16}
use educpu.Isa.{
  num_regs, op_add, op_sub, op_and, op_or, op_xor, op_not, op_shl, op_shr, op_addi, op_lw, op_sw,
  op_mov, op_cmp, op_jmp, op_jeq, op_jne, op_jlt, op_jgt, op_call, op_ret, op_halt, imm5_min,
  imm5_max, jump_min, jump_max,
}
use educpu.Assembler.Errors.{
  Result, ok, err, ◌>>=◌, undefined_label, imm_overflow, jump_overflow, unknown_mnemonic,
  wrong_operand_count, invalid_register, invalid_number, internal,
}
use educpu.Assembler.Syntax.{
  OperandKind, opd_none, opd_reg, opd_imm, opd_label, Operand, Instr, operand,
}
use educpu.Assembler.Text.{Text, codes, str_case_eq}

-- `(uint16_t)(((uint16_t)x & mask) << k)`
abbrev field : ℕ → ℕ → ℕ → ℕ
field x mask k = bit_and (x % 2 ^ 16) mask * 2 ^ k % 2 ^ 16

unfoldable pub encode_r : ℕ → ℕ → ℕ → ℕ → Result ℕ
encode_r op rd rs1 rs2 =
    if ltb 0x1f op
    then err internal
    else if leb num_regs rd || leb num_regs rs1 || leb num_regs rs2
    then err invalid_register
    else ok (
        bit_or (bit_or (bit_or (field op 0x1f 11) (field rd 0x07 8)) (field rs1 0x07 5))
          (field rs2 0x07 2))

unfoldable pub encode_i : ℕ → ℕ → ℕ → ℤ → Result ℕ
encode_i op rd rs1 imm =
    if ltb 0x1f op
    then err internal
    else if leb num_regs rd || leb num_regs rs1
    then err invalid_register
    else if ltb_ℤ imm imm5_min || ltb_ℤ imm5_max imm
    then err imm_overflow
    else ok (
        bit_or (bit_or (bit_or (field op 0x1f 11) (field rd 0x07 8)) (field rs1 0x07 5))
          (field (to_u16 imm) 0x1f 0))

unfoldable pub encode_j : ℕ → ℤ → Result ℕ
encode_j op offset =
    if ltb 0x1f op
    then err internal
    else if ltb_ℤ offset jump_min || ltb_ℤ jump_max offset
    then err jump_overflow
    else ok (bit_or (field op 0x1f 11) (field (to_u16 offset) 0x7ff 0))

pub data Fmt : Type 0 where
  fmt_r3 fmt_r2 fmt_r_cmp fmt_i3 fmt_i_mov fmt_j fmt_none : Fmt

pub record OpDef : Type 0 where
  pub name : Text
  pub opcode : ℕ
  pub fmt : Fmt

abbrev def : Text → ℕ → Fmt → OpDef
def name opcode fmt = record { name = name; opcode = opcode; fmt = fmt }

abbrev pub op_defs : List OpDef
op_defs =
    def (codes "ADD") op_add fmt_r3
    ∷ def (codes "SUB") op_sub fmt_r3
    ∷ def (codes "AND") op_and fmt_r3
    ∷ def (codes "OR") op_or fmt_r3
    ∷ def (codes "XOR") op_xor fmt_r3
    ∷ def (codes "NOT") op_not fmt_r2
    ∷ def (codes "SHL") op_shl fmt_r3
    ∷ def (codes "SHR") op_shr fmt_r3
    ∷ def (codes "ADDI") op_addi fmt_i3
    ∷ def (codes "LW") op_lw fmt_i3
    ∷ def (codes "SW") op_sw fmt_i3
    ∷ def (codes "MOV") op_mov fmt_i_mov
    ∷ def (codes "CMP") op_cmp fmt_r_cmp
    ∷ def (codes "JMP") op_jmp fmt_j
    ∷ def (codes "JEQ") op_jeq fmt_j
    ∷ def (codes "JNE") op_jne fmt_j
    ∷ def (codes "JLT") op_jlt fmt_j
    ∷ def (codes "JGT") op_jgt fmt_j
    ∷ def (codes "CALL") op_call fmt_j
    ∷ def (codes "RET") op_ret fmt_none
    ∷ def (codes "HALT") op_halt fmt_none
    ∷ []

unfoldable pub find_in : List OpDef → Text → Option OpDef
find_in [] mnemonic = none
find_in (d ∷ ds) mnemonic = if str_case_eq d.name mnemonic then some d else find_in ds mnemonic

unfoldable pub find_op : Text → Option OpDef
unfolding find_in
find_op = find_in op_defs

unfoldable pub is_known_mnemonic : Text → Bool
unfolding find_op
is_known_mnemonic mnemonic = elim (find_op mnemonic) [ none ↦ false | some d ↦ true ]

want_reg_of : OperandKind → Operand → Result ℕ
want_reg_of opd_reg o = ok o.reg
want_reg_of _ o = err invalid_register

unfoldable pub want_reg : Operand → Result ℕ
unfolding want_reg_of
want_reg o = want_reg_of o.kind o

want_imm_of : OperandKind → Operand → Result ℤ
want_imm_of opd_imm o = ok o.imm
want_imm_of _ o = err invalid_number

unfoldable pub want_imm : Operand → Result ℤ
unfolding want_imm_of
want_imm o = want_imm_of o.kind o

-- The offset of a jump: the target is absolute, the encoding relative to the next instruction.
jump_offset_of : OperandKind → Operand → ℕ → Result ℤ
jump_offset_of opd_imm o pc = ok (o.imm -ℤ pos (pc + 1))
jump_offset_of opd_label o pc = err undefined_label
jump_offset_of _ o pc = err wrong_operand_count

unfoldable pub jump_offset : Operand → ℕ → Result ℤ
unfolding jump_offset_of
jump_offset o pc = jump_offset_of o.kind o pc

-- `if (in->nops != n) return ERR_WRONG_OPERAND_COUNT;`
abbrev pub with_count : Instr → ℕ → Result ℕ → Result ℕ
with_count i n rest = if i.nops == n then rest else err wrong_operand_count

-- The switch on the format, for a definition that was found.
unfoldable pub encode_as : Fmt → ℕ → Instr → ℕ → Result ℕ
encode_as fmt_r3 opcode i pc = with_count i 3 (do
  rd ← want_reg (operand i 0)
  rs1 ← want_reg (operand i 1)
  rs2 ← want_reg (operand i 2)
  encode_r opcode rd rs1 rs2)
encode_as fmt_r2 opcode i pc =
    with_count i 2
      (do rd ← want_reg (operand i 0); rs1 ← want_reg (operand i 1); encode_r opcode rd rs1 0)
encode_as fmt_r_cmp opcode i pc =
    with_count i 2
      (do rs1 ← want_reg (operand i 0); rs2 ← want_reg (operand i 1); encode_r opcode 0 rs1 rs2)
encode_as fmt_i3 opcode i pc = with_count i 3 (do
  rd ← want_reg (operand i 0)
  rs1 ← want_reg (operand i 1)
  imm ← want_imm (operand i 2)
  encode_i opcode rd rs1 imm)
encode_as fmt_i_mov opcode i pc =
    with_count i 2
      (do rd ← want_reg (operand i 0); imm ← want_imm (operand i 1); encode_i opcode rd 0 imm)
encode_as fmt_j opcode i pc =
    with_count i 1 (do offset ← jump_offset (operand i 0) pc; encode_j opcode offset)
encode_as fmt_none opcode i pc = with_count i 0 (encode_r opcode 0 0 0)

encode_found : Option OpDef → Instr → ℕ → Result ℕ
encode_found none i pc = err unknown_mnemonic
encode_found (some d) i pc = encode_as d.fmt d.opcode i pc

unfoldable pub encode_instr : Instr → ℕ → Result ℕ
unfolding encode_found encode_as
encode_instr i pc = encode_found (find_op i.mnemonic) i pc
