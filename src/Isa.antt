-- ===== src/Isa.antt =====
-- assembler/isa.h: the opcodes, bounds and memory map, and the macros that take an instruction
-- word apart. A C expression is written as its value: `>> k` is `/ 2 ^ k`, `<< k` is `* 2 ^ k`, a
-- cast to uint16_t is `% 2 ^ 16`, a cast to int16_t is `to_i16`.
pub mod Fields
use educpu.Prelude.{ℕ, ◌*◌, ◌/◌, ◌%◌, ◌^◌, bit_and}
use educpu.Prelude.Int.{ℤ, pos, negsuc, to_i16, shr_ℤ}

abbrev pub num_regs : ℕ
num_regs = 8

abbrev pub op_add : ℕ
op_add = 0x01

abbrev pub op_sub : ℕ
op_sub = 0x02

abbrev pub op_and : ℕ
op_and = 0x03

abbrev pub op_or : ℕ
op_or = 0x04

abbrev pub op_xor : ℕ
op_xor = 0x05

abbrev pub op_not : ℕ
op_not = 0x06

abbrev pub op_shl : ℕ
op_shl = 0x07

abbrev pub op_shr : ℕ
op_shr = 0x08

abbrev pub op_addi : ℕ
op_addi = 0x09

abbrev pub op_lw : ℕ
op_lw = 0x0a

abbrev pub op_sw : ℕ
op_sw = 0x0b

abbrev pub op_mov : ℕ
op_mov = 0x0c

abbrev pub op_cmp : ℕ
op_cmp = 0x0d

abbrev pub op_jmp : ℕ
op_jmp = 0x0e

abbrev pub op_jeq : ℕ
op_jeq = 0x0f

abbrev pub op_jne : ℕ
op_jne = 0x10

abbrev pub op_jlt : ℕ
op_jlt = 0x11

abbrev pub op_jgt : ℕ
op_jgt = 0x12

abbrev pub op_call : ℕ
op_call = 0x13

abbrev pub op_ret : ℕ
op_ret = 0x14

abbrev pub op_halt : ℕ
op_halt = 0x1f

abbrev pub imm5_min : ℤ
imm5_min = negsuc 15

abbrev pub imm5_max : ℤ
imm5_max = pos 15

abbrev pub jump_min : ℤ
jump_min = negsuc 1023

abbrev pub jump_max : ℤ
jump_max = pos 1023

abbrev pub mem_size : ℕ
mem_size = 0x10000

abbrev pub io_base : ℕ
io_base = 0xff00

abbrev pub io_stdout : ℕ
io_stdout = 0xff00

abbrev pub io_stdin : ℕ
io_stdin = 0xff01

abbrev pub io_timer : ℕ
io_timer = 0xff02

abbrev pub stack_base : ℕ
stack_base = 0xfeff

unfoldable pub instr_opcode : ℕ → ℕ
instr_opcode w = bit_and (w % 2 ^ 16 / 2 ^ 11) 0x1f

unfoldable pub instr_rd : ℕ → ℕ
instr_rd w = bit_and (w % 2 ^ 16 / 2 ^ 8) 0x07

unfoldable pub instr_rs1 : ℕ → ℕ
instr_rs1 w = bit_and (w % 2 ^ 16 / 2 ^ 5) 0x07

unfoldable pub instr_rs2 : ℕ → ℕ
instr_rs2 w = bit_and (w % 2 ^ 16 / 2 ^ 2) 0x07

unfoldable pub instr_imm5 : ℕ → ℤ
instr_imm5 w = shr_ℤ (to_i16 (w % 2 ^ 16 * 2 ^ 11)) 11

unfoldable pub instr_offset : ℕ → ℤ
instr_offset w = shr_ℤ (to_i16 (w % 2 ^ 16 * 2 ^ 5)) 5
