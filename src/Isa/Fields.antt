-- ===== src/Isa/Fields.antt =====
-- The field macros of assembler/isa.h as arithmetic, and the ranges of what they return.
use educpu.Prelude.{ℕ, ◌-◌, ◌/◌, ◌%◌, ◌^◌, ◌<◌, ◌≡◌, arith, ltb, if◌then◌else◌}
use educpu.Prelude.Bits.{bit_and-mask}
use educpu.Prelude.Int.{pos, negsuc, to_i16, shr_ℤ}
use educpu.Isa.{instr_opcode, instr_rd, instr_rs1, instr_rs2, instr_imm5, instr_offset}

pub instr_opcode_lem : (w : ℕ) → w < 2 ^ 16 → instr_opcode w ≡ w / 2048
unfolding instr_opcode
instr_opcode_lem w h = omega (arith, bit_and-mask 5 (w % 2 ^ 16 / 2 ^ 11))

pub instr_rd_lem : (w : ℕ) → w < 2 ^ 16 → instr_rd w ≡ w / 256 % 8
unfolding instr_rd
instr_rd_lem w h = omega (arith, bit_and-mask 3 (w % 2 ^ 16 / 2 ^ 8))

pub instr_rs1_lem : (w : ℕ) → w < 2 ^ 16 → instr_rs1 w ≡ w / 32 % 8
unfolding instr_rs1
instr_rs1_lem w h = omega (arith, bit_and-mask 3 (w % 2 ^ 16 / 2 ^ 5))

pub instr_rs2_lem : (w : ℕ) → w < 2 ^ 16 → instr_rs2 w ≡ w / 4 % 8
unfolding instr_rs2
instr_rs2_lem w h = omega (arith, bit_and-mask 3 (w % 2 ^ 16 / 2 ^ 2))

pub instr_rd-lt : (w : ℕ) → instr_rd w < 8
unfolding instr_rd
instr_rd-lt w = omega (arith, bit_and-mask 3 (w % 2 ^ 16 / 2 ^ 8))

-- The sign extension of the low 5 bits, and of the low 11 bits.
pub instr_imm5_lem :
    (w : ℕ) → instr_imm5 w ≡ (if ltb (w % 32) 16 then pos (w % 32) else negsuc (31 - w % 32))
unfolding instr_imm5 to_i16 shr_ℤ
instr_imm5_lem w = ground arith

pub instr_offset_lem :
    (w : ℕ)
    → instr_offset w ≡ (if ltb (w % 2048) 1024 then pos (w % 2048) else negsuc (2047 - w % 2048))
unfolding instr_offset to_i16 shr_ℤ
instr_offset_lem w = ground arith
