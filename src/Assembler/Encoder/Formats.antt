-- ===== src/Assembler/Encoder/Formats.antt =====
-- The three instruction formats: a word is produced exactly when the operands fit, and the
-- processor's field macros read the operands back from it.
use native.Mathlib.Nat.{le_trans, pow-le-pow_right}
use educpu.Prelude.{
  ℕ, ◌+◌, ◌-◌, ◌*◌, ◌%◌, ◌^◌, ◌≤◌, ◌<◌, ◌≡◌, refl, ◌∙◌, arith, bit_and, bit_or, ltb, if◌then◌else◌,
}
use educpu.Prelude.Bits.{bit_or-field, bit_and-mask}
use educpu.Prelude.Int.{ℤ, pos, negsuc, ◌≤ℤ◌, to_u16, to_u16-lt}
use educpu.Isa.{
  imm5_min, imm5_max, jump_min, jump_max, instr_opcode, instr_rd, instr_rs1, instr_rs2, instr_imm5,
  instr_offset,
}
use educpu.Isa.Fields.{
  instr_opcode_lem, instr_rd_lem, instr_rs1_lem, instr_rs2_lem, instr_imm5_lem, instr_offset_lem,
}
use educpu.Assembler.Errors.{ok}
use educpu.Assembler.Encoder.{encode_r, encode_i, encode_j}

-- Four disjoint fields, the lowest of five bits.
pack_fields :
    (op rd rs1 low : ℕ)
    → op < 32
    → rd < 8
    → rs1 < 8
    → low < 32
    → bit_or (bit_or (bit_or (op * 2 ^ 11) (rd * 2 ^ 8)) (rs1 * 2 ^ 5)) low
      ≡ op * 2048 + rd * 256 + rs1 * 32 + low
pack_fields op rd rs1 low h₁ h₂ h₃ h₄ =
    let first : bit_or (op * 2 ^ 11) (rd * 2 ^ 8) ≡ (op * 8 + rd) * 2 ^ 8 =
      omega (arith, bit_or-field 11 op (rd * 2 ^ 8) (omega arith)) in
    let second : bit_or ((op * 8 + rd) * 2 ^ 8) (rs1 * 2 ^ 5) ≡ ((op * 8 + rd) * 8 + rs1) * 2 ^ 5 =
      omega (arith, bit_or-field 8 (op * 8 + rd) (rs1 * 2 ^ 5) (omega arith)) in
    rw (first, second) (omega (arith, bit_or-field 5 ((op * 8 + rd) * 8 + rs1) low h₄))

-- The word of an R or I instruction, with its fields.
pub record HasFields (w op rd rs1 : ℕ) : Type 0 where
  pub fits : w < 2 ^ 16
  pub opcode_is : instr_opcode w ≡ op
  pub rd_is : instr_rd w ≡ rd
  pub rs1_is : instr_rs1 w ≡ rs1

fields_of :
    (op rd rs1 low w : ℕ)
    → op < 32
    → rd < 8
    → rs1 < 8
    → low < 32
    → w ≡ op * 2048 + rd * 256 + rs1 * 32 + low
    → HasFields w op rd rs1
fields_of op rd rs1 low w h₁ h₂ h₃ h₄ e = record {
  fits = omega arith;
  opcode_is = omega (arith, instr_opcode_lem w (omega arith));
  rd_is = omega (arith, instr_rd_lem w (omega arith));
  rs1_is = omega (arith, instr_rs1_lem w (omega arith));
}

mask_field : (k x : ℕ) → x < 2 ^ k → k ≤ 16 → bit_and (x % 2 ^ 16) (2 ^ k - 1) ≡ x
mask_field k x h le =
    let wide : x < 2 ^ 16 =
      le_trans h (pow-le-pow_right {n = 2} (omega arith) {i = k} {j = 16} le) in
    bit_and-mask k (x % 2 ^ 16) ∙ grind arith

packed :
    (op rd rs1 low : ℕ)
    → op < 32
    → rd < 8
    → rs1 < 8
    → low < 32
    → bit_or
        (bit_or
          (bit_or
            (bit_and (op % 2 ^ 16) 31 * 2 ^ 11 % 2 ^ 16)
            (bit_and (rd % 2 ^ 16) 7 * 2 ^ 8 % 2 ^ 16))
          (bit_and (rs1 % 2 ^ 16) 7 * 2 ^ 5 % 2 ^ 16))
        low
      ≡ op * 2048 + rd * 256 + rs1 * 32 + low
packed op rd rs1 low h₁ h₂ h₃ h₄ =
    let a : bit_and (op % 2 ^ 16) 31 * 2 ^ 11 % 2 ^ 16 ≡ op * 2 ^ 11 =
      omega (arith, mask_field 5 op h₁ (omega arith)) in
    let b : bit_and (rd % 2 ^ 16) 7 * 2 ^ 8 % 2 ^ 16 ≡ rd * 2 ^ 8 =
      omega (arith, mask_field 3 rd h₂ (omega arith)) in
    let c : bit_and (rs1 % 2 ^ 16) 7 * 2 ^ 5 % 2 ^ 16 ≡ rs1 * 2 ^ 5 =
      omega (arith, mask_field 3 rs1 h₃ (omega arith)) in
    rw (a, b, c) (pack_fields op rd rs1 low h₁ h₂ h₃ h₄)

low_field :
    (k x : ℕ) → x < 2 ^ 16 → k ≤ 16 → bit_and (x % 2 ^ 16) (2 ^ k - 1) * 2 ^ 0 % 2 ^ 16 ≡ x % 2 ^ k
low_field k x h le =
    let small : x % 2 ^ k ≤ x = grind arith in
    let same : x % 2 ^ 16 ≡ x = omega arith in rw same (omega (arith, bit_and-mask k x))

-- Sign extension undoes the cut to five bits, and to eleven.
imm5_back :
    (z : ℤ) (w : ℕ)
    → imm5_min ≤ℤ z
    → z ≤ℤ imm5_max
    → w % 32 ≡ to_u16 z % 32
    → (if ltb (w % 32) 16 then pos (w % 32) else negsuc (31 - w % 32)) ≡ z
unfolding to_u16
imm5_back (pos n) w lo hi e = ground arith
imm5_back (negsuc n) w lo hi e = ground arith

offset_back :
    (z : ℤ) (w : ℕ)
    → jump_min ≤ℤ z
    → z ≤ℤ jump_max
    → w % 2048 ≡ to_u16 z % 2048
    → (if ltb (w % 2048) 1024 then pos (w % 2048) else negsuc (2047 - w % 2048)) ≡ z
unfolding to_u16
offset_back (pos n) w lo hi e = ground arith
offset_back (negsuc n) w lo hi e = ground arith

pub encode_r-bounds :
    (op rd rs1 rs2 : ℕ) (w : ℕ)
    → encode_r op rd rs1 rs2 ≡ ok w
    → (op < 32) × (rd < 8) × (rs1 < 8) × (rs2 < 8)
unfolding encode_r
encode_r-bounds op rd rs1 rs2 w h = ground arith

-- encode_R succeeds on an opcode of five bits and registers of three, with a word from which the
-- processor reads back the four operands; and it succeeds on nothing else, whatever the word.
pub encode_r-fields :
    (op rd rs1 rs2 : ℕ)
    → ((op < 32) × (rd < 8) × (rs1 < 8) × (rs2 < 8)
        → (w : ℕ) × (encode_r op rd rs1 rs2 ≡ ok w) × HasFields w op rd rs1 × (instr_rs2 w ≡ rs2))
      × ((w : ℕ) × (encode_r op rd rs1 rs2 ≡ ok w) → (op < 32) × (rd < 8) × (rs1 < 8) × (rs2 < 8))
unfolding encode_r
encode_r-fields op rd rs1 rs2 =
    (λ (h₁, h₂, h₃, h₄). valid h₁ h₂ h₃ h₄, λ h. encode_r-bounds op rd rs1 rs2 h.0 h.1)
  where
    valid :
        op < 32
        → rd < 8
        → rs1 < 8
        → rs2 < 8
        → (w : ℕ) × (encode_r op rd rs1 rs2 ≡ ok w) × HasFields w op rd rs1 × (instr_rs2 w ≡ rs2)
    valid h₁ h₂ h₃ h₄ =
        let w = op * 2048 + rd * 256 + rs1 * 32 + rs2 * 4 in
        let low : bit_and (rs2 % 2 ^ 16) 7 * 2 ^ 2 % 2 ^ 16 ≡ rs2 * 4 =
          omega (arith, mask_field 3 rs2 h₄ (omega arith)) in
        (
          w,
          rw low (ground (arith, packed op rd rs1 (rs2 * 4) h₁ h₂ h₃ (omega arith))),
          fields_of op rd rs1 (rs2 * 4) w h₁ h₂ h₃ (omega arith) refl,
          omega (arith, instr_rs2_lem w (omega arith)),
        )

pub encode_i-bounds :
    (op rd rs1 : ℕ) (imm : ℤ) (w : ℕ)
    → encode_i op rd rs1 imm ≡ ok w
    → (op < 32) × (rd < 8) × (rs1 < 8) × (imm5_min ≤ℤ imm) × (imm ≤ℤ imm5_max)
unfolding encode_i
encode_i-bounds op rd rs1 imm w h = ground arith

-- encode_I succeeds on an opcode of five bits, registers of three and an immediate from -16 to 15,
-- with a word from which the processor reads back the operands; and it succeeds on nothing else,
-- whatever the word.
pub encode_i-fields :
    (op rd rs1 : ℕ) (imm : ℤ)
    → ((op < 32) × (rd < 8) × (rs1 < 8) × (imm5_min ≤ℤ imm) × (imm ≤ℤ imm5_max)
        → (w : ℕ) × (encode_i op rd rs1 imm ≡ ok w) × HasFields w op rd rs1 × (instr_imm5 w ≡ imm))
      × ((w : ℕ) × (encode_i op rd rs1 imm ≡ ok w)
          → (op < 32) × (rd < 8) × (rs1 < 8) × (imm5_min ≤ℤ imm) × (imm ≤ℤ imm5_max))
unfolding encode_i
encode_i-fields op rd rs1 imm =
    (λ (h₁, h₂, h₃, lo, hi). valid h₁ h₂ h₃ lo hi, λ h. encode_i-bounds op rd rs1 imm h.0 h.1)
  where
    valid :
        op < 32
        → rd < 8
        → rs1 < 8
        → imm5_min ≤ℤ imm
        → imm ≤ℤ imm5_max
        → (w : ℕ) × (encode_i op rd rs1 imm ≡ ok w) × HasFields w op rd rs1 × (instr_imm5 w ≡ imm)
    valid h₁ h₂ h₃ lo hi =
        let five = to_u16 imm % 32 in
        let w = op * 2048 + rd * 256 + rs1 * 32 + five in
        (
          w,
          rw (low_field 5 (to_u16 imm) (to_u16-lt imm) (omega arith))
              (ground (arith, packed op rd rs1 five h₁ h₂ h₃ (omega arith))),
          fields_of op rd rs1 five w h₁ h₂ h₃ (omega arith) refl,
          instr_imm5_lem w ∙ imm5_back imm w lo hi (omega arith),
        )

pub encode_j-bounds :
    (op : ℕ) (offset : ℤ) (w : ℕ)
    → encode_j op offset ≡ ok w
    → (op < 32) × (jump_min ≤ℤ offset) × (offset ≤ℤ jump_max)
unfolding encode_j
encode_j-bounds op offset w h = ground arith

-- encode_J succeeds on an opcode of five bits and an offset from -1024 to 1023, with a word from
-- which the processor reads back both; and it succeeds on nothing else, whatever the word.
pub encode_j-fields :
    (op : ℕ) (offset : ℤ)
    → ((op < 32) × (jump_min ≤ℤ offset) × (offset ≤ℤ jump_max)
        → (w : ℕ) × (encode_j op offset ≡ ok w)
          × (w < 2 ^ 16)
          × (instr_opcode w ≡ op)
          × (instr_offset w ≡ offset))
      × ((w : ℕ) × (encode_j op offset ≡ ok w)
          → (op < 32) × (jump_min ≤ℤ offset) × (offset ≤ℤ jump_max))
unfolding encode_j
encode_j-fields op offset = (λ (h, lo, hi). valid h lo hi, λ h. encode_j-bounds op offset h.0 h.1)
  where
    valid :
        op < 32
        → jump_min ≤ℤ offset
        → offset ≤ℤ jump_max
        → (w : ℕ) × (encode_j op offset ≡ ok w)
          × (w < 2 ^ 16)
          × (instr_opcode w ≡ op)
          × (instr_offset w ≡ offset)
    valid h lo hi =
        let low = to_u16 offset % 2048 in
        let w = op * 2048 + low in
        let high : bit_and (op % 2 ^ 16) 31 * 2 ^ 11 % 2 ^ 16 ≡ op * 2 ^ 11 =
          omega (arith, mask_field 5 op h (omega arith)) in
        (
          w,
          rw (low_field 11 (to_u16 offset) (to_u16-lt offset) (omega arith), high)
              (ground (arith, bit_or-field 11 op low (omega arith))),
          omega arith,
          omega (arith, instr_opcode_lem w (omega arith)),
          instr_offset_lem w ∙ offset_back offset w lo hi (omega arith),
        )
