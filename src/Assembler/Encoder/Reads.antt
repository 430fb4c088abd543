-- ===== src/Assembler/Encoder/Reads.antt =====
-- The word of an encoded instruction holds its operands, whatever the format.
use educpu.Prelude.{ℕ, ◌+◌, ◌^◌, ◌<◌, ◌≡◌, sym, ◌∙◌, ap, some, inl, inr, Option-cases}
use educpu.Prelude.Int.{ℤ, pos, ◌-ℤ◌}
use educpu.Isa.{instr_opcode, instr_rs2, instr_imm5, instr_offset}
use educpu.Assembler.Errors.{ok, err, bind-eq-ok, unknown_mnemonic}
use educpu.Assembler.Syntax.{Instr, operand}
use educpu.Assembler.Encoder.{
  Fmt, fmt_r3, fmt_r2, fmt_r_cmp, fmt_i3, fmt_i_mov, fmt_j, fmt_none, OpDef, find_op, want_reg,
  want_imm, jump_offset, encode_r, encode_i, encode_j, encode_as, encode_found, encode_instr,
}
use educpu.Assembler.Encoder.Formats.{
  HasFields, encode_r-fields, encode_i-fields, encode_j-fields, encode_r-bounds, encode_i-bounds,
  encode_j-bounds,
}
use educpu.Assembler.Encoder.Operands.{
  IsReg, IsImm, OpcodeOf, want_reg-ok, want_imm-ok, jump_offset-ok, with_count-ok, find_op-OpcodeOf,
}

-- The word `w` has the opcode, and the fields of the format hold the operands of the instruction:
-- their number, their kinds and their values.
abbrev pub Reads : Fmt → ℕ → Instr → ℕ → ℕ → Type 0
Reads fmt_r3 op i pc w =
    (i.nops ≡ 3)
    × IsReg i 0
    × IsReg i 1
    × IsReg i 2
    × HasFields w op (operand i 0).reg (operand i 1).reg
    × (instr_rs2 w ≡ (operand i 2).reg)
Reads fmt_r2 op i pc w =
    (i.nops ≡ 2) × IsReg i 0 × IsReg i 1 × HasFields w op (operand i 0).reg (operand i 1).reg
Reads fmt_r_cmp op i pc w =
    (i.nops ≡ 2)
    × IsReg i 0
    × IsReg i 1
    × HasFields w op 0 (operand i 0).reg
    × (instr_rs2 w ≡ (operand i 1).reg)
Reads fmt_i3 op i pc w =
    (i.nops ≡ 3)
    × IsReg i 0
    × IsReg i 1
    × IsImm i 2
    × HasFields w op (operand i 0).reg (operand i 1).reg
    × (instr_imm5 w ≡ (operand i 2).imm)
Reads fmt_i_mov op i pc w =
    (i.nops ≡ 2)
    × IsReg i 0
    × IsImm i 1
    × HasFields w op (operand i 0).reg 0
    × (instr_imm5 w ≡ (operand i 1).imm)
Reads fmt_j op i pc w =
    (i.nops ≡ 1)
    × IsImm i 0
    × (w < 2 ^ 16)
    × (instr_opcode w ≡ op)
    × (instr_offset w ≡ (operand i 0).imm -ℤ pos (pc + 1))
Reads fmt_none op i pc w = (i.nops ≡ 0) × HasFields w op 0 0

encode_r-reads :
    (op rd rs1 rs2 : ℕ) {w : ℕ}
    → encode_r op rd rs1 rs2 ≡ ok w
    → HasFields w op rd rs1 × (instr_rs2 w ≡ rs2)
encode_r-reads op rd rs1 rs2 {w} e =
    let (w', e', fields, low) =
      (encode_r-fields op rd rs1 rs2).0 (encode_r-bounds op rd rs1 rs2 w e) in
    let same : w' ≡ w = cc in (rw same at fields, rw same at low)

encode_i-reads :
    (op rd rs1 : ℕ) (imm : ℤ) {w : ℕ}
    → encode_i op rd rs1 imm ≡ ok w
    → HasFields w op rd rs1 × (instr_imm5 w ≡ imm)
encode_i-reads op rd rs1 imm {w} e =
    let (w', e', fields, low) =
      (encode_i-fields op rd rs1 imm).0 (encode_i-bounds op rd rs1 imm w e) in
    let same : w' ≡ w = cc in (rw same at fields, rw same at low)

encode_j-reads :
    (op : ℕ) (offset : ℤ) {w : ℕ}
    → encode_j op offset ≡ ok w
    → (w < 2 ^ 16) × (instr_opcode w ≡ op) × (instr_offset w ≡ offset)
encode_j-reads op offset {w} e =
    let (w', e', fits, opcode, low) =
      (encode_j-fields op offset).0 (encode_j-bounds op offset w e) in
    let same : w' ≡ w = cc in (rw same at fits, rw same at opcode, rw same at low)

encode_as-Reads :
    (fmt : Fmt) (op : ℕ) (i : Instr) (pc w : ℕ) → encode_as fmt op i pc ≡ ok w → Reads fmt op i pc w
unfolding encode_as
encode_as-Reads fmt_r3 op i pc w e =
    let (count, e₀) = with_count-ok i 3 _ e in
    let (rd, q₀, e₁) = bind-eq-ok (want_reg (operand i 0)) _ e₀ in
    let (rs1, q₁, e₂) = bind-eq-ok (want_reg (operand i 1)) _ e₁ in
    let (rs2, q₂, e₃) = bind-eq-ok (want_reg (operand i 2)) _ e₂ in
    let (k₀, v₀) = want_reg-ok (operand i 0) q₀ in
    let (k₁, v₁) = want_reg-ok (operand i 1) q₁ in
    let (k₂, v₂) = want_reg-ok (operand i 2) q₂ in
    let (fields, low) = encode_r-reads op rd rs1 rs2 e₃ in
    (count, k₀, k₁, k₂, rw (v₀, v₁) at fields, low ∙ v₂)
encode_as-Reads fmt_r2 op i pc w e =
    let (count, e₀) = with_count-ok i 2 _ e in
    let (rd, q₀, e₁) = bind-eq-ok (want_reg (operand i 0)) _ e₀ in
    let (rs1, q₁, e₂) = bind-eq-ok (want_reg (operand i 1)) _ e₁ in
    let (k₀, v₀) = want_reg-ok (operand i 0) q₀ in
    let (k₁, v₁) = want_reg-ok (operand i 1) q₁ in
    (count, k₀, k₁, rw (v₀, v₁) at (encode_r-reads op rd rs1 0 e₂).0)
encode_as-Reads fmt_r_cmp op i pc w e =
    let (count, e₀) = with_count-ok i 2 _ e in
    let (rs1, q₀, e₁) = bind-eq-ok (want_reg (operand i 0)) _ e₀ in
    let (rs2, q₁, e₂) = bind-eq-ok (want_reg (operand i 1)) _ e₁ in
    let (k₀, v₀) = want_reg-ok (operand i 0) q₀ in
    let (k₁, v₁) = want_reg-ok (operand i 1) q₁ in
    let (fields, low) = encode_r-reads op 0 rs1 rs2 e₂ in (count, k₀, k₁, rw v₀ at fields, low ∙ v₁)
encode_as-Reads fmt_i3 op i pc w e =
    let (count, e₀) = with_count-ok i 3 _ e in
    let (rd, q₀, e₁) = bind-eq-ok (want_reg (operand i 0)) _ e₀ in
    let (rs1, q₁, e₂) = bind-eq-ok (want_reg (operand i 1)) _ e₁ in
    let (imm, q₂, e₃) = bind-eq-ok (want_imm (operand i 2)) _ e₂ in
    let (k₀, v₀) = want_reg-ok (operand i 0) q₀ in
    let (k₁, v₁) = want_reg-ok (operand i 1) q₁ in
    let (k₂, v₂) = want_imm-ok (operand i 2) q₂ in
    let (fields, low) = encode_i-reads op rd rs1 imm e₃ in
    (count, k₀, k₁, k₂, rw (v₀, v₁) at fields, low ∙ v₂)
encode_as-Reads fmt_i_mov op i pc w e =
    let (count, e₀) = with_count-ok i 2 _ e in
    let (rd, q₀, e₁) = bind-eq-ok (want_reg (operand i 0)) _ e₀ in
    let (imm, q₁, e₂) = bind-eq-ok (want_imm (operand i 1)) _ e₁ in
    let (k₀, v₀) = want_reg-ok (operand i 0) q₀ in
    let (k₁, v₁) = want_imm-ok (operand i 1) q₁ in
    let (fields, low) = encode_i-reads op rd 0 imm e₂ in (count, k₀, k₁, rw v₀ at fields, low ∙ v₁)
encode_as-Reads fmt_j op i pc w e =
    let (count, e₀) = with_count-ok i 1 _ e in
    let (offset, q₀, e₁) = bind-eq-ok (jump_offset (operand i 0) pc) _ e₀ in
    let (k₀, v₀) = jump_offset-ok (operand i 0) pc q₀ in
    let (fits, opcode, low) = encode_j-reads op offset e₁ in (count, k₀, fits, opcode, low ∙ v₀)
encode_as-Reads fmt_none op i pc w e =
    let (count, e₀) = with_count-ok i 0 _ e in (count, (encode_r-reads op 0 0 0 e₀).0)

-- An instruction that is encoded has a mnemonic of the table, the operands that its format asks
-- for, and a word from which the processor reads the opcode and these operands; a jump holds the
-- distance of its target from the next instruction.
pub encode_instr-Reads :
    (i : Instr) (pc w : ℕ)
    → encode_instr i pc ≡ ok w
    → (d : OpDef) × (find_op i.mnemonic ≡ some d)
      × OpcodeOf d.fmt d.opcode
      × Reads d.fmt d.opcode i pc w
unfolding encode_instr
encode_instr-Reads i pc w e = elim (Option-cases (find_op i.mnemonic)) [
  | inl unknown ↦
      let failed : err unknown_mnemonic ≡ ok w = sym (ap (λ o. encode_found o i pc) unknown) ∙ e in
      absurd (cc)
  | inr (d, found) ↦ (
    d,
    found,
    find_op-OpcodeOf i.mnemonic found,
    encode_as-Reads d.fmt d.opcode i pc w (sym (ap (λ o. encode_found o i pc) found) ∙ e),
  )
]
