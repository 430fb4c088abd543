-- ===== src/Assembler/Encoder/Accepts.antt =====
-- Exactly which instructions `encode_instr` encodes.
use educpu.Prelude.{
  ℕ, ◌+◌, ◌<◌, ◌≡◌, ◌↔◌, ◌∙◌, refl, sym, ap, arith, ◌==◌, some, inl, inr, Option-cases, if_yes, All,
}
use educpu.Prelude.Int.{pos, ◌-ℤ◌, ◌≤ℤ◌}
use educpu.Isa.{num_regs, imm5_min, imm5_max, jump_min, jump_max}
use educpu.Assembler.Errors.{Result, ok, err, bind-eq-ok, unknown_mnemonic}
use educpu.Assembler.Syntax.{Instr, operand}
use educpu.Assembler.Text.{Text}
use educpu.Assembler.Encoder.{
  Fmt, fmt_r3, fmt_r2, fmt_r_cmp, fmt_i3, fmt_i_mov, fmt_j, fmt_none, OpDef, op_defs, find_op,
  want_reg, want_imm, jump_offset, with_count, encode_as, encode_found, encode_instr,
}
use educpu.Assembler.Encoder.Formats.{
  encode_r-fields, encode_i-fields, encode_j-fields, encode_r-bounds, encode_i-bounds,
  encode_j-bounds,
}
use educpu.Assembler.Encoder.Operands.{
  IsReg, IsImm, find_in-All, want_reg-ok, want_imm-ok, jump_offset-ok, with_count-ok,
}

-- Operand k is a register that there is, an immediate of five bits.
abbrev pub FitsReg : Instr → ℕ → Type 0
FitsReg i k = IsReg i k × ((operand i k).reg < num_regs)

abbrev pub FitsImm : Instr → ℕ → Type 0
FitsImm i k = IsImm i k × (imm5_min ≤ℤ (operand i k).imm) × ((operand i k).imm ≤ℤ imm5_max)

-- The target is an address, at most as far from the next instruction as eleven bits reach.
abbrev pub FitsJump : Instr → ℕ → Type 0
FitsJump i pc =
    IsImm i 0
    × (jump_min ≤ℤ (operand i 0).imm -ℤ pos (pc + 1))
    × ((operand i 0).imm -ℤ pos (pc + 1) ≤ℤ jump_max)

-- The operands are those that the format asks for.
abbrev pub IsEncodable : Fmt → Instr → ℕ → Type 0
IsEncodable fmt_r3 i pc = (i.nops ≡ 3) × FitsReg i 0 × FitsReg i 1 × FitsReg i 2
IsEncodable fmt_r2 i pc = (i.nops ≡ 2) × FitsReg i 0 × FitsReg i 1
IsEncodable fmt_r_cmp i pc = (i.nops ≡ 2) × FitsReg i 0 × FitsReg i 1
IsEncodable fmt_i3 i pc = (i.nops ≡ 3) × FitsReg i 0 × FitsReg i 1 × FitsImm i 2
IsEncodable fmt_i_mov i pc = (i.nops ≡ 2) × FitsReg i 0 × FitsImm i 1
IsEncodable fmt_j i pc = (i.nops ≡ 1) × FitsJump i pc
IsEncodable fmt_none i pc = i.nops ≡ 0

IsSmall : OpDef → Type 0
IsSmall d = d.opcode < 32

find_op-IsSmall : (name : Text) {d : OpDef} → find_op name ≡ some d → d.opcode < 32
unfolding find_op IsSmall
find_op-IsSmall name e =
    let small : All IsSmall op_defs = omega arith in find_in-All IsSmall op_defs name small e

want_reg-IsReg : (i : Instr) (k : ℕ) → IsReg i k → want_reg (operand i k) ≡ ok (operand i k).reg
unfolding want_reg
want_reg-IsReg i k h = rw h refl

want_imm-IsImm : (i : Instr) (k : ℕ) → IsImm i k → want_imm (operand i k) ≡ ok (operand i k).imm
unfolding want_imm
want_imm-IsImm i k h = rw h refl

jump_offset-IsImm :
    (i : Instr) (pc : ℕ)
    → IsImm i 0
    → jump_offset (operand i 0) pc ≡ ok ((operand i 0).imm -ℤ pos (pc + 1))
unfolding jump_offset
jump_offset-IsImm i pc h = rw h refl

with_count-is : (i : Instr) (n : ℕ) (rest : Result ℕ) → i.nops ≡ n → with_count i n rest ≡ rest
with_count-is i n rest h = if_yes {b = i.nops == n} _ _ (ground arith)

encode_as-enough :
    (fmt : Fmt) (op : ℕ) (i : Instr) (pc : ℕ)
    → op < 32
    → IsEncodable fmt i pc
    → (w : ℕ) × (encode_as fmt op i pc ≡ ok w)
unfolding encode_as
encode_as-enough fmt_r3 op i pc small (count, (k₀, b₀), (k₁, b₁), (k₂, b₂)) =
    let (w, is, _, _) = (encode_r-fields op _ _ _).0 (small, b₀, b₁, b₂) in
    (
      w,
      with_count-is i 3 _ count
          ∙ rw (want_reg-IsReg i 0 k₀, want_reg-IsReg i 1 k₁, want_reg-IsReg i 2 k₂) is,
    )
encode_as-enough fmt_r2 op i pc small (count, (k₀, b₀), (k₁, b₁)) =
    let (w, is, _, _) = (encode_r-fields op _ _ 0).0 (small, b₀, b₁, omega arith) in
    (w, with_count-is i 2 _ count ∙ rw (want_reg-IsReg i 0 k₀, want_reg-IsReg i 1 k₁) is)
encode_as-enough fmt_r_cmp op i pc small (count, (k₀, b₀), (k₁, b₁)) =
    let (w, is, _, _) = (encode_r-fields op 0 _ _).0 (small, omega arith, b₀, b₁) in
    (w, with_count-is i 2 _ count ∙ rw (want_reg-IsReg i 0 k₀, want_reg-IsReg i 1 k₁) is)
encode_as-enough fmt_i3 op i pc small (count, (k₀, b₀), (k₁, b₁), (k₂, lo, hi)) =
    let (w, is, _, _) = (encode_i-fields op _ _ _).0 (small, b₀, b₁, lo, hi) in
    (
      w,
      with_count-is i 3 _ count
          ∙ rw (want_reg-IsReg i 0 k₀, want_reg-IsReg i 1 k₁, want_imm-IsImm i 2 k₂) is,
    )
encode_as-enough fmt_i_mov op i pc small (count, (k₀, b₀), (k₁, lo, hi)) =
    let (w, is, _, _) = (encode_i-fields op _ 0 _).0 (small, b₀, omega arith, lo, hi) in
    (w, with_count-is i 2 _ count ∙ rw (want_reg-IsReg i 0 k₀, want_imm-IsImm i 1 k₁) is)
encode_as-enough fmt_j op i pc small (count, (k₀, lo, hi)) =
    let (w, is, _, _, _) = (encode_j-fields op _).0 (small, lo, hi) in
    (w, with_count-is i 1 _ count ∙ rw (jump_offset-IsImm i pc k₀) is)
encode_as-enough fmt_none op i pc small count =
    let (w, is, _, _) =
      (encode_r-fields op 0 0 0).0 (small, omega arith, omega arith, omega arith) in
    (w, with_count-is i 0 _ count ∙ is)

encode_as-only :
    (fmt : Fmt) (op : ℕ) (i : Instr) (pc w : ℕ)
    → encode_as fmt op i pc ≡ ok w
    → IsEncodable fmt i pc
unfolding encode_as
encode_as-only fmt_r3 op i pc w e =
    let (count, e₀) = with_count-ok i 3 _ e in
    let (rd, q₀, e₁) = bind-eq-ok (want_reg (operand i 0)) _ e₀ in
    let (rs1, q₁, e₂) = bind-eq-ok (want_reg (operand i 1)) _ e₁ in
    let (rs2, q₂, e₃) = bind-eq-ok (want_reg (operand i 2)) _ e₂ in
    let (k₀, v₀) = want_reg-ok (operand i 0) q₀ in
    let (k₁, v₁) = want_reg-ok (operand i 1) q₁ in
    let (k₂, v₂) = want_reg-ok (operand i 2) q₂ in
    let (_, b₀, b₁, b₂) = encode_r-bounds op rd rs1 rs2 w e₃ in
    (count, (k₀, rw v₀ at b₀), (k₁, rw v₁ at b₁), (k₂, rw v₂ at b₂))
encode_as-only fmt_r2 op i pc w e =
    let (count, e₀) = with_count-ok i 2 _ e in
    let (rd, q₀, e₁) = bind-eq-ok (want_reg (operand i 0)) _ e₀ in
    let (rs1, q₁, e₂) = bind-eq-ok (want_reg (operand i 1)) _ e₁ in
    let (k₀, v₀) = want_reg-ok (operand i 0) q₀ in
    let (k₁, v₁) = want_reg-ok (operand i 1) q₁ in
    let (_, b₀, b₁, _) = encode_r-bounds op rd rs1 0 w e₂ in
    (count, (k₀, rw v₀ at b₀), (k₁, rw v₁ at b₁))
encode_as-only fmt_r_cmp op i pc w e =
    let (count, e₀) = with_count-ok i 2 _ e in
    let (rs1, q₀, e₁) = bind-eq-ok (want_reg (operand i 0)) _ e₀ in
    let (rs2, q₁, e₂) = bind-eq-ok (want_reg (operand i 1)) _ e₁ in
    let (k₀, v₀) = want_reg-ok (operand i 0) q₀ in
    let (k₁, v₁) = want_reg-ok (operand i 1) q₁ in
    let (_, _, b₀, b₁) = encode_r-bounds op 0 rs1 rs2 w e₂ in
    (count, (k₀, rw v₀ at b₀), (k₁, rw v₁ at b₁))
encode_as-only fmt_i3 op i pc w e =
    let (count, e₀) = with_count-ok i 3 _ e in
    let (rd, q₀, e₁) = bind-eq-ok (want_reg (operand i 0)) _ e₀ in
    let (rs1, q₁, e₂) = bind-eq-ok (want_reg (operand i 1)) _ e₁ in
    let (imm, q₂, e₃) = bind-eq-ok (want_imm (operand i 2)) _ e₂ in
    let (k₀, v₀) = want_reg-ok (operand i 0) q₀ in
    let (k₁, v₁) = want_reg-ok (operand i 1) q₁ in
    let (k₂, v₂) = want_imm-ok (operand i 2) q₂ in
    let (_, b₀, b₁, lo, hi) = encode_i-bounds op rd rs1 imm w e₃ in
    (count, (k₀, rw v₀ at b₀), (k₁, rw v₁ at b₁), (k₂, rw v₂ at lo, rw v₂ at hi))
encode_as-only fmt_i_mov op i pc w e =
    let (count, e₀) = with_count-ok i 2 _ e in
    let (rd, q₀, e₁) = bind-eq-ok (want_reg (operand i 0)) _ e₀ in
    let (imm, q₁, e₂) = bind-eq-ok (want_imm (operand i 1)) _ e₁ in
    let (k₀, v₀) = want_reg-ok (operand i 0) q₀ in
    let (k₁, v₁) = want_imm-ok (operand i 1) q₁ in
    let (_, b₀, _, lo, hi) = encode_i-bounds op rd 0 imm w e₂ in
    (count, (k₀, rw v₀ at b₀), (k₁, rw v₁ at lo, rw v₁ at hi))
encode_as-only fmt_j op i pc w e =
    let (count, e₀) = with_count-ok i 1 _ e in
    let (offset, q₀, e₁) = bind-eq-ok (jump_offset (operand i 0) pc) _ e₀ in
    let (k₀, v₀) = jump_offset-ok (operand i 0) pc q₀ in
    let (_, lo, hi) = encode_j-bounds op offset w e₁ in (count, (k₀, rw v₀ at lo, rw v₀ at hi))
encode_as-only fmt_none op i pc w e = (with_count-ok i 0 _ e).0

-- An instruction is encoded at an address exactly when its mnemonic is one of the table and it has the
-- operands that the format of that mnemonic asks for: as many, each of its kind, registers below 8,
-- an immediate from -16 to 15, and a jump whose target is from 1024 words before the next instruction
-- to 1023 after it.
pub encode_instr-IsEncodable_iff :
    (i : Instr) (pc : ℕ)
    → ((w : ℕ) × (encode_instr i pc ≡ ok w))
      ↔ ((d : OpDef) × (find_op i.mnemonic ≡ some d) × IsEncodable d.fmt i pc)
unfolding encode_instr
encode_instr-IsEncodable_iff i pc = (λ h. only h.0 h.1, λ h. enough h.0 h.1 h.2)
  where
    only :
        (w : ℕ)
        → encode_instr i pc ≡ ok w
        → (d : OpDef) × (find_op i.mnemonic ≡ some d) × IsEncodable d.fmt i pc
    only w e = elim (Option-cases (find_op i.mnemonic)) [
      | inl unknown ↦
          let failed : err unknown_mnemonic ≡ ok w =
            sym (ap (λ o. encode_found o i pc) unknown) ∙ e in
          absurd (cc)
      | inr (d, found) ↦ (
        d,
        found,
        encode_as-only d.fmt d.opcode i pc w (sym (ap (λ o. encode_found o i pc) found) ∙ e),
      )
    ]

    enough :
        (d : OpDef)
        → find_op i.mnemonic ≡ some d
        → IsEncodable d.fmt i pc
        → (w : ℕ) × (encode_instr i pc ≡ ok w)
    enough d found h =
        let (w, is) = encode_as-enough d.fmt d.opcode i pc (find_op-IsSmall i.mnemonic found) h in
        (w, ap (λ o. encode_found o i pc) found ∙ is)
