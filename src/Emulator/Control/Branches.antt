-- ===== src/Emulator/Control/Branches.antt =====
-- CMP followed by a conditional jump, against the order of the compared registers.
use mathlib.Core.Bool.{xor}
use educpu.Prelude.{
  ℕ, ◌+◌, ◌-◌, ◌%◌, ◌^◌, ◌≡◌, refl, ◌∙◌, ap, arith, Bool, true, false, not, ◌&&◌, inr, ◌==◌,
  if◌then◌else◌,
}
use educpu.Prelude.Int.{ℤ, ltb_ℤ, ◌-ℤ◌, to_i16}
use educpu.Isa.{op_cmp, op_jeq, op_jne, op_jlt, op_jgt}
use educpu.Emulator.Cpu.{reg, flag_zf, flag_nf, has_flag, IsWord}
use educpu.Emulator.Alu.Arithmetic.{alu_execute-sub, cmp_negative, out_of_range}
use educpu.Emulator.Control.{Machine, jump_by, execute_flow, execute_op}
use educpu.Emulator.Control.Invariant.{IsMachine, reg-IsWord}

-- Where each of the four conditional jumps leads from `m`, given which of them are taken.
pub record BranchesOn (m : Machine) (off : ℤ) (equal less greater : Bool) : Type 0 where
  pub jeq_is : execute_flow op_jeq off m ≡ (if equal then jump_by m off else m)
  pub jne_is : execute_flow op_jne off m ≡ (if equal then m else jump_by m off)
  pub jlt_is : execute_flow op_jlt off m ≡ (if less then jump_by m off else m)
  pub jgt_is : execute_flow op_jgt off m ≡ (if greater then jump_by m off else m)

if_negated {ℓ} : {A : Type ℓ} (b : Bool) (x y : A) → (if not b then x else y) ≡ (if b then y else x)
if_negated true x y = refl
if_negated false x y = refl

BranchesOn-flags :
    (m : Machine) (off : ℤ) {z n : Bool}
    → has_flag m.cpu.flags flag_zf ≡ z
    → has_flag m.cpu.flags flag_nf ≡ n
    → BranchesOn m off z n (not z && not n)
unfolding execute_flow
BranchesOn-flags m off {z} p q = record {
  jeq_is = rw p;
  jne_is = rw p (if_negated z _ _);
  jlt_is = rw q;
  jgt_is = rw (p, q);
}

zero_difference : (a b : ℕ) → IsWord a → IsWord b → ((a + 2 ^ 16 - b) % 2 ^ 16 == 0) ≡ (a == b)
zero_difference a b ha hb = ground arith

xor-false {ℓ} :
    {A : Type ℓ} (b : Bool) (x y : A) → (if xor b false then x else y) ≡ (if b then x else y)
unfolding xor
xor-false true x y = refl
xor-false false x y = refl

xor-true {ℓ} :
    {A : Type ℓ} (b : Bool) (x y : A) → (if xor b true then x else y) ≡ (if b then y else x)
unfolding xor
xor-true true x y = refl
xor-true false x y = refl

greater_lem :
    (a b : ℕ)
    → IsWord a
    → IsWord b
    → out_of_range (to_i16 a -ℤ to_i16 b) ≡ false
    → (not (a == b)
        && not (xor (ltb_ℤ (to_i16 a) (to_i16 b)) (out_of_range (to_i16 a -ℤ to_i16 b))))
      ≡ ltb_ℤ (to_i16 b) (to_i16 a)
unfolding to_i16 xor
greater_lem a b ha hb h = rw h (ground arith)

-- The machine after CMP on registers rs1 and rs2, executed with any other fields.
abbrev pub compared : Machine → ℕ → ℕ → ℕ → ℤ → ℤ → Machine
compared m rd rs1 rs2 imm off = execute_op op_cmp rd rs1 rs2 imm off m

module _ (m : Machine) (h : IsMachine m) (rd rs1 rs2 : ℕ) (imm off : ℤ) where
  compared-flags :
      (has_flag (compared m rd rs1 rs2 imm off).cpu.flags flag_zf
        ≡ (reg m.cpu rs1 == reg m.cpu rs2))
      × (has_flag (compared m rd rs1 rs2 imm off).cpu.flags flag_nf
          ≡ xor
              (ltb_ℤ (to_i16 (reg m.cpu rs1)) (to_i16 (reg m.cpu rs2)))
              (out_of_range (to_i16 (reg m.cpu rs1) -ℤ to_i16 (reg m.cpu rs2))))
  unfolding execute_op
  compared-flags =
      let a = reg-IsWord m.cpu rs1 h.is_cpu in
      let b = reg-IsWord m.cpu rs2 h.is_cpu in
      (
        (alu_execute-sub m.cpu op_cmp _ _ h.is_cpu.flags_fit a b (inr refl)).zf_is
            ∙ zero_difference _ _ a b,
        cmp_negative m.cpu op_cmp _ _ h.is_cpu.flags_fit a b (inr refl),
      )

  -- After CMP, as long as the signed difference of the two registers is in range, JEQ and JNE
  -- follow their equality, JLT their signed order and JGT its converse.
  pub branch-compare :
      out_of_range (to_i16 (reg m.cpu rs1) -ℤ to_i16 (reg m.cpu rs2)) ≡ false
      → BranchesOn
          (compared m rd rs1 rs2 imm off)
          off
          (reg m.cpu rs1 == reg m.cpu rs2)
          (ltb_ℤ (to_i16 (reg m.cpu rs1)) (to_i16 (reg m.cpu rs2)))
          (ltb_ℤ (to_i16 (reg m.cpu rs2)) (to_i16 (reg m.cpu rs1)))
  branch-compare fits =
      let (z, n) = compared-flags in
      let a = reg-IsWord m.cpu rs1 h.is_cpu in
      let b = reg-IsWord m.cpu rs2 h.is_cpu in
      let t = BranchesOn-flags (compared m rd rs1 rs2 imm off) off z n in
      record {
        jeq_is = t.jeq_is;
        jne_is = t.jne_is;
        jlt_is = t.jlt_is ∙ rw fits (xor-false _ _ _);
        jgt_is =
            t.jgt_is
            ∙ ap
                (λ (c : Bool).
                  if c
                  then jump_by (compared m rd rs1 rs2 imm off) off
                  else (compared m rd rs1 rs2 imm off))
                (greater_lem _ _ a b fits);
      }

  -- If the signed difference is out of range, JLT after CMP jumps exactly when the first register
  -- is not the smaller one.
  pub branch-compare_overflow :
      out_of_range (to_i16 (reg m.cpu rs1) -ℤ to_i16 (reg m.cpu rs2)) ≡ true
      → execute_flow op_jlt off (compared m rd rs1 rs2 imm off) ≡ (
          if ltb_ℤ (to_i16 (reg m.cpu rs1)) (to_i16 (reg m.cpu rs2))
          then (compared m rd rs1 rs2 imm off)
          else jump_by (compared m rd rs1 rs2 imm off) off)
  branch-compare_overflow wide =
      let (z, n) = compared-flags in
      (BranchesOn-flags (compared m rd rs1 rs2 imm off) off z n).jlt_is ∙ rw wide (xor-true _ _ _)
