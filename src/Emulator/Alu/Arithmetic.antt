-- ===== src/Emulator/Alu/Arithmetic.antt =====
-- ADD, ADDI, SUB and CMP of emulator/alu.c against signed and unsigned arithmetic.
use mathlib.Core.Bool.{xor}
use educpu.Prelude.{
  ℕ, ◌+◌, ◌-◌, ◌/◌, ◌%◌, ◌^◌, ◌<◌, ◌≡◌, refl, ◌∙◌, arith, Bool, true, false, not, ◌&&◌, ◌||◌, ◌⊎◌,
  inl, inr, ltb, leb, ◌==◌, if◌then◌else◌,
}
use educpu.Prelude.Int.{ℤ, pos, negsuc, ◌+ℤ◌, ◌-ℤ◌, ltb_ℤ, to_i16}
use educpu.Isa.{op_add, op_sub, op_addi, op_cmp}
use educpu.Emulator.Cpu.{Cpu, flag_cf, flag_of, flag_nf, has_flag, IsWord}
use educpu.Emulator.Alu.{flags_with, sign_bit, carry_out, alu_execute}
use educpu.Emulator.Alu.Flags.{
  cf-Assigns, of-Assigns, Outcome, no_carry-Outcome, sign_bit_lem, Outcome-along,
}

pub carry_out-Outcome :
    (cpu : Cpu) (is_add : Bool) (a b result32 : ℕ)
    → cpu.flags < 16
    → Outcome cpu (carry_out cpu is_add a b result32) (result32 % 2 ^ 16) (ltb 0xffff result32) (
        if is_add
        then sign_bit a == sign_bit b && not (sign_bit (result32 % 2 ^ 16) == sign_bit a)
        else false)
unfolding carry_out
carry_out-Outcome cpu is_add a b result32 fits =
    let v : Bool =
      if is_add
      then sign_bit a == sign_bit b && not (sign_bit (result32 % 2 ^ 16) == sign_bit a)
      else false in
    let c = cf-Assigns cpu.flags (ltb 0xffff result32) fits in
    let o = of-Assigns (flags_with cpu.flags flag_cf (ltb 0xffff result32)) v c.4 in
    let n =
      no_carry-Outcome
        (record cpu {
          flags = flags_with (flags_with cpu.flags flag_cf (ltb 0xffff result32)) flag_of v;
        })
        (result32 % 2 ^ 16) o.4 (omega arith) in
    record {
      value_is = n.value_is;
      zf_is = n.zf_is;
      nf_is = n.nf_is;
      cf_is = n.cf_is ∙ (o.2 ∙ c.2);
      of_is = n.of_is ∙ o.3;
      flags_fit = n.flags_fit;
      frame = refl;
    }

-- The integer is no value of int16_t.
abbrev pub out_of_range : ℤ → Bool
out_of_range z = ltb_ℤ z (negsuc (2 ^ 15 - 1)) || ltb_ℤ (pos (2 ^ 15 - 1)) z

-- Equal signs that give another sign are exactly the sums that do not fit.
overflow_lem :
    (a b : ℕ)
    → IsWord a
    → IsWord b
    → (a / 2 ^ 15 == b / 2 ^ 15 && not ((a + b) % 2 ^ 16 / 2 ^ 15 == a / 2 ^ 15))
      ≡ out_of_range (to_i16 a +ℤ to_i16 b)
unfolding to_i16 ◌+ℤ◌
overflow_lem a b ha hb = ground arith

add-carry_out :
    (cpu : Cpu) (op a b : ℕ)
    → (op ≡ op_add) ⊎ (op ≡ op_addi)
    → alu_execute cpu op a b ≡ carry_out cpu true a b ((a + b) % 2 ^ 32)
unfolding alu_execute
add-carry_out cpu op a b (inl e) = rw e
add-carry_out cpu op a b (inr e) = rw e

sub-carry_out :
    (cpu : Cpu) (op a b : ℕ)
    → (op ≡ op_sub) ⊎ (op ≡ op_cmp)
    → alu_execute cpu op a b ≡ carry_out cpu false a b ((a + 2 ^ 32 - b) % 2 ^ 32)
unfolding alu_execute
sub-carry_out cpu op a b (inl e) = rw e
sub-carry_out cpu op a b (inr e) = rw e

overflow_bits :
    (a b : ℕ)
    → IsWord a
    → IsWord b
    → (sign_bit a == sign_bit b && not (sign_bit ((a + b) % 2 ^ 32 % 2 ^ 16) == sign_bit a))
      ≡ out_of_range (to_i16 a +ℤ to_i16 b)
overflow_bits a b ha hb =
    rw
      (
        sign_bit_lem a ha,
        sign_bit_lem b hb,
        sign_bit_lem ((a + b) % 2 ^ 32 % 2 ^ 16) (omega arith),
        wraps,
      )
      (overflow_lem a b ha hb)
  where
    wraps : (a + b) % 2 ^ 32 % 2 ^ 16 ≡ (a + b) % 2 ^ 16
    wraps = omega arith

negative_difference :
    (a b : ℕ)
    → IsWord a
    → IsWord b
    → ltb_ℤ (to_i16 ((a + 2 ^ 16 - b) % 2 ^ 16)) (pos 0)
      ≡ xor (ltb_ℤ (to_i16 a) (to_i16 b)) (out_of_range (to_i16 a -ℤ to_i16 b))
unfolding to_i16 ◌-ℤ◌ xor
negative_difference a b ha hb = ground arith

module _ (cpu : Cpu) (op a b : ℕ) (fits : cpu.flags < 16) (ha : IsWord a) (hb : IsWord b) where
  -- ADD and ADDI: the sum modulo 2 ^ 16, a carry exactly when the unsigned sum does not fit, an
  -- overflow exactly when the signed sum does not fit.
  pub alu_execute-add :
      (op ≡ op_add) ⊎ (op ≡ op_addi)
      → Outcome cpu
          (alu_execute cpu op a b)
          ((a + b) % 2 ^ 16)
          (leb (2 ^ 16) (a + b))
          (out_of_range (to_i16 a +ℤ to_i16 b))
  alu_execute-add h = rw (add-carry_out cpu op a b h) (
      Outcome-along (carry_out-Outcome cpu true a b ((a + b) % 2 ^ 32) fits) (omega arith)
        (ground arith) (overflow_bits a b ha hb))

  -- SUB and CMP: the difference modulo 2 ^ 16, a carry exactly when the unsigned difference borrows,
  -- and never an overflow.
  pub alu_execute-sub :
      (op ≡ op_sub) ⊎ (op ≡ op_cmp)
      → Outcome cpu (alu_execute cpu op a b) ((a + 2 ^ 16 - b) % 2 ^ 16) (ltb a b) false
  alu_execute-sub h = rw (sub-carry_out cpu op a b h) (
      Outcome-along (carry_out-Outcome cpu false a b ((a + 2 ^ 32 - b) % 2 ^ 32) fits) (omega arith)
        (ground arith) refl)

  -- After CMP the negative flag is the signed order of the operands, turned round exactly when
  -- their signed difference does not fit.
  pub cmp_negative :
      (op ≡ op_sub) ⊎ (op ≡ op_cmp)
      → has_flag (alu_execute cpu op a b).0.flags flag_nf
        ≡ xor (ltb_ℤ (to_i16 a) (to_i16 b)) (out_of_range (to_i16 a -ℤ to_i16 b))
  cmp_negative h = (alu_execute-sub h).nf_is ∙ negative_difference a b ha hb
