-- ===== src/Emulator/Alu/Logic.antt =====
-- AND, OR, XOR, NOT, SHL and SHR of emulator/alu.c.
use Prim.Native.Nat.{min, max, zero, suc}
use native.Mathlib.Nat.{pow-suc, pow-le-pow_right}
use educpu.Prelude.{
  ℕ, ◌+◌, ◌-◌, ◌*◌, ◌/◌, ◌%◌, ◌^◌, ◌≤◌, ◌<◌, ◌≡◌, refl, ◌∙◌, ap, arith, false, bit_and, bit_or,
  bit_xor, leb,
}
use educpu.Prelude.Bits.{
  bit, bit-bit_and, bit-bit_or, bit-bit_xor, bit_and-mask, bit_and-lt, bit_or-lt, bit_xor-lt,
}
use educpu.Isa.{op_and, op_or, op_xor, op_not, op_shl, op_shr}
use educpu.Emulator.Cpu.{Cpu, flag_cf, flag_of, has_flag, IsWord}
use educpu.Emulator.Alu.{no_carry, alu_execute}
use educpu.Emulator.Alu.Flags.{Outcome, no_carry-Outcome, Outcome-along}
use educpu.Emulator.Alu.Arithmetic.{carry_out-Outcome}

-- The four bitwise operations, their opcodes, and what they make of one bit of each operand.
pub data LogicOp : Type 0 where
  conjunction disjunction difference complement : LogicOp

abbrev pub opcode_of : LogicOp → ℕ
opcode_of conjunction = op_and
opcode_of disjunction = op_or
opcode_of difference = op_xor
opcode_of complement = op_not

abbrev pub one_bit : LogicOp → ℕ → ℕ → ℕ
one_bit conjunction x y = min x y
one_bit disjunction x y = max x y
one_bit difference x y = (x + y) % 2
one_bit complement x y = 1 - x

abbrev logic_value : LogicOp → ℕ → ℕ → ℕ
logic_value conjunction a b = bit_and a b
logic_value disjunction a b = bit_or a b
logic_value difference a b = bit_xor a b
logic_value complement a b = 2 ^ 16 - 1 - a

logic-no_carry :
    (cpu : Cpu) (o : LogicOp) (a b : ℕ)
    → alu_execute cpu (opcode_of o) a b ≡ no_carry cpu (logic_value o a b)
unfolding alu_execute
logic-no_carry cpu conjunction a b = refl
logic-no_carry cpu disjunction a b = refl
logic-no_carry cpu difference a b = refl
logic-no_carry cpu complement a b = refl

logic_value-IsWord : (o : LogicOp) (a b : ℕ) → IsWord a → IsWord b → IsWord (logic_value o a b)
logic_value-IsWord conjunction a b ha hb = bit_and-lt 16 a b ha
logic_value-IsWord disjunction a b ha hb = bit_or-lt 16 a b ha hb
logic_value-IsWord difference a b ha hb = bit_xor-lt 16 a b ha hb
logic_value-IsWord complement a b ha hb = omega arith

-- The complement in k bits, bit by bit.
bit-complement : (k i a : ℕ) → a < 2 ^ k → i < k → bit (2 ^ k - 1 - a) i ≡ 1 - bit a i
bit-complement zero i a h lt = absurd (omega arith)
bit-complement (suc k) zero a h lt = omega (arith, pow-suc 2 k)
bit-complement (suc k) (suc i) a h lt =
    ap (λ (t : ℕ). bit t i) (halved ∙ refl)
    ∙ bit-complement k i (a / 2) (omega (arith, pow-suc 2 k)) (omega arith)
  where
    halved : (2 ^ suc k - 1 - a) / 2 ≡ 2 ^ k - 1 - a / 2
    halved = omega (arith, pow-suc 2 k)

bit-logic_value :
    (o : LogicOp) (a b i : ℕ)
    → IsWord a
    → i < 16
    → bit (logic_value o a b) i ≡ one_bit o (bit a i) (bit b i)
bit-logic_value conjunction a b i ha lt = bit-bit_and i a b
bit-logic_value disjunction a b i ha lt = bit-bit_or i a b
bit-logic_value difference a b i ha lt = bit-bit_xor i a b
bit-logic_value complement a b i ha lt = bit-complement 16 i a ha lt

shift_amount : (b : ℕ) → bit_and b 0x0f ≡ b % 16
shift_amount b = bit_and-mask 4 b

-- A word shifted by less than 16 places stays below 2 ^ 31.
shifted-lt : (a s : ℕ) → IsWord a → s < 16 → a * 2 ^ s < 2 ^ 32
shifted-lt a s ha hs =
    let small : 2 ^ s ≤ 2 ^ 15 =
      pow-le-pow_right {n = 2} (omega arith) {i = s} {j = 15} (omega arith) in
    grind arith

module _ (cpu : Cpu) (a b : ℕ) (fits : cpu.flags < 16) (ha : IsWord a) (hb : IsWord b) where
  -- AND, OR, XOR and NOT work on each of the sixteen bits, and keep the carry and the overflow flag.
  pub alu_execute-logic :
      (o : LogicOp) (i : ℕ)
      → i < 16
      → Outcome cpu
          (alu_execute cpu (opcode_of o) a b)
          (alu_execute cpu (opcode_of o) a b).1
          (has_flag cpu.flags flag_cf)
          (has_flag cpu.flags flag_of)
        × IsWord (alu_execute cpu (opcode_of o) a b).1
        × (bit (alu_execute cpu (opcode_of o) a b).1 i ≡ one_bit o (bit a i) (bit b i))
  unfolding no_carry
  alu_execute-logic o i lt =
      let word = logic_value-IsWord o a b ha hb in
      rw (logic-no_carry cpu o a b)
        (no_carry-Outcome cpu _ fits word, word, bit-logic_value o a b i ha lt)

  alu_execute-shl :
      Outcome cpu
        (alu_execute cpu op_shl a b)
        (a * 2 ^ (b % 16) % 2 ^ 16)
        (leb (2 ^ 16) (a * 2 ^ (b % 16)))
        false
  unfolding alu_execute
  alu_execute-shl =
      let small = shifted-lt a (bit_and b 15) ha (omega (arith, shift_amount b)) in
      rw (← shift_amount b) (
        Outcome-along (carry_out-Outcome cpu false a b (a * 2 ^ bit_and b 15 % 2 ^ 32) fits)
          (omega arith) (ground arith) refl)

  alu_execute-shr :
      Outcome cpu
        (alu_execute cpu op_shr a b)
        (a / 2 ^ (b % 16))
        (has_flag cpu.flags flag_cf)
        (has_flag cpu.flags flag_of)
  unfolding alu_execute
  alu_execute-shr =
      let word : IsWord (a / 2 ^ (b % 16)) = grind arith in
      rw (← shift_amount b) (no_carry-Outcome cpu _ fits (rw shift_amount word))

  -- SHL multiplies by the power of two that the low four bits of the second operand name, and
  -- carries exactly when a bit is lost; SHR divides by that power, rounding down, and keeps the carry
  -- and the overflow flag.
  pub alu_execute-shift :
      Outcome cpu
        (alu_execute cpu op_shl a b)
        (a * 2 ^ (b % 16) % 2 ^ 16)
        (leb (2 ^ 16) (a * 2 ^ (b % 16)))
        false
      × Outcome cpu
          (alu_execute cpu op_shr a b)
          (a / 2 ^ (b % 16))
          (has_flag cpu.flags flag_cf)
          (has_flag cpu.flags flag_of)
  alu_execute-shift = (alu_execute-shl, alu_execute-shr)
