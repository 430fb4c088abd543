-- ===== src/Assembler/Encoder/Execute.antt =====
-- The switches of emulator/control.c and emulator/alu.c on a word that holds an instruction's operands
-- do what the instruction means.
use mathlib.Core.Path.{ap₂}
use educpu.Prelude.{
  ℕ, ◌+◌, ◌-◌, ◌%◌, ◌^◌, ◌<◌, ◌≡◌, ◌∙◌, refl, ap, arith, Bool, false, inl, inr, bit_and, bit_or,
  bit_xor, if◌then◌else◌,
}
use educpu.Prelude.Bits.{bit_and-lt, bit_or-lt, bit_xor-lt}
use educpu.Prelude.Int.{ℤ, pos, negsuc, ◌+ℤ◌, ◌-ℤ◌, to_i16, to_u16, to_u16-lt}
use educpu.Isa.{
  op_add, op_sub, op_addi, op_and, op_or, op_xor, op_not, op_cmp, instr_opcode, instr_rd, instr_rs1,
  instr_rs2, instr_imm5, instr_offset,
}
use educpu.Emulator.Cpu.{Cpu, reg, set_reg, flag_zf, flag_nf, flag_cf, flag_of, has_flag, IsWord}
use educpu.Emulator.Alu.{no_carry, alu_execute}
use educpu.Emulator.Alu.Flags.{Outcome, Outcome-along, no_carry-Outcome, top_bit}
use educpu.Emulator.Alu.Arithmetic.{out_of_range, alu_execute-add, alu_execute-sub}
use educpu.Emulator.Alu.Logic.{alu_execute-shift}
use educpu.Emulator.Control.{
  Machine, alu_to, jump_by, load_word, store_word, call_by, return_from, halt, execute_flow,
  execute_op,
}
use educpu.Emulator.Control.Invariant.{IsMachine, reg-IsWord}
use educpu.Assembler.Syntax.{Instr, operand}
use educpu.Assembler.Encoder.Reads.{Reads}
use educpu.Assembler.Encoder.Meaning.{
  Op, add, sub, conjunction, disjunction, difference, complement, shift_left, shift_right, add_imm,
  load, store, move, compare, jump, jump_eq, jump_ne, jump_lt, jump_gt, call, ret, stop, flags_of,
  with_flags, result, meaning,
}
use educpu.Assembler.Encoder.Table.{fmt_of, opcode_of}

-- Flags below 16 are the sum of the four that are set.
four_flags :
    (f : ℕ)
    → f < 16
    → f
      ≡ (if has_flag f flag_zf then flag_zf else 0)
        + (if has_flag f flag_nf then flag_nf else 0)
        + (if has_flag f flag_cf then flag_cf else 0)
        + (if has_flag f flag_of then flag_of else 0)
four_flags f h = ground (arith, top_bit 0 f, top_bit 1 f, top_bit 2 f, top_bit 3 f)

module _ (cpu : Cpu) (after : Cpu × ℕ) (v : ℕ) (c o : Bool) (h : Outcome cpu after v c o) where
  flags_lem : after.0.flags ≡ flags_of v c o
  flags_lem = four_flags after.0.flags h.flags_fit ∙ rw (h.zf_is, h.nf_is, h.cf_is, h.of_is) refl

  cpu_lem : after.0 ≡ with_flags cpu v c o
  cpu_lem = h.frame ∙ ap (λ (f : ℕ). record cpu { flags = f }) flags_lem

module _ (m : Machine) (op a b v : ℕ) (c o : Bool)
    (h : Outcome m.cpu (alu_execute m.cpu op a b) v c o) where
  alu_to-result : (rd : ℕ) → alu_to m rd op a b ≡ result m rd v c o
  unfolding alu_to
  alu_to-result rd =
      ap₂ (λ (cpu : Cpu) (x : ℕ). record m { cpu = set_reg cpu rd x })
        (cpu_lem m.cpu (alu_execute m.cpu op a b) v c o h) h.value_is

  compared :
      ◌≡◌ {A = Machine}
        (record m { cpu = (alu_execute m.cpu op a b).0 })
        (record m { cpu = with_flags m.cpu v c o })
  compared =
      ap (λ (cpu : Cpu). record m { cpu = cpu }) (cpu_lem m.cpu (alu_execute m.cpu op a b) v c o h)

-- A small signed number and zero have no carry and no overflow.
zero_plus-fits : (b : ℕ) → IsWord b → out_of_range (to_i16 0 +ℤ to_i16 b) ≡ false
unfolding ◌+ℤ◌ to_i16
zero_plus-fits b h = ground arith

-- A jump by the encoded distance lands on the target.
lands :
    (pc : ℕ) (target : ℤ)
    → pc < 2 ^ 16
    → to_u16 (pos ((pc + 1) % 2 ^ 16) +ℤ (target -ℤ pos (pc + 1))) ≡ to_u16 target
unfolding to_u16 ◌+ℤ◌ ◌-ℤ◌
lands pc (pos n) lt = ground arith
lands pc (negsuc n) lt = ground arith

module _ (m : Machine) (fits : IsMachine m) (a b : ℕ) (ha : IsWord a) (hb : IsWord b) where
  flags_fit : m.cpu.flags < 16
  flags_fit = fits.is_cpu.flags_fit

  logical_lem :
      (op v : ℕ)
      → IsWord v
      → alu_execute m.cpu op a b ≡ no_carry m.cpu v
      → Outcome m.cpu
          (alu_execute m.cpu op a b)
          v
          (has_flag m.cpu.flags flag_cf)
          (has_flag m.cpu.flags flag_of)
  logical_lem op v hv is = rw is (no_carry-Outcome m.cpu v flags_fit hv)

  conjunction_lem :
      Outcome m.cpu
        (alu_execute m.cpu op_and a b)
        (bit_and a b)
        (has_flag m.cpu.flags flag_cf)
        (has_flag m.cpu.flags flag_of)
  unfolding alu_execute
  conjunction_lem = logical_lem op_and _ (bit_and-lt 16 a b ha) refl

  disjunction_lem :
      Outcome m.cpu
        (alu_execute m.cpu op_or a b)
        (bit_or a b)
        (has_flag m.cpu.flags flag_cf)
        (has_flag m.cpu.flags flag_of)
  unfolding alu_execute
  disjunction_lem = logical_lem op_or _ (bit_or-lt 16 a b ha hb) refl

  difference_lem :
      Outcome m.cpu
        (alu_execute m.cpu op_xor a b)
        (bit_xor a b)
        (has_flag m.cpu.flags flag_cf)
        (has_flag m.cpu.flags flag_of)
  unfolding alu_execute
  difference_lem = logical_lem op_xor _ (bit_xor-lt 16 a b ha hb) refl

  complement_lem :
      Outcome m.cpu
        (alu_execute m.cpu op_not a b)
        (2 ^ 16 - 1 - a)
        (has_flag m.cpu.flags flag_cf)
        (has_flag m.cpu.flags flag_of)
  unfolding alu_execute
  complement_lem = logical_lem op_not _ (omega arith) refl

module _ (i : Instr) (pc w : ℕ) (m : Machine) (fits : IsMachine m)
    (at : m.cpu.pc ≡ (pc + 1) % 2 ^ 16) (lt : pc < 2 ^ 16) where
  abbrev Executes : Op → Type 0
  Executes o =
      execute_op (instr_opcode w) (instr_rd w) (instr_rs1 w) (instr_rs2 w) (instr_imm5 w)
        (instr_offset w) m
      ≡ meaning o i m

  r : (k : ℕ) → IsWord (reg m.cpu (operand i k).reg)
  r k = reg-IsWord m.cpu (operand i k).reg fits.is_cpu

  flags_small : m.cpu.flags < 16
  flags_small = fits.is_cpu.flags_fit

  landing :
      instr_offset w ≡ (operand i 0).imm -ℤ pos (pc + 1)
      → to_u16 (pos m.cpu.pc +ℤ instr_offset w) ≡ to_u16 (operand i 0).imm
  landing low = ap₂ (λ (p : ℕ) (z : ℤ). to_u16 (pos p +ℤ z)) at low ∙ lands pc (operand i 0).imm lt

  pub executes : (o : Op) → Reads (fmt_of o) (opcode_of o) i pc w → Executes o
  unfolding execute_op execute_flow jump_by call_by load_word store_word return_from halt
  executes add (c, k₀, k₁, k₂, f, low) =
      rw (f.opcode_is, f.rd_is, f.rs1_is, low)
        (alu_to-result m op_add _ _ _ _ _
          (alu_execute-add m.cpu op_add _ _ flags_small (r 1) (r 2) (inl refl)) _)
  executes sub (c, k₀, k₁, k₂, f, low) =
      rw (f.opcode_is, f.rd_is, f.rs1_is, low)
        (alu_to-result m op_sub _ _ _ _ _
          (alu_execute-sub m.cpu op_sub _ _ flags_small (r 1) (r 2) (inl refl)) _)
  executes conjunction (c, k₀, k₁, k₂, f, low) =
      rw (f.opcode_is, f.rd_is, f.rs1_is, low)
        (alu_to-result m _ _ _ _ _ _ (conjunction_lem m fits _ _ (r 1) (r 2)) _)
  executes disjunction (c, k₀, k₁, k₂, f, low) =
      rw (f.opcode_is, f.rd_is, f.rs1_is, low)
        (alu_to-result m _ _ _ _ _ _ (disjunction_lem m fits _ _ (r 1) (r 2)) _)
  executes difference (c, k₀, k₁, k₂, f, low) =
      rw (f.opcode_is, f.rd_is, f.rs1_is, low)
        (alu_to-result m _ _ _ _ _ _ (difference_lem m fits _ _ (r 1) (r 2)) _)
  executes complement (c, k₀, k₁, f) =
      rw (f.opcode_is, f.rd_is, f.rs1_is)
        (alu_to-result m _ _ _ _ _ _ (complement_lem m fits _ 0 (r 1) (omega arith)) _)
  executes shift_left (c, k₀, k₁, k₂, f, low) =
      rw (f.opcode_is, f.rd_is, f.rs1_is, low)
        (alu_to-result m _ _ _ _ _ _ (alu_execute-shift m.cpu _ _ flags_small (r 1) (r 2)).0 _)
  executes shift_right (c, k₀, k₁, k₂, f, low) =
      rw (f.opcode_is, f.rd_is, f.rs1_is, low)
        (alu_to-result m _ _ _ _ _ _ (alu_execute-shift m.cpu _ _ flags_small (r 1) (r 2)).1 _)
  executes add_imm (c, k₀, k₁, k₂, f, low) =
      rw (f.opcode_is, f.rd_is, f.rs1_is, low)
        (alu_to-result m op_addi _ _ _ _ _
          (alu_execute-add m.cpu op_addi _ _ flags_small (r 1) (to_u16-lt (operand i 2).imm)
            (inr refl))
          _)
  executes move (c, k₀, k₁, f, low) =
      let small = to_u16-lt (operand i 1).imm in
      rw (f.opcode_is, f.rd_is, low)
        (alu_to-result m op_add 0 _ (to_u16 (operand i 1).imm) false false
          (Outcome-along
            (alu_execute-add m.cpu op_add 0 _ flags_small (omega arith) small (inl refl))
            (omega arith) (ground arith) (zero_plus-fits _ small))
          _)
  executes compare (c, k₀, k₁, f, low) =
      rw (f.opcode_is, f.rs1_is, low)
        (compared m op_cmp _ _ _ _ _
          (alu_execute-sub m.cpu op_cmp _ _ flags_small (r 0) (r 1) (inr refl)))
  executes load (c, k₀, k₁, k₂, f, low) = rw (f.opcode_is, f.rd_is, f.rs1_is, low) refl
  executes store (c, k₀, k₁, k₂, f, low) = rw (f.opcode_is, f.rd_is, f.rs1_is, low) refl
  executes ret (c, f) = rw f.opcode_is refl
  executes stop (c, f) = rw f.opcode_is refl
  executes jump (c, k, _, opcode, low) = rw (opcode, landing low) refl
  executes jump_eq (c, k, _, opcode, low) = rw (opcode, landing low) refl
  executes jump_ne (c, k, _, opcode, low) = rw (opcode, landing low) refl
  executes jump_lt (c, k, _, opcode, low) = rw (opcode, landing low) refl
  executes jump_gt (c, k, _, opcode, low) = rw (opcode, landing low) refl
  executes call (c, k, _, opcode, low) = rw (opcode, landing low) refl
