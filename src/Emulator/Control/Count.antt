-- ===== src/Emulator/Control/Count.antt =====
-- The cycle counter: an instruction leaves it alone, so a cycle adds one.
use educpu.Prelude.{ℕ, ◌+◌, ◌%◌, ◌^◌, ◌≡◌, refl, ◌∙◌, ap, false, if_both, if_not, ◌==◌, ◌||◌}
use educpu.Prelude.Int.{ℤ}
use educpu.Isa.{
  op_add, op_sub, op_and, op_or, op_xor, op_not, op_shl, op_shr, op_addi, op_lw, op_sw, op_mov,
  op_cmp, op_jmp, op_jeq, op_jne, op_jlt, op_jgt, op_call, op_ret, op_halt,
}
use educpu.Emulator.Cpu.{Cpu}
use educpu.Emulator.Alu.{alu_execute}
use educpu.Emulator.Control.{
  Machine, fetch, alu_to, jump_by, load_word, store_word, call_by, return_from, halt, illegal,
  is_three_register, execute_flow, execute_op, execute, cpu_step,
}

module _ (cpu : Cpu) (op a b : ℕ) where
  abbrev SameCount : Cpu × ℕ → Type 0
  SameCount r = r.0.cycle_count ≡ cpu.cycle_count

  alu_execute-cycle_count : SameCount (alu_execute cpu op a b)
  unfolding alu_execute
  alu_execute-cycle_count = if_both SameCount (op == op_add || op == op_addi) refl (
      if_both SameCount (op == op_sub || op == op_cmp) refl (
        if_both SameCount (op == op_and) refl (
          if_both SameCount (op == op_or) refl (
            if_both SameCount (op == op_xor) refl (
              if_both SameCount (op == op_not) refl (
                if_both SameCount (op == op_shl) refl
                  (if_both SameCount (op == op_shr) refl refl)))))))

module _ (m : Machine) where
  abbrev Counts : Machine → Type 0
  Counts r = r.cpu.cycle_count ≡ m.cpu.cycle_count

  execute_flow-cycle_count : (op : ℕ) (off : ℤ) → Counts (execute_flow op off m)
  unfolding execute_flow jump_by call_by return_from halt illegal
  execute_flow-cycle_count op off = if_both Counts (op == op_jmp) refl (
      if_both Counts (op == op_jeq) (if_both Counts _ refl refl) (
        if_both Counts (op == op_jne) (if_both Counts _ refl refl) (
          if_both Counts (op == op_jlt) (if_both Counts _ refl refl) (
            if_both Counts (op == op_jgt) (if_both Counts _ refl refl) (
              if_both Counts (op == op_call) refl
                (if_both Counts (op == op_ret) refl (if_both Counts (op == op_halt) refl refl)))))))

  execute_op-cycle_count :
      (op rd rs1 rs2 : ℕ) (imm off : ℤ) → Counts (execute_op op rd rs1 rs2 imm off m)
  unfolding execute_op alu_to load_word store_word
  execute_op-cycle_count op rd rs1 rs2 imm off =
      let alu = alu_execute-cycle_count m.cpu in
      if_both Counts (is_three_register op) (alu op _ _) (
        if_both Counts (op == op_not) (alu op _ _) (
          if_both Counts (op == op_addi) (alu op _ _) (
            if_both Counts (op == op_lw) refl (
              if_both Counts (op == op_sw) refl (
                if_both Counts (op == op_mov) (alu op_add _ _) (
                  if_both Counts (op == op_cmp) (alu op _ _) (execute_flow-cycle_count op off)))))))

-- A cycle of a processor that is not halted adds one to the counter.
pub cpu_step-cycle_count :
    (m : Machine)
    → m.cpu.halted ≡ false
    → (cpu_step m).cpu.cycle_count ≡ (m.cpu.cycle_count + 1) % 2 ^ 64
unfolding cpu_step execute fetch
cpu_step-cycle_count m h =
    ap (λ (r : Machine). r.cpu.cycle_count) (if_not m (execute (fetch m)) h)
    ∙ execute_op-cycle_count (fetch m) _ _ _ _ _ _
