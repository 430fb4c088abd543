-- ===== src/Emulator/Control/Invariant.antt =====
-- Every cycle keeps the ranges of the processor's and the memory's words.
use educpu.Prelude.{ℕ, ◌+◌, ◌-◌, ◌%◌, ◌^◌, arith, true, if_both, All-get_or, ◌==◌}
use educpu.Prelude.Int.{ℤ, pos, ◌+ℤ◌, to_u16-lt}
use educpu.Isa.{
  op_add, op_not, op_addi, op_lw, op_sw, op_mov, op_cmp, op_jmp, op_jeq, op_jne, op_jlt, op_jgt,
  op_call, op_ret, op_halt,
}
use educpu.Emulator.Cpu.{Cpu, reg, set_reg, IsWord, IsCpu, set_reg-IsCpu}
use educpu.Emulator.Alu.{alu_execute}
use educpu.Emulator.Alu.Range.{alu_execute-InRange}
use educpu.Emulator.Memory.Laws.{IsBus, mem_read-IsWord, mem_read-mem, mem_write-IsBus}
use educpu.Emulator.Control.{
  Machine, fetch, alu_to, jump_by, load_word, store_word, call_by, return_from, halt, illegal,
  is_three_register, execute_flow, execute_op, execute, cpu_step,
}

pub record IsMachine (m : Machine) : Type 0 where
  pub is_cpu : IsCpu m.cpu
  pub is_bus : IsBus m.bus

pub reg-IsWord : (cpu : Cpu) (i : ℕ) → IsCpu cpu → IsWord (reg cpu i)
reg-IsWord cpu i h = All-get_or IsWord cpu.regs i 0 (omega arith) h.regs_fit

pub set_pc-IsCpu : (cpu : Cpu) (v : ℕ) → IsCpu cpu → IsWord v → IsCpu (record cpu { pc = v })
set_pc-IsCpu cpu v h fits = record {
  eight = h.eight;
  regs_fit = h.regs_fit;
  pc_fits = fits;
  ir_fits = h.ir_fits;
  flags_fit = h.flags_fit;
  cycles_fit = h.cycles_fit;
}

pub fetch-IsMachine : (m : Machine) → IsMachine m → IsMachine (fetch m)
unfolding fetch
fetch-IsMachine m h = record {
  is_cpu = record {
    eight = h.is_cpu.eight;
    regs_fit = h.is_cpu.regs_fit;
    pc_fits = omega arith;
    ir_fits = mem_read-IsWord m.bus m.cpu.pc h.is_bus;
    flags_fit = h.is_cpu.flags_fit;
    cycles_fit = omega arith;
  };
  is_bus = λ a. rw mem_read-mem (h.is_bus a);
}

module _ (m : Machine) (h : IsMachine m) where
  alu_to-IsMachine : (rd op a b : ℕ) → IsWord a → IsWord b → IsMachine (alu_to m rd op a b)
  unfolding alu_to
  alu_to-IsMachine rd op a b ha hb =
      let r = alu_execute-InRange m.cpu op a b h.is_cpu ha hb in
      record { is_cpu = set_reg-IsCpu (alu_execute m.cpu op a b).0 rd _ r.0 r.1; is_bus = h.is_bus }

  jump_by-IsMachine : (off : ℤ) → IsMachine (jump_by m off)
  unfolding jump_by
  jump_by-IsMachine off = record {
    is_cpu = set_pc-IsCpu m.cpu _ h.is_cpu (to_u16-lt (pos m.cpu.pc +ℤ off));
    is_bus = h.is_bus;
  }

  load_word-IsMachine : (rd addr : ℕ) → IsMachine (load_word m rd addr)
  unfolding load_word
  load_word-IsMachine rd addr = record {
    is_cpu = set_reg-IsCpu m.cpu rd _ h.is_cpu (mem_read-IsWord m.bus addr h.is_bus);
    is_bus = λ a. rw mem_read-mem (h.is_bus a);
  }

  store_word-IsMachine : (addr val : ℕ) → IsWord val → IsMachine (store_word m addr val)
  unfolding store_word
  store_word-IsMachine addr val fits = record {
    is_cpu = h.is_cpu;
    is_bus = mem_write-IsBus m.bus addr val h.is_bus fits;
  }

  return_from-IsMachine : IsMachine (return_from m)
  unfolding return_from
  return_from-IsMachine =
      let top = (reg m.cpu 7 + 1) % 2 ^ 16 in
      let popped : IsCpu (set_reg m.cpu 7 top) = set_reg-IsCpu m.cpu 7 top h.is_cpu (omega arith) in
      record {
        is_cpu = set_pc-IsCpu (set_reg m.cpu 7 top) _ popped (mem_read-IsWord m.bus _ h.is_bus);
        is_bus = λ a. rw mem_read-mem (h.is_bus a);
      }

  halted-IsCpu : IsCpu (record m.cpu { halted = true })
  halted-IsCpu = record {
    eight = h.is_cpu.eight;
    regs_fit = h.is_cpu.regs_fit;
    pc_fits = h.is_cpu.pc_fits;
    ir_fits = h.is_cpu.ir_fits;
    flags_fit = h.is_cpu.flags_fit;
    cycles_fit = h.is_cpu.cycles_fit;
  }

  halt-IsMachine : IsMachine (halt m)
  unfolding halt
  halt-IsMachine = record { is_cpu = halted-IsCpu; is_bus = h.is_bus }

  illegal-IsMachine : (op : ℕ) → IsMachine (illegal m op)
  unfolding illegal
  illegal-IsMachine op = record { is_cpu = halted-IsCpu; is_bus = h.is_bus }

  compare-IsMachine :
      (op a b : ℕ)
      → IsWord a
      → IsWord b
      → IsMachine (record m { cpu = (alu_execute m.cpu op a b).0 })
  compare-IsMachine op a b ha hb = record {
    is_cpu = (alu_execute-InRange m.cpu op a b h.is_cpu ha hb).0;
    is_bus = h.is_bus;
  }

call_by-IsMachine : (m : Machine) (off : ℤ) → IsMachine m → IsMachine (call_by m off)
unfolding call_by jump_by
call_by-IsMachine m off h =
    let top = (reg m.cpu 7 + 2 ^ 16 - 1) % 2 ^ 16 in
    record {
      is_cpu =
          set_pc-IsCpu (set_reg m.cpu 7 top) _ (set_reg-IsCpu m.cpu 7 top h.is_cpu (omega arith))
            (to_u16-lt (pos m.cpu.pc +ℤ off));
      is_bus = mem_write-IsBus m.bus _ _ h.is_bus h.is_cpu.pc_fits;
    }

module _ (m : Machine) (h : IsMachine m) where
  execute_flow-IsMachine : (op : ℕ) (off : ℤ) → IsMachine (execute_flow op off m)
  unfolding execute_flow
  execute_flow-IsMachine op off =
      let jump = jump_by-IsMachine m h off in
      if_both IsMachine (op == op_jmp) jump (
        if_both IsMachine (op == op_jeq) (if_both IsMachine _ jump h) (
          if_both IsMachine (op == op_jne) (if_both IsMachine _ jump h) (
            if_both IsMachine (op == op_jlt) (if_both IsMachine _ jump h) (
              if_both IsMachine (op == op_jgt) (if_both IsMachine _ jump h) (
                if_both IsMachine (op == op_call) (call_by-IsMachine m off h) (
                  if_both IsMachine (op == op_ret) (return_from-IsMachine m h) (
                    if_both IsMachine (op == op_halt) (halt-IsMachine m h)
                      (illegal-IsMachine m h op))))))))

  pub execute_op-IsMachine :
      (op rd rs1 rs2 : ℕ) (imm off : ℤ) → IsMachine (execute_op op rd rs1 rs2 imm off m)
  unfolding execute_op
  execute_op-IsMachine op rd rs1 rs2 imm off =
      let a = reg-IsWord m.cpu rs1 h.is_cpu in
      let b = reg-IsWord m.cpu rs2 h.is_cpu in
      let i = to_u16-lt imm in
      if_both IsMachine (is_three_register op) (alu_to-IsMachine m h rd op _ _ a b) (
        if_both IsMachine (op == op_not) (alu_to-IsMachine m h rd op _ 0 a (omega arith)) (
          if_both IsMachine (op == op_addi) (alu_to-IsMachine m h rd op _ _ a i) (
            if_both IsMachine (op == op_lw) (load_word-IsMachine m h rd _) (
              if_both IsMachine (op == op_sw)
                (store_word-IsMachine m h _ _ (reg-IsWord m.cpu rd h.is_cpu))
                (if_both IsMachine (op == op_mov)
                  (alu_to-IsMachine m h rd op_add 0 _ (omega arith) i)
                  (if_both IsMachine (op == op_cmp) (compare-IsMachine m h op _ _ a b)
                    (execute_flow-IsMachine op off)))))))

-- One cycle keeps every register, the program counter, the instruction register and every word of
-- memory below 2 ^ 16, the flags below 16, and the number of registers.
pub cpu_step-IsMachine : (m : Machine) → IsMachine m → IsMachine (cpu_step m)
unfolding cpu_step execute
cpu_step-IsMachine m h =
    if_both IsMachine m.cpu.halted h
      (execute_op-IsMachine (fetch m) (fetch-IsMachine m h) _ _ _ _ _ _)
