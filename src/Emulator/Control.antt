-- ===== src/Emulator/Control.antt =====
-- emulator/control.c: one cycle of fetch, decode and execute.
pub mod Invariant
pub mod Branches
pub mod Calls
pub mod Count
use educpu.Prelude.{
  ℕ, suc, ◌+◌, ◌-◌, ◌%◌, ◌^◌, Bool, true, ◌&&◌, ◌||◌, not, List, [], ◌∷◌, ◌++◌, ◌==◌, if◌then◌else◌,
}
use educpu.Prelude.Int.{ℤ, pos, ◌+ℤ◌, to_u16}
use educpu.Isa.{
  op_add, op_sub, op_and, op_or, op_xor, op_not, op_shl, op_shr, op_addi, op_lw, op_sw, op_mov,
  op_cmp, op_jmp, op_jeq, op_jne, op_jlt, op_jgt, op_call, op_ret, op_halt, instr_opcode, instr_rd,
  instr_rs1, instr_rs2, instr_imm5, instr_offset,
}
use educpu.Emulator.Cpu.{Cpu, flag_zf, flag_nf, has_flag, reg, set_reg}
use educpu.Emulator.Alu.{alu_execute}
use educpu.Emulator.Memory.{Bus, mem_read, mem_write}

-- The processor, the memory with its ports, and the reports on standard error: the opcode and the
-- address of each illegal instruction.
pub record Machine : Type 0 where
  pub cpu : Cpu
  pub bus : Bus
  pub stderr : List (ℕ × ℕ)

unfoldable pub fetch : Machine → Machine
fetch m =
    let (word, bus) = mem_read m.bus m.cpu.pc in
    record m {
      cpu = record m.cpu {
        ir = word;
        pc = (m.cpu.pc + 1) % 2 ^ 16;
        cycle_count = (m.cpu.cycle_count + 1) % 2 ^ 64;
      };
      bus = bus;
    }

-- `cpu->regs[rd] = alu_execute(cpu, op, a, b)`
unfoldable pub alu_to : Machine → ℕ → ℕ → ℕ → ℕ → Machine
alu_to m rd op a b =
    let (cpu, result) = alu_execute m.cpu op a b in record m { cpu = set_reg cpu rd result }

-- `cpu->pc = (uint16_t)(cpu->pc + off)`
unfoldable pub jump_by : Machine → ℤ → Machine
jump_by m off = record m { cpu = record m.cpu { pc = to_u16 (pos m.cpu.pc +ℤ off) } }

-- `(uint16_t)(cpu->regs[rs1] + (uint16_t)imm)`
abbrev pub address : Machine → ℕ → ℤ → ℕ
address m rs1 imm = (reg m.cpu rs1 + to_u16 imm) % 2 ^ 16

unfoldable pub load_word : Machine → ℕ → ℕ → Machine
load_word m rd addr =
    let (word, bus) = mem_read m.bus addr in record m { cpu = set_reg m.cpu rd word; bus = bus }

unfoldable pub store_word : Machine → ℕ → ℕ → Machine
store_word m addr val = record m { bus = mem_write m.bus addr val }

unfoldable pub call_by : Machine → ℤ → Machine
unfolding jump_by
call_by m off =
    let pushed = record m {
      cpu = set_reg m.cpu 7 ((reg m.cpu 7 + 2 ^ 16 - 1) % 2 ^ 16);
      bus = mem_write m.bus (reg m.cpu 7) m.cpu.pc;
    } in
    jump_by pushed off

unfoldable pub return_from : Machine → Machine
return_from m =
    let cpu = set_reg m.cpu 7 ((reg m.cpu 7 + 1) % 2 ^ 16) in
    let (word, bus) = mem_read m.bus (reg cpu 7) in
    record m { cpu = record cpu { pc = word }; bus = bus }

unfoldable pub halt : Machine → Machine
halt m = record m { cpu = record m.cpu { halted = true } }

unfoldable pub illegal : Machine → ℕ → Machine
unfolding halt
illegal m op = halt (record m { stderr = m.stderr ++ (op, (m.cpu.pc + 2 ^ 16 - 1) % 2 ^ 16) ∷ [] })

-- The operations that take their operands from two registers and write a third.
abbrev pub is_three_register : ℕ → Bool
is_three_register op =
    op == op_add
    || op == op_sub
    || op == op_and
    || op == op_or
    || op == op_xor
    || op == op_shl
    || op == op_shr

-- The cases of the switch from OP_JMP on.
unfoldable pub execute_flow : ℕ → ℤ → Machine → Machine
execute_flow op off m =
    if op == op_jmp
    then jump_by m off
    else if op == op_jeq
    then (if has_flag m.cpu.flags flag_zf then jump_by m off else m)
    else if op == op_jne
    then (if not (has_flag m.cpu.flags flag_zf) then jump_by m off else m)
    else if op == op_jlt
    then (if has_flag m.cpu.flags flag_nf then jump_by m off else m)
    else if op == op_jgt
    then (if not (has_flag m.cpu.flags flag_zf) && not (has_flag m.cpu.flags flag_nf)
        then jump_by m off
        else m)
    else if op == op_call
    then call_by m off
    else if op == op_ret
    then return_from m
    else if op == op_halt
    then halt m
    else illegal m op

unfoldable pub execute_op : ℕ → ℕ → ℕ → ℕ → ℤ → ℤ → Machine → Machine
execute_op op rd rs1 rs2 imm off m =
    if is_three_register op
    then alu_to m rd op (reg m.cpu rs1) (reg m.cpu rs2)
    else if op == op_not
    then alu_to m rd op (reg m.cpu rs1) 0
    else if op == op_addi
    then alu_to m rd op (reg m.cpu rs1) (to_u16 imm)
    else if op == op_lw
    then load_word m rd (address m rs1 imm)
    else if op == op_sw
    then store_word m (address m rs1 imm) (reg m.cpu rd)
    else if op == op_mov
    then alu_to m rd op_add 0 (to_u16 imm)
    else if op == op_cmp
    then record m { cpu = (alu_execute m.cpu op (reg m.cpu rs1) (reg m.cpu rs2)).0 }
    else execute_flow op off m

unfoldable pub execute : Machine → Machine
execute m =
    let w = m.cpu.ir in
    execute_op (instr_opcode w) (instr_rd w) (instr_rs1 w) (instr_rs2 w) (instr_imm5 w)
      (instr_offset w) m

unfoldable pub cpu_step : Machine → Machine
cpu_step m = if m.cpu.halted then m else execute (fetch m)
