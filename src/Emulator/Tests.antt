-- ===== src/Emulator/Tests.antt =====
-- Runs of the emulator on the programs of tests_emulator/, and the theorems at concrete inputs.
use educpu.Prelude.{
  ℕ, zero, suc, ◌+◌, ◌-◌, ◌*◌, ◌/◌, ◌%◌, ◌^◌, ◌<◌, ◌≡◌, refl, arith, false, inl, inr, Option, none,
  some, List, [], ◌∷◌, ◌++◌, leb, ltb, ◌==◌, if◌then◌else◌, get_or, length,
}
use educpu.Prelude.Bits.{bit}
use educpu.Prelude.Int.{pos, ◌+ℤ◌, ◌-ℤ◌, ltb_ℤ, to_i16, to_u16, shr_ℤ}
use educpu.Isa.{
  op_add, op_cmp, op_shl, op_shr, op_jlt, io_base, io_stdout, stack_base, instr_opcode, instr_rd,
  instr_rs1, instr_rs2, instr_imm5, instr_offset,
}
use educpu.Emulator.Cpu.{Cpu, cpu_init, cpu_reset, reg, has_flag, flag_cf, flag_of, IsWord}
use educpu.Emulator.Alu.{alu_execute, flags_with}
use educpu.Emulator.Alu.Flags.{Outcome}
use educpu.Emulator.Alu.Arithmetic.{alu_execute-add, alu_execute-sub, out_of_range}
use educpu.Emulator.Alu.Logic.{difference, opcode_of, one_bit, alu_execute-logic, alu_execute-shift}
use educpu.Emulator.Memory.{Bus, update, mem_load, mem_read, mem_write}
use educpu.Emulator.Memory.Laws.{mem_read-mem_write, mem_load_lem}
use educpu.Emulator.Memory.Dump.{
  Row, mem_dump, words_from, all_words, mem_dump_words, mem_dump_never_ends,
}
use educpu.Emulator.Control.{
  Machine, execute, execute_flow, execute_op, alu_to, jump_by, halt, call_by, return_from, fetch,
  cpu_step,
}
use educpu.Emulator.Control.Invariant.{IsMachine, cpu_step-IsMachine}
use educpu.Emulator.Control.Branches.{BranchesOn, compared, branch-compare, branch-compare_overflow}
use educpu.Emulator.Control.Calls.{return_from-call_by}
use educpu.Emulator.Run.{cpu_run, cycles}
use educpu.Emulator.Run.Halting.{HaltsAfter, cpu_run-HaltsAfter, cpu_run-counts}

abbrev zero_cpu : Cpu
zero_cpu = record {
  regs = 0 ∷ 0 ∷ 0 ∷ 0 ∷ 0 ∷ 0 ∷ 0 ∷ stack_base ∷ [];
  pc = 0;
  ir = 0;
  flags = 0;
  cycle_count = 0;
  halted = false;
}

abbrev zero_bus : Bus
zero_bus = record {
  mem = λ a. 0;
  stdin = b'h' ∷ b'i' ∷ [];
  stdout = [];
  clock = λ n. n;
  clock_calls = 0;
}

-- The program of `test_forward_and_conditional_jumps`.
abbrev jumps : List ℕ
jumps = 0x6000 ∷ 0x6100 ∷ 0x6804 ∷ 0x7801 ∷ 0xf800 ∷ 0x7001 ∷ 0xf800 ∷ 0x6207 ∷ 0xf800 ∷ []

loaded : List ℕ → Machine
unfolding mem_load
loaded program = record {
  cpu = zero_cpu;
  bus = mem_load zero_bus program (length program) 0;
  stderr = [];
}

summary : Option Machine → List ℕ
summary none = []
summary (some m) = reg m.cpu 2 ∷ m.cpu.pc ∷ m.cpu.cycle_count ∷ []

init_resets : cpu_reset (cpu_init zero_cpu) ≡ zero_cpu
unfolding cpu_reset cpu_init
init_resets = refl

jumps_run : summary (cpu_run 9 (loaded jumps)) ≡ 7 ∷ 9 ∷ 7 ∷ []
unfolding summary loaded cpu_run cpu_step fetch execute execute_op execute_flow alu_to jump_by halt
    mem_read instr_opcode instr_rd instr_rs1 instr_rs2 instr_imm5 instr_offset to_i16 shr_ℤ to_u16
    ◌+ℤ◌ alu_execute flags_with
jumps_run = refl

-- A processor with the numbers 3 and 0x8000 in R1 and R2, in a memory that holds one word everywhere.
abbrev some_cpu : Cpu
some_cpu = record zero_cpu { regs = 0 ∷ 3 ∷ 0x8000 ∷ 9 ∷ 0 ∷ 0 ∷ 0 ∷ stack_base ∷ []; pc = 100 }

abbrev filled : ℕ → Machine
filled w = record { cpu = some_cpu; bus = record zero_bus { mem = λ a. w }; stderr = [] }

filled-IsMachine : (w : ℕ) → w < 2 ^ 16 → IsMachine (filled w)
filled-IsMachine w h = record { is_cpu = omega arith; is_bus = λ a. h }

filled_step-IsMachine : IsMachine (cpu_step (filled 0x0b28))
filled_step-IsMachine = cpu_step-IsMachine (filled 0x0b28) (filled-IsMachine 0x0b28 (omega arith))

alu_execute-add_example :
    Outcome some_cpu
      (alu_execute some_cpu op_add 0x7fff 1)
      ((0x7fff + 1) % 2 ^ 16)
      (leb (2 ^ 16) (0x7fff + 1))
      (out_of_range (to_i16 0x7fff +ℤ to_i16 1))
alu_execute-add_example =
    alu_execute-add some_cpu op_add 0x7fff 1 (omega arith) (omega arith) (omega arith) (inl refl)

alu_execute-sub_example :
    Outcome some_cpu (alu_execute some_cpu op_cmp 3 5) ((3 + 2 ^ 16 - 5) % 2 ^ 16) (ltb 3 5) false
alu_execute-sub_example =
    alu_execute-sub some_cpu op_cmp 3 5 (omega arith) (omega arith) (omega arith) (inr refl)

alu_execute-logic_example :
    Outcome some_cpu
      (alu_execute some_cpu (opcode_of difference) 12 10)
      (alu_execute some_cpu (opcode_of difference) 12 10).1
      (has_flag 0 flag_cf)
      (has_flag 0 flag_of)
    × IsWord (alu_execute some_cpu (opcode_of difference) 12 10).1
    × (bit (alu_execute some_cpu (opcode_of difference) 12 10).1 2
        ≡ one_bit difference (bit 12 2) (bit 10 2))
alu_execute-logic_example =
    alu_execute-logic some_cpu 12 10 (omega arith) (omega arith) (omega arith) difference 2
      (omega arith)

alu_execute-shift_example :
    Outcome some_cpu
      (alu_execute some_cpu op_shl 0x8001 17)
      (0x8001 * 2 ^ (17 % 16) % 2 ^ 16)
      (leb (2 ^ 16) (0x8001 * 2 ^ (17 % 16)))
      false
    × Outcome some_cpu
        (alu_execute some_cpu op_shr 0x8001 17)
        (0x8001 / 2 ^ (17 % 16))
        (has_flag 0 flag_cf)
        (has_flag 0 flag_of)
alu_execute-shift_example =
    alu_execute-shift some_cpu 0x8001 17 (omega arith) (omega arith) (omega arith)

branch-compare_example :
    BranchesOn
      (compared (filled 0) 0 1 3 (pos 0) (pos 7))
      (pos 7)
      (3 == 9)
      (ltb_ℤ (to_i16 3) (to_i16 9))
      (ltb_ℤ (to_i16 9) (to_i16 3))
unfolding to_i16 ◌-ℤ◌
branch-compare_example =
    branch-compare (filled 0) (filled-IsMachine 0 (omega arith)) 0 1 3 (pos 0) (pos 7) refl

-- 3 - (-32768) does not fit, and 3 is not less than -32768: JLT jumps.
branch-compare_overflow_example :
    execute_flow op_jlt (pos 7) (compared (filled 0) 0 1 2 (pos 0) (pos 7)) ≡ (
      if ltb_ℤ (to_i16 3) (to_i16 0x8000)
      then compared (filled 0) 0 1 2 (pos 0) (pos 7)
      else jump_by (compared (filled 0) 0 1 2 (pos 0) (pos 7)) (pos 7))
unfolding to_i16 ◌-ℤ◌
branch-compare_overflow_example =
    branch-compare_overflow (filled 0) (filled-IsMachine 0 (omega arith)) 0 1 2 (pos 0) (pos 7) refl

return_from-call_by_example :
    ((return_from (call_by (filled 5) (pos 20))).cpu.pc ≡ 100)
    × (reg (return_from (call_by (filled 5) (pos 20))).cpu 7 ≡ stack_base)
    × ((return_from (call_by (filled 5) (pos 20))).bus ≡ (call_by (filled 5) (pos 20)).bus)
unfolding call_by
return_from-call_by_example =
    return_from-call_by (filled 5) (filled-IsMachine 5 (omega arith)) (pos 20) (omega arith)
      (call_by (filled 5) (pos 20)) refl refl refl

-- In a memory full of HALT the processor stops after one cycle.
halting : HaltsAfter (filled 0xf800) 1
unfolding cpu_step fetch execute execute_op execute_flow halt mem_read instr_opcode
halting = record { halts = refl; runs = first }
  where
    first : (k : ℕ) → k < 1 → (cycles k (filled 0xf800)).cpu.halted ≡ false
    first zero lt = refl
    first (suc k) lt = absurd (omega arith)

cpu_run-HaltsAfter_example : cpu_run 2 (filled 0xf800) ≡ some (cycles 1 (filled 0xf800))
cpu_run-HaltsAfter_example = cpu_run-HaltsAfter 1 2 (filled 0xf800) halting (omega arith)

three_cycles_counted :
    (n : ℕ) × (cycles 1 (filled 0xf800) ≡ cycles n (filled 0xf800))
    × HaltsAfter (filled 0xf800) n
    × ((cycles 1 (filled 0xf800)).cpu.cycle_count ≡ (0 + n) % 2 ^ 64)
three_cycles_counted =
    cpu_run-counts 2 (filled 0xf800) (cycles 1 (filled 0xf800)) (omega arith)
      (cpu_run-HaltsAfter 1 2 (filled 0xf800) halting (omega arith))

mem_read-mem_write_example :
    ((mem_read (mem_write zero_bus 0x200 42) 0x200).0 ≡ (if 0x200 == 0x200 then 42 else 0))
    × ((mem_write zero_bus 0x200 42).stdout
        ≡ (if 0x200 == io_stdout then [] ++ (42 % 2 ^ 8) ∷ [] else []))
    × ((mem_write zero_bus 0x200 42).stdin ≡ b'h' ∷ b'i' ∷ [])
    × ((mem_write zero_bus 0x200 42).mem
        ≡ (if ltb 0x200 io_base then update zero_bus.mem 0x200 42 else zero_bus.mem))
mem_read-mem_write_example = mem_read-mem_write zero_bus 0x200 42 0x200 (omega arith)

jumps_loaded : (mem_load zero_bus jumps 9 0x10).mem 0x12 ≡ (
    if ltb ((0x12 + 2 ^ 16 - 0x10) % 2 ^ 16) 9
    then get_or jumps ((0x12 + 2 ^ 16 - 0x10) % 2 ^ 16) 0
    else 0)
jumps_loaded = mem_load_lem zero_bus jumps 9 0x10 0x12 (omega arith) (omega arith) (omega arith)

two_rows :
    (rows : List Row) × (mem_dump 3 zero_bus 0x300 0x30a ≡ some rows)
    × (all_words rows ≡ words_from zero_bus.mem 0x300 (0x30a - 0x300))
two_rows = mem_dump_words 2 zero_bus 0x300 0x30a (omega arith) (omega arith) (omega arith)

endless_dump : mem_dump 1000 zero_bus 0xff00 0xffff ≡ none
endless_dump = mem_dump_never_ends 1000 zero_bus 0xff00 0xffff (omega arith) (omega arith)
