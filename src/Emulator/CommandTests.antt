-- ===== src/Emulator/CommandTests.antt =====
-- Command lines of the emulator, and the theorems about them at these.
use educpu.Assembler.Text.Printf.{decimal_loop}
use educpu.Emulator.Cpu.Printing.{cpu_dump, reg_lines}
use mathlib.Core.Option
use educpu.Prelude.{
  ℕ, zero, suc, ◌<◌, ◌≡◌, ◌++◌, refl, arith, true, false, List, [], ◌∷◌, Option, none, some, leb,
  if◌then◌else◌,
}
use educpu.Assembler.Text.{Text, codes, str_eq}
use educpu.Assembler.Numbers.{digits_loop, skip_space, after_sign, skip_prefix}
use educpu.Assembler.Numbers.Literals.{digit_codes, place_value}
use educpu.Isa.{instr_opcode, stack_base}
use educpu.Emulator.Cpu.{Cpu, cpu_init, cpu_reset}
use educpu.Emulator.Memory.{Bus, mem_read, mem_load, load_loop, read_stdin}
use educpu.Emulator.Control.{Machine, cpu_step, fetch, execute, execute_op, execute_flow, halt}
use educpu.Emulator.Run.{cpu_run, cycles}
use educpu.Emulator.Run.Halting.{HaltsAfter}
use educpu.Emulator.Startup.{startup, load_file}
use educpu.Emulator.Command.{
  Options, no_options, read_arg, read_args, parse_hex_addr, strtoul, Ran, dump_each, run_mode, Exit,
  main,
}
use educpu.Emulator.Command.Modes.{cpus, run_mode-HaltsAfter}
use educpu.Emulator.Command.Ends.{main-HaltsAfter}
use educpu.Emulator.Command.Arguments.{Item, addr, binary, trace}
use educpu.Emulator.Command.Addresses.{parse_hex_addr-digit_codes}

abbrev bus : Bus
bus = record {
  mem = λ a. 0;
  stdin = b'y' ∷ b'n' ∷ [];
  stdout = [];
  clock = λ n. n;
  clock_calls = 0;
}

abbrev any_cpu : Cpu
any_cpu = record { regs = []; pc = 7; ir = 0; flags = 0; cycle_count = 0; halted = false }

-- HALT.
abbrev one_word : List ℕ
one_word = 0x00 ∷ 0xf8 ∷ []

abbrev started : Machine
started = record {
  cpu = cpu_reset (cpu_init any_cpu);
  bus = mem_load bus (0xf800 ∷ []) 1 0;
  stderr = [];
}

halting : HaltsAfter started 1
unfolding cpu_step fetch execute execute_op execute_flow halt mem_read instr_opcode mem_load
    load_loop cpu_reset
halting = record { halts = refl; runs = first }
  where
    first : (k : ℕ) → k < 1 → (cycles k started).cpu.halted ≡ false
    first zero lt = refl
    first (suc k) lt = absurd (omega arith)

-- With `--step` a byte of the standard input is gone after the run.
stdin_of : Option Ran → Option (List ℕ)
stdin_of = Option.map (λ (r : Ran). r.0.bus.stdin)

keys :
    (stdin_of (run_mode true false 2 started) ≡ some (b'n' ∷ []))
    × (stdin_of (run_mode false false 2 started) ≡ some (b'y' ∷ b'n' ∷ []))
unfolding stdin_of run_mode dump_each cpu_run cpu_step fetch execute execute_op execute_flow halt
    mem_read instr_opcode mem_load load_loop read_stdin cpu_reset
keys = (refl, refl)

addresses :
    (parse_hex_addr (codes "0x0300") ≡ some 0x300)
    × (parse_hex_addr (codes "-1") ≡ none)
    × (parse_hex_addr (codes "12g") ≡ none)
    × (parse_hex_addr [] ≡ none)
    × (parse_hex_addr (codes "-0xffffffffffffff00") ≡ some 0x100)
unfolding parse_hex_addr strtoul digits_loop skip_space after_sign skip_prefix
addresses = (refl, refl, refl, refl, refl)

abbrev files : Text → Option Text
files path = if str_eq path (codes "a.bin") then some one_word else none

abbrev arguments : List Text
arguments = codes "--addr" ∷ codes "0300" ∷ codes "a.bin" ∷ codes "--trace" ∷ []

abbrev options : Options
options = record {
  bin_path = some (codes "a.bin");
  do_dump = false;
  do_step = false;
  do_trace = true;
  has_addr = true;
  start_addr = 0x300;
}

accepted :
    (read_args arguments false no_options ≡ some options)
    × (read_args (codes "--addr" ∷ []) false no_options ≡ none)
unfolding read_args read_arg str_eq parse_hex_addr strtoul digits_loop skip_space after_sign
    skip_prefix
accepted = (refl, refl)

there : files (codes "a.bin") ≡ some one_word
unfolding str_eq
there = refl

starts : startup any_cpu bus one_word ≡ some started
unfolding startup load_file
starts = refl

main-HaltsAfter_example :
    main 2 files any_cpu bus arguments
    ≡ some (record {
      code = 0;
      ran = some (cycles 1 started, if true then cpus 1 started else []);
      rows = [];
    })
main-HaltsAfter_example =
    main-HaltsAfter 2 1 files any_cpu bus arguments options (codes "a.bin") one_word started
      accepted.0 refl refl refl there starts halting (omega arith)

abbrev parts : List Item
parts = addr 0 (3 ∷ 0 ∷ 0 ∷ []) ∷ binary (codes "a.bin") ∷ trace ∷ []

abbrev ended : Exit
ended = record { code = 0; ran = some (cycles 1 started, cpus 1 started); rows = [] }

traced :
    (run_mode false true 2 started ≡ some (cycles 1 started, cpus 1 started))
    × (run_mode false false 2 started ≡ some (cycles 1 started, []))
traced = run_mode-HaltsAfter 1 2 started halting (omega arith)

two_digits : parse_hex_addr (digit_codes (15 ∷ 0 ∷ [])) ≡ (
    if leb (place_value 16 (15 ∷ 0 ∷ [])) 0xffff then some (place_value 16 (15 ∷ 0 ∷ [])) else none)
two_digits = parse_hex_addr-digit_codes 15 (0 ∷ []) (omega arith)

dumped :
    cpu_dump (record {
      regs = 0 ∷ 42 ∷ 0xffff ∷ 0 ∷ 0 ∷ 0 ∷ 0 ∷ stack_base ∷ [];
      pc = 0x1f;
      ir = 0xf800;
      flags = 5;
      cycle_count = 1207;
      halted = true;
    })
    ≡ codes "=== CPU State ===\nR0: 0x0000 (    0)\nR1: 0x002A (   42)\nR2: 0xFFFF (65535)\n"
      ++ codes "R3: 0x0000 (    0)\nR4: 0x0000 (    0)\nR5: 0x0000 (    0)\nR6: 0x0000 (    0)\n"
      ++ codes "R7: 0xFEFF (65279)\nPC: 0x001F\nIR: 0xF800\nSP: 0xFEFF\n"
      ++ codes "FLAGS: [Z=1 N=0 C=1 O=0] (0x05)\nCYCLES: 1207\nHALTED: yes\n"
unfolding cpu_dump reg_lines decimal_loop
dumped = refl
