-- ===== src/Emulator/StartupTests.antt =====
-- Runs of the emulator's start, and its theorems at concrete inputs.
use educpu.Prelude.{
  ℕ, suc, ◌+◌, ◌-◌, ◌*◌, ◌/◌, ◌^◌, ◌≡◌, refl, arith, true, false, List, [], ◌∷◌, none, some, length,
  length-replicate, replicate, get_or, ltb, if◌then◌else◌,
}
use educpu.Emulator.Memory.{Bus}
use educpu.Emulator.Memory.Dump.{Row, words_from, all_words}
use educpu.Emulator.Startup.{load_file, dump_end, dump_range}
use educpu.Emulator.Startup.Load.{load_file-words, load_file-full}
use educpu.Emulator.Cpu.{Cpu, cpu_init, cpu_reset}
use educpu.Emulator.Memory.{mem_load}
use educpu.Emulator.Control.{Machine}
use educpu.Emulator.Control.Invariant.{IsMachine}
use educpu.Emulator.Run.{cycles}
use educpu.Emulator.Startup.{startup}
use educpu.Emulator.Startup.Reachable.{startup-IsMachine}
use educpu.Emulator.Startup.DumpRange.{dump_range-words, dump_range-never_ends}

abbrev bus : Bus
bus = record { mem = λ a. 0; stdin = []; stdout = []; clock = λ n. n; clock_calls = 0 }

-- MOV R1, 5 and HALT.
abbrev two_words : List ℕ
two_words = 0x05 ∷ 0x61 ∷ 0x00 ∷ 0xf8 ∷ []

odd_file : load_file bus (1 ∷ 2 ∷ 3 ∷ []) ≡ none
unfolding load_file
odd_file = refl

two_words_loaded :
    (loaded : Bus) × (load_file bus two_words ≡ some loaded)
    × (loaded.mem 1 ≡ (
        if ltb 1 (length two_words / 2)
        then get_or two_words (2 * 1) 0 + get_or two_words (2 * 1 + 1) 0 * 2 ^ 8
        else 0))
two_words_loaded = load_file-words bus two_words 1 (omega arith) (omega arith) (omega arith)

-- A file of 2 ^ 17 bytes, all the same.
full_file : List ℕ
full_file = replicate (2 ^ 17) 7

length-full_file : length full_file ≡ 2 ^ 17
unfolding full_file
length-full_file = length-replicate {A = ℕ} (2 ^ 17) 7

load_file-full_example : load_file bus full_file ≡ some bus
load_file-full_example = load_file-full bus full_file length-full_file

dump_range-words_example :
    (dump_end true 0x300 ≡ 0x300 + 256)
    × ((rows : List Row) × (dump_range (suc 40) true 0x300 bus ≡ some rows)
        × (all_words rows ≡ words_from bus.mem 0x300 (dump_end true 0x300 - 0x300)))
dump_range-words_example = dump_range-words 40 0x300 bus (omega arith) (omega arith)

dump_range-never_ends_example : dump_range 1000 true 0xff00 bus ≡ none
dump_range-never_ends_example =
    dump_range-never_ends 1000 0xff00 bus (omega arith) (omega arith) (omega arith)

abbrev any_cpu : Cpu
any_cpu = record { regs = []; pc = 7; ir = 0; flags = 0; cycle_count = 0; halted = false }

abbrev started : Machine
started = record {
  cpu = cpu_reset (cpu_init any_cpu);
  bus = mem_load bus (0x6105 ∷ 0xf800 ∷ []) 2 0;
  stderr = [];
}

startup-IsMachine_example : IsMachine (cycles 2 started)
unfolding startup
startup-IsMachine_example =
    startup-IsMachine any_cpu bus two_words started 2 (omega arith) (omega arith) refl
