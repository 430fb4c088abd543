-- ===== src/Emulator/Startup.antt =====
-- emulator/main.c between the options and the run: the checks on the file, the words that are read
-- from it and loaded, the initial processor, and the range of `--dump`. The file is the list of its
-- bytes, read by a little-endian host; a run that the checks refuse is `none`.
pub mod Load
pub mod DumpRange
pub mod Reachable
use educpu.Prelude.{
  ℕ, ◌+◌, ◌*◌, ◌/◌, ◌%◌, ◌^◌, Bool, not, List, [], ◌∷◌, Option, none, some, length, ltb, ◌==◌,
  if◌then◌else◌,
}
use educpu.Isa.{mem_size}
use educpu.Emulator.Cpu.{Cpu, cpu_init, cpu_reset}
use educpu.Emulator.Memory.{Bus, mem_load}
use educpu.Emulator.Memory.Dump.{Row, mem_dump}
use educpu.Emulator.Control.{Machine}

-- `fread` of 16-bit words.
abbrev pub read_words : List ℕ → List ℕ
read_words (lo ∷ hi ∷ bytes) = (lo + hi * 2 ^ 8) ∷ read_words bytes
read_words _ = []

unfoldable pub load_file : Bus → List ℕ → Option Bus
load_file bus bytes =
    let num_words = length bytes / 2 in
    if not (length bytes % 2 == 0)
    then none
    else if ltb mem_size num_words
    then none
    else some
        (if ltb 0 num_words then mem_load bus (read_words bytes) (num_words % 2 ^ 16) 0 else bus)

start_with : Cpu → Option Bus → Option Machine
start_with cpu none = none
start_with cpu (some bus) = some (record { cpu = cpu_reset (cpu_init cpu); bus = bus; stderr = [] })

-- The machine that the first cycle runs on.
unfoldable pub startup : Cpu → Bus → List ℕ → Option Machine
unfolding start_with load_file
startup cpu bus bytes = start_with cpu (load_file bus bytes)

-- The last address, exclusive, for `--addr` with this start.
unfoldable pub dump_end : Bool → ℕ → ℕ
dump_end has_addr start =
    let end_calc = start + 0x0100 in
    if has_addr then (if ltb 0xffff end_calc then 0xffff else end_calc % 2 ^ 16) else 0x0100

unfoldable pub dump_range : ℕ → Bool → ℕ → Bus → Option (List Row)
unfolding dump_end
dump_range fuel has_addr start bus = mem_dump fuel bus start (dump_end has_addr start)
