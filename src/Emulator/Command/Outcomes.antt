-- ===== src/Emulator/Command/Outcomes.antt =====
-- What the process has done when it ends, on a command line given by its parts.
use mathlib.Core.Option
use educpu.Prelude.{
  ℕ, ◌%◌, ◌^◌, ◌≤◌, ◌||◌, ◌≢◌, ◌∷◌, length, ◌<◌, ◌≡◌, ◌⊎◌, Bool, true, false, ◌&&◌, List, [],
  Option, none, some,
}
use educpu.Assembler.Text.{Text}
use educpu.Emulator.Cpu.{Cpu}
use educpu.Emulator.Memory.{Bus}
use educpu.Emulator.Memory.Dump.{Row}
use educpu.Emulator.Control.{Machine}
use educpu.Emulator.Startup.{startup, dump_range}
use educpu.Emulator.Command.Modes.{RunsTo}
use educpu.Emulator.Command.Arguments.{
  Item, is_bad, is_dump, is_step, is_trace, any, binaries, last_addr,
}
use educpu.Emulator.Command.Given.{Given}
use educpu.Emulator.Command.{Ran, Exit, refuse}

-- There is no such file, or it has an odd number of bytes, or more than the memory.
abbrev pub Unusable : Option Text → Type 0
Unusable none = Unit
Unusable (some bytes) = (length bytes % 2 ≢ 0) ⊎ (2 ^ 17 < length bytes)

-- What is wrong with a command line.
abbrev pub IsRefused : (Text → Option Text) → List Item → Type 0
IsRefused read_file items =
    (any is_bad items ≡ true)
    ⊎ (length (binaries items) ≢ 1)
    ⊎ ((any is_step items && any is_trace items) ≡ true)
    ⊎ ((path : Text) × (binaries items ≡ path ∷ []) × Unusable (read_file path))

-- The rows that are dumped, from the address of the last `--addr`, or from 0 without one.
abbrev pub Dumps : ℕ → Bus → Bool → Bool × ℕ → List Row → Type 0
Dumps fuel bus true at rows = dump_range fuel at.0 at.1 bus ≡ some rows
Dumps fuel bus false at rows = rows ≡ []

-- The one file was there and was accepted, and the machine it gives was run to its halt as the flags
-- say.
abbrev pub RanFile : ℕ → (Text → Option Text) → Cpu → Bus → List Item → Exit → Type 0
RanFile fuel read_file cpu bus items e =
    (path : Text) × (bytes : Text) × (first : Machine) × (ran : Ran) × (any is_bad items ≡ false)
    × (binaries items ≡ path ∷ [])
    × ((any is_step items && any is_trace items) ≡ false)
    × (read_file path ≡ some bytes)
    × (length bytes % 2 ≡ 0)
    × (length bytes ≤ 2 ^ 17)
    × (startup cpu bus bytes ≡ some first)
    × RunsTo (any is_step items) (any is_step items || any is_trace items) first ran
    × Dumps fuel ran.0.bus (any is_dump items) (last_addr items (false, 0)) e.rows
    × (e.ran ≡ some ran)
    × (e.code ≡ 0)

-- A refusal with its reason, or a run.
abbrev pub EndsAs : ℕ → (Text → Option Text) → Cpu → Bus → List Item → Exit → Type 0
EndsAs fuel read_file cpu bus items e =
    ((e ≡ refuse) × IsRefused read_file items) ⊎ RanFile fuel read_file cpu bus items e
