-- ===== src/Emulator/Command.antt =====
-- emulator/main.c: the options, the three ways to run, and the whole of `main`, on the arguments after
-- the program's name. Reading a file is a parameter: the bytes of the file at a path, or `none` if it
-- cannot be opened. What `cpu_dump` prints is the list of the processors that it is called with; the
-- other messages are left out. The loops take fuel: `none` says that it ran out.
pub mod Arguments
pub mod Given
pub mod Modes
pub mod Ends
pub mod Outcomes
pub mod Addresses
use mathlib.Core.Option
use educpu.Prelude.{
  ℕ, zero, suc, ◌+◌, ◌-◌, ◌%◌, ◌^◌, Bool, true, false, not, ◌&&◌, ◌||◌, List, [], ◌∷◌, Option, none,
  some, length, get_or, ltb, leb, ◌==◌, if◌then◌else◌,
}
use educpu.Assembler.Text.{Text, codes, str_eq}
use educpu.Assembler.Numbers.{digits_loop, skip_space, after_sign, skip_prefix}
use educpu.Emulator.Cpu.{Cpu}
use educpu.Emulator.Memory.{Bus, read_stdin}
use educpu.Emulator.Memory.Dump.{Row}
use educpu.Emulator.Control.{Machine, cpu_step}
use educpu.Emulator.Run.{cpu_run}
use educpu.Emulator.Startup.{startup, dump_range}

-- `strtoul` with base 16, as ISO C has it (2011), for an `unsigned long` of 64 bits: the value and the
-- text from the end pointer on, or `none` if errno is set.
unfoldable pub strtoul : Text → Option (ℕ × Text)
strtoul s =
    let (negative, unsigned) = after_sign (skip_space s) in
    let digits = skip_prefix 16 unsigned in
    let (n, rest) = digits_loop 16 0 digits in
    if length rest == length digits
    then some (0, s)
    else if leb (2 ^ 64) n
    then none
    else some ((if negative then (2 ^ 64 - n) % 2 ^ 64 else n), rest)

hex_addr : Text → Option (ℕ × Text) → Option ℕ
hex_addr text none = none
hex_addr text (some (parsed, rest)) =
    if length rest == length text || leb 1 (length rest) || ltb 0xffff parsed
    then none
    else some parsed

unfoldable pub parse_hex_addr : Text → Option ℕ
unfolding strtoul hex_addr
parse_hex_addr text = hex_addr text (strtoul text)

pub record Options : Type 0 where
  pub bin_path : Option Text
  pub do_dump : Bool
  pub do_step : Bool
  pub do_trace : Bool
  pub has_addr : Bool
  pub start_addr : ℕ

abbrev pub no_options : Options
no_options = record {
  bin_path = none;
  do_dump = false;
  do_step = false;
  do_trace = false;
  has_addr = false;
  start_addr = 0;
}

-- An argument is refused, is `--addr`, or changes the options.
pub data Arg : Type 0 where
  refused wants_addr : Arg
  sets : Options → Arg

positional : Text → Options → Option Text → Arg
positional a opt none = sets (record opt { bin_path = some a })
positional a opt (some path) = refused

unfoldable pub read_arg : Text → Options → Arg
unfolding positional
read_arg a opt =
    if str_eq a (codes "--dump")
    then sets (record opt { do_dump = true })
    else if str_eq a (codes "--step")
    then sets (record opt { do_step = true })
    else if str_eq a (codes "--trace")
    then sets (record opt { do_trace = true })
    else if str_eq a (codes "--addr")
    then wants_addr
    else if get_or a 0 0 == b'-'
    then refused
    else positional a opt opt.bin_path

-- The loop over the arguments; `wanted` is whether the last one was `--addr`. `none` is a refusal.
unfoldable pub read_args : List Text → Bool → Options → Option Options
read_args [] true opt = none
read_args [] false opt = some opt
read_args (a ∷ rest) true opt = elim (parse_hex_addr a) [
  | none ↦ none
  | some addr ↦ read_args rest false (record opt { has_addr = true; start_addr = addr })
]
read_args (a ∷ rest) false opt = elim (read_arg a opt) [
  | refused ↦ none
  | wants_addr ↦ read_args rest true opt
  | sets next ↦ read_args rest false next
]

-- The machine after a run, and the processors that were dumped.
abbrev pub Ran : Type 0
Ran = Machine × List Cpu

-- `getchar`, for a key that is not used.
abbrev pub wait_key : Machine → Machine
wait_key m = record m { bus = (read_stdin m.bus m.bus.stdin).1 }

-- The loop that dumps after each cycle, with what it does after the dump.
unfoldable pub dump_each : (Machine → Machine) → ℕ → Machine → Option Ran
dump_each after zero m = none
dump_each after (suc fuel) m =
    let next = cpu_step m in
    let rest = dump_each after fuel (after next) in
    if m.cpu.halted then some (m, []) else Option.map (λ (r : Ran). (r.0, next.cpu ∷ r.1)) rest

unfoldable pub run_mode : Bool → Bool → ℕ → Machine → Option Ran
run_mode true trace fuel m = dump_each wait_key fuel m
run_mode false true fuel m = dump_each (λ next. next) fuel m
run_mode false false fuel m = Option.map (λ (r : Machine). (r, [])) (cpu_run fuel m)

-- The end of the process: its code, and the machine and the rows of the dump if it has run.
pub record Exit : Type 0 where
  pub code : ℕ
  pub ran : Option Ran
  pub rows : List Row

abbrev pub refuse : Exit
refuse = record { code = 1; ran = none; rows = [] }

dump_after : ℕ → Options → Option Ran → Option Exit
dump_after fuel opt none = none
dump_after fuel opt (some (m, dumps)) =
    if opt.do_dump
    then Option.map (λ rows. record { code = 0; ran = some (m, dumps); rows = rows })
        (dump_range fuel opt.has_addr opt.start_addr m.bus)
    else some (record { code = 0; ran = some (m, dumps); rows = [] })

run_from : ℕ → Options → Option Machine → Option Exit
unfolding dump_after
run_from fuel opt none = some refuse
run_from fuel opt (some m) = dump_after fuel opt (run_mode opt.do_step opt.do_trace fuel m)

run_file : ℕ → Cpu → Bus → Options → Option Text → Option Exit
unfolding run_from
run_file fuel cpu bus opt none = some refuse
run_file fuel cpu bus opt (some bytes) = run_from fuel opt (startup cpu bus bytes)

run_path : ℕ → (Text → Option Text) → Cpu → Bus → Options → Option Text → Option Exit
unfolding run_file
run_path fuel read_file cpu bus opt none = some refuse
run_path fuel read_file cpu bus opt (some path) =
    if opt.do_step && opt.do_trace then some refuse else run_file fuel cpu bus opt (read_file path)

run_options : ℕ → (Text → Option Text) → Cpu → Bus → Option Options → Option Exit
unfolding run_path
run_options fuel read_file cpu bus none = some refuse
run_options fuel read_file cpu bus (some opt) = run_path fuel read_file cpu bus opt opt.bin_path

-- Without arguments there is no path, which is refused in the same way.
unfoldable pub main : ℕ → (Text → Option Text) → Cpu → Bus → List Text → Option Exit
unfolding run_options read_args
main fuel read_file cpu bus args =
    run_options fuel read_file cpu bus (read_args args false no_options)
