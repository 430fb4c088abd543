-- ===== src/Assembler/Driver.antt =====
-- assembler/main.c: the command line of the assembler, on the arguments after the program's name. What
-- is printed is left out, and memory allocation succeeds. Reading a file is a parameter: the bytes of
-- the file at a path, or `none` if it cannot be opened.
pub mod Paths
pub mod Arguments
pub mod Runs
use mathlib.Core.Option
use educpu.Prelude.{
  ℕ, zero, suc, ◌+◌, ◌*◌, Bool, true, false, not, ◌&&◌, ◌||◌, List, [], ◌∷◌, ◌++◌, Option, none,
  some, length, get_or, ltb, ◌==◌, if◌then◌else◌,
}
use educpu.Assembler.Text.{Text, codes, str_eq, take}
use educpu.Assembler.Errors.{AsmError}
use educpu.Assembler.Passes.{Assembled}
use educpu.Assembler.Source.{assemble_file}

-- The offset of the last `c` in `s`.
unfoldable pub strrchr : Text → ℕ → Option ℕ
strrchr [] c = none
strrchr (x ∷ s) c = elim (strrchr s c) [
  | some i ↦ some (i + 1)
  | none ↦ if x == c then some 0 else none
]

abbrev pub dot_bin : Text
dot_bin = codes ".bin"

-- Whether the dot starts the extension of the last part of a path.
ends_name : Option ℕ → ℕ → Bool
ends_name none dot = true
ends_name (some slash) dot = ltb slash dot

replace_extension : Option ℕ → Option ℕ → Text → Text
unfolding ends_name
replace_extension none slash path = path ++ dot_bin
replace_extension (some dot) slash path =
    if ends_name slash dot then take dot path ++ dot_bin else path ++ dot_bin

unfoldable pub derive_output_path : Text → Text
unfolding replace_extension
derive_output_path path = replace_extension (strrchr path b'.') (strrchr path b'/') path

pub record AsmOptions : Type 0 where
  pub src_path : Option Text
  pub out_path : Option Text
  pub listing : Bool
  pub dump_symbols : Bool

-- The process ends with this code before it assembles, or it goes on.
pub data Cli : Type 0 where
  exit : ℕ → Cli
  go : AsmOptions → Cli

-- An argument ends the process, is `-o`, or changes the options.
pub data Arg : Type 0 where
  stops : ℕ → Arg
  wants_path : Arg
  sets : AsmOptions → Arg

positional : Text → AsmOptions → Option Text → Arg
positional a opt none = sets (record opt { src_path = some a })
positional a opt (some path) = stops 2

unfoldable pub read_arg : Text → AsmOptions → Arg
unfolding positional
read_arg a opt =
    if str_eq a (codes "-h") || str_eq a (codes "--help")
    then stops 0
    else if str_eq a (codes "-o")
    then wants_path
    else if str_eq a (codes "--listing")
    then sets (record opt { listing = true })
    else if str_eq a (codes "--symbols")
    then sets (record opt { dump_symbols = true })
    else if get_or a 0 0 == b'-'
    then stops 2
    else positional a opt opt.src_path

-- The loop over the arguments; `wanted` is whether the last one was `-o`.
unfoldable pub read_args : List Text → Bool → AsmOptions → Cli
read_args [] true opt = exit 2
read_args [] false opt = go opt
read_args (a ∷ rest) true opt = read_args rest false (record opt { out_path = some a })
read_args (a ∷ rest) false opt = elim (read_arg a opt) [
  | stops code ↦ exit code
  | wants_path ↦ read_args rest true opt
  | sets next ↦ read_args rest false next
]

abbrev pub no_options : AsmOptions
no_options = record { src_path = none; out_path = none; listing = false; dump_symbols = false }

-- The end of the process: its code, and the file that it has written.
pub record Exit : Type 0 where
  pub code : ℕ
  pub file : Option (Text × Text)

abbrev pub refuse : ℕ → Exit
refuse code = record { code = code; file = none }

-- The code is 0 if there is no error.
abbrev report : Text → Assembled → Exit
report path out = record {
  code = elim out.rc [ none ↦ (if out.n_errors == 0 then 0 else 1) | some e ↦ 1 ];
  file = Option.map (λ bytes. (path, bytes)) out.output;
}

assembled_to : Text → Option Assembled → Exit
assembled_to path none = refuse 1
assembled_to path (some out) = report path out

assemble_at : Text → Option Text → Exit
unfolding assembled_to
assemble_at path none = refuse 1
assemble_at path (some bytes) = assembled_to path (assemble_file bytes)

pub output_path : Text → Option Text → Text
output_path src none = derive_output_path src
output_path src (some path) = path

run_with : (Text → Option Text) → Option Text → AsmOptions → Exit
unfolding assemble_at output_path
run_with read_file none opt = refuse 2
run_with read_file (some src) opt = assemble_at (output_path src opt.out_path) (read_file src)

finish_cli : (Text → Option Text) → Cli → Exit
unfolding run_with
finish_cli read_file (exit code) = refuse code
finish_cli read_file (go opt) = run_with read_file opt.src_path opt

unfoldable pub main : (Text → Option Text) → List Text → Exit
unfolding finish_cli read_args
main read_file args = finish_cli read_file (read_args args false no_options)
