-- ===== src/Assembler/Driver/Runs.antt =====
-- What the process has done when it ends without an error.
use mathlib.Core.Option
use educpu.Assembler.Driver.Paths.{IsDerived, derive_output_path-IsDerived}
use educpu.Assembler.Driver.Arguments.{
  Item, command, IsItem, sources, last_output, AsksHelp, Reads, Outcome, read_args-Outcome,
  one_source,
}
use educpu.Prelude.{
  [], ◌∷◌, All, ℕ, ◌≡◌, ◌⊎◌, inl, inr, refl, ap, arith, false, List, Option, none, some,
}
use educpu.Assembler.Text.{Text}
use educpu.Assembler.Passes.{assemble}
use educpu.Assembler.Passes.Written.{IsAssembled, assemble-IsAssembled, assemble-cases}
use educpu.Assembler.Source.{source_read, assemble_file}
use educpu.Assembler.Driver.{
  Cli, exit, go, AsmOptions, no_options, read_args, Exit, report, assembled_to, assemble_at,
  output_path, run_with, finish_cli, main,
}

-- The source file is there and is assembled, and the file at the output path is the result.
abbrev pub Wrote : (Text → Option Text) → AsmOptions → Exit → Type 0
Wrote read_file opt r =
    (src : Text) × (bytes : Text) × (lines : List Text) × (out : List ℕ) × (opt.src_path ≡ some src)
    × (read_file src ≡ some bytes)
    × (source_read bytes ≡ some lines)
    × ((assemble lines).output ≡ some out)
    × (r.file ≡ some (output_path src opt.out_path, out))
    × IsAssembled lines

report-written :
    (path : Text) (lines : List Text)
    → (report path (assemble lines)).code ≡ 0
    → (out : List ℕ) × ((assemble lines).output ≡ some out)
report-written path lines zero = elim (assemble-cases lines) [
  | inl written ↦ written
  | inr failed ↦ absurd (omega (arith, rw failed at zero))
]

read-Wrote :
    (read_file : Text → Option Text) (opt : AsmOptions) (src bytes : Text) (o : Option (List Text))
    → opt.src_path ≡ some src
    → read_file src ≡ some bytes
    → source_read bytes ≡ o
    → (assembled_to (output_path src opt.out_path) (Option.map assemble o)).code ≡ 0
    → Wrote read_file opt (assembled_to (output_path src opt.out_path) (Option.map assemble o))
unfolding assembled_to
read-Wrote read_file opt src bytes none named there is zero = absurd (omega arith)
read-Wrote read_file opt src bytes (some lines) named there is zero =
    let path = output_path src opt.out_path in
    let (out, written) = report-written path lines zero in
    (
      src,
      bytes,
      lines,
      out,
      named,
      there,
      is,
      written,
      ap (Option.map (λ (b : List ℕ). (path, b))) written,
      assemble-IsAssembled lines out written,
    )

at_path-Wrote :
    (read_file : Text → Option Text) (opt : AsmOptions) (src : Text) (b : Option Text)
    → opt.src_path ≡ some src
    → read_file src ≡ b
    → (assemble_at (output_path src opt.out_path) b).code ≡ 0
    → Wrote read_file opt (assemble_at (output_path src opt.out_path) b)
unfolding assemble_at assemble_file
at_path-Wrote read_file opt src none named there zero = absurd (omega arith)
at_path-Wrote read_file opt src (some bytes) named there zero =
    read-Wrote read_file opt src bytes (source_read bytes) named there refl zero

run_with-Wrote :
    (read_file : Text → Option Text) (opt : AsmOptions) (src : Option Text)
    → opt.src_path ≡ src
    → (run_with read_file src opt).code ≡ 0
    → Wrote read_file opt (run_with read_file src opt)
unfolding run_with
run_with-Wrote read_file opt none named zero = absurd (omega arith)
run_with-Wrote read_file opt (some src) named zero =
    at_path-Wrote read_file opt src (read_file src) named refl zero

-- The output file is the one of the last `-o`, or else the one derived from the source's path.
abbrev pub IsOutput : Text → Option Text → Text → Type 0
IsOutput src (some path) out = out ≡ path
IsOutput src none out = IsDerived src out

-- The arguments are parts of which one is a source file, which could be read and was assembled, and
-- the file at the output path is the result.
abbrev pub Writes : (Text → Option Text) → List Text → Exit → Type 0
Writes read_file args r =
    (items : List Item) × (src : Text) × (bytes : Text) × (lines : List Text) × (path : Text)
    × (out : List ℕ) × (args ≡ command items)
    × All IsItem items
    × (sources items ≡ src ∷ [])
    × IsOutput src (last_output items none) path
    × (read_file src ≡ some bytes)
    × (source_read bytes ≡ some lines)
    × ((assemble lines).output ≡ some out)
    × (r.file ≡ some (path, out))
    × IsAssembled lines

output_path-IsOutput : (src : Text) (o : Option Text) → IsOutput src o (output_path src o)
unfolding output_path
output_path-IsOutput src none = derive_output_path-IsDerived src
output_path-IsOutput src (some path) = refl

Wrote-Writes :
    (read_file : Text → Option Text) (args : List Text) (opt : AsmOptions) (r : Exit)
    → Reads args no_options opt
    → Wrote read_file opt r
    → Writes read_file args r
Wrote-Writes read_file args opt r (items, is, all, named, path)
      (src, bytes, lines, out, source_is, there, read, written, file, assembled) =
    (
      items,
      src,
      bytes,
      lines,
      output_path src opt.out_path,
      out,
      is,
      all,
      one_source opt.src_path (sources items) src source_is named,
      rw path (output_path-IsOutput src opt.out_path),
      there,
      read,
      written,
      file,
      assembled,
    )

finish_cli-Writes :
    (read_file : Text → Option Text) (args : List Text) (c : Cli)
    → Outcome args no_options c
    → (finish_cli read_file c).code ≡ 0
    → (AsksHelp args × ((finish_cli read_file c).file ≡ none))
      ⊎ Writes read_file args (finish_cli read_file c)
unfolding finish_cli
finish_cli-Writes read_file args (exit code) asks zero = inl (asks zero, refl)
finish_cli-Writes read_file args (go opt) reads zero = inr (
    Wrote-Writes read_file args opt (run_with read_file opt.src_path opt) reads
      (run_with-Wrote read_file opt opt.src_path refl zero))

-- If the process ends with code 0, then there are two cases. Either the arguments are, after some
-- parts of a command line, `-h` or `--help`, and no file is written. Or they are parts of which
-- exactly one is a source file, the others `-o` with a path, `--listing` and `--symbols`; the source
-- file could be read and the assembler has accepted its lines, and its output is the one file written:
-- at the path of the last `-o`, or, without one, at the source's path with `.bin` in place of the
-- extension of its last part, or after it if the last part has no dot.
pub main-Wrote :
    (read_file : Text → Option Text) (args : List Text)
    → (main read_file args).code ≡ 0
    → (AsksHelp args × ((main read_file args).file ≡ none))
      ⊎ Writes read_file args (main read_file args)
unfolding main
main-Wrote read_file args zero =
    finish_cli-Writes read_file args (read_args args false no_options)
      (read_args-Outcome args no_options) zero
