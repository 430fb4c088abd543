-- ===== src/Assembler/Passes/Listing/Runs.antt =====
-- Runs of an assembled program of the source language.
use mathlib.Core.Option
use mathlib.Core.Path.{fun_ext, ap₂}
use educpu.Prelude.{
  ℕ, zero, suc, ◌+◌, ◌-◌, ◌^◌, ◌<◌, ◌≤◌, ◌≡◌, ◌∙◌, refl, sym, ap, arith, ◌++◌, length, replicate,
  Option-cases, Bool, true, false, List, [], ◌∷◌, Option, none, some, All, ◌==◌, if◌then◌else◌, inl,
  inr, Bool-cases,
}
use educpu.Assembler.Syntax.{Operand, no_operand, Instr}
use educpu.Assembler.Text.{Text}
use educpu.Assembler.Parser.{ParsedLine}
use educpu.Assembler.Parser.Source.{
  Arg, reg, num, name, arg_operand, arg_operands, Stmt, empty, instr, org, word, ascii, equ, IsStmt,
  stmt_line, Line, plain, labelled, IsLine,
}
use educpu.Assembler.Passes.{pass1, pass1_start, assemble}
use educpu.Assembler.Passes.Addresses.{Forward}
use educpu.Assembler.Passes.Symbols.{Env, bind_all, IsShort}
use educpu.Assembler.Passes.Names.{kind_value, values, with_names, source_names}
use educpu.Assembler.Passes.Runs.{
  find_line, instr_step, line_instr, source_step, source_run, cycles-source_run,
}
use educpu.Assembler.Passes.Listing.{statement, stmt_next, head, line_at, listing, print_program}
use educpu.Assembler.Passes.Listing.Words.{arg_value, arg_values, instr_of}
use educpu.Assembler.Passes.Listing.Symbols.{no_symbols, program_symbols}
use educpu.Assembler.Passes.Listing.Complete.{names, laid_out, same_symbols, symbols-IsShort}
use educpu.Emulator.Memory.{Bus}
use educpu.Emulator.Control.{Machine}
use educpu.Emulator.Control.Invariant.{IsMachine}
use educpu.Emulator.Run.{cycles}
use educpu.Emulator.Startup.{load_file}

-- The instruction of a statement, with its names replaced by their numbers.
abbrev pub stmt_instr : Env → Stmt → Option Instr
stmt_instr env (instr m args) = some (instr_of m (arg_values env args).0)
stmt_instr _ _ = none

abbrev found_at : Option Instr → Bool → Option Instr → Option Instr
found_at none here rest = rest
found_at (some i) here rest = if here then some i else rest

-- The instruction at `pc`, of lines from the address `a` on.
abbrev pub program_instr : Env → List Line → ℕ → ℕ → Option Instr
program_instr env [] a pc = none
program_instr env (l ∷ ls) a pc =
    found_at (stmt_instr env (statement l)) (a == pc)
      (program_instr env ls (stmt_next (statement l) a) pc)

-- A cycle by the program: `none` if no instruction stands at the program counter, or if the program
-- has overwritten its word there.
abbrev pub program_step : (ℕ → ℕ) → List Line → Machine → Option Machine
program_step image program m =
    if m.cpu.halted
    then some m
    else instr_step image m (program_instr (names program) program 0 m.cpu.pc)

abbrev pub program_run : (ℕ → ℕ) → List Line → ℕ → Machine → Option Machine
program_run image program zero m = some m
program_run image program (suc n) m =
    Option.bind (program_step image program m) (program_run image program n)

arg_value-kind_value :
    (env : Env) (a : Arg)
    → kind_value (arg_operand a).kind env (arg_operand a) ≡ (arg_value env a).0
arg_value-kind_value env (reg n) = refl
arg_value-kind_value env (num n) = refl
arg_value-kind_value env (name s) = elim (Option-cases (env s)) [
  | inl unknown ↦ rw unknown refl
  | inr (v, known) ↦ rw known refl
]

-- The operands of a statement, with the names replaced.
values-arg_values :
    (env : Env) (args : List Arg) (n : ℕ)
    → length args ≤ n
    → values (length args) env (arg_operands args (replicate n no_operand))
      ≡ (arg_values env args).0 ++ replicate (n - length args) no_operand
values-arg_values env [] n few = ap (λ (k : ℕ). replicate k no_operand) (omega arith)
values-arg_values env (a ∷ args) zero few = absurd (omega arith)
values-arg_values env (a ∷ args) (suc n) few =
    let rest : suc n - length (a ∷ args) ≡ n - length args = omega arith in
    ap₂ ◌∷◌ (arg_value-kind_value env a) (
      values-arg_values env args n (omega arith)
      ∙ ap (λ (k : ℕ). (arg_values env args).0 ++ replicate k no_operand) (sym rest))

length-arg_values : (env : Env) (args : List Arg) → length (arg_values env args).0 ≡ length args
length-arg_values env [] = refl
length-arg_values env (a ∷ args) = omega (arith, length-arg_values env args)

with_names-args :
    (env : Env) (m : Text) (args : List Arg)
    → length args ≤ 3
    → with_names env (record {
      mnemonic = m;
      ops = arg_operands args (replicate 3 no_operand);
      nops = length args;
    })
      ≡ instr_of m (arg_values env args).0
with_names-args env m args few =
    let same = length-arg_values env args in
    ap₂ (λ (l : List Operand) (n : ℕ). record { mnemonic = m; ops = l; nops = n })
      (values-arg_values env args 3 few
        ∙ ap (λ (k : ℕ). (arg_values env args).0 ++ replicate (3 - k) no_operand) (sym same))
      (sym same)

stmt_line-found :
    (env : Env) (s : Stmt) (b : Bool) (n a pc : ℕ) (l : Text) (pls : List ParsedLine)
    → IsStmt s
    → Option.map (line_instr env) (find_line pc (stmt_line s (head b n a l) ∷ pls))
      ≡ found_at (stmt_instr env s) (a == pc) (Option.map (line_instr env) (find_line pc pls))
stmt_line-found env empty false n a pc l pls h = refl
stmt_line-found env empty true n a pc l pls h = refl
stmt_line-found env (instr m args) b n a pc l pls h = elim (Bool-cases (a == pc)) [
  | inl here ↦ rw here (ap (λ (i : Instr). some i) (with_names-args env m args h.2))
  | inr later ↦ rw later refl
]
stmt_line-found env (org v) b n a pc l pls h = refl
stmt_line-found env (word x) b n a pc l pls h = refl
stmt_line-found env (ascii s) b n a pc l pls h = refl
stmt_line-found env (equ s v) b n a pc l pls h = refl

line_at-found :
    (env : Env) (l : Line) (n a pc : ℕ) (pls : List ParsedLine)
    → IsLine l
    → Option.map (line_instr env) (find_line pc (line_at l n a ∷ pls))
      ≡ found_at
          (stmt_instr env (statement l))
          (a == pc)
          (Option.map (line_instr env) (find_line pc pls))
line_at-found env (plain s) n a pc pls h = stmt_line-found env s false n a pc [] pls h
line_at-found env (labelled l s) n a pc pls h = stmt_line-found env s true n a pc l pls h.1

find_line-listing :
    (env : Env) (ls : List Line) (n a pc : ℕ)
    → All IsLine ls
    → Option.map (line_instr env) (find_line pc (listing ls n a)) ≡ program_instr env ls a pc
find_line-listing env [] n a pc h = refl
find_line-listing env (l ∷ ls) n a pc h =
    line_at-found env l n a pc (listing ls (n + 1) (stmt_next (statement l) a)) h.0
    ∙ ap (found_at (stmt_instr env (statement l)) (a == pc))
        (find_line-listing env ls (n + 1) (stmt_next (statement l) a) pc h.1)

module _ (program : List Line) (lines_fit : All IsLine program)
    (short : All IsShort (program_symbols program 0)) where
  source_step-program_step :
      (image : ℕ → ℕ) (m : Machine)
      → source_step image (pass1 (print_program program) 1 pass1_start).1 m
        ≡ program_step image program m
  source_step-program_step image m =
      let pls = (pass1 (print_program program) 1 pass1_start).1 in
      let instrs : Option.map (line_instr (source_names pls)) (find_line m.cpu.pc pls)
          ≡ program_instr (names program) program 0 m.cpu.pc =
        ap₂
          (λ (env : Env) (l : List ParsedLine). Option.map (line_instr env) (find_line m.cpu.pc l))
          (ap (λ (ss : List (Text × ℕ)). bind_all ss no_symbols)
            (same_symbols program lines_fit short))
          (laid_out program lines_fit short)
        ∙ find_line-listing (names program) program 1 0 m.cpu.pc lines_fit in
      ap (λ (o : Option Instr). if m.cpu.halted then some m else instr_step image m o) instrs

  source_run-program_run :
      (image : ℕ → ℕ) (n : ℕ) (m : Machine)
      → source_run image (pass1 (print_program program) 1 pass1_start).1 n m
        ≡ program_run image program n m
  source_run-program_run image zero m = refl
  source_run-program_run image (suc n) m =
      ap₂ Option.bind (source_step-program_step image m) (fun_ext (source_run-program_run image n))

-- A program whose lines are as `IsLine` says, with names of 63 bytes at most for its labels and
-- constants, is printed with a space after each token. If it is assembled to a file, no line of its
-- listing goes back to a lower address and the last one ends at 0xFFFF at most, and the emulator
-- loads that file, then for any number of cycles, from any machine whose registers, flags and memory
-- words are in their ranges: if the run by the program goes so far, the processor is where it is. The
-- run by the program goes on as long as the program counter is at an instruction of the program, below
-- the ports, whose word is still as it was loaded; each step does what `meaning` says of the
-- instruction that the mnemonic names, with its names replaced by their numbers, and after HALT nothing
-- changes.
pub cycles-program_run :
    (program : List Line) (bus loaded : Bus) (e : ℕ) (bytes : List ℕ)
    → All IsLine program
    → All IsShort (program_symbols program 0)
    → Forward 0 (listing program 1 0) e
    → e < 2 ^ 16
    → (assemble (print_program program)).output ≡ some bytes
    → load_file bus bytes ≡ some loaded
    → (n : ℕ) (m last : Machine) → IsMachine m
    → program_run loaded.mem program n m ≡ some last
    → cycles n m ≡ last
cycles-program_run program bus loaded e bytes lines_fit short forward small written loads n m last
      fits is =
    cycles-source_run (print_program program) bus loaded e bytes
      (symbols-IsShort program lines_fit short) (rw (laid_out program lines_fit short) forward)
      small written loads n m last fits
      (source_run-program_run program lines_fit short loaded.mem n m ∙ is)
