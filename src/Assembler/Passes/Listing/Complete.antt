-- ===== src/Assembler/Passes/Listing/Complete.antt =====
-- Exactly which programs of the source language are assembled.
use educpu.Prelude.{ℕ, ◌+◌, ◌≤◌, ◌≡◌, ◌↔◌, ◌∙◌, sym, ap, List, [], ◌∷◌, some, length, All}
use educpu.Assembler.Text.{Text}
use educpu.Assembler.Parser.Source.{Line, IsLine}
use educpu.Assembler.Symtable.{SymTable, sym_capacity, symtable_lookup, symtable_reset}
use educpu.Assembler.Symtable.Insert.{symtable_reset-IsTable}
use educpu.Assembler.Passes.{pass1, pass1_start, assemble}
use educpu.Assembler.Passes.Symbols.{Env, bind_all, symbols, IsShort, NewNames, HasName}
use educpu.Assembler.Passes.Symbols.Labels.{pass1-Takes}
use educpu.Assembler.Passes.Symbols.Accepts.{OrgFits}
use educpu.Assembler.Passes.Written.{HasWords, assemble-clean}
use educpu.Assembler.Passes.Complete.{IsSource, assemble-IsSource_iff, pass1-clean, start-CanTake}
use educpu.Assembler.Passes.Listing.{
  statement, stmt_next, listing, print_program, pass1-listing, print_program-AreAccepted,
}
use educpu.Assembler.Passes.Listing.Words.{line_words-line_at, FitsStmt, stmt_words-FitsStmt_iff}
use educpu.Assembler.Passes.Listing.Symbols.{
  no_symbols, symtable_lookup-symtable_reset, program_symbols, symbols-listing,
  program_symbols-HasName, FitsOrg, listing-FitsOrg,
}

-- At its address, from `a` on, every statement uses names that are defined, and every instruction
-- can be encoded.
abbrev pub FitsAt : Env → List Line → ℕ → Type 0
FitsAt env [] a = Unit
FitsAt env (l ∷ ls) a = FitsStmt env (statement l) a × FitsAt env ls (stmt_next (statement l) a)

-- The names of a program, with the numbers that they stand for.
abbrev pub names : List Line → Env
names program = bind_all (program_symbols program 0) no_symbols

-- What a program must be: every `.org` names an address, no name is defined twice, there are at most
-- 256 labels and constants, every name that is used is defined, and every instruction can be encoded
-- at its address.
pub record IsProgram (program : List Line) : Type 0 where
  pub org_fits : All (λ l. FitsOrg (statement l)) program
  pub new : NewNames (program_symbols program 0) no_symbols
  pub few : length (program_symbols program 0) ≤ sym_capacity
  pub fits : FitsAt (names program) program 0

listing-FitsAt :
    (table : SymTable) (ls : List Line) (n a : ℕ)
    → All IsLine ls
    → All (HasWords table) (listing ls n a) ↔ FitsAt (symtable_lookup table) ls a
listing-FitsAt table [] n a h = (λ w. tt, λ w. tt)
listing-FitsAt table (l ∷ ls) n a h =
    let same = line_words-line_at table l n a h.0 in
    let (only, enough) = stmt_words-FitsStmt_iff (symtable_lookup table) (statement l) a in
    let (rest, back) = listing-FitsAt table ls (n + 1) (stmt_next (statement l) a) h.1 in
    (
      λ w. (only (w.0.0, sym same ∙ w.0.1), rest w.1),
      λ w. let (ws, is) = enough w.0 in ((ws, same ∙ is), back w.1),
    )

module _ (program : List Line) (lines_fit : All IsLine program)
    (short : All IsShort (program_symbols program 0)) where
  pub laid_out : (pass1 (print_program program) 1 pass1_start).1 ≡ listing program 1 0
  laid_out = pass1-listing program 1 pass1_start lines_fit

  pub same_symbols :
      symbols (pass1 (print_program program) 1 pass1_start).1 ≡ program_symbols program 0
  same_symbols = ap symbols laid_out ∙ symbols-listing program 1 0 lines_fit

  pub symbols-IsShort : All IsShort (symbols (pass1 (print_program program) 1 pass1_start).1)
  symbols-IsShort = rw same_symbols short

  -- After a first pass without an error the table binds the names of the program.
  same_names :
      (pass1 (print_program program) 1 pass1_start).0.n_errors ≡ 0
      → symtable_lookup (pass1 (print_program program) 1 pass1_start).0.table ≡ names program
  same_names clean =
      (pass1-Takes (print_program program) 1 pass1_start symtable_reset-IsTable symbols-IsShort
        clean).binds
      ∙ ap (λ (ss : List (Text × ℕ)). bind_all ss (symtable_lookup symtable_reset)) same_symbols
      ∙ ap (bind_all (program_symbols program 0)) symtable_lookup-symtable_reset

  source-IsProgram :
      (pass1 (print_program program) 1 pass1_start).0.n_errors ≡ 0
      → IsSource
          (print_program program)
          (pass1 (print_program program) 1 pass1_start).0
          (pass1 (print_program program) 1 pass1_start).1
      → IsProgram program
  source-IsProgram clean h = record {
    org_fits = (listing-FitsOrg program 1 0).0 (rw laid_out at h.org_fits);
    new = rw symtable_lookup-symtable_reset at (rw same_symbols at h.new);
    few = rw same_symbols at h.few;
    fits = rw (same_names clean) at (
        (listing-FitsAt (pass1 (print_program program) 1 pass1_start).0.table program 1 0
            lines_fit).0
          (rw laid_out at h.has_words));
  }

  program-OrgFits : IsProgram program → All OrgFits (pass1 (print_program program) 1 pass1_start).1
  program-OrgFits h = rw laid_out ((listing-FitsOrg program 1 0).1 h.org_fits)

  program-HasName : All HasName (symbols (pass1 (print_program program) 1 pass1_start).1)
  program-HasName = rw same_symbols (program_symbols-HasName program 0 lines_fit)

  program-NewNames :
      IsProgram program
      → NewNames
          (symbols (pass1 (print_program program) 1 pass1_start).1)
          (symtable_lookup symtable_reset)
  program-NewNames h = rw (same_symbols, symtable_lookup-symtable_reset) h.new

  program-few :
      IsProgram program
      → length (symbols (pass1 (print_program program) 1 pass1_start).1) ≤ sym_capacity
  program-few h = rw same_symbols h.few

  program-clean : IsProgram program → (pass1 (print_program program) 1 pass1_start).0.n_errors ≡ 0
  program-clean h =
      pass1-clean (print_program program) 1 pass1_start
        (print_program-AreAccepted program 1 lines_fit)
        (start-CanTake (symbols (pass1 (print_program program) 1 pass1_start).1) program-HasName
          symbols-IsShort (program-NewNames h) (program-few h))
        (program-OrgFits h)

  program-IsSource :
      IsProgram program
      → IsSource
          (print_program program)
          (pass1 (print_program program) 1 pass1_start).0
          (pass1 (print_program program) 1 pass1_start).1
  program-IsSource h = record {
    accepted = print_program-AreAccepted program 1 lines_fit;
    org_fits = program-OrgFits h;
    named = program-HasName;
    new = program-NewNames h;
    few = program-few h;
    has_words = rw laid_out (
        (listing-FitsAt (pass1 (print_program program) 1 pass1_start).0.table program 1 0
            lines_fit).1
          (rw (same_names (program-clean h)) h.fits));
  }

  -- A program whose lines are as `IsLine` says, with names of 63 bytes at most for its labels and
  -- constants, is assembled, when it is printed with a space after each token, to a file exactly
  -- when it is as `IsProgram` says: every `.org` is from 0 to 0xFFFF, no name is defined twice,
  -- there are at most 256 labels and constants, every name that is used is defined, and every
  -- instruction has a mnemonic of the table and, with its names replaced by their numbers, the
  -- operands that its format asks for: as many, of their kinds, and in the ranges that the word has
  -- room for at its address.
  pub assemble-print_program_iff :
      ((bytes : List ℕ) × ((assemble (print_program program)).output ≡ some bytes))
      ↔ IsProgram program
  assemble-print_program_iff =
      let (only, enough) = assemble-IsSource_iff (print_program program) symbols-IsShort in
      (
        λ w. source-IsProgram (assemble-clean (print_program program) w.0 w.1) (only w),
        λ h. enough (program-IsSource h),
      )
