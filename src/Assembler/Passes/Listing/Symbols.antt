-- ===== src/Assembler/Passes/Listing/Symbols.antt =====
-- The labels and constants of a program of the source language.
use mathlib.Core.Path.{fun_ext, ap₂}
use educpu.Prelude.{
  ℕ, suc, zero, ◌+◌, ◌≡◌, ◌↔◌, refl, Bool, true, false, not, ◌||◌, List, [], ◌∷◌, ◌++◌, none,
  replicate, All, All-append,
}
use educpu.Prelude.Int.{pos, ltb_ℤ, to_u16}
use educpu.Assembler.Text.{Text}
use educpu.Assembler.Parser.Source.{
  value, Stmt, empty, instr, org, word, ascii, equ, IsStmt, Line, plain, labelled, IsLine,
  stmt_line,
}
use educpu.Assembler.Symtable.{
  sym_capacity, hash_name, probe_at, lookup_loop, free_slot, symtable_lookup, symtable_reset,
}
use educpu.Assembler.Symtable.Insert.{all_free}
use educpu.Assembler.Passes.Symbols.{Env, label_symbol, equ_symbol, line_symbols, symbols, HasName}
use educpu.Assembler.Passes.Symbols.Accepts.{org_fits, OrgFits}
use educpu.Assembler.Passes.Listing.{stmt_next, statement, head, line_at, listing}

abbrev pub no_symbols : Env
no_symbols name = none

lookup_loop-free :
    (left probe h : ℕ) (name : Text) (n : ℕ)
    → lookup_loop left probe h name (replicate n free_slot) ≡ none
unfolding lookup_loop
lookup_loop-free zero probe h name n = refl
lookup_loop-free (suc left) probe h name n = rw (all_free n (probe_at h probe)) refl

symtable_reset-no_symbols : (name : Text) → symtable_lookup symtable_reset name ≡ no_symbols name
unfolding symtable_lookup symtable_reset
symtable_reset-no_symbols [] = refl
symtable_reset-no_symbols (c ∷ cs) =
    lookup_loop-free sym_capacity 0 (hash_name (c ∷ cs)) (c ∷ cs) sym_capacity

pub symtable_lookup-symtable_reset : symtable_lookup symtable_reset ≡ no_symbols
symtable_lookup-symtable_reset = fun_ext symtable_reset-no_symbols

-- A constant is bound to its value modulo 2 ^ 16, a label to the address of its line.
abbrev stmt_symbols : Stmt → List (Text × ℕ)
stmt_symbols (equ s v) = (s, to_u16 (value v)) ∷ []
stmt_symbols _ = []

abbrev pub symbols_at : Line → ℕ → List (Text × ℕ)
symbols_at (plain s) a = stmt_symbols s
symbols_at (labelled l s) a = (l, a) ∷ stmt_symbols s

abbrev pub program_symbols : List Line → ℕ → List (Text × ℕ)
program_symbols [] a = []
program_symbols (l ∷ ls) a = symbols_at l a ++ program_symbols ls (stmt_next (statement l) a)

stmt_line-symbols :
    (s : Stmt) (b : Bool) (n a : ℕ) (l : Text)
    → line_symbols (stmt_line s (head b n a l)) ≡ label_symbol l a ++ stmt_symbols s
unfolding line_symbols equ_symbol
stmt_line-symbols empty false n a l = refl
stmt_line-symbols empty true n a l = refl
stmt_line-symbols (instr m args) b n a l = refl
stmt_line-symbols (org v) b n a l = refl
stmt_line-symbols (word x) b n a l = refl
stmt_line-symbols (ascii s) b n a l = refl
stmt_line-symbols (equ s v) b n a l = refl

line_symbols-line_at :
    (l : Line) (n a : ℕ) → IsLine l → line_symbols (line_at l n a) ≡ symbols_at l a
unfolding label_symbol
line_symbols-line_at (plain s) n a h = stmt_line-symbols s false n a []
line_symbols-line_at (labelled [] s) n a h = absurd h.0
line_symbols-line_at (labelled (c ∷ cs) s) n a h = stmt_line-symbols s true n a (c ∷ cs)

pub symbols-listing :
    (ls : List Line) (n a : ℕ) → All IsLine ls → symbols (listing ls n a) ≡ program_symbols ls a
symbols-listing [] n a h = refl
symbols-listing (l ∷ ls) n a h =
    ap₂ ◌++◌ (line_symbols-line_at l n a h.0)
      (symbols-listing ls (n + 1) (stmt_next (statement l) a) h.1)

stmt_symbols-HasName : (s : Stmt) → IsStmt s → All HasName (stmt_symbols s)
stmt_symbols-HasName empty h = tt
stmt_symbols-HasName (instr m args) h = tt
stmt_symbols-HasName (org v) h = tt
stmt_symbols-HasName (word x) h = tt
stmt_symbols-HasName (ascii s) h = tt
stmt_symbols-HasName (equ [] v) h = absurd h.0
stmt_symbols-HasName (equ (c ∷ cs) v) h = (λ e. cc, tt)

symbols_at-HasName : (l : Line) (a : ℕ) → IsLine l → All HasName (symbols_at l a)
symbols_at-HasName (plain s) a h = stmt_symbols-HasName s h
symbols_at-HasName (labelled [] s) a h = absurd h.0
symbols_at-HasName (labelled (c ∷ cs) s) a h = (λ e. cc, stmt_symbols-HasName s h.1)

pub program_symbols-HasName :
    (ls : List Line) (a : ℕ) → All IsLine ls → All HasName (program_symbols ls a)
program_symbols-HasName [] a h = tt
program_symbols-HasName (l ∷ ls) a h =
    All-append HasName (symbols_at l a) (program_symbols ls (stmt_next (statement l) a))
      (symbols_at-HasName l a h.0) (program_symbols-HasName ls (stmt_next (statement l) a) h.1)

-- The value of an `.org` is an address.
abbrev pub FitsOrg : Stmt → Type 0
FitsOrg (org v) = not (ltb_ℤ (value v) (pos 0) || ltb_ℤ (pos 0xffff) (value v)) ≡ true
FitsOrg _ = Unit

stmt_line-FitsOrg :
    (s : Stmt) (b : Bool) (n a : ℕ) (l : Text) → OrgFits (stmt_line s (head b n a l)) ↔ FitsOrg s
unfolding OrgFits org_fits
stmt_line-FitsOrg empty false n a l = (λ h. tt, λ h. refl)
stmt_line-FitsOrg empty true n a l = (λ h. tt, λ h. refl)
stmt_line-FitsOrg (instr m args) b n a l = (λ h. tt, λ h. refl)
stmt_line-FitsOrg (org v) b n a l = (λ h. h, λ h. h)
stmt_line-FitsOrg (word x) b n a l = (λ h. tt, λ h. refl)
stmt_line-FitsOrg (ascii s) b n a l = (λ h. tt, λ h. refl)
stmt_line-FitsOrg (equ s v) b n a l = (λ h. tt, λ h. refl)

line_at-FitsOrg : (l : Line) (n a : ℕ) → OrgFits (line_at l n a) ↔ FitsOrg (statement l)
line_at-FitsOrg (plain s) n a = stmt_line-FitsOrg s false n a []
line_at-FitsOrg (labelled l s) n a = stmt_line-FitsOrg s true n a l

pub listing-FitsOrg :
    (ls : List Line) (n a : ℕ) → All OrgFits (listing ls n a) ↔ All (λ l. FitsOrg (statement l)) ls
listing-FitsOrg [] n a = (λ h. tt, λ h. tt)
listing-FitsOrg (l ∷ ls) n a =
    let (only, enough) = line_at-FitsOrg l n a in
    let (rest, back) = listing-FitsOrg ls (n + 1) (stmt_next (statement l) a) in
    (λ h. (only h.0, rest h.1), λ h. (enough h.0, back h.1))
