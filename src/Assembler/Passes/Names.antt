-- ===== src/Assembler/Passes/Names.antt =====
-- The instructions of a source with their labels replaced, against the operand loop of the second pass:
-- a reading that uses no symbol table.
use mathlib.Core.Path.{ap₂}
use mathlib.Core.List.{append_assoc}
use educpu.Prelude.{
  ℕ, zero, suc, ◌+◌, ◌≡◌, ◌∙◌, refl, ap, arith, List, [], ◌∷◌, ◌++◌, Option, none, some, length,
  get_or, set, All, All-get_or, length-append, ◌≤◌,
}
use educpu.Prelude.Int.{pos}
use educpu.Assembler.Text.{Text}
use educpu.Assembler.Syntax.{
  OperandKind, opd_none, opd_reg, opd_label, opd_imm, Operand, no_operand, Instr, operand,
}
use educpu.Assembler.Parser.{ParsedLine, no_line}
use educpu.Assembler.Parser.Shape.{IsParsed}
use educpu.Assembler.Parser.Line.{no_line-IsParsed}
use educpu.Assembler.Passes.Layout.{pass1-IsParsed}
use educpu.Assembler.Symtable.{SymTable, symtable_lookup}
use educpu.Assembler.Symtable.Insert.{symtable_reset-IsTable}
use educpu.Assembler.Passes.{
  resolve_found, resolve_kind, resolve_operand, resolve_loop, pass1, pass1_start,
}
use educpu.Assembler.Passes.Symbols.{Env, bind_all, symbols, IsShort}
use educpu.Assembler.Passes.Symbols.Labels.{pass1-Takes}
use educpu.Assembler.Passes.Listing.Symbols.{no_symbols, symtable_lookup-symtable_reset}

abbrev pub label_value : Option ℕ → Operand → Operand
label_value none o = o
label_value (some v) o = record o { kind = opd_imm; imm = pos v }

-- An operand that is a label becomes the number that the label stands for.
abbrev pub kind_value : OperandKind → Env → Operand → Operand
kind_value opd_label env o = label_value (env o.label) o
kind_value _ env o = o

-- The first `n` operands.
abbrev pub values : ℕ → Env → List Operand → List Operand
values zero env ops = ops
values (suc n) env [] = []
values (suc n) env (o ∷ ops) = kind_value o.kind env o ∷ values n env ops

abbrev pub with_names : Env → Instr → Instr
with_names env i = record i { ops = values i.nops env i.ops }

-- What the labels and constants of lines stand for: a label for the address of its line, a constant
-- for its value.
abbrev pub source_names : List ParsedLine → Env
source_names pls = bind_all (symbols pls) no_symbols

resolve_found-label_value :
    (found : Option ℕ) (o : Operand) → (resolve_found found o).0 ≡ label_value found o
unfolding resolve_found
resolve_found-label_value none o = refl
resolve_found-label_value (some v) o = refl

resolve_kind-kind_value :
    (kind : OperandKind) (table : SymTable) (o : Operand)
    → (resolve_kind kind table o).0 ≡ kind_value kind (symtable_lookup table) o
unfolding resolve_kind
resolve_kind-kind_value opd_label table o =
    resolve_found-label_value (symtable_lookup table o.label) o
resolve_kind-kind_value opd_imm table o = refl
resolve_kind-kind_value opd_reg table o = refl
resolve_kind-kind_value opd_none table o = refl

get_or-middle :
    (front : List Operand) (o : Operand) (ops : List Operand)
    → get_or (front ++ o ∷ ops) (length front) no_operand ≡ o
get_or-middle [] o ops = refl
get_or-middle (x ∷ front) o ops = get_or-middle front o ops

set-middle :
    (front : List Operand) (o v : Operand) (ops : List Operand)
    → set (front ++ o ∷ ops) (length front) v ≡ (front ++ v ∷ []) ++ ops
set-middle [] o v ops = refl
set-middle (x ∷ front) o v ops = ap (◌∷◌ x) (set-middle front o v ops)

-- The loop from operand `k` on, of `left` operands that are there.
resolve_loop-values :
    (left k : ℕ) (table : SymTable) (i : Instr) (front ops : List Operand)
    → i.ops ≡ front ++ ops
    → k ≡ length front
    → left ≤ length ops
    → (resolve_loop left k table i).0
      ≡ record i { ops = front ++ values left (symtable_lookup table) ops }
unfolding resolve_loop resolve_operand
resolve_loop-values zero k table i front ops is at fits =
    ap (λ (l : List Operand). record i { ops = l }) is
resolve_loop-values (suc left) k table i front [] is at fits = absurd (omega arith)
resolve_loop-values (suc left) k table i front (o ∷ ops) is at fits =
    let v = kind_value o.kind (symtable_lookup table) o in
    let here : operand i k ≡ o =
      ap₂ (λ (l : List Operand) (n : ℕ). get_or l n no_operand) is at ∙ get_or-middle front o ops in
    let put : (resolve_operand table (operand i k)).0 ≡ v =
      ap (λ (x : Operand). (resolve_operand table x).0) here
      ∙ resolve_kind-kind_value o.kind table o in
    let now : set i.ops k (resolve_operand table (operand i k)).0 ≡ (front ++ v ∷ []) ++ ops =
      ap (set i.ops k) put
      ∙ ap₂ (λ (l : List Operand) (n : ℕ). set l n v) is at
      ∙ set-middle front o v ops in
    resolve_loop-values left (k + 1) table
      (record i { ops = set i.ops k (resolve_operand table (operand i k)).0 }) (front ++ v ∷ []) ops
      now (omega (arith, length-append front (v ∷ []))) (omega arith)
    ∙ ap (λ (l : List Operand). record i { ops = l })
        (append_assoc front (v ∷ []) (values left (symtable_lookup table) ops))

-- After a first pass without an error the table holds what the names of the source stand for.
table-source_names :
    (lines : List Text)
    → All IsShort (symbols (pass1 lines 1 pass1_start).1)
    → (pass1 lines 1 pass1_start).0.n_errors ≡ 0
    → symtable_lookup (pass1 lines 1 pass1_start).0.table
      ≡ source_names (pass1 lines 1 pass1_start).1
table-source_names lines short clean =
    (pass1-Takes lines 1 pass1_start symtable_reset-IsTable short clean).binds
    ∙ ap (bind_all (symbols (pass1 lines 1 pass1_start).1)) symtable_lookup-symtable_reset

-- The operand loop over a line of the source replaces its labels by what they stand for.
pub resolve_loop-source_names :
    (lines : List Text) (k : ℕ)
    → All IsShort (symbols (pass1 lines 1 pass1_start).1)
    → (pass1 lines 1 pass1_start).0.n_errors ≡ 0
    → (resolve_loop
        (get_or (pass1 lines 1 pass1_start).1 k no_line).instr.nops
        0
        (pass1 lines 1 pass1_start).0.table
        (get_or (pass1 lines 1 pass1_start).1 k no_line).instr).0
      ≡ with_names
          (source_names (pass1 lines 1 pass1_start).1)
          (get_or (pass1 lines 1 pass1_start).1 k no_line).instr
resolve_loop-source_names lines k short clean =
    let (one, pls) = pass1 lines 1 pass1_start in
    let i = (get_or pls k no_line).instr in
    let fits =
      (All-get_or IsParsed pls k no_line (no_line-IsParsed 0)
        (pass1-IsParsed lines 1 pass1_start)).instr_fits in
    resolve_loop-values i.nops 0 one.table i [] i.ops refl refl
      (omega (arith, fits.three, fits.nops_fits))
    ∙ ap (λ (env : Env). with_names env i) (table-source_names lines short clean)
