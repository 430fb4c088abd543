-- ===== src/Assembler/Passes/Targets.antt =====
-- What the second pass makes of the labels in operands.
use native.Mathlib.Decide.{dec_lt}
use educpu.Prelude.{
  ℕ, zero, suc, ◌+◌, ◌≤◌, ◌<◌, ◌≡◌, ◌≢◌, ◌∙◌, refl, ap, arith, List, [], some, length, length-set,
  get_or, get_or-set, set, All, All-get_or, ◌==◌, if◌then◌else◌, if_yes, if_not,
}
use educpu.Prelude.Int.{pos}
use educpu.Assembler.Text.{Text}
use educpu.Assembler.Syntax.{
  OperandKind, opd_none, opd_reg, opd_label, opd_imm, Operand, no_operand, Instr, operand,
}
use educpu.Assembler.Parser.{no_line}
use educpu.Assembler.Parser.Shape.{IsParsed}
use educpu.Assembler.Parser.Line.{no_line-IsParsed}
use educpu.Assembler.Passes.Layout.{pass1-IsParsed}
use educpu.Assembler.Passes.Symbols.{IsShort, symbols}
use educpu.Assembler.Passes.Symbols.Labels.{pass1-label}
use educpu.Assembler.Symtable.{SymTable, symtable_lookup}
use educpu.Assembler.Passes.{
  resolve_found, resolve_kind, resolve_operand, resolve_loop, pass1, pass1_start,
}

abbrev put : Instr → ℕ → SymTable → Instr
put i k table = record i { ops = set i.ops k (resolve_operand table (operand i k)).0 }

operand-put :
    (i : Instr) (k : ℕ) (table : SymTable) (j : ℕ)
    → k < length i.ops
    → operand (put i k table) j
      ≡ (if k == j then (resolve_operand table (operand i k)).0 else operand i j)
operand-put i k table j lt =
    get_or-set i.ops k j (resolve_operand table (operand i k)).0 no_operand lt

length-put : (i : Instr) (k : ℕ) (table : SymTable) → length (put i k table).ops ≡ length i.ops
length-put i k table = length-set i.ops k (resolve_operand table (operand i k)).0

resolve_loop-below :
    (left k : ℕ) (table : SymTable) (i : Instr) (j : ℕ)
    → k + left ≤ length i.ops
    → j < k
    → operand (resolve_loop left k table i).0 j ≡ operand i j
unfolding resolve_loop
resolve_loop-below zero k table i j fits lt = refl
resolve_loop-below (suc left) k table i j fits lt =
    resolve_loop-below left (k + 1) table (put i k table) j (omega (arith, length-put i k table))
      (omega arith)
    ∙ operand-put i k table j (omega arith)
    ∙ if_not {b = k == j} _ _ (ground arith)

-- Each operand that the loop is over becomes what it was, resolved.
pub resolve_loop-resolve_operand :
    (left k : ℕ) (table : SymTable) (i : Instr) (j : ℕ)
    → k + left ≤ length i.ops
    → k ≤ j
    → j < k + left
    → operand (resolve_loop left k table i).0 j ≡ (resolve_operand table (operand i j)).0
unfolding resolve_loop
resolve_loop-resolve_operand zero k table i j fits le lt = absurd (omega arith)
resolve_loop-resolve_operand (suc left) k table i j fits le lt = elim (dec_lt k j) [
  | yes later ↦
      resolve_loop-resolve_operand left (k + 1) table (put i k table) j
        (omega (arith, length-put i k table)) (omega arith) (omega arith)
      ∙ ap (λ (o : Operand). (resolve_operand table o).0)
          (operand-put i k table j (omega arith) ∙ if_not {b = k == j} _ _ (ground arith))
  | no now ↦
      let here : k ≡ j = omega arith in
      resolve_loop-below left (k + 1) table (put i k table) j (omega (arith, length-put i k table))
        (omega arith)
      ∙ operand-put i k table j (omega arith)
      ∙ if_yes {b = k == j} _ _ (ground arith)
      ∙ ap (λ (n : ℕ). (resolve_operand table (operand i n)).0) here
]

-- A label operand whose label is in the table becomes its value.
resolve_kind-label :
    (kind : OperandKind) (table : SymTable) (o : Operand) (v : ℕ)
    → kind ≡ opd_label
    → symtable_lookup table o.label ≡ some v
    → (resolve_kind kind table o).0 ≡ record o { kind = opd_imm; imm = pos v }
unfolding resolve_kind resolve_found
resolve_kind-label opd_label table o v is found = rw found refl
resolve_kind-label opd_imm table o v is found = cc
resolve_kind-label opd_reg table o v is found = cc
resolve_kind-label opd_none table o v is found = cc

-- If the first pass over a source counts no error, the names of its labels and constants have 63
-- bytes at most, and operand `j` of the instruction of line `k` is the label of line `t`, be it before
-- or after, then the second pass replaces the operand by the address of line `t`.
pub resolve_loop-target :
    (lines : List Text) (k t j : ℕ)
    → All IsShort (symbols (pass1 lines 1 pass1_start).1)
    → (pass1 lines 1 pass1_start).0.n_errors ≡ 0
    → j < (get_or (pass1 lines 1 pass1_start).1 k no_line).instr.nops
    → (operand (get_or (pass1 lines 1 pass1_start).1 k no_line).instr j).kind ≡ opd_label
    → (get_or (pass1 lines 1 pass1_start).1 t no_line).label ≢ []
    → (operand (get_or (pass1 lines 1 pass1_start).1 k no_line).instr j).label
      ≡ (get_or (pass1 lines 1 pass1_start).1 t no_line).label
    → operand
        (resolve_loop
          (get_or (pass1 lines 1 pass1_start).1 k no_line).instr.nops
          0
          (pass1 lines 1 pass1_start).0.table
          (get_or (pass1 lines 1 pass1_start).1 k no_line).instr).0
        j
      ≡ record (operand (get_or (pass1 lines 1 pass1_start).1 k no_line).instr j) {
        kind = opd_imm;
        imm = pos (get_or (pass1 lines 1 pass1_start).1 t no_line).address;
      }
unfolding resolve_operand
resolve_loop-target lines k t j short clean inside is_label named same =
    let (one, pls) = pass1 lines 1 pass1_start in
    let i = (get_or pls k no_line).instr in
    let o = operand i j in
    let fits =
      (All-get_or IsParsed pls k no_line (no_line-IsParsed 0)
        (pass1-IsParsed lines 1 pass1_start)).instr_fits in
    let found = ap (symtable_lookup one.table) same ∙ pass1-label lines t short clean named in
    resolve_loop-resolve_operand i.nops 0 one.table i j (omega (arith, fits.three, fits.nops_fits))
      (omega arith) (omega arith)
    ∙ resolve_kind-label o.kind one.table o (get_or pls t no_line).address is_label found
