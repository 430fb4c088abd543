-- ===== src/Assembler/Passes/Reports.antt =====
-- The errors that assemble_file of assembler/assembler.c reports, each with the number of its line, in
-- order. The lexer and the parser report the error that they return.
pub mod Counts
pub mod Lines
use educpu.Prelude.{
  ℕ, zero, suc, ◌+◌, ◌≤◌, ◌≡◌, ◌↔◌, ◌∙◌, refl, sym, ap, arith, Bool, true, false, ◌&&◌, ◌||◌, List,
  [], ◌∷◌, ◌++◌, Option, none, some, length, length-append, set, if◌then◌else◌,
}
use educpu.Prelude.Int.{ℤ, pos, ltb_ℤ, to_u16}
use educpu.Assembler.Errors.{AsmError, imm_overflow, undefined_label, Result, ok, err}
use educpu.Assembler.Text.{Text}
use educpu.Assembler.Syntax.{Operand, Instr, operand}
use educpu.Assembler.Parser.{
  TokenLine, ParsedKind, pl_empty, pl_label, pl_instr, pl_directive, DirectiveKind, dir_org,
  dir_word, dir_ascii, dir_equ, ParsedLine, Parsed, parse_line,
}
use educpu.Assembler.Lexer.{lex_line}
use educpu.Assembler.Encoder.{encode_instr}
use educpu.Assembler.Symtable.{SymTable, symtable_insert}
use educpu.Assembler.Passes.{
  resolve_operand, Pass1, defined, define_symbol, place_label, place_org, place_directive,
  place_kind, place, placed, parsed_at, pass1_line, pass1, pass1_start, Pass2, resolve_loop,
  encoded, emit_instr, emit_word, ascii_loop, emit_ascii, emit_directive, emit_kind, pass2_line,
  pass2, pass2_start, assemble, finish,
}
use educpu.Assembler.Passes.Written.{clean-output, assemble-no_errors}

pub record Report : Type 0 where
  pub line : ℕ
  pub code : AsmError

abbrev report_at : ℕ → AsmError → List Report
report_at line e = record { line = line; code = e } ∷ []

-- What is reported when a function returns a code.
abbrev pub result_reports {ℓ} : {A : Type ℓ} → ℕ → Result A → List Report
result_reports line (ok a) = []
result_reports line (err e) = report_at line e

abbrev define_reports : ℕ → Text → ℕ → Pass1 → List Report
define_reports line name addr st = result_reports line (symtable_insert st.table name addr)

abbrev label_reports : ℕ → Text → Pass1 → List Report
label_reports line [] st = []
label_reports line (c ∷ cs) st = define_reports line (c ∷ cs) st.addr st

abbrev org_reports : ℕ → ℤ → List Report
org_reports line v =
    if ltb_ℤ v (pos 0) || ltb_ℤ (pos 0xffff) v then report_at line imm_overflow else []

directive_reports : DirectiveKind → ParsedLine → Pass1 → List Report
directive_reports dir_org pl st = org_reports pl.line_no pl.dir.value.imm
directive_reports dir_equ pl st = define_reports pl.line_no pl.dir.name (to_u16 pl.dir.value.imm) st
directive_reports _ pl st = []

kind_reports : ParsedKind → ParsedLine → Pass1 → List Report
unfolding directive_reports
kind_reports pl_directive pl st = directive_reports pl.dir.kind pl st
kind_reports _ pl st = []

place_reports : ParsedLine → Pass1 → List Report
unfolding kind_reports
place_reports pl st =
    label_reports pl.line_no pl.label st ++ kind_reports pl.kind pl (place_label pl.label st)

placed_reports : ℕ → Parsed → Pass1 → List Report
unfolding place_reports
placed_reports line (pl, some e) st = report_at line e
placed_reports line (pl, none) st = place_reports (record pl { address = st.addr }) st

parsed_reports : ℕ → Result TokenLine → Pass1 → List Report
unfolding placed_reports
parsed_reports line (err e) st = report_at line e
parsed_reports line (ok tl) st = placed_reports tl.line_no (parse_line tl) st

unfoldable pub pass1_reports : List Text → ℕ → Pass1 → List Report
unfolding parsed_reports
pass1_reports [] line_no st = []
pass1_reports (src ∷ rest) line_no st =
    parsed_reports line_no (lex_line src line_no) st
    ++ pass1_reports rest (line_no + 1) (pass1_line src line_no st).0

abbrev resolve_reports : ℕ → SymTable → Operand → List Report
resolve_reports line table o =
    if (resolve_operand table o).1 then [] else report_at line undefined_label

-- Every operand is tried.
unfoldable pub resolve_loop_reports : ℕ → ℕ → ℕ → SymTable → Instr → List Report
resolve_loop_reports line zero k table i = []
resolve_loop_reports line (suc left) k table i =
    let o = (resolve_operand table (operand i k)).0 in
    resolve_reports line table (operand i k)
    ++ resolve_loop_reports line left (k + 1) table (record i { ops = set i.ops k o })

instr_reports : SymTable → ParsedLine → List Report
unfolding resolve_loop_reports
instr_reports table pl =
    let (i, resolved) = resolve_loop pl.instr.nops 0 table pl.instr in
    resolve_loop_reports pl.line_no pl.instr.nops 0 table pl.instr
    ++ (if resolved then result_reports pl.line_no (encode_instr i pl.address) else [])

emit_reports : ParsedKind → DirectiveKind → SymTable → ParsedLine → List Report
unfolding instr_reports
emit_reports pl_instr d table pl = instr_reports table pl
emit_reports pl_directive dir_word table pl = resolve_reports pl.line_no table pl.dir.value
emit_reports _ _ table pl = []

unfoldable pub pass2_reports : SymTable → List ParsedLine → List Report
unfolding emit_reports
pass2_reports table [] = []
pass2_reports table (pl ∷ pls) =
    emit_reports pl.kind pl.dir.kind table pl ++ pass2_reports table pls

unfoldable pub reports : List Text → List Report
unfolding pass1_reports pass2_reports
reports lines =
    let (one, pls) = pass1 lines 1 pass1_start in
    pass1_reports lines 1 pass1_start ++ pass2_reports one.table pls
