-- ===== src/Assembler/Passes/Reports/Counts.antt =====
-- That no error of the two passes is lost.
use educpu.Prelude.{
  ℕ, zero, suc, ◌+◌, ◌≤◌, ◌≡◌, ◌↔◌, refl, ap, arith, Bool, true, false, ◌/◌, ◌%◌, ◌^◌, ◌||◌, List,
  [], ◌∷◌, ◌++◌, none, some, length, length-append, set, if◌then◌else◌, Bool-cases, inl, inr,
}
use educpu.Prelude.Int.{ℤ, pos, ltb_ℤ}
use educpu.Assembler.Errors.{AsmError, imm_overflow, undefined_label, Result, ok, err}
use educpu.Assembler.Text.{Text}
use educpu.Assembler.Syntax.{Instr, operand}
use educpu.Assembler.Parser.{
  TokenLine, ParsedKind, pl_empty, pl_label, pl_instr, pl_directive, DirectiveKind, dir_org,
  dir_word, dir_ascii, dir_equ, ParsedLine, Parsed, parse_line,
}
use educpu.Assembler.Lexer.{lex_line}
use educpu.Assembler.Encoder.{encode_instr}
use educpu.Assembler.Symtable.{SymTable, symtable_insert}
use educpu.Assembler.Passes.{
  resolve_operand, error2, write_word, packed_word, Pass1, defined, define_symbol, place_label,
  place_org, place_directive, place_kind, place, placed, parsed_at, pass1_line, pass1, pass1_start,
  Pass2, resolve_loop, encoded, emit_instr, emit_word, ascii_loop, emit_ascii, emit_directive,
  emit_kind, pass2_line, pass2, pass2_start, assemble, finish,
}
use educpu.Assembler.Passes.Written.{no_errors-output, assemble-no_errors}
use educpu.Assembler.Passes.Reports.{
  Report, report_at, result_reports, org_reports, label_reports, directive_reports, kind_reports,
  place_reports, placed_reports, parsed_reports, pass1_reports, resolve_loop_reports, instr_reports,
  emit_reports, pass2_reports, reports,
}

-- From the count `n` to the count `n'`, at most one error for a report, and none only without one.
record Counts (n n' : ℕ) (rs : List Report) : Type 0 where
  grows : n ≤ n'
  at_most : n' ≤ n + length rs
  none_lost : n' ≡ n → rs ≡ []

Counts-same : (n n' : ℕ) (rs : List Report) → n' ≡ n → rs ≡ [] → Counts n n' rs
Counts-same n n' rs same empty = record {
  grows = omega arith;
  at_most = omega arith;
  none_lost = λ _. empty;
}

Counts-one : (n n' line : ℕ) (e : AsmError) → n' ≡ n + 1 → Counts n n' (report_at line e)
Counts-one n n' line e one = record {
  grows = omega arith;
  at_most = omega arith;
  none_lost = λ same. absurd (omega arith);
}

Counts-append :
    (a b c : ℕ) (xs ys : List Report) → Counts a b xs → Counts b c ys → Counts a c (xs ++ ys)
Counts-append a b c xs ys h k = record {
  grows = omega (arith, h.grows, k.grows);
  at_most = omega (arith, h.at_most, k.at_most, length-append xs ys);
  none_lost = λ same.
      rw
        (
          h.none_lost (omega (arith, h.grows, k.grows)),
          k.none_lost (omega (arith, h.grows, k.grows)),
        )
        refl;
}

defined-Counts :
    (line : ℕ) (r : Result SymTable) (st : Pass1)
    → Counts st.n_errors (defined r st).n_errors (result_reports line r)
unfolding defined
defined-Counts line (ok t) st = Counts-same _ _ _ refl refl
defined-Counts line (err e) st = Counts-one _ _ line e refl

label-Counts :
    (line : ℕ) (name : Text) (st : Pass1)
    → Counts st.n_errors (place_label name st).n_errors (label_reports line name st)
unfolding place_label define_symbol
label-Counts line [] st = Counts-same _ _ _ refl refl
label-Counts line (c ∷ cs) st = defined-Counts line (symtable_insert st.table (c ∷ cs) st.addr) st

org-Counts :
    (line : ℕ) (v : ℤ) (st : Pass1)
    → Counts st.n_errors (place_org v st).n_errors (org_reports line v)
unfolding place_org
org-Counts line v st = elim (Bool-cases (ltb_ℤ v (pos 0) || ltb_ℤ (pos 0xffff) v)) [
  | inl out ↦ rw out (Counts-one _ _ line imm_overflow refl)
  | inr fits ↦ rw fits (Counts-same _ _ _ refl refl)
]

directive-Counts :
    (k : DirectiveKind) (pl : ParsedLine) (st : Pass1)
    → Counts st.n_errors (place_directive k pl st).n_errors (directive_reports k pl st)
unfolding place_directive directive_reports define_symbol
directive-Counts dir_org pl st = org-Counts pl.line_no pl.dir.value.imm st
directive-Counts dir_equ pl st = defined-Counts pl.line_no _ st
directive-Counts dir_word pl st = Counts-same _ _ _ refl refl
directive-Counts dir_ascii pl st = Counts-same _ _ _ refl refl

kind-Counts :
    (k : ParsedKind) (pl : ParsedLine) (st : Pass1)
    → Counts st.n_errors (place_kind k pl st).n_errors (kind_reports k pl st)
unfolding place_kind kind_reports
kind-Counts pl_directive pl st = directive-Counts pl.dir.kind pl st
kind-Counts pl_empty pl st = Counts-same _ _ _ refl refl
kind-Counts pl_label pl st = Counts-same _ _ _ refl refl
kind-Counts pl_instr pl st = Counts-same _ _ _ refl refl

placed-Counts :
    (line : ℕ) (p : Parsed) (st : Pass1)
    → Counts st.n_errors (placed p st).0.n_errors (placed_reports line p st)
unfolding placed placed_reports place place_reports
placed-Counts line (pl, some e) st = Counts-one _ _ line e refl
placed-Counts line (pl, none) st =
    Counts-append _ _ _ _ _ (label-Counts pl.line_no pl.label st)
      (kind-Counts pl.kind (record pl { address = st.addr }) (place_label pl.label st))

parsed-Counts :
    (line : ℕ) (r : Result TokenLine) (st : Pass1)
    → Counts st.n_errors (parsed_at r st).0.n_errors (parsed_reports line r st)
unfolding parsed_at parsed_reports
parsed-Counts line (err e) st = Counts-one _ _ line e refl
parsed-Counts line (ok tl) st = placed-Counts tl.line_no (parse_line tl) st

pass1-Counts :
    (lines : List Text) (line_no : ℕ) (st : Pass1)
    → Counts st.n_errors (pass1 lines line_no st).0.n_errors (pass1_reports lines line_no st)
unfolding pass1 pass1_reports pass1_line
pass1-Counts [] line_no st = Counts-same _ _ _ refl refl
pass1-Counts (src ∷ rest) line_no st =
    Counts-append _ _ _ _ _ (parsed-Counts line_no (lex_line src line_no) st)
      (pass1-Counts rest (line_no + 1) (pass1_line src line_no st).0)

-- All operands are resolved, without a report, or there is one.
abbrev Agrees : Bool → List Report → Type 0
Agrees true rs = rs ≡ []
Agrees false rs = 1 ≤ length rs

resolve_loop-Agrees :
    (line left k : ℕ) (table : SymTable) (i : Instr)
    → Agrees (resolve_loop left k table i).1 (resolve_loop_reports line left k table i)
unfolding resolve_loop resolve_loop_reports
resolve_loop-Agrees line zero k table i = refl
resolve_loop-Agrees line (suc left) k table i =
    let rest =
      resolve_loop-Agrees line left (k + 1) table
        (record i { ops = set i.ops k (resolve_operand table (operand i k)).0 }) in
    elim (Bool-cases (resolve_operand table (operand i k)).1) [
      | inl found ↦ rw found rest
      | inr missing ↦ rw missing (omega arith)
    ]

encoded-Counts :
    (line a : ℕ) (r : Result ℕ) (st : Pass2)
    → Counts st.n_errors (encoded r a st).n_errors (result_reports line r)
unfolding encoded
encoded-Counts line a (ok w) st = Counts-same _ _ _ refl refl
encoded-Counts line a (err e) st = Counts-one _ _ line e refl

resolved-Counts :
    (line a : ℕ) (resolved : Bool) (rs : List Report) (r : Result ℕ) (st : Pass2)
    → Agrees resolved rs
    → Counts st.n_errors
        (if resolved then encoded r a st else error2 st).n_errors
        (rs ++ (if resolved then result_reports line r else []))
resolved-Counts line a true rs r st agrees = rw agrees (encoded-Counts line a r st)
resolved-Counts line a false rs r st agrees = record {
  grows = omega arith;
  at_most = omega (arith, agrees, length-append rs []);
  none_lost = λ same. absurd (omega arith);
}

word-Counts :
    (line a w : ℕ) (resolved : Bool) (st : Pass2)
    → Counts st.n_errors
        (if resolved then write_word a w st else error2 st).n_errors
        (if resolved then [] else report_at line undefined_label)
word-Counts line a w true st = Counts-same _ _ _ refl refl
word-Counts line a w false st = Counts-one _ _ line undefined_label refl

ascii_loop-n_errors :
    (left b : ℕ) (s : Text) (len a : ℕ) (st : Pass2)
    → (ascii_loop left b s len a st).n_errors ≡ st.n_errors
unfolding ascii_loop
ascii_loop-n_errors zero b s len a st = refl
ascii_loop-n_errors (suc left) b s len a st =
    ascii_loop-n_errors left (b + 2) s len ((a + 1) % 2 ^ 16)
      (write_word a (packed_word s len b) st)

emit_directive-Counts :
    (d : DirectiveKind) (table : SymTable) (pl : ParsedLine) (st : Pass2)
    → Counts st.n_errors
        (emit_directive d table pl st).n_errors
        (emit_reports pl_directive d table pl)
unfolding emit_directive emit_word emit_ascii emit_reports
emit_directive-Counts dir_org table pl st = Counts-same _ _ _ refl refl
emit_directive-Counts dir_equ table pl st = Counts-same _ _ _ refl refl
emit_directive-Counts dir_word table pl st =
    word-Counts pl.line_no pl.address _ (resolve_operand table pl.dir.value).1 st
emit_directive-Counts dir_ascii table pl st =
    Counts-same _ _ _
      (ascii_loop-n_errors (pl.dir.str_len / 2 + 1) 0 pl.dir.str pl.dir.str_len pl.address st) refl

emit_kind-Counts :
    (k : ParsedKind) (table : SymTable) (pl : ParsedLine) (st : Pass2)
    → Counts st.n_errors (emit_kind k table pl st).n_errors (emit_reports k pl.dir.kind table pl)
unfolding emit_kind emit_instr emit_reports instr_reports
emit_kind-Counts pl_empty table pl st = Counts-same _ _ _ refl refl
emit_kind-Counts pl_label table pl st = Counts-same _ _ _ refl refl
emit_kind-Counts pl_directive table pl st = emit_directive-Counts pl.dir.kind table pl st
emit_kind-Counts pl_instr table pl st =
    let (i, resolved) = resolve_loop pl.instr.nops 0 table pl.instr in
    resolved-Counts pl.line_no pl.address resolved
      (resolve_loop_reports pl.line_no pl.instr.nops 0 table pl.instr) (encode_instr i pl.address)
      st (resolve_loop-Agrees pl.line_no pl.instr.nops 0 table pl.instr)

pass2-Counts :
    (table : SymTable) (pls : List ParsedLine) (st : Pass2)
    → Counts st.n_errors (pass2 table pls st).n_errors (pass2_reports table pls)
unfolding pass2 pass2_reports pass2_line
pass2-Counts table [] st = Counts-same _ _ _ refl refl
pass2-Counts table (pl ∷ pls) st =
    Counts-append _ _ _ _ _ (emit_kind-Counts pl.kind table pl st)
      (pass2-Counts table pls (pass2_line table pl st))

assemble-Counts : (lines : List Text) → Counts 0 (assemble lines).n_errors (reports lines)
unfolding assemble finish reports
assemble-Counts lines =
    let (one, pls) = pass1 lines 1 pass1_start in
    Counts-append _ _ _ _ _ (pass1-Counts lines 1 pass1_start)
      (pass2-Counts one.table pls (pass2_start one))

pub assemble-silent :
    (lines : List Text)
    → ((assemble lines).n_errors ≤ length (reports lines))
      × (((bytes : List ℕ) × ((assemble lines).output ≡ some bytes)) ↔ (reports lines ≡ []))
assemble-silent lines =
    let counts = assemble-Counts lines in
    (
      omega (arith, counts.at_most),
      (
        λ h. counts.none_lost (assemble-no_errors lines h.0 h.1),
        λ silent.
            let quiet : length (reports lines) ≡ 0 = ap (λ (rs : List Report). length rs) silent in
            no_errors-output lines (omega (arith, counts.at_most)),
      ),
    )
