-- ===== src/Assembler/Passes/Reports/Lines.antt =====
-- That every report names a line of the source.
use educpu.Prelude.{
  ℕ, zero, suc, ◌+◌, ◌≤◌, ◌≡◌, ◌↔◌, ◌⊎◌, refl, arith, Bool, true, false, ◌||◌, List, [], ◌∷◌, none,
  some, length, All, All-append, if◌then◌else◌, inl, inr,
}
use educpu.Prelude.Int.{pos, ltb_ℤ}
use educpu.Assembler.Errors.{AsmError, imm_overflow, undefined_label, Result, ok, err}
use educpu.Assembler.Text.{Text}
use educpu.Assembler.Syntax.{Instr, operand}
use educpu.Assembler.Parser.{
  TokenLine, ParsedKind, pl_empty, pl_label, pl_instr, pl_directive, DirectiveKind, dir_org,
  dir_word, dir_ascii, dir_equ, ParsedLine, Parsed, parse_line,
}
use educpu.Assembler.Lexer.{lex_line}
use educpu.Assembler.Encoder.{encode_instr}
use educpu.Assembler.Symtable.{SymTable, symtable_insert}
use educpu.Assembler.Passes.{
  resolve_operand, Pass1, place_label, placed, parsed_at, pass1_line, pass1, pass1_start,
  resolve_loop, assemble,
}
use educpu.Assembler.Passes.Reports.Counts.{assemble-silent}
use educpu.Assembler.Passes.Reports.{
  Report, report_at, result_reports, label_reports, directive_reports, kind_reports, place_reports,
  placed_reports, parsed_reports, pass1_reports, resolve_loop_reports, instr_reports, emit_reports,
  pass2_reports, reports,
}
use educpu.Assembler.Lexer.Numbering.{lex_line-line_no}
use educpu.Assembler.Parser.Numbering.{parse_line-line_no}

abbrev pub IsLineOf : ℕ → ℕ → Type 0
IsLineOf n line = (1 ≤ line) × (line ≤ n)

-- Each report names a line of a source of `n` lines.
abbrev pub NameLines : ℕ → List Report → Type 0
NameLines n rs = All (λ (r : Report). IsLineOf n r.line) rs

result-NameLines {ℓ} :
    {A : Type ℓ} (n line : ℕ) (r : Result A) → IsLineOf n line → NameLines n (result_reports line r)
result-NameLines n line (ok a) h = tt
result-NameLines n line (err e) h = (h, tt)

if-NameLines :
    (n line : ℕ) (b c : Bool) (e : AsmError)
    → IsLineOf n line
    → NameLines n
        (if b then (if c then report_at line e else []) else if c then [] else report_at line e)
if-NameLines n line true true e h = (h, tt)
if-NameLines n line true false e h = tt
if-NameLines n line false true e h = tt
if-NameLines n line false false e h = (h, tt)

label-NameLines :
    (n line : ℕ) (name : Text) (st : Pass1)
    → IsLineOf n line
    → NameLines n (label_reports line name st)
label-NameLines n line [] st h = tt
label-NameLines n line (c ∷ cs) st h =
    result-NameLines n line (symtable_insert st.table (c ∷ cs) st.addr) h

directive-NameLines :
    (n : ℕ) (k : DirectiveKind) (pl : ParsedLine) (st : Pass1)
    → IsLineOf n pl.line_no
    → NameLines n (directive_reports k pl st)
unfolding directive_reports
directive-NameLines n dir_org pl st h =
    if-NameLines n pl.line_no true
      (ltb_ℤ pl.dir.value.imm (pos 0) || ltb_ℤ (pos 0xffff) pl.dir.value.imm) imm_overflow h
directive-NameLines n dir_equ pl st h = result-NameLines n pl.line_no _ h
directive-NameLines n dir_word pl st h = tt
directive-NameLines n dir_ascii pl st h = tt

kind-NameLines :
    (n : ℕ) (k : ParsedKind) (pl : ParsedLine) (st : Pass1)
    → IsLineOf n pl.line_no
    → NameLines n (kind_reports k pl st)
unfolding kind_reports
kind-NameLines n pl_directive pl st h = directive-NameLines n pl.dir.kind pl st h
kind-NameLines n pl_empty pl st h = tt
kind-NameLines n pl_label pl st h = tt
kind-NameLines n pl_instr pl st h = tt

placed-NameLines :
    (n line : ℕ) (p : Parsed) (st : Pass1)
    → IsLineOf n line
    → p.0.line_no ≡ line
    → NameLines n (placed_reports line p st)
unfolding placed_reports place_reports
placed-NameLines n line (pl, some e) st h same = (h, tt)
placed-NameLines n line (pl, none) st h same =
    let here : IsLineOf n pl.line_no = rw same h in
    All-append (λ (r : Report). IsLineOf n r.line) _ _
      (label-NameLines n pl.line_no pl.label (record st { addr = st.addr }) here)
      (kind-NameLines n pl.kind (record pl { address = st.addr }) (place_label pl.label st) here)

-- A line that the lexer refuses stays empty, any other keeps its number.
abbrev IsNumbered : ℕ → ParsedLine → Type 0
IsNumbered n pl = (pl.kind ≡ pl_empty) ⊎ IsLineOf n pl.line_no

placed-IsNumbered :
    (n : ℕ) (p : Parsed) (st : Pass1) → IsLineOf n p.0.line_no → IsNumbered n (placed p st).1
unfolding placed
placed-IsNumbered n (pl, some e) st h = inr h
placed-IsNumbered n (pl, none) st h = inr h

parsed-NameLines :
    (n line : ℕ) (r : Result TokenLine) (st : Pass1)
    → ((tl : TokenLine) → r ≡ ok tl → tl.line_no ≡ line)
    → IsLineOf n line
    → NameLines n (parsed_reports line r st) × IsNumbered n (parsed_at r st).1
unfolding parsed_reports parsed_at
parsed-NameLines n line (err e) st numbered h = ((h, tt), inl refl)
parsed-NameLines n line (ok tl) st numbered h =
    let same : tl.line_no ≡ line = numbered tl refl in
    let here : IsLineOf n tl.line_no = rw same h in
    (
      placed-NameLines n tl.line_no (parse_line tl) st here (parse_line-line_no tl),
      placed-IsNumbered n (parse_line tl) st (rw (parse_line-line_no tl) here),
    )

pass1-NameLines :
    (n : ℕ) (lines : List Text) (line_no : ℕ) (st : Pass1)
    → 1 ≤ line_no
    → line_no + length lines ≤ n + 1
    → NameLines n (pass1_reports lines line_no st) × All (IsNumbered n) (pass1 lines line_no st).1
unfolding pass1 pass1_reports pass1_line
pass1-NameLines n [] line_no st lo hi = (tt, tt)
pass1-NameLines n (src ∷ rest) line_no st lo hi =
    let (named, numbered) =
      parsed-NameLines n line_no (lex_line src line_no) st (lex_line-line_no src line_no)
        (lo, omega arith) in
    let (others, more) =
      pass1-NameLines n rest (line_no + 1) (pass1_line src line_no st).0 (omega arith)
        (omega arith) in
    (All-append (λ (r : Report). IsLineOf n r.line) _ _ named others, (numbered, more))

resolve_loop-NameLines :
    (n line left k : ℕ) (table : SymTable) (i : Instr)
    → IsLineOf n line
    → NameLines n (resolve_loop_reports line left k table i)
unfolding resolve_loop_reports
resolve_loop-NameLines n line zero k table i h = tt
resolve_loop-NameLines n line (suc left) k table i h =
    All-append (λ (r : Report). IsLineOf n r.line) _ _
      (if-NameLines n line false (resolve_operand table (operand i k)).1 undefined_label h)
      (resolve_loop-NameLines n line left (k + 1) table _ h)

if_then-NameLines :
    (n : ℕ) (b : Bool) (rs : List Report) → NameLines n rs → NameLines n (if b then rs else [])
if_then-NameLines n true rs h = h
if_then-NameLines n false rs h = tt

emit-NameLines :
    (n : ℕ) (k : ParsedKind) (d : DirectiveKind) (table : SymTable) (pl : ParsedLine)
    → (k ≡ pl_empty) ⊎ IsLineOf n pl.line_no
    → NameLines n (emit_reports k d table pl)
unfolding emit_reports instr_reports
emit-NameLines n k d table pl (inl empty) = rw empty tt
emit-NameLines n pl_instr d table pl (inr h) =
    let (i, resolved) = resolve_loop pl.instr.nops 0 table pl.instr in
    All-append (λ (r : Report). IsLineOf n r.line) _ _
      (resolve_loop-NameLines n pl.line_no pl.instr.nops 0 table pl.instr h)
      (if_then-NameLines n resolved _ (result-NameLines n pl.line_no (encode_instr i pl.address) h))
emit-NameLines n pl_directive dir_word table pl (inr h) =
    if-NameLines n pl.line_no false (resolve_operand table pl.dir.value).1 undefined_label h
emit-NameLines n pl_directive dir_org table pl (inr h) = tt
emit-NameLines n pl_directive dir_ascii table pl (inr h) = tt
emit-NameLines n pl_directive dir_equ table pl (inr h) = tt
emit-NameLines n pl_empty d table pl (inr h) = tt
emit-NameLines n pl_label d table pl (inr h) = tt

pass2-NameLines :
    (n : ℕ) (table : SymTable) (pls : List ParsedLine)
    → All (IsNumbered n) pls
    → NameLines n (pass2_reports table pls)
unfolding pass2_reports
pass2-NameLines n table [] h = tt
pass2-NameLines n table (pl ∷ pls) h =
    All-append (λ (r : Report). IsLineOf n r.line) _ _
      (emit-NameLines n pl.kind pl.dir.kind table pl h.0) (pass2-NameLines n table pls h.1)

reports-NameLines : (lines : List Text) → NameLines (length lines) (reports lines)
unfolding reports
reports-NameLines lines =
    let (one, pls) = pass1 lines 1 pass1_start in
    let (named, numbered) =
      pass1-NameLines (length lines) lines 1 pass1_start (omega arith) (omega arith) in
    All-append (λ (r : Report). IsLineOf (length lines) r.line) _ _ named
      (pass2-NameLines (length lines) one.table pls numbered)

-- No error is lost: at most as many errors are counted as are reported, a file is written exactly when
-- nothing is reported, and each report names a line of the source.
pub assemble-reports :
    (lines : List Text)
    → ((assemble lines).n_errors ≤ length (reports lines))
      × (((bytes : List ℕ) × ((assemble lines).output ≡ some bytes)) ↔ (reports lines ≡ []))
      × NameLines (length lines) (reports lines)
assemble-reports lines =
    let (at_most, written) = assemble-silent lines in (at_most, written, reports-NameLines lines)
