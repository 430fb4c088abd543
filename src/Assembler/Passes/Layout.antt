-- ===== src/Assembler/Passes/Layout.antt =====
-- The addresses that the first pass gives, when every `.org` goes forward.
use educpu.Prelude.{
  ℕ, ◌+◌, ◌≤◌, ◌≡◌, ◌⊎◌, inl, inr, refl, ap, arith, List, [], ◌∷◌, none, some, All,
}
use educpu.Prelude.Int.{ℤ, to_u16}
use educpu.Assembler.Errors.{Result, ok, err}
use educpu.Assembler.Text.{Text}
use educpu.Assembler.Parser.{
  TokenLine, ParsedKind, pl_empty, pl_label, pl_instr, pl_directive, DirectiveKind, dir_org,
  dir_word, dir_ascii, dir_equ, ParsedLine, Parsed, parse_line,
}
use educpu.Assembler.Parser.Shape.{IsParsed}
use educpu.Assembler.Parser.Line.{no_line-IsParsed, parse_line-IsParsed}
use educpu.Assembler.Lexer.{lex_line}
use educpu.Assembler.Symtable.{SymTable, symtable_insert}
use educpu.Assembler.Passes.{
  Pass1, defined, define_symbol, place_label, place_org, place_directive, place_kind, place, placed,
  parsed_at, pass1_line, pass1,
}
use educpu.Assembler.Passes.Image.{HasString}

-- A line is refused and counted, or it is placed at the current address.
abbrev pub Lays : Pass1 → Pass1 × ParsedLine → Type 0
Lays st r =
    (r.0.n_errors ≡ st.n_errors + 1)
    ⊎ ((pl : ParsedLine) × (r ≡ (place pl st, pl)) × (pl.address ≡ st.addr))

placed-Lays : (st : Pass1) (p : Parsed) → Lays st (placed p st)
unfolding placed
placed-Lays st (pl, some e) = inl refl
placed-Lays st (pl, none) = inr (record pl { address = st.addr }, refl, refl)

pub pass1_line-Lays : (src : Text) (line_no : ℕ) (st : Pass1) → Lays st (pass1_line src line_no st)
unfolding pass1_line parsed_at
pass1_line-Lays src line_no st = by_tokens (lex_line src line_no)
  where
    by_tokens : (r : Result TokenLine) → Lays st (parsed_at r st)
    by_tokens (err e) = inl refl
    by_tokens (ok tl) = placed-Lays st (parse_line tl)

placed-IsParsed : (st : Pass1) (p : Parsed) → IsParsed p.0 → IsParsed (placed p st).1
unfolding placed
placed-IsParsed st (pl, some e) h = h
placed-IsParsed st (pl, none) h = record {
  label_fits = h.label_fits;
  instr_fits = h.instr_fits;
  dir_fits = h.dir_fits;
}

pass1_line-IsParsed :
    (src : Text) (line_no : ℕ) (st : Pass1) → IsParsed (pass1_line src line_no st).1
unfolding pass1_line parsed_at
pass1_line-IsParsed src line_no st = by_tokens (lex_line src line_no)
  where
    by_tokens : (r : Result TokenLine) → IsParsed (parsed_at r st).1
    by_tokens (err e) = no_line-IsParsed 0
    by_tokens (ok tl) = placed-IsParsed st (parse_line tl) (parse_line-IsParsed tl)

-- Every line fits its C type.
pub pass1-IsParsed :
    (lines : List Text) (line_no : ℕ) (st : Pass1) → All IsParsed (pass1 lines line_no st).1
unfolding pass1
pass1-IsParsed [] line_no st = tt
pass1-IsParsed (src ∷ rest) line_no st = (
  pass1_line-IsParsed src line_no st,
  pass1-IsParsed rest (line_no + 1) (pass1_line src line_no st).0,
)

AreParsed-HasString : (pls : List ParsedLine) → All IsParsed pls → All HasString pls
AreParsed-HasString [] h = tt
AreParsed-HasString (pl ∷ pls) h =
    ((h.0.dir_fits.str_len_is, h.0.dir_fits.str_fits), AreParsed-HasString pls h.1)

pub pass1-HasString :
    (lines : List Text) (line_no : ℕ) (st : Pass1) → All HasString (pass1 lines line_no st).1
pass1-HasString lines line_no st =
    AreParsed-HasString (pass1 lines line_no st).1 (pass1-IsParsed lines line_no st)

-- A step that counts no fewer errors than before.
defined-grows : (r : Result SymTable) (st : Pass1) → st.n_errors ≤ (defined r st).n_errors
unfolding defined
defined-grows (ok table) st = omega arith
defined-grows (err e) st = omega arith

pub define_symbol-grows :
    (name : Text) (a : ℕ) (st : Pass1) → st.n_errors ≤ (define_symbol name a st).n_errors
unfolding define_symbol
define_symbol-grows name a st = defined-grows (symtable_insert st.table name a) st

pub place_label-grows : (name : Text) (st : Pass1) → st.n_errors ≤ (place_label name st).n_errors
unfolding place_label
place_label-grows [] st = omega arith
place_label-grows (c ∷ cs) st = define_symbol-grows (c ∷ cs) st.addr st

place_org-grows : (v : ℤ) (st : Pass1) → st.n_errors ≤ (place_org v st).n_errors
unfolding place_org
place_org-grows v st = ground arith

place_directive-grows :
    (k : DirectiveKind) (pl : ParsedLine) (st : Pass1)
    → st.n_errors ≤ (place_directive k pl st).n_errors
unfolding place_directive
place_directive-grows dir_org pl st = place_org-grows pl.dir.value.imm st
place_directive-grows dir_equ pl st = define_symbol-grows pl.dir.name (to_u16 pl.dir.value.imm) st
place_directive-grows dir_word pl st = omega arith
place_directive-grows dir_ascii pl st = omega arith

place_kind-grows :
    (k : ParsedKind) (pl : ParsedLine) (st : Pass1) → st.n_errors ≤ (place_kind k pl st).n_errors
unfolding place_kind
place_kind-grows pl_directive pl st = place_directive-grows pl.dir.kind pl st
place_kind-grows pl_empty pl st = omega arith
place_kind-grows pl_label pl st = omega arith
place_kind-grows pl_instr pl st = omega arith

pub place_label-place :
    (pl : ParsedLine) (st : Pass1) → (place_label pl.label st).n_errors ≤ (place pl st).n_errors
unfolding place
place_label-place pl st = place_kind-grows pl.kind pl (place_label pl.label st)

pub place-grows : (pl : ParsedLine) (st : Pass1) → st.n_errors ≤ (place pl st).n_errors
place-grows pl st = omega (arith, place_label-grows pl.label st, place_label-place pl st)

pub pass1_line-grows :
    (src : Text) (line_no : ℕ) (st : Pass1) → st.n_errors ≤ (pass1_line src line_no st).0.n_errors
pass1_line-grows src line_no st = elim (pass1_line-Lays src line_no st) [
  | inl counted ↦ omega arith
  | inr (pl, same, _) ↦
      let errors = ap (λ (r : Pass1 × ParsedLine). r.0.n_errors) same in
      omega (arith, place-grows pl st)
]

pub pass1-grows :
    (lines : List Text) (line_no : ℕ) (st : Pass1)
    → st.n_errors ≤ (pass1 lines line_no st).0.n_errors
unfolding pass1
pass1-grows [] line_no st = omega arith
pass1-grows (src ∷ rest) line_no st = omega (
  arith,
  pass1_line-grows src line_no st,
  pass1-grows rest (line_no + 1) (pass1_line src line_no st).0,
)
