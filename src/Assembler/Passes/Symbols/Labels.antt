-- ===== src/Assembler/Passes/Symbols/Labels.antt =====
-- The symbol table after the first pass.
use educpu.Prelude.{
  ℕ, zero, suc, ◌+◌, ◌≡◌, ◌≢◌, inl, inr, ◌∙◌, refl, sym, ap, arith, List, [], ◌∷◌, ◌++◌, Option,
  some, get_or, All, All-left, All-right, if_yes, if_cases,
}
use educpu.Prelude.Int.{ℤ, to_u16}
use educpu.Assembler.Text.{Text, str_eq, str_eq_iff}
use educpu.Assembler.Parser.{
  ParsedKind, pl_empty, pl_label, pl_instr, pl_directive, DirectiveKind, dir_org, dir_word,
  dir_ascii, dir_equ, ParsedLine, no_line,
}
use educpu.Assembler.Symtable.{symtable_lookup, symtable_reset}
use educpu.Assembler.Symtable.Fill.{IsTable}
use educpu.Assembler.Symtable.Insert.{symtable_reset-IsTable}
use educpu.Assembler.Passes.{
  Pass1, place_label, place_org, place_directive, place_kind, place, pass1_line, pass1, pass1_start,
}
use educpu.Assembler.Passes.Layout.{
  Lays, pass1_line-Lays, pass1_line-grows, pass1-grows, place_label-grows, place_label-place,
}
use educpu.Assembler.Passes.Symbols.{
  label_symbol, equ_symbol, line_symbols, symbols, IsShort, Takes, Takes-none, Takes-append,
  define_symbol-Takes, Env, bind, bind_all, NewNames,
}

pub place_label-Takes :
    (name : Text) (st : Pass1)
    → IsTable st.table
    → All IsShort (label_symbol name st.addr)
    → (place_label name st).n_errors ≡ st.n_errors
    → Takes (label_symbol name st.addr) st.table (place_label name st).table
unfolding place_label label_symbol
place_label-Takes [] st table short clean = Takes-none st.table st.table table refl
place_label-Takes (c ∷ cs) st table short clean =
    define_symbol-Takes (c ∷ cs) st.addr st table short.0 clean

place_org-table : (v : ℤ) (st : Pass1) → st.table ≡ (place_org v st).table
unfolding place_org
place_org-table v st = ground arith

place_directive-Takes :
    (k : DirectiveKind) (pl : ParsedLine) (st : Pass1)
    → IsTable st.table
    → All IsShort (equ_symbol pl_directive k pl.dir)
    → (place_directive k pl st).n_errors ≡ st.n_errors
    → Takes (equ_symbol pl_directive k pl.dir) st.table (place_directive k pl st).table
unfolding place_directive equ_symbol
place_directive-Takes dir_org pl st table short clean =
    Takes-none st.table (place_org pl.dir.value.imm st).table table
      (place_org-table pl.dir.value.imm st)
place_directive-Takes dir_equ pl st table short clean =
    define_symbol-Takes pl.dir.name (to_u16 pl.dir.value.imm) st table short.0 clean
place_directive-Takes dir_word pl st table short clean = Takes-none st.table st.table table refl
place_directive-Takes dir_ascii pl st table short clean = Takes-none st.table st.table table refl

place_kind-Takes :
    (k : ParsedKind) (pl : ParsedLine) (st : Pass1)
    → IsTable st.table
    → All IsShort (equ_symbol k pl.dir.kind pl.dir)
    → (place_kind k pl st).n_errors ≡ st.n_errors
    → Takes (equ_symbol k pl.dir.kind pl.dir) st.table (place_kind k pl st).table
unfolding place_kind equ_symbol
place_kind-Takes pl_empty pl st table short clean = Takes-none st.table st.table table refl
place_kind-Takes pl_label pl st table short clean = Takes-none st.table st.table table refl
place_kind-Takes pl_instr pl st table short clean = Takes-none st.table st.table table refl
place_kind-Takes pl_directive pl st table short clean =
    place_directive-Takes pl.dir.kind pl st table short clean

place-Takes :
    (pl : ParsedLine) (st : Pass1)
    → pl.address ≡ st.addr
    → IsTable st.table
    → All IsShort (line_symbols pl)
    → (place pl st).n_errors ≡ st.n_errors
    → Takes (line_symbols pl) st.table (place pl st).table
unfolding place line_symbols
place-Takes pl st at table short clean =
    let mid = place_label pl.label st in
    let grow = place_label-grows pl.label st in
    let grows = place_label-place pl st in
    let same_errors : mid.n_errors ≡ st.n_errors = omega arith in
    let left = label_symbol pl.label pl.address in
    let right = equ_symbol pl.kind pl.dir.kind pl.dir in
    let s = All-left IsShort left right short in
    let k = All-right IsShort left right short in
    let first : Takes left st.table mid.table =
      rw at (place_label-Takes pl.label st table (rw at at s) same_errors) in
    Takes-append left right st.table mid.table (place pl st).table first
      (place_kind-Takes pl.kind pl mid first.keeps k (clean ∙ sym same_errors))

pub laid-Takes :
    (st : Pass1) (r : Pass1 × ParsedLine)
    → Lays st r
    → IsTable st.table
    → All IsShort (line_symbols r.1)
    → r.0.n_errors ≡ st.n_errors
    → Takes (line_symbols r.1) st.table r.0.table
laid-Takes st r (inl counted) table short clean = absurd (omega arith)
laid-Takes st r (inr (pl, same, at)) table short clean =
    rw same (place-Takes pl st at table (rw same at short) (rw same at clean))

-- If the first pass, from a table that keeps its invariant, counts no error, and the names of the
-- labels and constants that it parses have 63 bytes at most, then no name is defined twice or was in
-- the table before, and afterwards the table keeps its invariant and is the one before with each
-- label bound to the address of its line and each constant to its value modulo 2 ^ 16.
pub pass1-Takes :
    (lines : List Text) (line_no : ℕ) (st : Pass1)
    → IsTable st.table
    → All IsShort (symbols (pass1 lines line_no st).1)
    → (pass1 lines line_no st).0.n_errors ≡ st.n_errors
    → Takes (symbols (pass1 lines line_no st).1) st.table (pass1 lines line_no st).0.table
unfolding pass1
pass1-Takes [] line_no st table short clean = Takes-none st.table st.table table refl
pass1-Takes (src ∷ rest) line_no st table short clean =
    let (mid, first) = pass1_line src line_no st in
    let (last, pls) = pass1 rest (line_no + 1) mid in
    let grow = pass1_line-grows src line_no st in
    let grows = pass1-grows rest (line_no + 1) mid in
    let s = All-left IsShort (line_symbols first) (symbols pls) short in
    let k = All-right IsShort (line_symbols first) (symbols pls) short in
    let step =
      laid-Takes st (pass1_line src line_no st) (pass1_line-Lays src line_no st) table s
        (omega arith) in
    Takes-append (line_symbols first) (symbols pls) st.table mid.table last.table step
      (pass1-Takes rest (line_no + 1) mid step.keeps k (omega arith))

bound_stays :
    (ss : List (Text × ℕ)) (env : Env) (name : Text) (v : ℕ)
    → NewNames ss env
    → env name ≡ some v
    → bind_all ss env name ≡ some v
bound_stays [] env name v new is = is
bound_stays ((other, w) ∷ ss) env name v new is =
    bound_stays ss (bind (other, w) env) name v new.1 (
      if_cases (λ (o : Option ℕ). o ≡ some v) (str_eq other name)
        (λ same.
          let e : other ≡ name = (str_eq_iff other name).0 same in
          let both = sym (ap env e ∙ is) ∙ new.0 in absurd (cc))
        (λ _. is))

-- Each name has its own value in the end.
NewNames-All :
    (ss : List (Text × ℕ)) (env : Env)
    → NewNames ss env
    → All (λ (s : Text × ℕ). bind_all ss env s.0 ≡ some s.1) ss
NewNames-All [] env new = tt
NewNames-All ((name, v) ∷ ss) env new = (
  bound_stays ss (bind (name, v) env) name v new.1
      (if_yes (some v) (env name) ((str_eq_iff name name).1 refl)),
  NewNames-All ss (bind (name, v) env) new.1,
)

-- A label at the head of line `k` is one of the symbols.
label-All :
    (P : Text × ℕ → Type 0) (pls : List ParsedLine) (k : ℕ)
    → (get_or pls k no_line).label ≢ []
    → All P (symbols pls)
    → P ((get_or pls k no_line).label, (get_or pls k no_line).address)
unfolding line_symbols label_symbol
label-All P [] k named h = absurd (named refl)
label-All P (pl ∷ pls) (suc k) named h =
    label-All P pls k named (All-right P (line_symbols pl) (symbols pls) h)
label-All P (pl ∷ pls) zero named h =
    by_label pl.label named (All-left P (line_symbols pl) (symbols pls) h)
  where
    by_label :
        (name : Text)
        → name ≢ []
        → All P (label_symbol name pl.address ++ equ_symbol pl.kind pl.dir.kind pl.dir)
        → P (name, pl.address)
    by_label [] named h = absurd (named refl)
    by_label (c ∷ cs) named h = h.0

-- If the first pass over a source counts no error, and the names of its labels and constants have 63
-- bytes at most, then the table that the second pass reads gives for the label of any line, before or
-- after its uses, the address of that line.
pub pass1-label :
    (lines : List Text) (k : ℕ)
    → All IsShort (symbols (pass1 lines 1 pass1_start).1)
    → (pass1 lines 1 pass1_start).0.n_errors ≡ 0
    → (get_or (pass1 lines 1 pass1_start).1 k no_line).label ≢ []
    → symtable_lookup
        (pass1 lines 1 pass1_start).0.table
        (get_or (pass1 lines 1 pass1_start).1 k no_line).label
      ≡ some (get_or (pass1 lines 1 pass1_start).1 k no_line).address
pass1-label lines k short clean named =
    let (one, pls) = pass1 lines 1 pass1_start in
    let taken = pass1-Takes lines 1 pass1_start symtable_reset-IsTable short clean in
    let bound : All (λ (s : Text × ℕ). symtable_lookup one.table s.0 ≡ some s.1) (symbols pls) =
      rw taken.binds (NewNames-All (symbols pls) (symtable_lookup symtable_reset) taken.new) in
    label-All (λ (s : Text × ℕ). symtable_lookup one.table s.0 ≡ some s.1) pls k named bound
