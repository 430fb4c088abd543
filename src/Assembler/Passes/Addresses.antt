-- ===== src/Assembler/Passes/Addresses.antt =====
-- The addresses that the first pass gives, when every `.org` goes forward.
use educpu.Prelude.{
  ℕ, ◌+◌, ◌/◌, ◌^◌, ◌≤◌, ◌<◌, ◌≡◌, inl, inr, ◌∙◌, refl, ap, arith, ◌||◌, List, [], ◌∷◌, length,
  if◌then◌else◌,
}
use educpu.Prelude.Int.{ℤ, pos, ltb_ℤ, to_u16}
use educpu.Assembler.Errors.{Result, ok, err}
use educpu.Assembler.Text.{Text}
use educpu.Assembler.Parser.{
  ParsedKind, pl_empty, pl_label, pl_instr, pl_directive, DirectiveKind, dir_org, dir_word,
  dir_ascii, dir_equ, Directive, ParsedLine,
}
use educpu.Assembler.Symtable.{SymTable, symtable_insert}
use educpu.Assembler.Passes.{
  line_size, size_of, directive_size, Pass1, defined, define_symbol, place_label, place_org,
  advance, place_directive, place_kind, place, pass1_line, pass1,
}
use educpu.Assembler.Passes.Image.{HasString, Ascends}
use educpu.Assembler.Passes.Layout.{
  Lays, pass1_line-Lays, pass1_line-grows, pass1-grows, pass1-HasString,
}

after_org : ℤ → ℕ → ℕ
after_org v a = if ltb_ℤ v (pos 0) || ltb_ℤ (pos 0xffff) v then a else to_u16 v

after_directive : DirectiveKind → Directive → ℕ → ℕ
unfolding after_org
after_directive dir_org d a = after_org d.value.imm a
after_directive dir_equ d a = a
after_directive dir_word d a = a + 1
after_directive dir_ascii d a = a + (length d.str / 2 + 1)

after_kind : ParsedKind → Directive → ℕ → ℕ
unfolding after_directive
after_kind pl_instr d a = a + 1
after_kind pl_directive d a = after_directive d.kind d a
after_kind _ d a = a

-- Where the line after this one goes, with no bound on addresses: an instruction and a `.word` take
-- one word, a string half as many as it has bytes and one, and `.org` goes to its value if it is one.
unfoldable pub after : ParsedLine → ℕ → ℕ
unfolding after_kind
after pl a = after_kind pl.kind pl.dir a

-- From `a` on, no line goes back, and the last one ends at `e`.
abbrev pub Forward : ℕ → List ParsedLine → ℕ → Type 0
Forward a [] e = a ≡ e
Forward a (pl ∷ pls) e = (a ≤ after pl a) × Forward (after pl a) pls e

Forward-le : (a : ℕ) (pls : List ParsedLine) (e : ℕ) → Forward a pls e → a ≤ e
Forward-le a [] e h = omega (arith, h)
Forward-le a (pl ∷ pls) e h = omega (arith, Forward-le (after pl a) pls e h.1)

directive_size-after :
    (k : DirectiveKind) (d : Directive) (a : ℕ)
    → d.str_len ≡ length d.str
    → length d.str ≤ 127
    → a ≤ after_directive k d a
    → a + directive_size k d.str_len ≤ after_directive k d a
unfolding after_directive
directive_size-after dir_org d a len short le = omega arith
directive_size-after dir_equ d a len short le = omega arith
directive_size-after dir_word d a len short le = omega arith
directive_size-after dir_ascii d a len short le = omega arith

size_of-after :
    (k : ParsedKind) (d : Directive) (a : ℕ)
    → d.str_len ≡ length d.str
    → length d.str ≤ 127
    → a ≤ after_kind k d a
    → a + size_of k d ≤ after_kind k d a
unfolding after_kind
size_of-after pl_empty d a len short le = omega arith
size_of-after pl_label d a len short le = omega arith
size_of-after pl_instr d a len short le = omega arith
size_of-after pl_directive d a len short le = directive_size-after d.kind d a len short le

line_size-after :
    (pl : ParsedLine) (a : ℕ) → HasString pl → a ≤ after pl a → a + line_size pl ≤ after pl a
unfolding after
line_size-after pl a (len, short) le = size_of-after pl.kind pl.dir a len short le

defined-addr : (r : Result SymTable) (st : Pass1) → (defined r st).addr ≡ st.addr
unfolding defined
defined-addr (ok table) st = refl
defined-addr (err e) st = refl

pub define_symbol-addr :
    (name : Text) (a : ℕ) (st : Pass1) → (define_symbol name a st).addr ≡ st.addr
unfolding define_symbol
define_symbol-addr name a st = defined-addr (symtable_insert st.table name a) st

pub place_label-addr : (name : Text) (st : Pass1) → (place_label name st).addr ≡ st.addr
unfolding place_label
place_label-addr [] st = refl
place_label-addr (c ∷ cs) st = define_symbol-addr (c ∷ cs) st.addr st

place_org-addr : (v : ℤ) (st : Pass1) → (place_org v st).addr ≡ after_org v st.addr
unfolding place_org after_org
place_org-addr v st = ground arith

advance-addr :
    (pl : ParsedLine) (st : Pass1) (n : ℕ)
    → line_size pl ≡ n
    → st.addr + n < 2 ^ 16
    → (advance pl st).addr ≡ st.addr + n
advance-addr pl st n size small = omega arith

place_directive-addr :
    (k : DirectiveKind) (pl : ParsedLine) (st : Pass1)
    → pl.kind ≡ pl_directive
    → pl.dir.kind ≡ k
    → HasString pl
    → after_directive k pl.dir st.addr < 2 ^ 16
    → (place_directive k pl st).addr ≡ after_directive k pl.dir st.addr
unfolding place_directive after_directive
place_directive-addr dir_org pl st is kind (len, short) small = place_org-addr pl.dir.value.imm st
place_directive-addr dir_equ pl st is kind (len, short) small =
    define_symbol-addr pl.dir.name (to_u16 pl.dir.value.imm) st
place_directive-addr dir_word pl st is kind (len, short) small =
    advance-addr pl st 1 (rw (is, kind) refl) small
place_directive-addr dir_ascii pl st is kind (len, short) small =
    advance-addr pl st (length pl.dir.str / 2 + 1) (rw (is, kind) (omega arith)) small

place_kind-addr :
    (k : ParsedKind) (pl : ParsedLine) (st : Pass1)
    → pl.kind ≡ k
    → HasString pl
    → after_kind k pl.dir st.addr < 2 ^ 16
    → (place_kind k pl st).addr ≡ after_kind k pl.dir st.addr
unfolding place_kind after_kind
place_kind-addr pl_empty pl st is str small =
    advance-addr pl st 0 (rw is refl) (omega arith) ∙ omega arith
place_kind-addr pl_label pl st is str small =
    advance-addr pl st 0 (rw is refl) (omega arith) ∙ omega arith
place_kind-addr pl_instr pl st is str small = advance-addr pl st 1 (rw is refl) small
place_kind-addr pl_directive pl st is str small =
    place_directive-addr pl.dir.kind pl st is refl str small

place-addr :
    (pl : ParsedLine) (st : Pass1)
    → HasString pl
    → after pl st.addr < 2 ^ 16
    → (place pl st).addr ≡ after pl st.addr
unfolding place after
place-addr pl st str small =
    let same = place_label-addr pl.label st in
    place_kind-addr pl.kind pl (place_label pl.label st) refl str (rw same small)
    ∙ ap (λ (a : ℕ). after_kind pl.kind pl.dir a) same

Ascends-from : (a b : ℕ) (pls : List ParsedLine) (e : ℕ) → b ≤ a → Ascends a pls e → Ascends b pls e
Ascends-from a b [] e le h = omega arith
Ascends-from a b (pl ∷ pls) e le h = (omega (arith, h.0), h.1)

-- A line that is not counted starts at the current address, and the next one where it ends.
laid-addr :
    (st : Pass1) (r : Pass1 × ParsedLine)
    → Lays st r
    → HasString r.1
    → r.0.n_errors ≡ st.n_errors
    → after r.1 st.addr < 2 ^ 16
    → (r.1.address ≡ st.addr) × (r.0.addr ≡ after r.1 st.addr)
laid-addr st r (inl counted) str clean small = absurd (omega arith)
laid-addr st r (inr (pl, same, at)) str clean small =
    rw same (at, place-addr pl st (rw same at str) (rw same at small))

-- If the first pass counts no error, and no line of what it parses goes back or beyond 0xFFFF, then
-- each line starts where the one before ends or later, and the address after the pass is the end of
-- the last.
pub pass1-Ascends :
    (lines : List Text) (line_no : ℕ) (st : Pass1) (e : ℕ)
    → (pass1 lines line_no st).0.n_errors ≡ st.n_errors
    → Forward st.addr (pass1 lines line_no st).1 e
    → e < 2 ^ 16
    → Ascends st.addr (pass1 lines line_no st).1 e × ((pass1 lines line_no st).0.addr ≡ e)
unfolding pass1
pass1-Ascends [] line_no st e clean h small = (omega (arith, h), h)
pass1-Ascends (src ∷ rest) line_no st e clean h small =
    let (mid, first) = pass1_line src line_no st in
    let str = (pass1-HasString (src ∷ []) line_no st).0 in
    let early = Forward-le (after first st.addr) (pass1 rest (line_no + 1) mid).1 e h.1 in
    let grow = pass1_line-grows src line_no st in
    let grows = pass1-grows rest (line_no + 1) mid in
    let (at, next) =
      laid-addr st (pass1_line src line_no st) (pass1_line-Lays src line_no st) str (omega arith)
        (omega arith) in
    let (ascends, ends) =
      pass1-Ascends rest (line_no + 1) mid e (omega arith) (rw next h.1) small in
    (
      (
        omega arith,
        Ascends-from mid.addr (first.address + line_size first) (pass1 rest (line_no + 1) mid).1 e
            (omega (arith, line_size-after first st.addr str h.0)) ascends,
      ),
      ends,
    )
