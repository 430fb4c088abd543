-- ===== src/Assembler/Passes/Symbols/Accepts.antt =====
-- When the first pass counts no error.
use educpu.Prelude.{
  ℕ, ◌+◌, ◌≤◌, ◌≡◌, ◌∙◌, refl, arith, Bool, true, not, ◌||◌, List, [], ◌∷◌, ◌++◌, Option, none,
  some, length, length-append, All, All-left, All-right,
}
use educpu.Prelude.Int.{ℤ, pos, ltb_ℤ, to_u16}
use educpu.Assembler.Errors.{Result, ok, err}
use educpu.Assembler.Text.{Text}
use educpu.Assembler.Parser.{
  ParsedKind, pl_empty, pl_label, pl_instr, pl_directive, DirectiveKind, dir_org, dir_word,
  dir_ascii, dir_equ, ParsedLine,
}
use educpu.Assembler.Symtable.{SymTable, sym_capacity, symtable_insert, symtable_lookup}
use educpu.Assembler.Symtable.Fill.{IsTable, IsTable-count}
use educpu.Assembler.Symtable.Insert.{Inserts, symtable_insert-lookup}
use educpu.Assembler.Passes.{
  Pass1, defined, define_symbol, place_label, place_org, place_directive, place_kind, place,
}
use educpu.Assembler.Passes.Layout.{place_label-grows, place_label-place}
use educpu.Assembler.Passes.Symbols.{
  label_symbol, equ_symbol, line_symbols, IsShort, HasName, Takes, Env, bind, bind_all, NewNames,
}
use educpu.Assembler.Passes.Symbols.Labels.{place_label-Takes}

-- The symbols can be defined from this table on.
pub record CanTake (ss : List (Text × ℕ)) (t : SymTable) : Type 0 where
  pub table : IsTable t
  pub named : All HasName ss
  pub short : All IsShort ss
  pub new : NewNames ss (symtable_lookup t)
  pub room : t.count + length ss ≤ sym_capacity

NewNames-parts :
    (xs ys : List (Text × ℕ)) (env : Env)
    → NewNames (xs ++ ys) env
    → NewNames xs env × NewNames ys (bind_all xs env)
NewNames-parts [] ys env h = (tt, h)
NewNames-parts (x ∷ xs) ys env h =
    let (l, r) = NewNames-parts xs ys (bind x env) h.1 in ((h.0, l), r)

pub CanTake-left : (xs ys : List (Text × ℕ)) (t : SymTable) → CanTake (xs ++ ys) t → CanTake xs t
CanTake-left xs ys t h = record {
  table = h.table;
  named = All-left HasName xs ys h.named;
  short = All-left IsShort xs ys h.short;
  new = (NewNames-parts xs ys (symtable_lookup t) h.new).0;
  room = omega (arith, h.room, length-append xs ys);
}

pub CanTake-right :
    (xs ys : List (Text × ℕ)) (t t' : SymTable)
    → CanTake (xs ++ ys) t
    → Takes xs t t'
    → CanTake ys t'
CanTake-right xs ys t t' h taken = record {
  table = taken.keeps;
  named = All-right HasName xs ys h.named;
  short = All-right IsShort xs ys h.short;
  new = rw taken.binds (NewNames-parts xs ys (symtable_lookup t) h.new).1;
  room = omega (arith, h.room, taken.counts, length-append xs ys);
}

-- After the symbols are taken there was room for them.
pub Takes-CanTake :
    (ss : List (Text × ℕ)) (t t' : SymTable)
    → IsTable t
    → All IsShort ss
    → Takes ss t t'
    → CanTake ss t
Takes-CanTake ss t t' table short taken = record {
  table = table;
  named = taken.named;
  short = short;
  new = taken.new;
  room = omega (arith, taken.counts, IsTable-count t' taken.keeps);
}

defined-clean :
    (r : Result SymTable) (t : SymTable) (st : Pass1)
    → r ≡ ok t
    → (defined r st).n_errors ≡ st.n_errors
unfolding defined
defined-clean (ok u) t st is = refl
defined-clean (err e) t st is = cc

Inserts-ok :
    (t : SymTable) (name : Text) (v : ℕ) (o : Option ℕ)
    → o ≡ none
    → Inserts t name v o
    → (t' : SymTable) × (symtable_insert t name v ≡ ok t')
unfolding Inserts
Inserts-ok t name v none is (t', run, _, _, _) = (t', run)
Inserts-ok t name v (some a) is h = cc

define_symbol-clean :
    (name : Text) (v : ℕ) (st : Pass1)
    → CanTake ((name, v) ∷ []) st.table
    → (define_symbol name v st).n_errors ≡ st.n_errors
unfolding define_symbol
define_symbol-clean name v st h =
    let (t', run) = Inserts-ok st.table name v (symtable_lookup st.table name) h.new.0 (
      symtable_insert-lookup st.table name v h.table h.named.0 h.short.0 (omega (arith, h.room))) in
    defined-clean (symtable_insert st.table name v) t' st run

place_label-clean :
    (name : Text) (st : Pass1)
    → CanTake (label_symbol name st.addr) st.table
    → (place_label name st).n_errors ≡ st.n_errors
unfolding place_label label_symbol
place_label-clean [] st h = refl
place_label-clean (c ∷ cs) st h = define_symbol-clean (c ∷ cs) st.addr st h

unfoldable pub org_fits : ParsedKind → DirectiveKind → ℤ → Bool
org_fits pl_directive dir_org v = not (ltb_ℤ v (pos 0) || ltb_ℤ (pos 0xffff) v)
org_fits _ _ v = true

-- The value of an `.org` is an address.
unfoldable pub OrgFits : ParsedLine → Type 0
unfolding org_fits
OrgFits pl = org_fits pl.kind pl.dir.kind pl.dir.value.imm ≡ true

place_org-clean :
    (v : ℤ) (st : Pass1)
    → not (ltb_ℤ v (pos 0) || ltb_ℤ (pos 0xffff) v) ≡ true
    → (place_org v st).n_errors ≡ st.n_errors
unfolding place_org
place_org-clean v st h = ground arith

org_fits-clean :
    (v : ℤ) (st : Pass1)
    → (place_org v st).n_errors ≡ st.n_errors
    → not (ltb_ℤ v (pos 0) || ltb_ℤ (pos 0xffff) v) ≡ true
unfolding place_org
org_fits-clean v st h = ground arith

directive-OrgFits :
    (k : DirectiveKind) (pl : ParsedLine) (st : Pass1)
    → (place_directive k pl st).n_errors ≡ st.n_errors
    → org_fits pl_directive k pl.dir.value.imm ≡ true
unfolding place_directive org_fits
directive-OrgFits dir_org pl st clean = org_fits-clean pl.dir.value.imm st clean
directive-OrgFits dir_equ pl st clean = refl
directive-OrgFits dir_word pl st clean = refl
directive-OrgFits dir_ascii pl st clean = refl

kind-OrgFits :
    (k : ParsedKind) (pl : ParsedLine) (st : Pass1)
    → (place_kind k pl st).n_errors ≡ st.n_errors
    → org_fits k pl.dir.kind pl.dir.value.imm ≡ true
unfolding place_kind org_fits
kind-OrgFits pl_directive pl st clean = directive-OrgFits pl.dir.kind pl st clean
kind-OrgFits pl_empty pl st clean = refl
kind-OrgFits pl_label pl st clean = refl
kind-OrgFits pl_instr pl st clean = refl

-- A line that is placed without an error has an address in its `.org`.
pub place-OrgFits :
    (pl : ParsedLine) (st : Pass1) → (place pl st).n_errors ≡ st.n_errors → OrgFits pl
unfolding place OrgFits
place-OrgFits pl st clean =
    let grow = place_label-grows pl.label st in
    let grows = place_label-place pl st in
    kind-OrgFits pl.kind pl (place_label pl.label st) (omega arith)

place_directive-clean :
    (k : DirectiveKind) (pl : ParsedLine) (st : Pass1)
    → CanTake (equ_symbol pl_directive k pl.dir) st.table
    → org_fits pl_directive k pl.dir.value.imm ≡ true
    → (place_directive k pl st).n_errors ≡ st.n_errors
unfolding place_directive equ_symbol org_fits
place_directive-clean dir_org pl st h fits = place_org-clean pl.dir.value.imm st fits
place_directive-clean dir_equ pl st h fits =
    define_symbol-clean pl.dir.name (to_u16 pl.dir.value.imm) st h
place_directive-clean dir_word pl st h fits = refl
place_directive-clean dir_ascii pl st h fits = refl

place_kind-clean :
    (k : ParsedKind) (pl : ParsedLine) (st : Pass1)
    → CanTake (equ_symbol k pl.dir.kind pl.dir) st.table
    → org_fits k pl.dir.kind pl.dir.value.imm ≡ true
    → (place_kind k pl st).n_errors ≡ st.n_errors
unfolding place_kind
place_kind-clean pl_empty pl st h fits = refl
place_kind-clean pl_label pl st h fits = refl
place_kind-clean pl_instr pl st h fits = refl
place_kind-clean pl_directive pl st h fits = place_directive-clean pl.dir.kind pl st h fits

pub place-clean :
    (pl : ParsedLine) (st : Pass1)
    → pl.address ≡ st.addr
    → CanTake (line_symbols pl) st.table
    → OrgFits pl
    → (place pl st).n_errors ≡ st.n_errors
unfolding place line_symbols OrgFits
place-clean pl st at h fits =
    let mid = place_label pl.label st in
    let left = label_symbol pl.label pl.address in
    let right = equ_symbol pl.kind pl.dir.kind pl.dir in
    let l = CanTake-left left right st.table h in
    let label_clean = place_label-clean pl.label st (rw at at l) in
    let taken : Takes left st.table mid.table =
      rw at (place_label-Takes pl.label st h.table (rw at at l.short) label_clean) in
    place_kind-clean pl.kind pl mid (CanTake-right left right st.table mid.table h taken) fits
    ∙ label_clean
