-- ===== src/Assembler/Passes/Symbols.antt =====
-- The symbols that the first pass defines, against the finite map of a source's labels and constants.
pub mod Labels
pub mod Accepts
use mathlib.Core.Path.{fun_ext}
use educpu.Prelude.{
  ℕ, zero, suc, ◌+◌, ◌^◌, ◌≤◌, ◌<◌, ◌≡◌, ◌≢◌, inl, inr, ◌∙◌, refl, sym, ap, arith, Bool, true,
  false, List, [], ◌∷◌, ◌++◌, Option, none, some, Option-cases, length, get_or, All, All-append,
  length-append, All-get_or, leb, if◌then◌else◌, if_yes, if_not, Bool-cases,
}
use educpu.Prelude.Int.{ℤ, to_u16}
use educpu.Assembler.Errors.{Result, ok, err, Result-cases}
use educpu.Assembler.Text.{Text, str_eq, str_eq_iff}
use educpu.Assembler.Parser.{
  ParsedKind, pl_empty, pl_label, pl_instr, pl_directive, DirectiveKind, dir_org, dir_word,
  dir_ascii, dir_equ, Directive, ParsedLine, no_line,
}
use educpu.Assembler.Symtable.{
  SymTable, sym_capacity, sym_name_max, symtable_insert, symtable_lookup, symtable_reset,
}
use educpu.Assembler.Symtable.Fill.{IsTable}
use educpu.Assembler.Symtable.Insert.{Inserts, symtable_insert-lookup, symtable_reset-IsTable}
use educpu.Assembler.Passes.{
  Pass1, defined, define_symbol, place_label, place_org, place_directive, place_kind, place,
  pass1_line, pass1, pass1_start,
}
use educpu.Assembler.Passes.Layout.{
  Lays, pass1_line-Lays, pass1_line-grows, pass1-grows, place_label-grows, place_label-place,
}

abbrev pub Env : Type 0
Env = Text → Option ℕ

abbrev pub bind : Text × ℕ → Env → Env
bind (name, v) env other = if str_eq name other then some v else env other

abbrev pub bind_all : List (Text × ℕ) → Env → Env
bind_all [] env = env
bind_all (s ∷ ss) env = bind_all ss (bind s env)

-- No name is bound when its turn comes.
abbrev pub NewNames : List (Text × ℕ) → Env → Type 0
NewNames [] env = Unit
NewNames (s ∷ ss) env = (env s.0 ≡ none) × NewNames ss (bind s env)

unfoldable pub label_symbol : Text → ℕ → List (Text × ℕ)
label_symbol [] a = []
label_symbol (c ∷ cs) a = (c ∷ cs, a) ∷ []

unfoldable pub equ_symbol : ParsedKind → DirectiveKind → Directive → List (Text × ℕ)
equ_symbol pl_directive dir_equ d = (d.name, to_u16 d.value.imm) ∷ []
equ_symbol _ _ d = []

unfoldable pub line_symbols : ParsedLine → List (Text × ℕ)
unfolding label_symbol equ_symbol
line_symbols pl = label_symbol pl.label pl.address ++ equ_symbol pl.kind pl.dir.kind pl.dir

-- The labels and the constants of a source, in order.
abbrev pub symbols : List ParsedLine → List (Text × ℕ)
symbols [] = []
symbols (pl ∷ pls) = line_symbols pl ++ symbols pls

abbrev pub IsShort : Text × ℕ → Type 0
IsShort s = length s.0 ≤ sym_name_max

abbrev pub HasName : Text × ℕ → Type 0
HasName s = s.0 ≢ []

-- The table has taken the symbols, each of them new.
pub record Takes (ss : List (Text × ℕ)) (t t' : SymTable) : Type 0 where
  pub keeps : IsTable t'
  pub named : All HasName ss
  pub new : NewNames ss (symtable_lookup t)
  pub counts : t'.count ≡ t.count + length ss
  pub binds : symtable_lookup t' ≡ bind_all ss (symtable_lookup t)

pub Takes-none : (t t' : SymTable) → IsTable t → t ≡ t' → Takes [] t t'
Takes-none t t' h same = record {
  keeps = rw same at h;
  named = tt;
  new = tt;
  counts = ap (λ (x : SymTable). x.count) (sym same) ∙ omega arith;
  binds = ap symtable_lookup (sym same);
}

bind_all-append :
    (xs ys : List (Text × ℕ)) (env : Env) → bind_all (xs ++ ys) env ≡ bind_all ys (bind_all xs env)
bind_all-append [] ys env = refl
bind_all-append (x ∷ xs) ys env = bind_all-append xs ys (bind x env)

NewNames-append :
    (xs ys : List (Text × ℕ)) (env : Env)
    → NewNames xs env
    → NewNames ys (bind_all xs env)
    → NewNames (xs ++ ys) env
NewNames-append [] ys env h k = k
NewNames-append (x ∷ xs) ys env h k = (h.0, NewNames-append xs ys (bind x env) h.1 k)

pub Takes-append :
    (xs ys : List (Text × ℕ)) (t t' t'' : SymTable)
    → Takes xs t t'
    → Takes ys t' t''
    → Takes (xs ++ ys) t t''
Takes-append xs ys t t' t'' h k = record {
  keeps = k.keeps;
  named = All-append HasName xs ys h.named k.named;
  new = NewNames-append xs ys (symtable_lookup t) h.new (rw h.binds at k.new);
  counts = omega (arith, h.counts, k.counts, length-append xs ys);
  binds = k.binds ∙ ap (bind_all ys) h.binds ∙ sym (bind_all-append xs ys (symtable_lookup t));
}

-- What an insertion that succeeds has needed.
inserted :
    (t t' : SymTable) (name : Text) (v : ℕ)
    → symtable_insert t name v ≡ ok t'
    → (name ≢ []) × (t.count < sym_capacity)
unfolding symtable_insert
inserted t t' [] v is = cc
inserted t t' (c ∷ cs) v is = elim (Bool-cases (leb sym_capacity t.count)) [
  | inl full ↦ let refused = sym (if_yes _ _ full) ∙ is in absurd (cc)
  | inr room ↦ (λ e. cc, ground arith)
]

Inserts-Takes :
    (t t' : SymTable) (name : Text) (v : ℕ) (o : Option ℕ)
    → symtable_insert t name v ≡ ok t'
    → symtable_lookup t name ≡ o
    → Inserts t name v o
    → Takes ((name, v) ∷ []) t t'
unfolding Inserts
Inserts-Takes t t' name v (some a) is found refused = absurd (cc)
Inserts-Takes t t' name v none is found (t₂, is₂, table, more, looks) =
    let same : t₂ ≡ t' = cc in
    record {
      keeps = rw same at table;
      named = ((inserted t t' name v is).0, tt);
      new = (found, tt);
      counts = ap (λ (x : SymTable). x.count) (sym same) ∙ more;
      binds = ap symtable_lookup (sym same) ∙ fun_ext looks;
    }

symtable_insert-Takes :
    (t t' : SymTable) (name : Text) (v : ℕ)
    → IsTable t
    → length name ≤ sym_name_max
    → symtable_insert t name v ≡ ok t'
    → Takes ((name, v) ∷ []) t t'
symtable_insert-Takes t t' name v table short is =
    let (some_name, room) = inserted t t' name v is in
    Inserts-Takes t t' name v (symtable_lookup t name) is refl
      (symtable_insert-lookup t name v table some_name short room)

defined-Takes :
    (r : Result SymTable) (name : Text) (v : ℕ) (st : Pass1)
    → symtable_insert st.table name v ≡ r
    → IsTable st.table
    → length name ≤ sym_name_max
    → (defined r st).n_errors ≡ st.n_errors
    → Takes ((name, v) ∷ []) st.table (defined r st).table
unfolding defined
defined-Takes (err e) name v st is table short clean = absurd (omega arith)
defined-Takes (ok t) name v st is table short clean =
    symtable_insert-Takes st.table t name v table short is

pub define_symbol-Takes :
    (name : Text) (v : ℕ) (st : Pass1)
    → IsTable st.table
    → length name ≤ sym_name_max
    → (define_symbol name v st).n_errors ≡ st.n_errors
    → Takes ((name, v) ∷ []) st.table (define_symbol name v st).table
unfolding define_symbol
define_symbol-Takes name v st = defined-Takes (symtable_insert st.table name v) name v st refl
