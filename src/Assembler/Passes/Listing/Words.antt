-- ===== src/Assembler/Passes/Listing/Words.antt =====
-- The words of a statement, when the names that it uses stand for numbers.
use mathlib.Core.Option
use educpu.Prelude.{
  if_yes, ◌↔◌, ℕ, ◌-◌, ◌≤◌, ◌≡◌, refl, ap, arith, Bool, true, false, ◌&&◌, List, [], ◌∷◌, ◌++◌,
  Option, none, some, length, replicate, if◌then◌else◌,
}
use educpu.Prelude.Int.{pos, to_u16}
use educpu.Assembler.Text.{Text}
use educpu.Assembler.Syntax.{Operand, opd_imm, no_operand, Instr}
use educpu.Assembler.Errors.{Result, ok, err}
use educpu.Assembler.Encoder.{OpDef, find_op, encode_instr}
use educpu.Assembler.Encoder.Accepts.{IsEncodable, encode_instr-IsEncodable_iff}
use educpu.Assembler.Parser.Source.{
  Arg, reg, num, name, arg_operand, arg_operands, Stmt, empty, instr, org, word, ascii, equ, IsStmt,
  Line, plain, labelled, IsLine, stmt_line,
}
use educpu.Assembler.Symtable.{SymTable, symtable_lookup}
use educpu.Assembler.Passes.{resolve_found, resolve_kind, resolve_operand, resolve_loop}
use educpu.Assembler.Passes.Emit.{
  pack, encoded_words, instr_words, directive_words, kind_words, line_words,
}
use educpu.Assembler.Passes.Symbols.{Env}
use educpu.Assembler.Passes.Listing.{statement, head, line_at}

abbrev named : Text → Option ℕ → Operand × Bool
named s none = (arg_operand (name s), false)
named s (some v) = (record no_operand { kind = opd_imm; imm = pos v; label = s }, true)

-- An argument with its name replaced by the number, and whether the name stands for one.
abbrev pub arg_value : Env → Arg → Operand × Bool
arg_value env (reg n) = (arg_operand (reg n), true)
arg_value env (num n) = (arg_operand (num n), true)
arg_value env (name s) = named s (env s)

abbrev pub arg_values : Env → List Arg → List Operand × Bool
arg_values env [] = ([], true)
arg_values env (a ∷ args) =
    let (o, found) = arg_value env a in
    let (os, rest) = arg_values env args in (o ∷ os, found && rest)

-- The instruction with three operands, of which those are used that it has.
abbrev pub instr_of : Text → List Operand → Instr
instr_of m os = record {
  mnemonic = m;
  ops = os ++ replicate (3 - length os) no_operand;
  nops = length os;
}

-- The words at an address, unless a name stands for no number or the instruction cannot be encoded.
abbrev pub stmt_words : Env → Stmt → ℕ → Option (List ℕ)
stmt_words env (instr m args) a =
    let (os, found) = arg_values env args in
    if found then encoded_words (encode_instr (instr_of m os) a) else none
stmt_words env (word x) a =
    let (o, found) = arg_value env x in if found then some (to_u16 o.imm ∷ []) else none
stmt_words env (ascii s) a = some (pack s)
stmt_words _ _ a = some []

resolve_found-named : (s : Text) (o : Option ℕ) → resolve_found o (arg_operand (name s)) ≡ named s o
unfolding resolve_found
resolve_found-named s none = refl
resolve_found-named s (some v) = refl

resolve_operand-arg :
    (table : SymTable) (a : Arg)
    → resolve_operand table (arg_operand a) ≡ arg_value (symtable_lookup table) a
unfolding resolve_operand resolve_kind resolve_found
resolve_operand-arg table (reg n) = refl
resolve_operand-arg table (num n) = refl
resolve_operand-arg table (name s) = resolve_found-named s (symtable_lookup table s)

pub resolve_loop-args :
    (table : SymTable) (m : Text) (args : List Arg)
    → length args ≤ 3
    → resolve_loop (length args) 0 table (record {
      mnemonic = m;
      ops = arg_operands args (replicate 3 no_operand);
      nops = length args;
    })
      ≡ (
        instr_of m (arg_values (symtable_lookup table) args).0,
        (arg_values (symtable_lookup table) args).1,
      )
unfolding resolve_loop
resolve_loop-args table m [] few = refl
resolve_loop-args table m (a ∷ []) few = rw (resolve_operand-arg table a) refl
resolve_loop-args table m (a ∷ b ∷ []) few =
    rw (resolve_operand-arg table a) (rw (resolve_operand-arg table b) refl)
resolve_loop-args table m (a ∷ b ∷ c ∷ []) few =
    rw (resolve_operand-arg table a)
      (rw (resolve_operand-arg table b) (rw (resolve_operand-arg table c) refl))
resolve_loop-args table m (a ∷ b ∷ c ∷ d ∷ args) few = absurd (omega arith)

stmt_line-words :
    (table : SymTable) (s : Stmt) (b : Bool) (n a : ℕ) (l : Text)
    → IsStmt s
    → line_words table (stmt_line s (head b n a l)) ≡ stmt_words (symtable_lookup table) s a
unfolding line_words kind_words instr_words directive_words
stmt_line-words table empty false n a l h = refl
stmt_line-words table empty true n a l h = refl
stmt_line-words table (instr m args) b n a l h =
    ap (λ (r : Instr × Bool). instr_words r a) (resolve_loop-args table m args h.2)
stmt_line-words table (org v) b n a l h = refl
stmt_line-words table (word x) b n a l h = rw (resolve_operand-arg table x) refl
stmt_line-words table (ascii s) b n a l h = refl
stmt_line-words table (equ s v) b n a l h = refl

-- The words of a line of a listing are those of its statement, with the names as in the table.
pub line_words-line_at :
    (table : SymTable) (l : Line) (n a : ℕ)
    → IsLine l
    → line_words table (line_at l n a) ≡ stmt_words (symtable_lookup table) (statement l) a
line_words-line_at table (plain s) n a h = stmt_line-words table s false n a [] h
line_words-line_at table (labelled l s) n a h = stmt_line-words table s true n a l h.1

-- Every name that the statement uses stands for a number, and its instruction can be encoded.
abbrev pub FitsStmt : Env → Stmt → ℕ → Type 0
FitsStmt env (instr m args) a =
    ((arg_values env args).1 ≡ true)
    × ((d : OpDef) × (find_op m ≡ some d)
        × IsEncodable d.fmt (instr_of m (arg_values env args).0) a)
FitsStmt env (word x) a = (arg_value env x).1 ≡ true
FitsStmt _ _ a = Unit

instr_words-some :
    (i : Instr) (a : ℕ) (found : Bool) (r : Result ℕ) (ws : List ℕ)
    → encode_instr i a ≡ r
    → (if found then encoded_words r else none) ≡ some ws
    → (found ≡ true) × ((w : ℕ) × (encode_instr i a ≡ ok w))
unfolding encoded_words
instr_words-some i a true (ok w) ws same is = (refl, (w, same))
instr_words-some i a true (err e) ws same is = absurd (Option.none-ne-some ws is)
instr_words-some i a false r ws same is = absurd (Option.none-ne-some ws is)

encoded_words-ok :
    (i : Instr) (a : ℕ) (found : Bool) (w : ℕ)
    → encode_instr i a ≡ ok w
    → found ≡ true
    → (if found then encoded_words (encode_instr i a) else none) ≡ some (w ∷ [])
unfolding encoded_words
encoded_words-ok i a found w is all = rw (all, is) refl

word-some :
    (found : Bool) (v ws : List ℕ) → (if found then some v else none) ≡ some ws → found ≡ true
word-some true v ws is = refl
word-some false v ws is = absurd (Option.none-ne-some ws is)

-- A statement has words exactly when it is so.
pub stmt_words-FitsStmt_iff :
    (env : Env) (s : Stmt) (a : ℕ)
    → ((ws : List ℕ) × (stmt_words env s a ≡ some ws)) ↔ FitsStmt env s a
stmt_words-FitsStmt_iff env empty a = (λ h. tt, λ h. ([], refl))
stmt_words-FitsStmt_iff env (instr m args) a =
    let (os, found) = arg_values env args in
    let i = instr_of m os in
    let (only, enough) = encode_instr-IsEncodable_iff i a in
    (
      λ h.
          let (all, w) = instr_words-some i a found (encode_instr i a) h.0 refl h.1 in
          (all, only w),
      λ h. let (w, is) = enough h.1 in (w ∷ [], encoded_words-ok i a found w is h.0),
    )
stmt_words-FitsStmt_iff env (org v) a = (λ h. tt, λ h. ([], refl))
stmt_words-FitsStmt_iff env (word x) a =
    let (o, found) = arg_value env x in
    (λ h. word-some found (to_u16 o.imm ∷ []) h.0 h.1, λ h. (to_u16 o.imm ∷ [], if_yes _ _ h))
stmt_words-FitsStmt_iff env (ascii s) a = (λ h. tt, λ h. (pack s, refl))
stmt_words-FitsStmt_iff env (equ s v) a = (λ h. tt, λ h. ([], refl))
