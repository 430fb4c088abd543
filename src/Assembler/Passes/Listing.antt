-- ===== src/Assembler/Passes/Listing.antt =====
-- A program of the source language, printed, and its listing.
pub mod Words
pub mod Symbols
pub mod Complete
pub mod Runs
use educpu.Prelude.{
  ℕ, suc, ◌+◌, ◌*◌, ◌/◌, ◌%◌, ◌^◌, ◌≤◌, ◌≡◌, ◌≢◌, ◌↔◌, ◌∙◌, refl, sym, ap, arith, Bool, true, false,
  not, ◌||◌, Bool-cases, List, [], ◌∷◌, ◌++◌, none, length, All, if◌then◌else◌,
}
use educpu.Prelude.Int.{ℤ, pos, ltb_ℤ, to_u16}
use educpu.Assembler.Text.{Text}
use educpu.Assembler.Lexer.{lex_line}
use educpu.Assembler.Parser.{
  max_token_len, ParsedKind, pl_empty, pl_label, ParsedLine, no_line, Parsed, parse_line,
}
use educpu.Assembler.Parser.Source.{
  value, Stmt, empty, instr, org, word, ascii, equ, IsStmt, Line, plain, labelled, IsLine,
  stmt_line, parsed_line,
}
use educpu.Assembler.Parser.Printed.{print_line, parse_line-print_line}
use educpu.Assembler.Symtable.{SymTable, sym_capacity, symtable_lookup, symtable_reset}
use educpu.Assembler.Passes.{
  Pass1, place, place_kind, place_directive, place_org, place_label, define_symbol, defined, placed,
  parsed_at, pass1_line, pass1, pass1_start, assemble,
}
use educpu.Assembler.Passes.Addresses.{define_symbol-addr, place_label-addr}
use educpu.Assembler.Passes.Symbols.{line_symbols, symbols, IsShort, HasName, NewNames}
use educpu.Assembler.Passes.Symbols.Accepts.{OrgFits}
use educpu.Assembler.Passes.Written.{IsAccepted, AreAccepted, HasWords}
use educpu.Assembler.Passes.Complete.{IsSource, assemble-IsSource_iff}

-- The words of a statement.
abbrev pub stmt_size : Stmt → ℕ
stmt_size (instr m args) = 1
stmt_size (word a) = 1
stmt_size (ascii s) = length s / 2 + 1
stmt_size _ = 0

-- The address after a statement.
abbrev pub stmt_next : Stmt → ℕ → ℕ
stmt_next (org v) a =
    if ltb_ℤ (value v) (pos 0) || ltb_ℤ (pos 0xffff) (value v) then a else to_u16 (value v)
stmt_next (equ s v) a = a
stmt_next s a = (a + stmt_size s) % 2 ^ 16

abbrev pub statement : Line → Stmt
statement (plain s) = s
statement (labelled l s) = s

abbrev pub head_kind : Bool → ParsedKind
head_kind false = pl_empty
head_kind true = pl_label

-- A line before its statement: its number, its address, and its label, if it has one.
abbrev pub head : Bool → ℕ → ℕ → Text → ParsedLine
head b n a l = record no_line { kind = head_kind b; line_no = n; address = a; label = l }

-- The line as the parser makes it, at an address.
abbrev pub line_at : Line → ℕ → ℕ → ParsedLine
line_at (plain s) n a = stmt_line s (head false n a [])
line_at (labelled l s) n a = stmt_line s (head true n a l)

-- The lines, numbered from `n` on, with their addresses from `a` on.
abbrev pub listing : List Line → ℕ → ℕ → List ParsedLine
listing [] n a = []
listing (l ∷ ls) n a = line_at l n a ∷ listing ls (n + 1) (stmt_next (statement l) a)

abbrev pub print_program : List Line → List Text
print_program [] = []
print_program (l ∷ ls) = print_line l ∷ print_program ls

stmt_line-address :
    (s : Stmt) (out : ParsedLine) (a : ℕ)
    → record (stmt_line s out) { address = a } ≡ stmt_line s (record out { address = a })
stmt_line-address empty out a = refl
stmt_line-address (instr m args) out a = refl
stmt_line-address (org v) out a = refl
stmt_line-address (word x) out a = refl
stmt_line-address (ascii s) out a = refl
stmt_line-address (equ s v) out a = refl

parsed_line-address :
    (l : Line) (n a : ℕ) → record (parsed_line l n) { address = a } ≡ line_at l n a
parsed_line-address (plain s) n a = stmt_line-address s (head false n 0 []) a
parsed_line-address (labelled l s) n a = stmt_line-address s (head true n 0 l) a

place_org-addr :
    (v : ℤ) (st : Pass1)
    → (place_org v st).addr
      ≡ (if ltb_ℤ v (pos 0) || ltb_ℤ (pos 0xffff) v then st.addr else to_u16 v)
unfolding place_org
place_org-addr v st = ground arith

string_size : (n : ℕ) → n ≤ max_token_len → (n + 1 + 1) / 2 % 2 ^ 16 ≡ n / 2 + 1
string_size n h = omega arith

stmt_line-addr :
    (s : Stmt) (b : Bool) (n a : ℕ) (l : Text) (st : Pass1)
    → IsStmt s
    → (place_kind (stmt_line s (head b n a l)).kind (stmt_line s (head b n a l)) st).addr
      ≡ stmt_next s st.addr
unfolding place_kind place_directive
stmt_line-addr empty false n a l st h = refl
stmt_line-addr empty true n a l st h = refl
stmt_line-addr (instr m args) b n a l st h = refl
stmt_line-addr (org v) b n a l st h = place_org-addr (value v) st
stmt_line-addr (word x) b n a l st h = refl
stmt_line-addr (ascii s) b n a l st h = rw (string_size (length s) h.1) refl
stmt_line-addr (equ s v) b n a l st h = define_symbol-addr s (to_u16 (value v)) st

line_at-addr :
    (l : Line) (n a : ℕ) (st : Pass1)
    → IsLine l
    → (place (line_at l n a) st).addr ≡ stmt_next (statement l) st.addr
unfolding place
line_at-addr (plain s) n a st h =
    let label = (line_at (plain s) n a).label in
    stmt_line-addr s false n a [] (place_label label st) h
    ∙ ap (stmt_next s) (place_label-addr label st)
line_at-addr (labelled l s) n a st h =
    let label = (line_at (labelled l s) n a).label in
    stmt_line-addr s true n a l (place_label label st) h.1
    ∙ ap (stmt_next s) (place_label-addr label st)

pass1_line-line_at :
    (l : Line) (n : ℕ) (st : Pass1)
    → IsLine l
    → pass1_line (print_line l) n st ≡ (place (line_at l n st.addr) st, line_at l n st.addr)
unfolding pass1_line parsed_at placed
pass1_line-line_at l n st h =
    let (tl, lexed, parsed) = parse_line-print_line l n h in
    rw (lexed, parsed)
      (ap (λ (pl : ParsedLine). (place pl st, pl)) (parsed_line-address l n st.addr))

-- The first pass lays a printed program out as its listing says.
pass1-listing :
    (ls : List Line) (n : ℕ) (st : Pass1)
    → All IsLine ls
    → (pass1 (print_program ls) n st).1 ≡ listing ls n st.addr
unfolding pass1
pass1-listing [] n st h = refl
pass1-listing (l ∷ ls) n st h =
    let pl = line_at l n st.addr in
    rw (pass1_line-line_at l n st h.0) (
      ap (◌∷◌ pl) (
        pass1-listing ls (n + 1) (place pl st) h.1
        ∙ ap (listing ls (n + 1)) (line_at-addr l n st.addr st h.0)))

print_program-AreAccepted :
    (ls : List Line) (n : ℕ) → All IsLine ls → AreAccepted (print_program ls) n
print_program-AreAccepted [] n h = tt
print_program-AreAccepted (l ∷ ls) n h =
    let (tl, lexed, parsed) = parse_line-print_line l n h.0 in
    ((tl, lexed, ap (λ (p : Parsed). p.1) parsed), print_program-AreAccepted ls (n + 1) h.1)
