-- ===== src/Assembler/Passes/Written.antt =====
-- When a file is written, and how long it is.
use educpu.Prelude.{
  ℕ, ◌+◌, ◌*◌, ◌≡◌, ◌⊎◌, inl, inr, ◌∙◌, refl, sym, ap, arith, List, [], ◌∷◌, ◌++◌, Option, none,
  some, length, All, ◌==◌, if_yes, if_not, Bool-cases,
}
use educpu.Prelude.Int.{to_u16}
use educpu.Assembler.Numbers.{parse_number}
use educpu.Assembler.Errors.{internal, Result, ok, err}
use educpu.Assembler.Text.{Text, codes, str_case_eq}
use educpu.Assembler.Parser.{TokenLine, ParsedLine, Parsed, parse_line, fill_value_operand}
use educpu.Assembler.Lexer.{lex_line, skip_blanks, next_token, push_token}
use educpu.Assembler.Symtable.{SymTable}
use educpu.Assembler.Passes.{
  line_size, Pass1, Pass2, placed, parsed_at, pass1_line, pass1, pass1_start, pass2_line, pass2,
  pass2_start, word_count, image_bytes, finish, assemble, place, place_label, place_org,
}
use educpu.Assembler.Passes.Emit.{line_words, Writes, pass2_line-Writes}
use educpu.Assembler.Passes.Image.{HasString, pass2-n_errors}
use educpu.Assembler.Passes.Layout.{pass1-HasString, pass1_line-grows, pass1-grows}
use educpu.Assembler.Passes.Output.{length-image_bytes}

-- The lexer and the parser accept the line.
abbrev pub IsAccepted : Text → ℕ → Type 0
IsAccepted src line_no =
    (tl : TokenLine) × (lex_line src line_no ≡ ok tl) × ((parse_line tl).1 ≡ none)

abbrev pub AreAccepted : List Text → ℕ → Type 0
AreAccepted [] line_no = Unit
AreAccepted (src ∷ rest) line_no = IsAccepted src line_no × AreAccepted rest (line_no + 1)

-- The labels of the line are defined, and its instruction can be encoded.
abbrev pub HasWords : SymTable → ParsedLine → Type 0
HasWords table pl = (ws : List ℕ) × (line_words table pl ≡ some ws)

placed-accepted : (p : Parsed) (st : Pass1) → (placed p st).0.n_errors ≡ st.n_errors → p.1 ≡ none
unfolding placed
placed-accepted (pl, none) st clean = refl
placed-accepted (pl, some e) st clean = absurd (omega arith)

pass1_line-IsAccepted :
    (src : Text) (line_no : ℕ) (st : Pass1)
    → (pass1_line src line_no st).0.n_errors ≡ st.n_errors
    → IsAccepted src line_no
unfolding pass1_line parsed_at
pass1_line-IsAccepted src line_no st clean = by_tokens (lex_line src line_no) refl clean
  where
    by_tokens :
        (r : Result TokenLine)
        → lex_line src line_no ≡ r
        → (parsed_at r st).0.n_errors ≡ st.n_errors
        → IsAccepted src line_no
    by_tokens (err e) is clean = absurd (omega arith)
    by_tokens (ok tl) is clean = (tl, is, placed-accepted (parse_line tl) st clean)

pass1-AreAccepted :
    (lines : List Text) (line_no : ℕ) (st : Pass1)
    → (pass1 lines line_no st).0.n_errors ≡ st.n_errors
    → AreAccepted lines line_no
unfolding pass1
pass1-AreAccepted [] line_no st clean = tt
pass1-AreAccepted (src ∷ rest) line_no st clean =
    let mid = (pass1_line src line_no st).0 in
    let grow = pass1_line-grows src line_no st in
    let grows = pass1-grows rest (line_no + 1) mid in
    (
      pass1_line-IsAccepted src line_no st (omega arith),
      pass1-AreAccepted rest (line_no + 1) mid (omega arith),
    )

Writes-HasWords :
    (table : SymTable) (pl : ParsedLine) (st : Pass2) (o : Option (List ℕ))
    → line_words table pl ≡ o
    → Writes (pass2_line table pl) pl.address (line_size pl) o
    → (pass2_line table pl st).n_errors ≡ st.n_errors
    → HasWords table pl
Writes-HasWords table pl st (some ws) is writes clean = (ws, is)
Writes-HasWords table pl st none is writes clean =
    let counted = ap (λ (t : Pass2). t.n_errors) (writes st) in absurd (omega arith)

pass2-HasWords :
    (table : SymTable) (pls : List ParsedLine) (st : Pass2)
    → All HasString pls
    → (pass2 table pls st).n_errors ≡ st.n_errors
    → All (HasWords table) pls
unfolding pass2
pass2-HasWords table [] st strings clean = tt
pass2-HasWords table (pl ∷ pls) st strings clean =
    let mid = pass2_line table pl st in
    let grow = pass2-n_errors table (pl ∷ []) st (strings.0, tt) in
    let grows = pass2-n_errors table pls mid strings.1 in
    (
      Writes-HasWords table pl st (line_words table pl) refl
          (pass2_line-Writes table pl strings.0.0 strings.0.1) (omega arith),
      pass2-HasWords table pls mid strings.1 (omega arith),
    )

-- A file is written only when no error is counted, and its length is that of the address after the
-- last line.
finish-some :
    (one : Pass1) (two : Pass2) (bytes : List ℕ)
    → (finish one two).output ≡ some bytes
    → (two.n_errors ≡ 0) × ((finish one two).rc ≡ none) × (length bytes ≡ 2 * word_count one.addr)
unfolding finish
finish-some one two bytes is = elim (Bool-cases (two.n_errors == 0)) [
  | inl clean ↦
      let same =
        sym (if_yes (some (image_bytes (word_count one.addr) 0 two.image)) none clean) ∙ is in
      let bytes_are : image_bytes (word_count one.addr) 0 two.image ≡ bytes = cc in
      (
        ground arith,
        if_yes _ _ clean,
        ap (λ (b : List ℕ). length b) (sym bytes_are)
            ∙ length-image_bytes (word_count one.addr) 0 two.image,
      )
  | inr failed ↦
      let same =
        sym (if_not (some (image_bytes (word_count one.addr) 0 two.image)) none failed) ∙ is in
      absurd (cc)
]

-- Without a file there is an error code.
pub assemble-cases :
    (lines : List Text)
    → ((out : List ℕ) × ((assemble lines).output ≡ some out))
      ⊎ ((assemble lines).rc ≡ some internal)
unfolding assemble finish
assemble-cases lines =
    let (one, pls) = pass1 lines 1 pass1_start in
    let two = pass2 one.table pls (pass2_start one) in
    elim (Bool-cases (two.n_errors == 0)) [
      | inl clean ↦ inl (image_bytes (word_count one.addr) 0 two.image, if_yes _ _ clean)
      | inr failed ↦ inr (if_not _ _ failed)
    ]

-- A file is written exactly when both passes count no error.
pub clean-output :
    (lines : List Text)
    → (pass2
        (pass1 lines 1 pass1_start).0.table
        (pass1 lines 1 pass1_start).1
        (pass2_start (pass1 lines 1 pass1_start).0)).n_errors
      ≡ 0
    → (assemble lines).output
      ≡ some (
          image_bytes
            (word_count (pass1 lines 1 pass1_start).0.addr)
            0
            (pass2
              (pass1 lines 1 pass1_start).0.table
              (pass1 lines 1 pass1_start).1
              (pass2_start (pass1 lines 1 pass1_start).0)).image)
unfolding assemble finish
clean-output lines clean =
    let (one, pls) = pass1 lines 1 pass1_start in
    let two = pass2 one.table pls (pass2_start one) in
    if_yes {b = two.n_errors == 0} _ _ (ground arith)

pub assemble-clean :
    (lines : List Text) (bytes : List ℕ)
    → (assemble lines).output ≡ some bytes
    → (pass1 lines 1 pass1_start).0.n_errors ≡ 0
unfolding assemble
assemble-clean lines bytes is =
    let (one, pls) = pass1 lines 1 pass1_start in
    let (clean, _, _) = finish-some one (pass2 one.table pls (pass2_start one)) bytes is in
    let strings = pass1-HasString lines 1 pass1_start in
    omega (arith, pass2-n_errors one.table pls (pass2_start one) strings)

pub assemble-no_errors :
    (lines : List Text) (bytes : List ℕ)
    → (assemble lines).output ≡ some bytes
    → (assemble lines).n_errors ≡ 0
unfolding assemble finish
assemble-no_errors lines bytes is =
    let (one, pls) = pass1 lines 1 pass1_start in
    (finish-some one (pass2 one.table pls (pass2_start one)) bytes is).0

pub no_errors-output :
    (lines : List Text)
    → (assemble lines).n_errors ≡ 0
    → (bytes : List ℕ) × ((assemble lines).output ≡ some bytes)
unfolding assemble finish
no_errors-output lines clean =
    let (one, pls) = pass1 lines 1 pass1_start in
    let two = pass2 one.table pls (pass2_start one) in
    (image_bytes (word_count one.addr) 0 two.image, clean-output lines clean)

-- What an output file says about a source.
abbrev pub IsAssembled : List Text → Type 0
IsAssembled lines =
    let (one, pls) = pass1 lines 1 pass1_start in
    ((assemble lines).rc ≡ none) × AreAccepted lines 1 × All (HasWords one.table) pls

-- A file is written only if the lexer and the parser accept every line of the source, every label
-- that is used is defined and every instruction can be encoded; then no error is returned.
pub assemble-IsAssembled :
    (lines : List Text) (bytes : List ℕ) → (assemble lines).output ≡ some bytes → IsAssembled lines
unfolding assemble
assemble-IsAssembled lines bytes is =
    let (one, pls) = pass1 lines 1 pass1_start in
    let (clean, rc_none, _) = finish-some one (pass2 one.table pls (pass2_start one)) bytes is in
    let strings = pass1-HasString lines 1 pass1_start in
    let grows = pass2-n_errors one.table pls (pass2_start one) strings in
    (
      rc_none,
      pass1-AreAccepted lines 1 pass1_start (omega arith),
      pass2-HasWords one.table pls (pass2_start one) strings (omega arith),
    )

pass1-append :
    (before after : List Text) (line_no : ℕ) (st : Pass1)
    → (pass1 (before ++ after) line_no st).0
      ≡ (pass1 after (line_no + length before) (pass1 before line_no st).0).0
unfolding pass1
pass1-append [] after line_no st = ap (λ (n : ℕ). (pass1 after n st).0) (omega arith)
pass1-append (src ∷ rest) after line_no st =
    pass1-append rest after (line_no + 1) (pass1_line src line_no st).0
    ∙ ap (λ (n : ℕ). (pass1 after n (pass1 rest (line_no + 1) (pass1_line src line_no st).0).0).0)
        (omega arith)

-- `.org 0`
abbrev pub org_zero : Text
org_zero = codes ".org 0"

org_zero-addr : (line_no : ℕ) (st : Pass1) → (pass1_line org_zero line_no st).0.addr ≡ 0
unfolding pass1_line parsed_at placed lex_line parse_line parse_number place place_label place_org
    to_u16 skip_blanks next_token push_token str_case_eq fill_value_operand
org_zero-addr line_no st = refl

-- If a source that ends with `.org 0` is assembled to a file, then the file has one word only, whatever
-- stands before the last line.
pub assemble-org_zero :
    (lines : List Text) (bytes : List ℕ)
    → (assemble (lines ++ org_zero ∷ [])).output ≡ some bytes
    → length bytes ≡ 2
unfolding assemble pass1
assemble-org_zero lines bytes is =
    let (one, pls) = pass1 (lines ++ org_zero ∷ []) 1 pass1_start in
    let (_, _, size) = finish-some one (pass2 one.table pls (pass2_start one)) bytes is in
    let at = pass1-append lines (org_zero ∷ []) 1 pass1_start in
    let last : one.addr ≡ 0 =
      ap (λ (st : Pass1). st.addr) at
      ∙ org_zero-addr (1 + length lines) (pass1 lines 1 pass1_start).0 in
    size ∙ ap (λ (a : ℕ). 2 * word_count a) last
