-- ===== src/Assembler/Passes/Image.antt =====
-- The image after the second pass, for lines at ascending addresses.
use mathlib.Core.Path.{ap₂}
use educpu.Prelude.{
  ℕ, zero, suc, ◌+◌, ◌%◌, ◌^◌, ◌≤◌, ◌<◌, ◌≡◌, ◌∙◌, refl, ap, arith, List, [], ◌∷◌, Option, none,
  some, length, get_or, All, ◌==◌, if_yes, if_not,
}
use educpu.Assembler.Parser.{ParsedLine}
use educpu.Assembler.Symtable.{SymTable}
use educpu.Assembler.Passes.{line_size, Pass2, write_word, pass2_line, pass2}
use educpu.Assembler.Passes.Emit.{line_words, write_words, Writes, pass2_line-Writes}

-- The string of a parsed line, as the parser leaves it.
abbrev pub HasString : ParsedLine → Type 0
HasString pl = (pl.dir.str_len ≡ length pl.dir.str) × (length pl.dir.str ≤ 127)

-- Each line starts at or after the end of the one before; the first not before `a`, the last ends at
-- `e` at most.
abbrev pub Ascends : ℕ → List ParsedLine → ℕ → Type 0
Ascends a [] e = a ≤ e
Ascends a (pl ∷ pls) e = (a ≤ pl.address) × Ascends (pl.address + line_size pl) pls e

-- A line has words, as many as its size, and the memory holds them from its address on.
abbrev pub StandsIn : SymTable → (ℕ → ℕ) → ParsedLine → Type 0
StandsIn table image pl =
    (ws : List ℕ) × (line_words table pl ≡ some ws)
    × (length ws ≡ line_size pl)
    × ((j : ℕ) → j < length ws → image (pl.address + j) ≡ get_or ws j 0)

pub Ascends-le : (a : ℕ) (pls : List ParsedLine) (e : ℕ) → Ascends a pls e → a ≤ e
Ascends-le a [] e h = h
Ascends-le a (pl ∷ pls) e h = omega (arith, Ascends-le (pl.address + line_size pl) pls e h.1)

pub write_words-n_errors :
    (a : ℕ) (ws : List ℕ) (st : Pass2) → (write_words a ws st).n_errors ≡ st.n_errors
write_words-n_errors a [] st = refl
write_words-n_errors a (w ∷ ws) st = write_words-n_errors ((a + 1) % 2 ^ 16) ws (write_word a w st)

write_words-below :
    (a : ℕ) (ws : List ℕ) (st : Pass2) (x : ℕ)
    → a + length ws ≤ 2 ^ 16
    → x < a
    → (write_words a ws st).image x ≡ st.image x
write_words-below a [] st x fits lt = refl
write_words-below a (w ∷ []) st x fits lt = if_not {b = a == x} _ _ (ground arith)
write_words-below a (w ∷ v ∷ ws) st x fits lt =
    let next : (a + 1) % 2 ^ 16 ≡ a + 1 = omega arith in
    ap (λ (b : ℕ). (write_words b (v ∷ ws) (write_word a w st)).image x) next
    ∙ write_words-below (a + 1) (v ∷ ws) (write_word a w st) x (omega arith) (omega arith)
    ∙ if_not {b = a == x} _ _ (ground arith)

write_words-at :
    (a : ℕ) (ws : List ℕ) (st : Pass2) (j : ℕ)
    → a + length ws ≤ 2 ^ 16
    → j < length ws
    → (write_words a ws st).image (a + j) ≡ get_or ws j 0
write_words-at a [] st j fits lt = absurd (omega arith)
write_words-at a (w ∷ []) st zero fits lt = if_yes {b = a == a + 0} _ _ (ground arith)
write_words-at a (w ∷ []) st (suc j) fits lt = absurd (omega arith)
write_words-at a (w ∷ v ∷ ws) st zero fits lt =
    let next : (a + 1) % 2 ^ 16 ≡ a + 1 = omega arith in
    ap (λ (b : ℕ). (write_words b (v ∷ ws) (write_word a w st)).image (a + 0)) next
    ∙ write_words-below (a + 1) (v ∷ ws) (write_word a w st) (a + 0) (omega arith) (omega arith)
    ∙ if_yes {b = a == a + 0} _ _ (ground arith)
write_words-at a (w ∷ v ∷ ws) st (suc j) fits lt =
    let next : (a + 1) % 2 ^ 16 ≡ a + 1 = omega arith in
    let place : a + suc j ≡ a + 1 + j = omega arith in
    ap₂ (λ (b x : ℕ). (write_words b (v ∷ ws) (write_word a w st)).image x) next place
    ∙ (write_words-at (a + 1) (v ∷ ws) (write_word a w st) j (omega arith) (omega arith))

module _ (table : SymTable) where
  Writes-grow :
      (pl : ParsedLine) (st : Pass2) (o : Option (List ℕ))
      → Writes (pass2_line table pl) pl.address (line_size pl) o
      → st.n_errors ≤ (pass2_line table pl st).n_errors
  Writes-grow pl st none writes =
      let counted = ap (λ (t : Pass2). t.n_errors) (writes st) in omega arith
  Writes-grow pl st (some ws) (writes, size) =
      let counted =
        ap (λ (t : Pass2). t.n_errors) (writes st) ∙ write_words-n_errors pl.address ws st in
      omega arith

  pub pass2-n_errors :
      (pls : List ParsedLine) (st : Pass2)
      → All HasString pls
      → st.n_errors ≤ (pass2 table pls st).n_errors
  unfolding pass2
  pass2-n_errors [] st strings = omega arith
  pass2-n_errors (pl ∷ pls) st strings =
      let step = pass2_line-Writes table pl strings.0.0 strings.0.1 in
      let grow = Writes-grow pl st (line_words table pl) step in
      omega (arith, pass2-n_errors pls (pass2_line table pl st) strings.1)

  -- What one step does to the image.
  record Steps (pl : ParsedLine) (st : Pass2) : Type 0 where
    below : (x : ℕ) → x < pl.address → (pass2_line table pl st).image x ≡ st.image x
    stands :
        (pass2_line table pl st).n_errors ≡ st.n_errors
        → StandsIn table (pass2_line table pl st).image pl

  stepped :
      (pl : ParsedLine) (st : Pass2) (o : Option (List ℕ))
      → line_words table pl ≡ o
      → Writes (pass2_line table pl) pl.address (line_size pl) o
      → pl.address + line_size pl ≤ 2 ^ 16
      → Steps pl st
  stepped pl st none is writes fits =
      let counted = ap (λ (t : Pass2). t.n_errors) (writes st) in
      record {
        below = λ x lt. ap (λ (t : Pass2). t.image x) (writes st);
        stands = λ same. absurd (omega arith);
      }
  stepped pl st (some ws) is (writes, size) fits =
      let counted =
        ap (λ (t : Pass2). t.n_errors) (writes st) ∙ write_words-n_errors pl.address ws st in
      record {
        below = λ x lt.
            ap (λ (t : Pass2). t.image x) (writes st)
            ∙ write_words-below pl.address ws st x (omega arith) lt;
        stands = λ same. (
          ws,
          is,
          size,
          λ j lt.
              ap (λ (t : Pass2). t.image (pl.address + j)) (writes st)
              ∙ write_words-at pl.address ws st j (omega arith) lt,
        );
      }

  StandsIn-kept :
      (pl : ParsedLine) (image later : ℕ → ℕ)
      → ((x : ℕ) → x < pl.address + line_size pl → later x ≡ image x)
      → StandsIn table image pl
      → StandsIn table later pl
  StandsIn-kept pl image later same (ws, is, size, at) =
      (ws, is, size, λ j lt. same (pl.address + j) (omega arith) ∙ at j lt)

  pass2_lem :
      (pls : List ParsedLine) (a e : ℕ) (st : Pass2)
      → All HasString pls
      → Ascends a pls e
      → e ≤ 2 ^ 16
      → ((x : ℕ) → x < a → (pass2 table pls st).image x ≡ st.image x)
        × ((pass2 table pls st).n_errors ≡ st.n_errors
            → All (StandsIn table (pass2 table pls st).image) pls)
  unfolding pass2
  pass2_lem [] a e st strings h le = (λ x lt. refl, λ same. tt)
  pass2_lem (pl ∷ pls) a e st strings h le =
      let mid = pass2_line table pl st in
      let (below, stand) = pass2_lem pls (pl.address + line_size pl) e mid strings.1 h.1 le in
      let ends = Ascends-le (pl.address + line_size pl) pls e h.1 in
      let writes = pass2_line-Writes table pl strings.0.0 strings.0.1 in
      let grow = Writes-grow pl st (line_words table pl) writes in
      let grows = pass2-n_errors pls mid strings.1 in
      let step = stepped pl st (line_words table pl) refl writes (omega arith) in
      (
        λ x lt. below x (omega arith) ∙ step.below x (omega arith),
        λ same. (
          StandsIn-kept pl mid.image (pass2 table pls mid).image below (step.stands (omega arith)),
          stand (omega arith),
        ),
      )

  -- If the second pass counts no error over lines at ascending addresses, up to 2 ^ 16 at most, whose
  -- strings are as the parser leaves them, then every line has words, as many as its size, and they
  -- stand in the image from the line's address on after the pass: no later line has overwritten them.
  pub pass2-StandsIn :
      (pls : List ParsedLine) (a e : ℕ) (st : Pass2)
      → All HasString pls
      → Ascends a pls e
      → e ≤ 2 ^ 16
      → (pass2 table pls st).n_errors ≡ st.n_errors
      → All (StandsIn table (pass2 table pls st).image) pls
  pass2-StandsIn pls a e st strings h le clean = (pass2_lem pls a e st strings h le).1 clean
