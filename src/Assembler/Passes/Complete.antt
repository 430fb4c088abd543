-- ===== src/Assembler/Passes/Complete.antt =====
-- Exactly when a source is assembled.
use educpu.Prelude.{
  ℕ, ◌+◌, ◌≤◌, ◌≡◌, ◌↔◌, inl, inr, ◌∙◌, refl, ap, arith, List, [], ◌∷◌, none, some, length, All,
}
use educpu.Assembler.Text.{Text}
use educpu.Assembler.Parser.{ParsedLine, Parsed, parse_line}
use educpu.Assembler.Symtable.{SymTable, sym_capacity, symtable_lookup, symtable_reset}
use educpu.Assembler.Symtable.Insert.{symtable_reset-IsTable}
use educpu.Assembler.Passes.{
  line_size, Pass1, Pass2, place, placed, parsed_at, pass1_line, pass1, pass1_start, pass2_line,
  pass2, pass2_start, word_count, image_bytes, assemble,
}
use educpu.Assembler.Passes.Emit.{Writes, pass2_line-Writes}
use educpu.Assembler.Passes.Image.{HasString, write_words-n_errors}
use educpu.Assembler.Passes.Layout.{
  Lays, pass1_line-Lays, pass1_line-grows, pass1-grows, pass1-HasString,
}
use educpu.Assembler.Passes.Symbols.{line_symbols, symbols, IsShort, HasName, NewNames}
use educpu.Assembler.Passes.Symbols.Labels.{laid-Takes, pass1-Takes}
use educpu.Assembler.Passes.Symbols.Accepts.{
  CanTake, CanTake-left, CanTake-right, Takes-CanTake, OrgFits, place-clean, place-OrgFits,
}
use educpu.Assembler.Passes.Written.{
  IsAccepted, AreAccepted, HasWords, clean-output, assemble-clean, assemble-IsAssembled,
}

placed-none :
    (p : Parsed) (st : Pass1)
    → p.1 ≡ none
    → (pl : ParsedLine) × (placed p st ≡ (place pl st, pl)) × (pl.address ≡ st.addr)
unfolding placed
placed-none (pl, none) st accepted = (record pl { address = st.addr }, refl, refl)
placed-none (pl, some e) st accepted = cc

accepted-place :
    (src : Text) (line_no : ℕ) (st : Pass1)
    → IsAccepted src line_no
    → (pl : ParsedLine) × (pass1_line src line_no st ≡ (place pl st, pl)) × (pl.address ≡ st.addr)
unfolding pass1_line parsed_at
accepted-place src line_no st (tl, is, accepted) = rw is (placed-none (parse_line tl) st accepted)

-- An accepted line whose symbols can be taken counts no error.
clean_line :
    (st : Pass1) (r : Pass1 × ParsedLine) (pl : ParsedLine)
    → r ≡ (place pl st, pl)
    → pl.address ≡ st.addr
    → CanTake (line_symbols r.1) st.table
    → OrgFits r.1
    → r.0.n_errors ≡ st.n_errors
clean_line st r pl same at h fits = rw same (place-clean pl st at (rw same at h) (rw same at fits))

pub pass1-clean :
    (lines : List Text) (line_no : ℕ) (st : Pass1)
    → AreAccepted lines line_no
    → CanTake (symbols (pass1 lines line_no st).1) st.table
    → All OrgFits (pass1 lines line_no st).1
    → (pass1 lines line_no st).0.n_errors ≡ st.n_errors
unfolding pass1
pass1-clean [] line_no st accepted h fits = refl
pass1-clean (src ∷ rest) line_no st accepted h fits =
    let (mid, first) = pass1_line src line_no st in
    let pls = (pass1 rest (line_no + 1) mid).1 in
    let (pl, same, at) = accepted-place src line_no st accepted.0 in
    let l = CanTake-left (line_symbols first) (symbols pls) st.table h in
    let clean = clean_line st (pass1_line src line_no st) pl same at l fits.0 in
    let taken =
      laid-Takes st (pass1_line src line_no st) (inr (pl, same, at)) h.table l.short clean in
    pass1-clean rest (line_no + 1) mid accepted.1
      (CanTake-right (line_symbols first) (symbols pls) st.table mid.table h taken) fits.1
    ∙ clean

laid-OrgFits :
    (st : Pass1) (r : Pass1 × ParsedLine) → Lays st r → r.0.n_errors ≡ st.n_errors → OrgFits r.1
laid-OrgFits st r (inl counted) clean = absurd (omega arith)
laid-OrgFits st r (inr (pl, same, at)) clean = rw same (place-OrgFits pl st (rw same at clean))

pass1-OrgFits :
    (lines : List Text) (line_no : ℕ) (st : Pass1)
    → (pass1 lines line_no st).0.n_errors ≡ st.n_errors
    → All OrgFits (pass1 lines line_no st).1
unfolding pass1
pass1-OrgFits [] line_no st clean = tt
pass1-OrgFits (src ∷ rest) line_no st clean =
    let (mid, first) = pass1_line src line_no st in
    let grow = pass1_line-grows src line_no st in
    let grows = pass1-grows rest (line_no + 1) mid in
    (
      laid-OrgFits st (pass1_line src line_no st) (pass1_line-Lays src line_no st) (omega arith),
      pass1-OrgFits rest (line_no + 1) mid (omega arith),
    )

pass2-clean :
    (table : SymTable) (pls : List ParsedLine) (st : Pass2)
    → All HasString pls
    → All (HasWords table) pls
    → (pass2 table pls st).n_errors ≡ st.n_errors
unfolding pass2
pass2-clean table [] st strings words = refl
pass2-clean table (pl ∷ pls) st strings ((ws, is), words) =
    let writes = pass2_line-Writes table pl strings.0.0 strings.0.1 in
    let wrote : Writes (pass2_line table pl) pl.address (line_size pl) (some ws) =
      rw is at writes in
    pass2-clean table pls (pass2_line table pl st) strings.1 words
    ∙ ap (λ (t : Pass2). t.n_errors) (wrote.0 st)
    ∙ write_words-n_errors pl.address ws st

-- What a source must be: the lexer and the parser accept every line, every `.org` names an address,
-- there are at most 256 labels and constants, each with a name and no name twice, every label that is
-- used is defined, and every instruction can be encoded.
pub record IsSource (lines : List Text) (one : Pass1) (pls : List ParsedLine) : Type 0 where
  pub accepted : AreAccepted lines 1
  pub org_fits : All OrgFits pls
  pub named : All HasName (symbols pls)
  pub new : NewNames (symbols pls) (symtable_lookup symtable_reset)
  pub few : length (symbols pls) ≤ sym_capacity
  pub has_words : All (HasWords one.table) pls

pub start-CanTake :
    (ss : List (Text × ℕ))
    → All HasName ss
    → All IsShort ss
    → NewNames ss (symtable_lookup symtable_reset)
    → length ss ≤ sym_capacity
    → CanTake ss symtable_reset
unfolding symtable_reset
start-CanTake ss named short new few = record {
  table = symtable_reset-IsTable;
  named = named;
  short = short;
  new = new;
  room = omega arith;
}

start-few : (ss : List (Text × ℕ)) → CanTake ss symtable_reset → length ss ≤ sym_capacity
unfolding symtable_reset
start-few ss h = omega (arith, h.room)

-- A source whose labels and constants have names of 63 bytes at most is assembled to a file exactly
-- when it is as `IsSource` says: the lexer and the parser accept every line, every `.org` is from 0
-- to 0xFFFF, there are at most 256 labels and constants, each with a name and no name twice, every
-- label that is used is defined, and every instruction can be encoded at its address.
pub assemble-IsSource_iff :
    (lines : List Text)
    → All IsShort (symbols (pass1 lines 1 pass1_start).1)
    → ((bytes : List ℕ) × ((assemble lines).output ≡ some bytes))
      ↔ IsSource lines (pass1 lines 1 pass1_start).0 (pass1 lines 1 pass1_start).1
assemble-IsSource_iff lines short = (only, enough)
  where
    only :
        (bytes : List ℕ) × ((assemble lines).output ≡ some bytes)
        → IsSource lines (pass1 lines 1 pass1_start).0 (pass1 lines 1 pass1_start).1
    only (bytes, is) =
        let (_, accepted, words) = assemble-IsAssembled lines bytes is in
        let clean = assemble-clean lines bytes is in
        let taken =
          Takes-CanTake _ _ _ symtable_reset-IsTable short
            (pass1-Takes lines 1 pass1_start symtable_reset-IsTable short clean) in
        record {
          accepted = accepted;
          org_fits = pass1-OrgFits lines 1 pass1_start clean;
          named = taken.named;
          new = taken.new;
          few = start-few (symbols (pass1 lines 1 pass1_start).1) taken;
          has_words = words;
        }

    enough :
        IsSource lines (pass1 lines 1 pass1_start).0 (pass1 lines 1 pass1_start).1
        → (bytes : List ℕ) × ((assemble lines).output ≡ some bytes)
    enough h =
        let (one, pls) = pass1 lines 1 pass1_start in
        let first =
          pass1-clean lines 1 pass1_start h.accepted
            (start-CanTake (symbols pls) h.named short h.new h.few) h.org_fits in
        let second =
          pass2-clean one.table pls (pass2_start one) (pass1-HasString lines 1 pass1_start)
            h.has_words in
        (
          image_bytes (word_count one.addr) 0 (pass2 one.table pls (pass2_start one)).image,
          clean-output lines (omega (arith, second, first)),
        )
