-- ===== src/Assembler/Passes.antt =====
-- assembler/assembler.c: both passes over the lines of a source, and the bytes that are written. The
-- symbol table of the first pass is the one that the second reads. The reports are in Reports, the
-- listing is left out; opening and writing files and allocating memory succeed.
pub mod Emit
pub mod Image
pub mod Layout
pub mod Addresses
pub mod Names
pub mod Program
pub mod Symbols
pub mod Written
pub mod Targets
pub mod Runs
pub mod Reports
pub mod Complete
pub mod Listing
pub mod Output
use educpu.Prelude.{
  ℕ, zero, suc, ◌+◌, ◌-◌, ◌*◌, ◌/◌, ◌%◌, ◌^◌, Bool, true, false, ◌&&◌, ◌||◌, List, [], ◌∷◌, Option,
  none, some, length, get_or, set, bit_and, bit_or, leb, ◌==◌, if◌then◌else◌,
}
use educpu.Prelude.Int.{ℤ, pos, ltb_ℤ, to_u16}
use educpu.Emulator.Memory.{update}
use educpu.Assembler.Errors.{AsmError, internal, Result, ok, err}
use educpu.Assembler.Text.{Text}
use educpu.Assembler.Syntax.{
  OperandKind, opd_none, opd_reg, opd_imm, opd_label, Operand, Instr, operand,
}
use educpu.Assembler.Parser.{
  TokenLine, ParsedKind, pl_empty, pl_label, pl_instr, pl_directive, DirectiveKind, dir_org,
  dir_word, dir_ascii, dir_equ, Directive, ParsedLine, no_line, Parsed, parse_line,
}
use educpu.Assembler.Lexer.{lex_line}
use educpu.Assembler.Encoder.{encode_instr}
use educpu.Assembler.Symtable.{SymTable, symtable_reset, symtable_insert, symtable_lookup}

abbrev directive_size : DirectiveKind → ℕ → ℕ
directive_size dir_word len = 1
directive_size dir_ascii len = (len + 1 + 1) / 2 % 2 ^ 16
directive_size _ len = 0

abbrev size_of : ParsedKind → Directive → ℕ
size_of pl_instr d = 1
size_of pl_directive d = directive_size d.kind d.str_len
size_of _ d = 0

abbrev pub line_size : ParsedLine → ℕ
line_size pl = size_of pl.kind pl.dir

resolve_found : Option ℕ → Operand → Operand × Bool
resolve_found none o = (o, false)
resolve_found (some v) o = (record o { kind = opd_imm; imm = pos v }, true)

resolve_kind : OperandKind → SymTable → Operand → Operand × Bool
resolve_kind opd_label table o = resolve_found (symtable_lookup table o.label) o
resolve_kind _ table o = (o, true)

unfoldable pub resolve_operand : SymTable → Operand → Operand × Bool
unfolding resolve_kind resolve_found
resolve_operand table o = resolve_kind o.kind table o

-- What the first pass changes.
pub record Pass1 : Type 0 where
  pub addr : ℕ
  pub saw_origin : Bool
  pub origin : ℕ
  pub table : SymTable
  pub n_errors : ℕ

abbrev pub error1 : Pass1 → Pass1
error1 st = record st { n_errors = st.n_errors + 1 }

defined : Result SymTable → Pass1 → Pass1
defined (ok table) st = record st { table = table }
defined (err e) st = error1 st

-- `symtable_insert`, and the count of its error.
unfoldable pub define_symbol : Text → ℕ → Pass1 → Pass1
unfolding defined
define_symbol name addr st = defined (symtable_insert st.table name addr) st

unfoldable pub place_label : Text → Pass1 → Pass1
place_label [] st = st
place_label (c ∷ cs) st = define_symbol (c ∷ cs) st.addr st

unfoldable pub place_org : ℤ → Pass1 → Pass1
place_org v st = if ltb_ℤ v (pos 0) || ltb_ℤ (pos 0xffff) v then error1 st else record st {
  addr = to_u16 v;
  saw_origin = true;
  origin = if st.saw_origin then st.origin else to_u16 v;
}

abbrev pub advance : ParsedLine → Pass1 → Pass1
advance pl st = record st { addr = (st.addr + line_size pl) % 2 ^ 16 }

place_directive : DirectiveKind → ParsedLine → Pass1 → Pass1
place_directive dir_org pl st = place_org pl.dir.value.imm st
place_directive dir_equ pl st = define_symbol pl.dir.name (to_u16 pl.dir.value.imm) st
place_directive _ pl st = advance pl st

place_kind : ParsedKind → ParsedLine → Pass1 → Pass1
unfolding place_directive
place_kind pl_directive pl st = place_directive pl.dir.kind pl st
place_kind _ pl st = advance pl st

-- What a parsed line does to the address and the symbols: its label, then `.org`, `.equ` or its size.
unfoldable pub place : ParsedLine → Pass1 → Pass1
unfolding place_kind
place pl st = place_kind pl.kind pl (place_label pl.label st)

-- A line that is refused stays as the parser leaves it, at address 0.
placed : Parsed → Pass1 → Pass1 × ParsedLine
placed (pl, some e) st = (error1 st, pl)
placed (pl, none) st = let pl = record pl { address = st.addr } in (place pl st, pl)

parsed_at : Result TokenLine → Pass1 → Pass1 × ParsedLine
unfolding placed
parsed_at (err e) st = (error1 st, no_line)
parsed_at (ok tl) st = placed (parse_line tl) st

unfoldable pub pass1_line : Text → ℕ → Pass1 → Pass1 × ParsedLine
unfolding parsed_at
pass1_line src line_no st = parsed_at (lex_line src line_no) st

unfoldable pub pass1 : List Text → ℕ → Pass1 → Pass1 × List ParsedLine
pass1 [] line_no st = (st, [])
pass1 (src ∷ rest) line_no st =
    let (st, pl) = pass1_line src line_no st in
    let (st, pls) = pass1 rest (line_no + 1) st in (st, pl ∷ pls)

abbrev pub pass1_start : Pass1
pass1_start = record {
  addr = 0;
  saw_origin = false;
  origin = 0;
  table = symtable_reset;
  n_errors = 0;
}

-- What the second pass changes.
pub record Pass2 : Type 0 where
  pub image : ℕ → ℕ
  pub n_words : ℕ
  pub n_errors : ℕ

abbrev pub error2 : Pass2 → Pass2
error2 st = record st { n_errors = st.n_errors + 1 }

abbrev pub write_word : ℕ → ℕ → Pass2 → Pass2
write_word addr w st = record st {
  image = update st.image addr w;
  n_words = (st.n_words + 1) % 2 ^ 16;
}

-- The loop over the operands from `k` on: every one is tried.
unfoldable pub resolve_loop : ℕ → ℕ → SymTable → Instr → Instr × Bool
resolve_loop zero k table i = (i, true)
resolve_loop (suc left) k table i =
    let (o, found) = resolve_operand table (operand i k) in
    let (i, rest) = resolve_loop left (k + 1) table (record i { ops = set i.ops k o }) in
    (i, found && rest)

encoded : Result ℕ → ℕ → Pass2 → Pass2
encoded (ok w) addr st = write_word addr w st
encoded (err e) addr st = error2 st

unfoldable pub emit_instr : SymTable → ParsedLine → Pass2 → Pass2
unfolding encoded
emit_instr table pl st =
    let (i, resolved) = resolve_loop pl.instr.nops 0 table pl.instr in
    if resolved then encoded (encode_instr i pl.address) pl.address st else error2 st

unfoldable pub emit_word : SymTable → ParsedLine → Pass2 → Pass2
emit_word table pl st =
    let (o, resolved) = resolve_operand table pl.dir.value in
    if resolved then write_word pl.address (to_u16 o.imm) st else error2 st

-- The word of the bytes at `b` and `b + 1`, the terminator included.
abbrev pub packed_word : Text → ℕ → ℕ → ℕ
packed_word s len b =
    let lo = if leb b len then get_or s b 0 % 2 ^ 8 else 0 in
    let hi = if leb (b + 1) len then get_or s (b + 1) 0 % 2 ^ 8 else 0 in
    bit_or lo (hi * 2 ^ 8) % 2 ^ 16

-- The loop over the bytes of a string from `b` on, with `left` rounds to go.
unfoldable pub ascii_loop : ℕ → ℕ → Text → ℕ → ℕ → Pass2 → Pass2
ascii_loop zero b s len a st = st
ascii_loop (suc left) b s len a st =
    ascii_loop left (b + 2) s len ((a + 1) % 2 ^ 16) (write_word a (packed_word s len b) st)

unfoldable pub emit_ascii : ParsedLine → Pass2 → Pass2
unfolding ascii_loop
emit_ascii pl st = ascii_loop (pl.dir.str_len / 2 + 1) 0 pl.dir.str pl.dir.str_len pl.address st

emit_directive : DirectiveKind → SymTable → ParsedLine → Pass2 → Pass2
emit_directive dir_word table pl st = emit_word table pl st
emit_directive dir_ascii table pl st = emit_ascii pl st
emit_directive _ table pl st = st

emit_kind : ParsedKind → SymTable → ParsedLine → Pass2 → Pass2
unfolding emit_directive
emit_kind pl_instr table pl st = emit_instr table pl st
emit_kind pl_directive table pl st = emit_directive pl.dir.kind table pl st
emit_kind _ table pl st = st

unfoldable pub pass2_line : SymTable → ParsedLine → Pass2 → Pass2
unfolding emit_kind
pass2_line table pl st = emit_kind pl.kind table pl st

unfoldable pub pass2 : SymTable → List ParsedLine → Pass2 → Pass2
pass2 table [] st = st
pass2 table (pl ∷ pls) st = pass2 table pls (pass2_line table pl st)

-- The words of the image from `w` on, low byte first.
unfoldable pub image_bytes : ℕ → ℕ → (ℕ → ℕ) → List ℕ
image_bytes zero w image = []
image_bytes (suc left) w image =
    bit_and (image w) 0xff ∷ bit_and (image w / 2 ^ 8) 0xff ∷ image_bytes left (w + 1) image

-- The number of words written, for the address after the last line.
abbrev pub word_count : ℕ → ℕ
word_count addr = let highest = if addr == 0 then 0 else addr - 1 in (highest + 1) % 2 ^ 16

-- `output` is the file, if it is written; `rc` is `none` for ERR_OK.
pub record Assembled : Type 0 where
  pub rc : Option AsmError
  pub output : Option (List ℕ)
  pub origin : ℕ
  pub n_words : ℕ
  pub n_errors : ℕ

unfoldable pub finish : Pass1 → Pass2 → Assembled
unfolding image_bytes
finish one two =
    let clean = two.n_errors == 0 in
    record {
      rc = if clean then none else some internal;
      output = if clean then some (image_bytes (word_count one.addr) 0 two.image) else none;
      origin = if one.saw_origin then one.origin else 0;
      n_words = two.n_words;
      n_errors = two.n_errors;
    }

-- The second pass goes on with the errors of the first.
abbrev pub pass2_start : Pass1 → Pass2
pass2_start one = record { image = λ a. 0; n_words = 0; n_errors = one.n_errors }

-- `assemble_file` on the lines of the source.
unfoldable pub assemble : List Text → Assembled
unfolding finish
assemble lines =
    let (one, pls) = pass1 lines 1 pass1_start in finish one (pass2 one.table pls (pass2_start one))
