-- ===== src/Assembler/SourceTests.antt =====
-- Source files and command lines, and the theorems about them at these.
use educpu.Prelude.{
  ℕ, ◌≡◌, ◌⊎◌, ◌≢◌, refl, arith, true, false, List, [], ◌∷◌, ◌++◌, Option, none, some, length,
  length-replicate, All, All-replicate, replicate, if◌then◌else◌,
}
use mathlib.Core.Option
use educpu.Assembler.Symtable.{
  symtable_lookup, fill, hash_loop, hash_name, insert_loop, lookup_loop, symtable_insert,
  symtable_reset,
}
use educpu.Assembler.Encoder.{
  encode_as, encode_i, encode_instr, encode_j, encode_r, find_in, find_op, jump_offset, want_imm,
  want_reg,
}
use educpu.Assembler.Lexer.{
  c_string, ident_end, lex_loop, lex_round, number_text, push_and_go, run_loop, starts_number,
  store, string_loop, unsigned_number, lex_line, skip_blanks, next_token, push_token,
}
use educpu.Assembler.Numbers.{
  after_sign, base_of, clamped, convert, digits_loop, negate, number_at, parse_number, skip_prefix,
  skip_space, strtol, to_i32,
}
use educpu.Assembler.Parser.{
  operands_loop, parse_directive, parse_instruction, parse_line, fill_value_operand, parse_register,
}
use educpu.Assembler.Passes.{
  ascii_loop, define_symbol, emit_word, finish, image_bytes, place, place_label, place_org, pass2,
  pass1, pass2_line, pass1_line, emit_ascii, emit_instr, resolve_loop, resolve_operand, assemble,
}
use educpu.Assembler.Text.{Text, codes, str_eq, to_lower, str_case_eq}
use educpu.Prelude.Int.{to_u16, ◌-ℤ◌}
use educpu.Assembler.Source.{
  fgets, is_line_end, strip, buf_room, read_loop, source_read, assemble_file,
}
use educpu.Assembler.Source.Files.{print_lines, source_read-print_lines, source_read-long}
use educpu.Assembler.Driver.{read_arg, read_args, strrchr, dot_bin, derive_output_path, main}
use educpu.Assembler.Driver.Paths.{derive_output_path_lem}
use educpu.Assembler.Driver.Arguments.{AsksHelp}
use educpu.Assembler.Driver.Runs.{Writes, main-Wrote}

abbrev two_lines : List Text
two_lines = codes "HALT" ∷ codes "; end" ∷ []

-- The last line needs no line end, and a line end may have several bytes.
read_back : source_read (codes "HALT\r\r\n\n; end") ≡ some (codes "HALT" ∷ [] ∷ codes "; end" ∷ [])
unfolding source_read read_loop fgets strip c_string
read_back = refl

source_read-print_lines_example : source_read (print_lines true two_lines) ≡ some two_lines
source_read-print_lines_example = source_read-print_lines true two_lines (ground arith)

long_comment : Text
long_comment = replicate 4095 b';'

length-long_comment : length long_comment ≡ buf_room
unfolding long_comment
length-long_comment = length-replicate {A = ℕ} 4095 b';'

long_comment-plain : All (λ (c : ℕ). is_line_end c ≡ false) long_comment
unfolding long_comment
long_comment-plain = All-replicate (λ (c : ℕ). is_line_end c ≡ false) 4095 b';' refl

long_comment-bytes : All (λ (c : ℕ). c ≢ 0) long_comment
unfolding long_comment
long_comment-bytes = All-replicate (λ (c : ℕ). c ≢ 0) 4095 b';' (omega arith)

-- What stands after a long comment is assembled.
source_read-long_example :
    source_read (long_comment ++ codes "HALT")
    ≡ Option.map (λ (ls : List Text). long_comment ∷ ls) (source_read (codes "HALT"))
source_read-long_example =
    source_read-long long_comment (codes "HALT") length-long_comment long_comment-plain
      long_comment-bytes

abbrev files : Text → Option Text
files path = if str_eq path (codes "a.s") then some (codes "start: JMP start") else none

abbrev arguments : List Text
arguments = codes "--symbols" ∷ codes "a.s" ∷ []

exits :
    ((main files arguments).code ≡ 0)
    × ((main files arguments).file ≡ some (codes "a.bin", 0xff ∷ 0x77 ∷ []))
    × ((main files (codes "b.s" ∷ [])).code ≡ 1)
    × ((main files (codes "a.s" ∷ codes "-o" ∷ [])).code ≡ 2)
unfolding symtable_lookup encode_as encode_i encode_instr encode_j encode_r find_in find_op
    jump_offset want_imm want_reg c_string ident_end lex_loop lex_round number_text push_and_go
    run_loop starts_number store string_loop unsigned_number after_sign base_of clamped convert
    digits_loop negate number_at parse_number skip_prefix skip_space strtol to_i32 operands_loop
    parse_directive parse_instruction ascii_loop define_symbol emit_word finish image_bytes place
    place_label place_org fill hash_loop hash_name insert_loop lookup_loop symtable_insert
    symtable_reset str_eq to_lower to_u16 ◌-ℤ◌ pass2 pass1 pass2_line pass1_line lex_line
    skip_blanks next_token push_token parse_line str_case_eq emit_ascii fill_value_operand
    emit_instr resolve_loop resolve_operand parse_register assemble assemble_file source_read
    read_loop fgets strip strrchr derive_output_path read_arg read_args main
exits = (refl, refl, refl, refl)

main-Wrote_example :
    (AsksHelp arguments × ((main files arguments).file ≡ none))
    ⊎ Writes files arguments (main files arguments)
main-Wrote_example = main-Wrote files arguments exits.0

output_paths :
    (derive_output_path (codes "v1.2/prog" ++ b'.' ∷ codes "asm") ≡ codes "v1.2/prog" ++ dot_bin)
    × (derive_output_path (codes "v1.2" ++ b'/' ∷ codes "prog")
        ≡ (codes "v1.2" ++ b'/' ∷ codes "prog") ++ dot_bin)
    × (derive_output_path (codes "prog") ≡ codes "prog" ++ dot_bin)
output_paths =
    derive_output_path_lem (codes "v1.2") (codes "v1.2/prog") (codes "asm") (codes "prog")
      (omega arith) (omega arith)
