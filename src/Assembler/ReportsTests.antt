-- ===== src/Assembler/ReportsTests.antt =====
-- The reports on a source with errors.
use educpu.Prelude.{ℕ, ◌≤◌, ◌≡◌, ◌↔◌, refl, List, [], ◌∷◌, some, length}
use educpu.Assembler.Symtable.{
  symtable_lookup, fill, hash_loop, hash_name, insert_loop, lookup_loop, symtable_insert,
  symtable_reset,
}
use educpu.Assembler.Encoder.{
  encode_as, encode_i, encode_instr, encode_j, encode_r, find_in, find_op, jump_offset, want_imm,
  want_reg,
}
use educpu.Assembler.Lexer.{
  c_string, ident_end, lex_loop, lex_round, number_text, push_and_go, run_loop, starts_number,
  store, string_loop, unsigned_number, lex_line, skip_blanks, next_token, push_token,
}
use educpu.Assembler.Numbers.{
  after_sign, base_of, clamped, convert, digits_loop, negate, number_at, parse_number, skip_prefix,
  skip_space, strtol, to_i32,
}
use educpu.Assembler.Parser.{
  operands_loop, parse_directive, parse_instruction, parse_line, fill_value_operand, parse_register,
}
use educpu.Assembler.Passes.{
  ascii_loop, define_symbol, emit_word, finish, image_bytes, place, place_label, place_org, pass2,
  pass1, pass2_line, pass1_line, emit_ascii, emit_instr, resolve_loop, resolve_operand, assemble,
}
use educpu.Assembler.Text.{Text, codes, str_eq, to_lower, str_case_eq}
use educpu.Prelude.Int.{to_u16, ◌-ℤ◌}
use educpu.Assembler.Errors.{undefined_label, duplicate_label, wrong_operand_count, imm_overflow}
use educpu.Assembler.Passes.Reports.{reports, pass1_reports, pass2_reports, resolve_loop_reports}
use educpu.Assembler.Passes.Reports.Lines.{NameLines, assemble-reports}

-- A label that is used and not defined, two operands that cannot be read, a label that is defined
-- twice, with an immediate that does not fit.
abbrev wrong : List Text
wrong = codes "JMP nowhere" ∷ codes "a: .word" ∷ codes "b: RET" ∷ codes "b: ADDI R1, R1, 16" ∷ []

reported :
    reports wrong
    ≡ record { line = 2; code = wrong_operand_count }
      ∷ record { line = 4; code = duplicate_label }
      ∷ record { line = 1; code = undefined_label }
      ∷ record { line = 4; code = imm_overflow }
      ∷ []
unfolding symtable_lookup encode_as encode_i encode_instr encode_j encode_r find_in find_op
    jump_offset want_imm want_reg c_string ident_end lex_loop lex_round number_text push_and_go
    run_loop starts_number store string_loop unsigned_number after_sign base_of clamped convert
    digits_loop negate number_at parse_number skip_prefix skip_space strtol to_i32 operands_loop
    parse_directive parse_instruction ascii_loop define_symbol emit_word finish image_bytes place
    place_label place_org fill hash_loop hash_name insert_loop lookup_loop symtable_insert
    symtable_reset str_eq to_lower to_u16 ◌-ℤ◌ pass2 pass1 pass2_line pass1_line lex_line
    skip_blanks next_token push_token parse_line str_case_eq emit_ascii fill_value_operand
    emit_instr resolve_loop resolve_operand parse_register assemble reports pass1_reports
    pass2_reports resolve_loop_reports
reported = refl

assemble-reports_example :
    ((assemble wrong).n_errors ≤ length (reports wrong))
    × (((bytes : List ℕ) × ((assemble wrong).output ≡ some bytes)) ↔ (reports wrong ≡ []))
    × NameLines (length wrong) (reports wrong)
assemble-reports_example = assemble-reports wrong

-- An instruction that the parser refuses is kept with no operands, and is then refused again when it
-- is encoded.
reported_twice :
    reports (codes "ADD R1, R2, \"x\"" ∷ [])
    ≡ record { line = 1; code = wrong_operand_count }
      ∷ record { line = 1; code = wrong_operand_count }
      ∷ []
unfolding symtable_lookup encode_as encode_i encode_instr encode_j encode_r find_in find_op
    jump_offset want_imm want_reg c_string ident_end lex_loop lex_round number_text push_and_go
    run_loop starts_number store string_loop unsigned_number after_sign base_of clamped convert
    digits_loop negate number_at parse_number skip_prefix skip_space strtol to_i32 operands_loop
    parse_directive parse_instruction ascii_loop define_symbol emit_word finish image_bytes place
    place_label place_org fill hash_loop hash_name insert_loop lookup_loop symtable_insert
    symtable_reset str_eq to_lower to_u16 ◌-ℤ◌ pass2 pass1 pass2_line pass1_line lex_line
    skip_blanks next_token push_token parse_line str_case_eq emit_ascii fill_value_operand
    emit_instr resolve_loop resolve_operand parse_register assemble reports pass1_reports
    pass2_reports resolve_loop_reports
reported_twice = refl
