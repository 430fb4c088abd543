-- ===== src/Assembler/ListingTests.antt =====
-- A program of the source language, and the theorems about programs at it.
use mathlib.Core.Option
use educpu.Prelude.{ℕ, ◌≡◌, ◌↔◌, refl, arith, false, List, [], ◌∷◌, some, All}
use educpu.Assembler.Symtable.{
  symtable_lookup, fill, hash_loop, hash_name, insert_loop, lookup_loop, symtable_insert,
  symtable_reset,
}
use educpu.Assembler.Encoder.{
  encode_as, encode_i, encode_instr, encode_j, encode_r, find_in, find_op, jump_offset, want_imm,
  want_reg,
}
use educpu.Assembler.Lexer.{
  c_string, ident_end, lex_loop, lex_round, number_text, push_and_go, run_loop, starts_number,
  store, string_loop, unsigned_number, lex_line, skip_blanks, next_token, push_token,
}
use educpu.Assembler.Numbers.{
  after_sign, base_of, clamped, convert, digits_loop, negate, number_at, parse_number, skip_prefix,
  skip_space, strtol, to_i32,
}
use educpu.Assembler.Parser.{
  operands_loop, parse_directive, parse_instruction, parse_line, fill_value_operand, parse_register,
}
use educpu.Assembler.Passes.{
  ascii_loop, define_symbol, emit_word, finish, image_bytes, place, place_label, place_org, pass2,
  pass1, pass2_line, pass1_line, emit_ascii, emit_instr, resolve_loop, resolve_operand, assemble,
}
use educpu.Assembler.Text.{codes, str_eq, to_lower, str_case_eq}
use educpu.Prelude.Int.{to_u16, ◌-ℤ◌}
use educpu.Prelude.Int.{◌+ℤ◌, shr_ℤ, to_i16}
use educpu.Isa.{instr_opcode, instr_offset, instr_rd, instr_imm5}
use educpu.Emulator.Alu.{alu_execute, flags_with}
use educpu.Emulator.Control.{execute, execute_op, fetch, execute_flow, jump_by, alu_to}
use educpu.Emulator.Memory.{mem_load, load_loop, mem_read}
use educpu.Emulator.Run.{cycles}
use educpu.Assembler.Numbers.Literals.{decimal}
use educpu.Assembler.Parser.Source.{
  Number, Line, plain, labelled, equ, instr, ascii, reg, name, IsLine,
}
use educpu.Assembler.Passes.Addresses.{Forward, after}
use educpu.Assembler.Passes.Symbols.{IsShort}
use educpu.Assembler.Passes.Listing.{print_program, listing}
use educpu.Assembler.Passes.Listing.Symbols.{program_symbols}
use educpu.Assembler.Passes.Listing.Complete.{IsProgram, assemble-print_program_iff}
use educpu.Assembler.Passes.Listing.Runs.{program_run, cycles-program_run}
use educpu.Assembler.PassesTests.{
  program_bytes, bus, program_bus, at_jump, at_jump-IsMachine, after_move, loaded,
}

abbrev two : Number
two = record { negative = false; radix = decimal; first = 2; digits = [] }

abbrev program : List Line
program =
    plain (equ (codes "two") two)
    ∷ labelled (codes "start") (instr (codes "MOV") (reg 1 ∷ name (codes "two") ∷ []))
    ∷ plain (instr (codes "JMP") (name (codes "start") ∷ []))
    ∷ plain (ascii (codes "hi"))
    ∷ []

program-IsLine : All IsLine program
unfolding parse_register
program-IsLine = (
  (
    (refl, omega arith, ((refl, (refl, tt)), omega arith)),
    record { digits_fit = (omega arith, tt); value_fits = omega arith; few_digits = omega arith },
  ),
  (
    (
      (refl, ((refl, (refl, (refl, (refl, tt)))), omega arith)),
      (
        (refl, omega arith, ((refl, (refl, tt)), omega arith)),
        (omega arith, (((refl, omega arith, ((refl, (refl, tt)), omega arith)), refl), tt)),
        omega arith,
      ),
    ),
    (
      (
        (refl, omega arith, ((refl, (refl, tt)), omega arith)),
        (((refl, omega arith, ((refl, (refl, (refl, (refl, tt)))), omega arith)), refl), tt),
        omega arith,
      ),
      (((omega arith, (omega arith, tt)), omega arith), tt),
    ),
  ),
)

program-IsShort : All IsShort (program_symbols program 0)
program-IsShort = (omega arith, (omega arith, tt))

program-Forward : Forward 0 (listing program 1 0) 4
unfolding after
program-Forward = (omega arith, (omega arith, (omega arith, (omega arith, refl))))

written : (assemble (print_program program)).output ≡ some program_bytes
unfolding symtable_lookup encode_as encode_i encode_instr encode_j encode_r find_in find_op
    jump_offset want_imm want_reg c_string ident_end lex_loop lex_round number_text push_and_go
    run_loop starts_number store string_loop unsigned_number after_sign base_of clamped convert
    digits_loop negate number_at parse_number skip_prefix skip_space strtol to_i32 operands_loop
    parse_directive parse_instruction ascii_loop define_symbol emit_word finish image_bytes place
    place_label place_org fill hash_loop hash_name insert_loop lookup_loop symtable_insert
    symtable_reset str_eq to_lower to_u16 ◌-ℤ◌ pass2 pass1 pass2_line pass1_line lex_line
    skip_blanks next_token push_token parse_line str_case_eq emit_ascii fill_value_operand
    emit_instr resolve_loop resolve_operand parse_register assemble
written = refl

assemble-print_program_iff_example :
    ((bytes : List ℕ) × ((assemble (print_program program)).output ≡ some bytes))
    ↔ IsProgram program
assemble-print_program_iff_example =
    assemble-print_program_iff program program-IsLine program-IsShort

-- The program has what it must have, since it is assembled.
program-IsProgram : IsProgram program
program-IsProgram =
    (assemble-print_program_iff program program-IsLine program-IsShort).0 (program_bytes, written)

run_by_program : program_run program_bus.mem program 2 at_jump ≡ some after_move
unfolding str_eq find_op find_in str_case_eq to_lower to_u16 ◌-ℤ◌ want_reg want_imm jump_offset
    mem_load load_loop execute execute_op instr_opcode fetch mem_read execute_flow jump_by ◌+ℤ◌
    instr_offset shr_ℤ to_i16 instr_rd instr_imm5 alu_to alu_execute flags_with Option.bind
run_by_program = refl

cycles-program_run_example : cycles 2 at_jump ≡ after_move
cycles-program_run_example =
    cycles-program_run program bus program_bus 4 program_bytes program-IsLine program-IsShort
      program-Forward (omega arith) written loaded 2 at_jump after_move at_jump-IsMachine
      run_by_program
