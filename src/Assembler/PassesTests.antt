-- ===== src/Assembler/PassesTests.antt =====
-- Runs of the two passes on a small source, and their theorems at it.
use educpu.Prelude.{
  ℕ, false, ◌<◌, ◌≡◌, ◌≢◌, ◌↔◌, refl, arith, List, [], ◌∷◌, ◌++◌, some, length, All, All-get_or,
  get_or,
}
use educpu.Assembler.Symtable.{
  symtable_lookup, fill, hash_loop, hash_name, insert_loop, lookup_loop, symtable_insert,
  symtable_reset,
}
use educpu.Assembler.Encoder.{
  encode_as, encode_i, encode_instr, encode_j, encode_r, find_in, find_op, jump_offset, want_imm,
  want_reg,
}
use educpu.Assembler.Lexer.{
  c_string, ident_end, lex_loop, lex_round, number_text, push_and_go, run_loop, starts_number,
  store, string_loop, unsigned_number, lex_line, skip_blanks, next_token, push_token,
}
use educpu.Assembler.Numbers.{
  after_sign, base_of, clamped, convert, digits_loop, negate, number_at, parse_number, skip_prefix,
  skip_space, strtol, to_i32,
}
use educpu.Assembler.Parser.{
  operands_loop, parse_directive, parse_instruction, parse_line, fill_value_operand, parse_register,
}
use educpu.Assembler.Passes.{
  pass1_start, line_size, ascii_loop, define_symbol, emit_word, finish, image_bytes, place,
  place_label, place_org, pass2, pass1, pass2_line, pass1_line, emit_ascii, emit_instr,
  resolve_loop, resolve_operand, assemble,
}
use educpu.Assembler.Text.{Text, codes, str_eq, to_lower, str_case_eq}
use educpu.Prelude.Int.{pos, to_u16, ◌-ℤ◌}
use educpu.Isa.{stack_base}
use educpu.Emulator.Memory.{Bus, mem_load}
use educpu.Emulator.Control.{Machine}
use educpu.Emulator.Startup.{load_file, read_words}
use educpu.Assembler.Parser.{pl_instr, ParsedLine, no_line}
use educpu.Assembler.Symtable.Insert.{symtable_reset-IsTable}
use educpu.Assembler.Passes.Emit.{Writes, line_words, pass2_line-Writes}
use educpu.Assembler.Passes.Image.{HasString}
use educpu.Assembler.Syntax.{operand, opd_label, opd_imm}
use educpu.Emulator.Run.{cycles}
use mathlib.Core.Option
use educpu.Prelude.Int.{◌+ℤ◌, shr_ℤ, to_i16}
use educpu.Isa.{instr_opcode, instr_offset, instr_rd, instr_imm5}
use educpu.Emulator.Control.{cpu_step, execute, execute_op, fetch, execute_flow, jump_by, alu_to}
use educpu.Emulator.Alu.{alu_execute, flags_with}
use educpu.Emulator.Memory.{load_loop, mem_read}
use educpu.Assembler.Passes.Names.{with_names, source_names}
use educpu.Assembler.Encoder.Step.{Means}
use educpu.Emulator.Control.Invariant.{IsMachine}
use educpu.Emulator.Startup.Reachable.{BusFits, load_file-BusFits}
use mathlib.Core.Path.{subst}
use educpu.Assembler.Passes.Runs.{source_run, cycles-source_run}
use educpu.Assembler.Passes.Complete.{IsSource, assemble-IsSource_iff}
use educpu.Assembler.Passes.Targets.{resolve_loop-target}
use educpu.Assembler.Passes.Layout.{pass1-HasString}
use educpu.Assembler.Passes.Addresses.{Forward, after}
use educpu.Assembler.Passes.Symbols.{IsShort, symbols, line_symbols, Takes}
use educpu.Assembler.Passes.Symbols.Labels.{pass1-Takes}
use educpu.Assembler.Passes.Program.{Loads, assemble-Loads, assemble-MeansLine}
use educpu.Assembler.Passes.Written.{org_zero, assemble-org_zero}

abbrev program : List Text
program =
    codes ".equ two, 2"
    ∷ codes "start: MOV R1, two ; twice"
    ∷ codes "JMP start"
    ∷ codes ".ascii \"hi\""
    ∷ []

abbrev lines_of : List ParsedLine
lines_of = (pass1 program 1 pass1_start).1

abbrev pub program_bytes : List ℕ
program_bytes = 0x02 ∷ 0x61 ∷ 0xfe ∷ 0x77 ∷ b'h' ∷ b'i' ∷ 0 ∷ 0 ∷ []

abbrev pub bus : Bus
bus = record { mem = λ a. 0; stdin = []; stdout = []; clock = λ i. 0; clock_calls = 0 }

abbrev pub program_bus : Bus
program_bus = mem_load bus (read_words program_bytes) 4 0

abbrev pub at_jump : Machine
at_jump = record {
  cpu = record {
    regs = 0 ∷ 4 ∷ 0 ∷ 0 ∷ 0 ∷ 0 ∷ 0 ∷ stack_base ∷ [];
    pc = 1;
    ir = 0;
    flags = 0;
    cycle_count = 1;
    halted = false;
  };
  bus = program_bus;
  stderr = [];
}

assembled :
    ((assemble program).n_errors ≡ 0)
    × ((assemble program).output ≡ some program_bytes)
    × ((pass1 program 1 pass1_start).0.n_errors ≡ 0)
    × Forward 0 lines_of 4
    × ((get_or lines_of 2 no_line).kind ≡ pl_instr)
    × (1 ≡ (get_or lines_of 2 no_line).address)
    × All IsShort (symbols lines_of)
unfolding symtable_lookup encode_as encode_i encode_instr encode_j encode_r find_in find_op
    jump_offset want_imm want_reg c_string ident_end lex_loop lex_round number_text push_and_go
    run_loop starts_number store string_loop unsigned_number after_sign base_of clamped convert
    digits_loop negate number_at parse_number skip_prefix skip_space strtol to_i32 operands_loop
    parse_directive parse_instruction ascii_loop define_symbol emit_word finish image_bytes place
    place_label place_org fill hash_loop hash_name insert_loop lookup_loop symtable_insert
    symtable_reset str_eq to_lower to_u16 ◌-ℤ◌ pass2 pass1 pass2_line pass1_line lex_line
    skip_blanks next_token push_token parse_line str_case_eq emit_ascii fill_value_operand
    emit_instr resolve_loop resolve_operand parse_register assemble after line_symbols
assembled = (
  refl,
  refl,
  refl,
  (omega arith, (omega arith, (omega arith, (omega arith, refl)))),
  refl,
  refl,
  (omega arith, (omega arith, tt)),
)

pub loaded : load_file bus program_bytes ≡ some program_bus
unfolding load_file
loaded = refl

abbrev hi : ParsedLine
hi = get_or lines_of 3 no_line

hi-HasString : HasString hi
hi-HasString =
    All-get_or HasString lines_of 3 no_line (refl, omega arith)
      (pass1-HasString program 1 pass1_start)

pass2_line-Writes_example :
    Writes
      (pass2_line (pass1 program 1 pass1_start).0.table hi)
      hi.address
      (line_size hi)
      (line_words (pass1 program 1 pass1_start).0.table hi)
pass2_line-Writes_example =
    pass2_line-Writes (pass1 program 1 pass1_start).0.table hi hi-HasString.0 hi-HasString.1

assemble-Loads_example : Loads (assemble program) bus (pass1 program 1 pass1_start).0.table lines_of
assemble-Loads_example = assemble-Loads program bus 4 assembled.0 assembled.3 (omega arith)

pub at_jump-IsMachine : IsMachine at_jump
at_jump-IsMachine = record {
  is_cpu = omega arith;
  is_bus =
      subst BusFits loaded (load_file-BusFits bus program_bytes (omega arith) (λ a. omega arith));
}

assemble-MeansLine_example :
    Means (with_names (source_names lines_of) (get_or lines_of 2 no_line).instr) at_jump
assemble-MeansLine_example =
    assemble-MeansLine program bus program_bus 4 2 at_jump program_bytes assembled.0 assembled.6
      assembled.3 (omega arith) assembled.1 loaded assembled.4 (omega (arith, assembled.5))
      at_jump-IsMachine refl assembled.5 refl

pass1-Takes_example : Takes (symbols lines_of) symtable_reset (pass1 program 1 pass1_start).0.table
pass1-Takes_example =
    pass1-Takes program 1 pass1_start symtable_reset-IsTable assembled.6 assembled.2

abbrev back_to_zero : List Text
back_to_zero = program ++ org_zero ∷ []

written_back : (assemble back_to_zero).output ≡ some (0x02 ∷ 0x61 ∷ [])
unfolding symtable_lookup encode_as encode_i encode_instr encode_j encode_r find_in find_op
    jump_offset want_imm want_reg c_string ident_end lex_loop lex_round number_text push_and_go
    run_loop starts_number store string_loop unsigned_number after_sign base_of clamped convert
    digits_loop negate number_at parse_number skip_prefix skip_space strtol to_i32 operands_loop
    parse_directive parse_instruction ascii_loop define_symbol emit_word finish image_bytes place
    place_label place_org fill hash_loop hash_name insert_loop lookup_loop symtable_insert
    symtable_reset str_eq to_lower to_u16 ◌-ℤ◌ pass2 pass1 pass2_line pass1_line lex_line
    skip_blanks next_token push_token parse_line str_case_eq emit_ascii fill_value_operand
    emit_instr resolve_loop resolve_operand parse_register assemble
written_back = refl

assemble-org_zero_example : length {A = ℕ} (0x02 ∷ 0x61 ∷ []) ≡ 2
assemble-org_zero_example = assemble-org_zero program (0x02 ∷ 0x61 ∷ []) written_back

targets :
    (0 < (get_or lines_of 2 no_line).instr.nops)
    × ((operand (get_or lines_of 2 no_line).instr 0).kind ≡ opd_label)
    × ((get_or lines_of 1 no_line).label ≢ [])
    × ((operand (get_or lines_of 2 no_line).instr 0).label ≡ (get_or lines_of 1 no_line).label)
unfolding symtable_lookup encode_as encode_i encode_instr encode_j encode_r find_in find_op
    jump_offset want_imm want_reg c_string ident_end lex_loop lex_round number_text push_and_go
    run_loop starts_number store string_loop unsigned_number after_sign base_of clamped convert
    digits_loop negate number_at parse_number skip_prefix skip_space strtol to_i32 operands_loop
    parse_directive parse_instruction ascii_loop define_symbol emit_word finish image_bytes place
    place_label place_org fill hash_loop hash_name insert_loop lookup_loop symtable_insert
    symtable_reset str_eq to_lower to_u16 ◌-ℤ◌ pass2 pass1 pass2_line pass1_line lex_line
    skip_blanks next_token push_token parse_line str_case_eq emit_ascii fill_value_operand
    emit_instr resolve_loop resolve_operand parse_register assemble
targets = (omega arith, refl, λ e. cc, refl)

jump_resolved :
    operand
      (resolve_loop
        (get_or lines_of 2 no_line).instr.nops
        0
        (pass1 program 1 pass1_start).0.table
        (get_or lines_of 2 no_line).instr).0
      0
    ≡ record (operand (get_or lines_of 2 no_line).instr 0) {
      kind = opd_imm;
      imm = pos (get_or lines_of 1 no_line).address;
    }
jump_resolved =
    resolve_loop-target program 2 1 0 assembled.6 assembled.2 targets.0 targets.1 targets.2
      targets.3

-- `JMP start`, then `MOV R1, two`.
abbrev pub after_move : Machine
after_move = record {
  cpu = record {
    regs = 0 ∷ 2 ∷ 0 ∷ 0 ∷ 0 ∷ 0 ∷ 0 ∷ stack_base ∷ [];
    pc = 1;
    ir = 0x6102;
    flags = 0;
    cycle_count = 3;
    halted = false;
  };
  bus = program_bus;
  stderr = [];
}

run_by_source : source_run program_bus.mem lines_of 2 at_jump ≡ some after_move
unfolding symtable_lookup encode_as encode_i encode_instr encode_j encode_r find_in find_op
    jump_offset want_imm want_reg c_string ident_end lex_loop lex_round number_text push_and_go
    run_loop starts_number store string_loop unsigned_number after_sign base_of clamped convert
    digits_loop negate number_at parse_number skip_prefix skip_space strtol to_i32 operands_loop
    parse_directive parse_instruction ascii_loop define_symbol emit_word finish image_bytes place
    place_label place_org fill hash_loop hash_name insert_loop lookup_loop symtable_insert
    symtable_reset str_eq to_lower to_u16 ◌-ℤ◌ pass2 pass1 pass2_line pass1_line lex_line
    skip_blanks next_token push_token parse_line str_case_eq emit_ascii fill_value_operand
    emit_instr resolve_loop resolve_operand parse_register assemble cpu_step mem_load load_loop
    Option.bind execute execute_op instr_opcode fetch mem_read execute_flow jump_by ◌+ℤ◌
    instr_offset shr_ℤ to_i16 instr_rd instr_imm5 alu_to alu_execute flags_with line_symbols
run_by_source = refl

cycles-source_run_example : cycles 2 at_jump ≡ after_move
cycles-source_run_example =
    cycles-source_run program bus program_bus 4 program_bytes assembled.6 assembled.3 (omega arith)
      assembled.1 loaded 2 at_jump after_move at_jump-IsMachine run_by_source

assemble-IsSource_iff_example :
    ((bytes : List ℕ) × ((assemble program).output ≡ some bytes))
    ↔ IsSource program (pass1 program 1 pass1_start).0 lines_of
assemble-IsSource_iff_example = assemble-IsSource_iff program assembled.6
