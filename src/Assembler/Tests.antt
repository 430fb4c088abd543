-- ===== src/Assembler/Tests.antt =====
-- Runs of the assembler's parts, and their theorems at concrete inputs.
use educpu.Assembler.Text.Printf.{decimal_loop}
use educpu.Assembler.Symtable.{free_slot}
use educpu.Assembler.Symtable.Printing.{symtable_dump, symbol_lines}
use educpu.Prelude.{
  ℕ, ◌^◌, ◌<◌, ◌≡◌, ◌↔◌, refl, arith, false, true, none, some, Option, List, [], ◌∷◌, replicate,
}
use educpu.Prelude.Int.{ℤ, pos, negsuc, ◌≤ℤ◌, ◌-ℤ◌, to_u16}
use educpu.Isa.{
  imm5_min, imm5_max, jump_min, jump_max, stack_base, instr_opcode, instr_rs2, instr_imm5,
  instr_offset,
}
use educpu.Emulator.Control.{Machine, cpu_step}
use educpu.Assembler.Text.{Text, codes, str_eq, str_case_eq}
use educpu.Assembler.Errors.{
  Result, ok, err, duplicate_label, ◌>>=◌, imm_overflow, jump_overflow, invalid_register,
  wrong_operand_count, unknown_mnemonic,
}
use educpu.Assembler.Syntax.{Operand, opd_reg, opd_imm, Instr}
use educpu.Assembler.Encoder.{
  OpDef, find_op, encode_r, encode_i, encode_j, want_reg, want_imm, jump_offset, encode_instr,
}
use educpu.Assembler.Encoder.Formats.{HasFields, encode_r-fields, encode_i-fields, encode_j-fields}
use educpu.Assembler.Encoder.Operands.{OpcodeOf}
use educpu.Assembler.Encoder.Accepts.{IsEncodable, encode_instr-IsEncodable_iff}
use educpu.Assembler.Encoder.Reads.{Reads, encode_instr-Reads}
use educpu.Assembler.Symtable.{
  SymTable, symtable_reset, probe_at, symtable_insert, symtable_lookup, insert_loop, lookup_loop,
  hash_name, hash_loop, fill,
}
use educpu.Assembler.Symtable.Insert.{
  Inserts, all_free, symtable_reset-IsTable, symtable_insert-lookup,
}
use educpu.Assembler.Symtable.Long.{HasShortNames, symtable_insert-long}
use educpu.Assembler.Encoder.Meaning.{Op, op_of, meaning, past}
use educpu.Assembler.Encoder.Step.{cpu_step-encode_instr}
use educpu.Emulator.Control.Invariant.{IsMachine}

abbrev r : ℕ → Operand
r n = record { kind = opd_reg; reg = n; imm = pos 0; label = [] }

abbrev n : ℤ → Operand
n z = record { kind = opd_imm; reg = 0; imm = z; label = [] }

abbrev instr : Text → List Operand → ℕ → Instr
instr mnemonic ops nops = record { mnemonic = mnemonic; ops = ops; nops = nops }

abbrev jump_back : Instr
jump_back = instr (codes "jmp") (n (pos 0x0fe) ∷ []) 1

encode_add : encode_instr (instr (codes "ADD") (r 3 ∷ r 1 ∷ r 2 ∷ []) 3) 0 ≡ ok 0x0b28
unfolding encode_instr find_op str_case_eq want_reg encode_r
encode_add = refl

encode_lw : encode_instr (instr (codes "Lw") (r 1 ∷ r 2 ∷ n (negsuc 0) ∷ []) 3) 0 ≡ ok 0x515f
unfolding encode_instr find_op str_case_eq want_reg want_imm encode_i to_u16
encode_lw = refl

encode_jump_back : encode_instr jump_back 0x100 ≡ ok 0x77fd
unfolding encode_instr find_op str_case_eq jump_offset encode_j to_u16 ◌-ℤ◌
encode_jump_back = refl

encode_errors :
    (encode_instr (instr (codes "ADDI") (r 1 ∷ r 1 ∷ n (pos 16) ∷ []) 3) 0 ≡ err imm_overflow)
    × (encode_instr (instr (codes "JMP") (n (pos 1025) ∷ []) 1) 0 ≡ err jump_overflow)
    × (encode_instr (instr (codes "CMP") (r 8 ∷ r 1 ∷ []) 2) 0 ≡ err invalid_register)
    × (encode_instr (instr (codes "RET") (r 1 ∷ []) 1) 0 ≡ err wrong_operand_count)
    × (encode_instr (instr (codes "NOP") [] 0) 0 ≡ err unknown_mnemonic)
unfolding encode_instr find_op str_case_eq want_reg want_imm jump_offset encode_r encode_i encode_j
    to_u16 ◌-ℤ◌
encode_errors = (refl, refl, refl, refl, refl)

encode_r-fields_example :
    ((1 < 32) × (3 < 8) × (1 < 8) × (2 < 8)
      → (w : ℕ) × (encode_r 1 3 1 2 ≡ ok w) × HasFields w 1 3 1 × (instr_rs2 w ≡ 2))
    × ((w : ℕ) × (encode_r 1 3 1 2 ≡ ok w) → (1 < 32) × (3 < 8) × (1 < 8) × (2 < 8))
encode_r-fields_example = encode_r-fields 1 3 1 2

encode_i-fields_example :
    ((9 < 32) × (3 < 8) × (1 < 8) × (imm5_min ≤ℤ negsuc 15) × (negsuc 15 ≤ℤ imm5_max)
      → (w : ℕ) × (encode_i 9 3 1 (negsuc 15) ≡ ok w)
        × HasFields w 9 3 1
        × (instr_imm5 w ≡ negsuc 15))
    × ((w : ℕ) × (encode_i 9 3 1 (negsuc 15) ≡ ok w)
        → (9 < 32) × (3 < 8) × (1 < 8) × (imm5_min ≤ℤ negsuc 15) × (negsuc 15 ≤ℤ imm5_max))
encode_i-fields_example = encode_i-fields 9 3 1 (negsuc 15)

encode_j-fields_example :
    ((14 < 32) × (jump_min ≤ℤ negsuc 1023) × (negsuc 1023 ≤ℤ jump_max)
      → (w : ℕ) × (encode_j 14 (negsuc 1023) ≡ ok w)
        × (w < 2 ^ 16)
        × (instr_opcode w ≡ 14)
        × (instr_offset w ≡ negsuc 1023))
    × ((w : ℕ) × (encode_j 14 (negsuc 1023) ≡ ok w)
        → (14 < 32) × (jump_min ≤ℤ negsuc 1023) × (negsuc 1023 ≤ℤ jump_max))
encode_j-fields_example = encode_j-fields 14 (negsuc 1023)

encode_instr-IsEncodable_iff_example :
    ((w : ℕ) × (encode_instr jump_back 0x100 ≡ ok w))
    ↔ ((d : OpDef) × (find_op (codes "jmp") ≡ some d) × IsEncodable d.fmt jump_back 0x100)
encode_instr-IsEncodable_iff_example = encode_instr-IsEncodable_iff jump_back 0x100

jump_back-Reads :
    (d : OpDef) × (find_op (codes "jmp") ≡ some d)
    × OpcodeOf d.fmt d.opcode
    × Reads d.fmt d.opcode jump_back 0x100 0x77fd
jump_back-Reads = encode_instr-Reads jump_back 0x100 0x77fd encode_jump_back

abbrev machine : Machine
machine = record {
  cpu = record {
    regs = 0 ∷ 0 ∷ 0 ∷ 0 ∷ 0 ∷ 0 ∷ 0 ∷ stack_base ∷ [];
    pc = 0x100;
    ir = 0;
    flags = 0;
    cycle_count = 0;
    halted = false;
  };
  bus = record { mem = λ a. 0x77fd; stdin = []; stdout = []; clock = λ k. k; clock_calls = 0 };
  stderr = [];
}

machine-IsMachine : IsMachine machine
machine-IsMachine = record { is_cpu = omega arith; is_bus = λ a. omega arith }

cpu_step-encode_instr_example :
    (o : Op) × (op_of (codes "jmp") ≡ some o)
    × (cpu_step machine ≡ meaning o jump_back (past machine))
cpu_step-encode_instr_example =
    cpu_step-encode_instr jump_back 0x100 0x77fd machine encode_jump_back machine-IsMachine refl
      refl (omega arith) refl

abbrev looked_up : Result SymTable → Text → Result (Option ℕ)
looked_up r name = r >>= λ st. ok (symtable_lookup st name)

two_symbols : Result SymTable
unfolding symtable_insert symtable_reset insert_loop hash_name hash_loop fill
two_symbols =
    symtable_insert symtable_reset (codes "start") 16 >>= λ st. symtable_insert st (codes "loop") 20

lookups :
    (looked_up two_symbols (codes "start") ≡ ok (some 16))
    × (looked_up two_symbols (codes "loop") ≡ ok (some 20))
    × (looked_up two_symbols (codes "Loop") ≡ ok none)
    × ((two_symbols >>= λ st. symtable_insert st (codes "loop") 1) ≡ err duplicate_label)
unfolding two_symbols symtable_insert symtable_reset insert_loop symtable_lookup lookup_loop
    hash_name hash_loop fill str_eq
lookups = (refl, refl, refl, refl)

symtable_insert-lookup_example :
    Inserts symtable_reset (codes "loop") 20 (symtable_lookup symtable_reset (codes "loop"))
unfolding symtable_reset
symtable_insert-lookup_example =
    symtable_insert-lookup symtable_reset (codes "loop") 20 symtable_reset-IsTable
      (λ e. absurd (cc)) (omega arith) (omega arith)

abbrev long_name : Text
long_name = replicate 64 b'x'

abbrev with_long_name : SymTable
with_long_name = fill symtable_reset (probe_at (hash_name long_name) 0) long_name 20

no_long_names : HasShortNames symtable_reset
unfolding symtable_reset
no_long_names i = rw (all_free 256 i) (omega arith)

symtable_insert-long_example : symtable_lookup with_long_name long_name ≡ none
unfolding symtable_reset symtable_insert insert_loop fill hash_name hash_loop
symtable_insert-long_example =
    symtable_insert-long symtable_reset with_long_name long_name 20 no_long_names (omega arith) refl

dumped :
    symtable_dump (record {
      table = free_slot ∷ record { name = codes "start"; addr = 0x1a; used = true } ∷ [];
      count = 1;
    })
    ≡ codes "-- symbol table (1 entries) --\n  start                            = 0x001A\n"
unfolding symtable_dump symbol_lines decimal_loop
dumped = refl
