-- ===== src/Assembler/Encoder/Meaning.antt =====
-- What each mnemonic means on the machine: a reading that uses neither the table of
-- assembler/encoder.c nor the switches of emulator/control.c and emulator/alu.c. Of the emulator's code
-- it has the state, the masks of the flags and the two operations on memory. As in that code, SUB and
-- CMP clear V, MOV clears C and V, and JLT and JGT read N and Z alone.
use educpu.Prelude.{
  ℕ, ◌+◌, ◌-◌, ◌*◌, ◌/◌, ◌%◌, ◌^◌, Bool, true, false, not, ◌&&◌, List, [], ◌∷◌, Option, none, some,
  bit_and, bit_or, bit_xor, ltb, leb, ◌==◌, if◌then◌else◌,
}
use educpu.Prelude.Int.{ℤ, pos, ◌+ℤ◌, ltb_ℤ, to_i16, to_u16}
use educpu.Emulator.Alu.Arithmetic.{out_of_range}
use educpu.Emulator.Cpu.{Cpu, reg, set_reg, flag_zf, flag_nf, flag_cf, flag_of, has_flag}
use educpu.Emulator.Memory.{mem_read, mem_write}
use educpu.Emulator.Control.{Machine}
use educpu.Assembler.Text.{Text, codes, str_eq}
use educpu.Assembler.Syntax.{Instr, operand}

pub data Op : Type 0 where
  add sub conjunction disjunction difference complement shift_left shift_right : Op
  add_imm load store move compare : Op
  jump jump_eq jump_ne jump_lt jump_gt call ret stop : Op

abbrev pub mnemonics : List (Text × Op)
mnemonics =
    (codes "ADD", add)
    ∷ (codes "SUB", sub)
    ∷ (codes "AND", conjunction)
    ∷ (codes "OR", disjunction)
    ∷ (codes "XOR", difference)
    ∷ (codes "NOT", complement)
    ∷ (codes "SHL", shift_left)
    ∷ (codes "SHR", shift_right)
    ∷ (codes "ADDI", add_imm)
    ∷ (codes "LW", load)
    ∷ (codes "SW", store)
    ∷ (codes "MOV", move)
    ∷ (codes "CMP", compare)
    ∷ (codes "JMP", jump)
    ∷ (codes "JEQ", jump_eq)
    ∷ (codes "JNE", jump_ne)
    ∷ (codes "JLT", jump_lt)
    ∷ (codes "JGT", jump_gt)
    ∷ (codes "CALL", call)
    ∷ (codes "RET", ret)
    ∷ (codes "HALT", stop)
    ∷ []

-- A mnemonic in capital letters.
abbrev pub capital : ℕ → ℕ
capital c = if leb b'a' c && leb c b'z' then c - 32 else c

abbrev pub capitals : Text → Text
capitals [] = []
capitals (c ∷ s) = capital c ∷ capitals s

abbrev pub op_in : List (Text × Op) → Text → Option Op
op_in [] m = none
op_in ((name, o) ∷ rest) m = if str_eq name (capitals m) then some o else op_in rest m

-- The instruction that a mnemonic names, in whatever case it is written.
abbrev pub op_of : Text → Option Op
op_of m = op_in mnemonics m

-- The flags of a value: Z if it is zero, N if it is negative as a signed word, C and V as given.
abbrev pub flags_of : ℕ → Bool → Bool → ℕ
flags_of value carry overflow =
    (if value == 0 then flag_zf else 0)
    + (if ltb_ℤ (to_i16 value) (pos 0) then flag_nf else 0)
    + (if carry then flag_cf else 0)
    + (if overflow then flag_of else 0)

abbrev pub with_flags : Cpu → ℕ → Bool → Bool → Cpu
with_flags cpu value carry overflow = record cpu { flags = flags_of value carry overflow }

-- A value goes to a register, and to the flags.
abbrev pub result : Machine → ℕ → ℕ → Bool → Bool → Machine
result m rd value carry overflow = record m {
  cpu = set_reg (with_flags m.cpu value carry overflow) rd value;
}

-- C and V stay as they are.
abbrev pub logical : Machine → ℕ → ℕ → Machine
logical m rd value = result m rd value (has_flag m.cpu.flags flag_cf) (has_flag m.cpu.flags flag_of)

-- C is the carry of the unsigned sum, V says that the signed sum is out of range.
abbrev pub sum : Machine → ℕ → ℕ → ℕ → Machine
sum m rd a b =
    result m rd ((a + b) % 2 ^ 16) (leb (2 ^ 16) (a + b)) (out_of_range (to_i16 a +ℤ to_i16 b))

abbrev pub go_to : Machine → ℤ → Machine
go_to m target = record m { cpu = record m.cpu { pc = to_u16 target } }

abbrev pub go_if : Bool → Machine → ℤ → Machine
go_if taken m target = if taken then go_to m target else m

-- The program counter at the stack pointer, which goes down by one word.
abbrev pub push_pc : Machine → Machine
push_pc m = record m {
  cpu = set_reg m.cpu 7 ((reg m.cpu 7 + 2 ^ 16 - 1) % 2 ^ 16);
  bus = mem_write m.bus (reg m.cpu 7) m.cpu.pc;
}

-- The stack pointer goes up by one word, and the program counter is the word there.
abbrev pub pop_pc : Machine → Machine
pop_pc m =
    let cpu = set_reg m.cpu 7 ((reg m.cpu 7 + 1) % 2 ^ 16) in
    record m {
      cpu = record cpu { pc = (mem_read m.bus (reg cpu 7)).0 };
      bus = (mem_read m.bus (reg cpu 7)).1;
    }

-- The register that operand `k` names, its word, and the immediate of operand `k`.
abbrev pub named : Instr → ℕ → ℕ
named i k = (operand i k).reg

abbrev pub word_of : Instr → ℕ → Machine → ℕ
word_of i k m = reg m.cpu (operand i k).reg

abbrev pub imm_of : Instr → ℕ → ℤ
imm_of i k = (operand i k).imm

-- The address of LW and SW: operand 1 plus operand 2.
abbrev pub address_of : Instr → Machine → ℕ
address_of i m = (word_of i 1 m + to_u16 (imm_of i 2)) % 2 ^ 16

-- The machine whose program counter is past the instruction, after the instruction.
abbrev pub meaning : Op → Instr → Machine → Machine
meaning add i m = sum m (named i 0) (word_of i 1 m) (word_of i 2 m)
meaning sub i m =
    result m (named i 0) ((word_of i 1 m + 2 ^ 16 - word_of i 2 m) % 2 ^ 16)
      (ltb (word_of i 1 m) (word_of i 2 m)) false
meaning conjunction i m = logical m (named i 0) (bit_and (word_of i 1 m) (word_of i 2 m))
meaning disjunction i m = logical m (named i 0) (bit_or (word_of i 1 m) (word_of i 2 m))
meaning difference i m = logical m (named i 0) (bit_xor (word_of i 1 m) (word_of i 2 m))
meaning complement i m = logical m (named i 0) (2 ^ 16 - 1 - word_of i 1 m)
meaning shift_left i m =
    result m (named i 0) (word_of i 1 m * 2 ^ (word_of i 2 m % 16) % 2 ^ 16)
      (leb (2 ^ 16) (word_of i 1 m * 2 ^ (word_of i 2 m % 16))) false
meaning shift_right i m = logical m (named i 0) (word_of i 1 m / 2 ^ (word_of i 2 m % 16))
meaning add_imm i m = sum m (named i 0) (word_of i 1 m) (to_u16 (imm_of i 2))
meaning load i m = record m {
  cpu = set_reg m.cpu (named i 0) (mem_read m.bus (address_of i m)).0;
  bus = (mem_read m.bus (address_of i m)).1;
}
meaning store i m = record m { bus = mem_write m.bus (address_of i m) (word_of i 0 m) }
meaning move i m = result m (named i 0) (to_u16 (imm_of i 1)) false false
meaning compare i m = record m {
  cpu =
      with_flags m.cpu ((word_of i 0 m + 2 ^ 16 - word_of i 1 m) % 2 ^ 16)
        (ltb (word_of i 0 m) (word_of i 1 m)) false;
}
meaning jump i m = go_to m (imm_of i 0)
meaning jump_eq i m = go_if (has_flag m.cpu.flags flag_zf) m (imm_of i 0)
meaning jump_ne i m = go_if (not (has_flag m.cpu.flags flag_zf)) m (imm_of i 0)
meaning jump_lt i m = go_if (has_flag m.cpu.flags flag_nf) m (imm_of i 0)
meaning jump_gt i m =
    go_if (not (has_flag m.cpu.flags flag_zf) && not (has_flag m.cpu.flags flag_nf)) m (imm_of i 0)
meaning call i m = go_to (push_pc m) (imm_of i 0)
meaning ret i m = pop_pc m
meaning stop i m = record m { cpu = record m.cpu { halted = true } }

-- The machine when the word at the program counter has been fetched: the program counter is past it,
-- and one cycle more is counted.
abbrev pub past : Machine → Machine
past m = record m {
  cpu = record m.cpu {
    ir = m.bus.mem m.cpu.pc;
    pc = (m.cpu.pc + 1) % 2 ^ 16;
    cycle_count = (m.cpu.cycle_count + 1) % 2 ^ 64;
  };
}
