-- ===== src/Assembler/Encoder/Step.antt =====
-- The contract between assembler and emulator: one cycle of the processor on an encoded instruction
-- does what the instruction's text says.
use mathlib.Core.Path.{subst₂}
use educpu.Prelude.{ℕ, ◌+◌, ◌%◌, ◌^◌, ◌<◌, ◌≡◌, ◌∙◌, ap, arith, false, some, if_not}
use educpu.Isa.{io_base, instr_opcode, instr_rd, instr_rs1, instr_rs2, instr_imm5, instr_offset}
use educpu.Emulator.Memory.{Bus}
use educpu.Emulator.Memory.Laws.{mem_read-ram}
use educpu.Emulator.Control.{Machine, fetch, execute_op, execute, cpu_step}
use educpu.Emulator.Control.Invariant.{IsMachine, fetch-IsMachine}
use educpu.Assembler.Errors.{ok}
use educpu.Assembler.Syntax.{Instr}
use educpu.Assembler.Encoder.{Fmt, encode_instr}
use educpu.Assembler.Encoder.Reads.{Reads, encode_instr-Reads}
use educpu.Assembler.Encoder.Meaning.{Op, op_of, meaning, past}
use educpu.Assembler.Encoder.Table.{fmt_of, opcode_of, op_of-find_op}
use educpu.Assembler.Encoder.Execute.{executes}

-- Below the ports a fetch takes the word at the program counter and nothing else.
fetch-past : (m : Machine) → m.cpu.pc < io_base → fetch m ≡ past m
unfolding fetch
fetch-past m ram =
    ap
      (λ (r : ℕ × Bus). record m {
        cpu = record m.cpu {
          ir = r.0;
          pc = (m.cpu.pc + 1) % 2 ^ 16;
          cycle_count = (m.cpu.cycle_count + 1) % 2 ^ 64;
        };
        bus = r.1;
      })
      (mem_read-ram m.bus m.cpu.pc ram)

Reads-of :
    (i : Instr) (pc w : ℕ) (fmt : Fmt) (op : ℕ) (o : Op)
    → fmt ≡ fmt_of o
    → op ≡ opcode_of o
    → Reads fmt op i pc w
    → Reads (fmt_of o) (opcode_of o) i pc w
Reads-of i pc w fmt op o same_fmt same_op reads =
    subst₂ (λ (f : Fmt) (n : ℕ). Reads f n i pc w) same_fmt same_op reads

-- What one cycle does is what the instruction with the mnemonic means.
abbrev pub Means : Instr → Machine → Type 0
Means i m = (o : Op) × (op_of i.mnemonic ≡ some o) × (cpu_step m ≡ meaning o i (past m))

-- If an instruction is encoded at address pc below the ports, and memory holds its word there, then
-- its mnemonic names an instruction, and one cycle of a running processor at pc, whose registers,
-- flags and memory words are in their ranges, does what `meaning` says of that instruction: on the
-- registers, the four flags, the program counter, the memory and the ports, the halt, and nothing
-- else. In particular a jump, if taken, goes to the address that was written, modulo 2 ^ 16.
pub cpu_step-encode_instr :
    (i : Instr) (pc w : ℕ) (m : Machine)
    → encode_instr i pc ≡ ok w
    → IsMachine m
    → m.cpu.halted ≡ false
    → m.cpu.pc ≡ pc
    → pc < io_base
    → m.bus.mem pc ≡ w
    → Means i m
unfolding cpu_step execute
cpu_step-encode_instr i pc w m e fits live at ram word =
    let (d, found, known, reads) = encode_instr-Reads i pc w e in
    let (o, is, defines) = op_of-find_op i.mnemonic found in
    let fetched = fetch-past m (omega (arith, at)) in
    let there : m.bus.mem m.cpu.pc ≡ w = ap m.bus.mem at ∙ word in
    let ir : (fetch m).cpu.ir ≡ w = ap (λ (n : Machine). n.cpu.ir) fetched ∙ there in
    let next : (fetch m).cpu.pc ≡ (pc + 1) % 2 ^ 16 =
      ap (λ (n : Machine). n.cpu.pc) fetched ∙ ap (λ (p : ℕ). (p + 1) % 2 ^ 16) at in
    (
      o,
      is,
      if_not _ _ live
          ∙ ap
              (λ (v : ℕ).
                execute_op (instr_opcode v) (instr_rd v) (instr_rs1 v) (instr_rs2 v) (instr_imm5 v)
                  (instr_offset v) (fetch m))
              ir
          ∙ executes i pc w (fetch m) (fetch-IsMachine m fits) next (omega arith) o
              (Reads-of i pc w d.fmt d.opcode o defines.0 defines.1 reads)
          ∙ ap (meaning o i) fetched,
    )
