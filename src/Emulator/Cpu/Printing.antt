-- ===== src/Emulator/Cpu/Printing.antt =====
-- cpu_dump of emulator/cpu.c: the bytes that it prints.
use educpu.Prelude.{ℕ, zero, suc, ◌+◌, [], ◌∷◌, ◌++◌, if◌then◌else◌}
use educpu.Isa.{num_regs}
use educpu.Assembler.Text.{Text, codes}
use educpu.Assembler.Text.Printf.{hex_word, hex_byte, decimal, pad_left}
use educpu.Emulator.Cpu.{Cpu, flag_zf, flag_nf, flag_cf, flag_of, has_flag, reg}

abbrev end_line : Text
end_line = b'\n' ∷ []

-- The loop over the registers from `i` on.
unfoldable pub reg_lines : ℕ → ℕ → Cpu → Text
reg_lines zero i cpu = []
reg_lines (suc left) i cpu =
    codes "R"
    ++ decimal i
    ++ codes ": 0x"
    ++ hex_word (reg cpu i)
    ++ codes " ("
    ++ pad_left 5 (decimal (reg cpu i))
    ++ codes ")"
    ++ end_line
    ++ reg_lines left (i + 1) cpu

abbrev word_line : Text → ℕ → Text
word_line label w = label ++ codes ": 0x" ++ hex_word w ++ end_line

abbrev flag_digit : Cpu → ℕ → Text
flag_digit cpu flag = if has_flag cpu.flags flag then codes "1" else codes "0"

unfoldable pub cpu_dump : Cpu → Text
unfolding reg_lines
cpu_dump cpu =
    codes "=== CPU State ==="
    ++ end_line
    ++ reg_lines num_regs 0 cpu
    ++ word_line (codes "PC") cpu.pc
    ++ word_line (codes "IR") cpu.ir
    ++ word_line (codes "SP") (reg cpu 7)
    ++ codes "FLAGS: [Z="
    ++ flag_digit cpu flag_zf
    ++ codes " N="
    ++ flag_digit cpu flag_nf
    ++ codes " C="
    ++ flag_digit cpu flag_cf
    ++ codes " O="
    ++ flag_digit cpu flag_of
    ++ codes "] (0x"
    ++ hex_byte cpu.flags
    ++ codes ")"
    ++ end_line
    ++ codes "CYCLES: "
    ++ decimal cpu.cycle_count
    ++ end_line
    ++ codes "HALTED: "
    ++ (if cpu.halted then codes "yes" else codes "no")
    ++ end_line
