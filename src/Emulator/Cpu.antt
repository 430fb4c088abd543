-- ===== src/Emulator/Cpu.antt =====
-- emulator/cpu.h and the state functions of emulator/cpu.c.
pub mod Printing
use educpu.Prelude.{
  ℕ, ◌^◌, ◌<◌, ◌≡◌, Bool, false, not, List, length, replicate, get_or, set, All, All-set,
  length-set, bit_and, ◌==◌, arith,
}
use educpu.Isa.{num_regs, stack_base}

abbrev pub flag_zf : ℕ
flag_zf = 1

abbrev pub flag_nf : ℕ
flag_nf = 2

abbrev pub flag_cf : ℕ
flag_cf = 4

abbrev pub flag_of : ℕ
flag_of = 8

pub record Cpu : Type 0 where
  pub regs : List ℕ
  pub pc : ℕ
  pub ir : ℕ
  pub flags : ℕ
  pub cycle_count : ℕ
  pub halted : Bool

-- `memset` to zero, and the stack pointer.
unfoldable pub cpu_init : Cpu → Cpu
cpu_init cpu = record {
  regs = set (replicate num_regs 0) 7 stack_base;
  pc = 0;
  ir = 0;
  flags = 0;
  cycle_count = 0;
  halted = false;
}

unfoldable pub cpu_reset : Cpu → Cpu
cpu_reset cpu = record cpu {
  regs = set (replicate num_regs 0) 7 stack_base;
  pc = 0;
  ir = 0;
  flags = 0;
  cycle_count = 0;
  halted = false;
}

-- `cpu->regs[i]`, and its assignment. The code indexes by a field of three bits or by 7.
abbrev pub reg : Cpu → ℕ → ℕ
reg cpu i = get_or cpu.regs i 0

abbrev pub set_reg : Cpu → ℕ → ℕ → Cpu
set_reg cpu i v = record cpu { regs = set cpu.regs i v }

-- `(flags & mask) != 0`
abbrev pub has_flag : ℕ → ℕ → Bool
has_flag flags mask = not (bit_and flags mask == 0)

abbrev pub IsWord : ℕ → Type 0
IsWord w = w < 2 ^ 16

-- The ranges of the fields' C types, the eight registers, and that only four flags are used.
pub record IsCpu (cpu : Cpu) : Type 0 where
  pub eight : length cpu.regs ≡ num_regs
  pub regs_fit : All IsWord cpu.regs
  pub pc_fits : IsWord cpu.pc
  pub ir_fits : IsWord cpu.ir
  pub flags_fit : cpu.flags < 16
  pub cycles_fit : cpu.cycle_count < 2 ^ 64

pub cpu_init-IsCpu : (cpu : Cpu) → IsCpu (cpu_init cpu)
unfolding cpu_init
cpu_init-IsCpu cpu = omega arith

pub set_reg-IsCpu : (cpu : Cpu) (i v : ℕ) → IsCpu cpu → IsWord v → IsCpu (set_reg cpu i v)
set_reg-IsCpu cpu i v h fits = record {
  eight = omega (arith, length-set cpu.regs i v, h.eight);
  regs_fit = All-set IsWord cpu.regs i v fits h.regs_fit;
  pc_fits = h.pc_fits;
  ir_fits = h.ir_fits;
  flags_fit = h.flags_fit;
  cycles_fit = h.cycles_fit;
}
