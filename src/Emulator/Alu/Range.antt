-- ===== src/Emulator/Alu/Range.antt =====
-- Whatever the operation, the arithmetic unit returns a word and a processor in range.
use mathlib.Core.Path.{subst}
use educpu.Prelude.{ℕ, ◌/◌, ◌<◌, sym, arith, Bool, true, false, if_both, ◌==◌, ◌||◌}
use educpu.Prelude.Bits.{bit_and-lt, bit_or-lt, bit_xor-lt}
use educpu.Isa.{op_add, op_sub, op_and, op_or, op_xor, op_not, op_shl, op_shr, op_addi, op_cmp}
use educpu.Emulator.Cpu.{Cpu, IsWord, IsCpu}
use educpu.Emulator.Alu.{no_carry, carry_out, alu_execute}
use educpu.Emulator.Alu.Flags.{Outcome, no_carry-Outcome}
use educpu.Emulator.Alu.Arithmetic.{carry_out-Outcome}

abbrev pub InRange : Cpu × ℕ → Type 0
InRange r = IsCpu r.0 × IsWord r.1

set_flags-IsCpu : (cpu : Cpu) (f : ℕ) → IsCpu cpu → f < 16 → IsCpu (record cpu { flags = f })
set_flags-IsCpu cpu f h fits = record {
  eight = h.eight;
  regs_fit = h.regs_fit;
  pc_fits = h.pc_fits;
  ir_fits = h.ir_fits;
  flags_fit = fits;
  cycles_fit = h.cycles_fit;
}

Outcome-InRange :
    {cpu : Cpu} {after : Cpu × ℕ} {v : ℕ} {c o : Bool}
    → Outcome cpu after v c o
    → IsCpu cpu
    → IsWord v
    → InRange after
Outcome-InRange {cpu} {after} t h word = (
  subst IsCpu (sym t.frame) (set_flags-IsCpu cpu after.0.flags h t.flags_fit),
  omega (arith, t.value_is),
)

quotient-IsWord : (a n : ℕ) → IsWord a → IsWord (a / n)
quotient-IsWord a n h = grind arith

pub alu_execute-InRange :
    (cpu : Cpu) (op a b : ℕ) → IsCpu cpu → IsWord a → IsWord b → InRange (alu_execute cpu op a b)
unfolding alu_execute
alu_execute-InRange cpu op a b h ha hb =
    let carries : (is_add : Bool) (r : ℕ) → InRange (carry_out cpu is_add a b r) = λ is_add r.
      Outcome-InRange (carry_out-Outcome cpu is_add a b r h.flags_fit) h (omega arith) in
    let plain : (r : ℕ) → IsWord r → InRange (no_carry cpu r) =
      λ r word. Outcome-InRange (no_carry-Outcome cpu r h.flags_fit word) h word in
    if_both InRange (op == op_add || op == op_addi) (carries true _) (
      if_both InRange (op == op_sub || op == op_cmp) (carries false _) (
        if_both InRange (op == op_and) (plain _ (bit_and-lt 16 a b ha)) (
          if_both InRange (op == op_or) (plain _ (bit_or-lt 16 a b ha hb)) (
            if_both InRange (op == op_xor) (plain _ (bit_xor-lt 16 a b ha hb)) (
              if_both InRange (op == op_not) (plain _ (omega arith)) (
                if_both InRange (op == op_shl) (carries false _)
                  (if_both InRange (op == op_shr) (plain _ (quotient-IsWord a _ ha)) (h, ha))))))))
