-- ===== src/Emulator/Alu.antt =====
-- emulator/alu.c.
pub mod Flags
pub mod Arithmetic
pub mod Logic
pub mod Range
use educpu.Prelude.{
  ℕ, ◌+◌, ◌-◌, ◌*◌, ◌/◌, ◌%◌, ◌^◌, Bool, true, false, not, ◌&&◌, ◌||◌, bit_and, bit_or, bit_xor,
  ltb, ◌==◌, if◌then◌else◌,
}
use educpu.Isa.{op_add, op_sub, op_and, op_or, op_xor, op_not, op_shl, op_shr, op_addi, op_cmp}
use educpu.Emulator.Cpu.{Cpu, flag_zf, flag_nf, flag_cf, flag_of}

-- `flags |= mask`, or `flags &= (uint8_t)(~mask)`.
unfoldable pub flags_with : ℕ → ℕ → Bool → ℕ
flags_with flags mask value = if value then bit_or flags mask else bit_and flags (2 ^ 8 - 1 - mask)

unfoldable pub set_flag : Cpu → ℕ → Bool → Cpu
set_flag cpu mask value = record cpu { flags = flags_with cpu.flags mask value }

unfoldable pub update_zn_flags : Cpu → ℕ → Cpu
unfolding set_flag
update_zn_flags cpu result =
    set_flag (set_flag cpu flag_zf (result == 0)) flag_nf (not (bit_and result 0x8000 == 0))

-- From the label `no_carry` on.
unfoldable pub no_carry : Cpu → ℕ → Cpu × ℕ
unfolding update_zn_flags
no_carry cpu result = (update_zn_flags cpu result, result)

-- `(x >> 15) & 1u`
abbrev pub sign_bit : ℕ → ℕ
sign_bit x = bit_and (x / 2 ^ 15) 1

-- What follows the switch, for the operations that `break` with a `result32`.
unfoldable pub carry_out : Cpu → Bool → ℕ → ℕ → ℕ → Cpu × ℕ
unfolding set_flag no_carry
carry_out cpu is_add_like a b result32 =
    let result = result32 % 2 ^ 16 in
    let carried = set_flag cpu flag_cf (ltb 0xffff result32) in
    let overflowed = sign_bit a == sign_bit b && not (sign_bit result == sign_bit a) in
    no_carry (set_flag carried flag_of (if is_add_like then overflowed else false)) result

unfoldable pub alu_execute : Cpu → ℕ → ℕ → ℕ → Cpu × ℕ
unfolding carry_out no_carry
alu_execute cpu op a b =
    if op == op_add || op == op_addi
    then carry_out cpu true a b ((a + b) % 2 ^ 32)
    else if op == op_sub || op == op_cmp
    then carry_out cpu false a b ((a + 2 ^ 32 - b) % 2 ^ 32)
    else if op == op_and
    then no_carry cpu (bit_and a b)
    else if op == op_or
    then no_carry cpu (bit_or a b)
    else if op == op_xor
    then no_carry cpu (bit_xor a b)
    else if op == op_not
    then no_carry cpu (2 ^ 16 - 1 - a)
    else if op == op_shl
    then carry_out cpu false a b (a * 2 ^ bit_and b 0x0f % 2 ^ 32)
    else if op == op_shr
    then no_carry cpu (a / 2 ^ bit_and b 0x0f)
    else (cpu, a)
