-- ===== src/Assembler/Syntax.antt =====
-- The operands and instructions of assembler/parser.h.
use educpu.Prelude.{ℕ, List, [], get_or}
use educpu.Prelude.Int.{ℤ, pos}
use educpu.Assembler.Text.{Text}

pub data OperandKind : Type 0 where
  opd_none opd_reg opd_imm opd_label : OperandKind

pub record Operand : Type 0 where
  pub kind : OperandKind
  pub reg : ℕ
  pub imm : ℤ
  pub label : Text

-- An operand of zero bytes, as `memset` leaves it.
abbrev pub no_operand : Operand
no_operand = record { kind = opd_none; reg = 0; imm = pos 0; label = [] }

pub record Instr : Type 0 where
  pub mnemonic : Text
  pub ops : List Operand
  pub nops : ℕ

abbrev pub operand : Instr → ℕ → Operand
operand i k = get_or i.ops k no_operand
