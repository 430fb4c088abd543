-- ===== src/Assembler/Errors/Names.antt =====
-- asm_error_name of assembler/assembler.c, with `none` for ERR_OK.
use mathlib.Core.Option
use educpu.Prelude.{◌≡◌, ◌∙◌, refl, sym, ap, List, [], ◌∷◌, Option, none, some, if◌then◌else◌}
use educpu.Assembler.Errors.{
  AsmError, undefined_label, duplicate_label, imm_overflow, jump_overflow, unknown_mnemonic,
  wrong_operand_count, invalid_register, invalid_number, invalid_directive, io, internal,
}
use educpu.Assembler.Text.{Text, codes, str_eq}

abbrev pub asm_error_name : Option AsmError → Text
asm_error_name none = codes "ok"
asm_error_name (some undefined_label) = codes "undefined-label"
asm_error_name (some duplicate_label) = codes "duplicate-label"
asm_error_name (some imm_overflow) = codes "immediate-overflow"
asm_error_name (some jump_overflow) = codes "jump-overflow"
asm_error_name (some unknown_mnemonic) = codes "unknown-mnemonic"
asm_error_name (some wrong_operand_count) = codes "wrong-operand-count"
asm_error_name (some invalid_register) = codes "invalid-register"
asm_error_name (some invalid_number) = codes "invalid-number"
asm_error_name (some invalid_directive) = codes "invalid-directive"
asm_error_name (some io) = codes "io"
asm_error_name (some internal) = codes "internal"

abbrev all_codes : List (Option AsmError)
all_codes =
    none
    ∷ some undefined_label
    ∷ some duplicate_label
    ∷ some imm_overflow
    ∷ some jump_overflow
    ∷ some unknown_mnemonic
    ∷ some wrong_operand_count
    ∷ some invalid_register
    ∷ some invalid_number
    ∷ some invalid_directive
    ∷ some io
    ∷ some internal
    ∷ []

abbrev code_named : Text → List (Option AsmError) → Option (Option AsmError)
code_named name [] = none
code_named name (e ∷ es) =
    let rest = code_named name es in if str_eq (asm_error_name e) name then some e else rest

code_named-asm_error_name : (e : Option AsmError) → code_named (asm_error_name e) all_codes ≡ some e
unfolding str_eq
code_named-asm_error_name none = refl
code_named-asm_error_name (some undefined_label) = refl
code_named-asm_error_name (some duplicate_label) = refl
code_named-asm_error_name (some imm_overflow) = refl
code_named-asm_error_name (some jump_overflow) = refl
code_named-asm_error_name (some unknown_mnemonic) = refl
code_named-asm_error_name (some wrong_operand_count) = refl
code_named-asm_error_name (some invalid_register) = refl
code_named-asm_error_name (some invalid_number) = refl
code_named-asm_error_name (some invalid_directive) = refl
code_named-asm_error_name (some io) = refl
code_named-asm_error_name (some internal) = refl

-- No two codes have the same name.
pub asm_error_name-injective : (e f : Option AsmError) → asm_error_name e ≡ asm_error_name f → e ≡ f
asm_error_name-injective e f same = Option.some-injective e f (
    sym (code_named-asm_error_name e)
    ∙ ap (λ (name : Text). code_named name all_codes) same
    ∙ code_named-asm_error_name f)
