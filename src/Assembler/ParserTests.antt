-- ===== src/Assembler/ParserTests.antt =====
-- Runs of the parser, and its theorems at concrete inputs.
use educpu.Prelude.{◌+◌, ◌<◌, ◌≡◌, ◌⊎◌, ◌↔◌, refl, arith, true, none, some, List, [], ◌∷◌, ◌++◌}
use educpu.Prelude.Int.{pos, negsuc}
use educpu.Assembler.Text.{Text, codes, str_case_eq}
use educpu.Assembler.Errors.{wrong_operand_count, invalid_number, invalid_directive}
use educpu.Assembler.Numbers.{
  parse_number, after_sign, number_at, base_of, convert, strtol, skip_space, skip_prefix,
  digits_loop, clamped, negate, to_i32,
}
use educpu.Assembler.Numbers.Literals.{
  hexadecimal, sign, prefix, base, digit_codes, place_value, signed, parse_number-literal,
}
use educpu.Assembler.Parser.{
  TokenKind, tok_ident, tok_label, tok_number, tok_directive, Token, TokenLine, parse_register,
  parse_line, fill_value_operand, parse_directive, operands_loop, parse_instruction,
}
use educpu.Assembler.Parser.Shape.{IsParsed, parse_register_iff}
use educpu.Assembler.Errors.{ok}
use educpu.Assembler.Lexer.{lex_line}
use educpu.Assembler.Parser.Source.{Line, labelled, instr, reg, num, IsLine, parsed_line}
use educpu.Assembler.Parser.Printed.{print_line, parse_line-print_line}
use educpu.Assembler.Parser.Line.{parse_line-IsParsed}

abbrev tok : TokenKind → Text → Token
tok kind text = record { kind = kind; text = text }

abbrev line : List Token → TokenLine
line ts = record { tokens = ts; line_no = 4 }

-- `loop: ADDI R1, R2, -1`
abbrev addi_line : TokenLine
addi_line = line (
    tok tok_label (codes "loop")
    ∷ tok tok_ident (codes "ADDI")
    ∷ tok tok_ident (codes "R1")
    ∷ tok tok_ident (codes "r2")
    ∷ tok tok_number (codes "-1")
    ∷ [])

addi_parsed :
    ((parse_line addi_line).1 ≡ none)
    × ((parse_line addi_line).0.label ≡ codes "loop")
    × ((parse_line addi_line).0.instr.nops ≡ 3)
unfolding parse_line parse_instruction operands_loop fill_value_operand parse_register parse_number
    after_sign number_at base_of convert strtol skip_space skip_prefix digits_loop clamped negate
    to_i32
addi_parsed = (refl, refl, refl)

refused :
    ((parse_line (line (tok tok_directive (codes ".org") ∷ tok tok_ident (codes "here") ∷ []))).1
      ≡ some invalid_number)
    × ((parse_line (line (tok tok_directive (codes ".Word") ∷ []))).1 ≡ some wrong_operand_count)
    × ((parse_line (line (tok tok_directive (codes ".byte") ∷ []))).1 ≡ some invalid_directive)
unfolding parse_line parse_directive str_case_eq fill_value_operand parse_register
refused = (refl, refl, refl)

-- Numbers wrap: 2 ^ 32 + 5 is read as 5.
numbers :
    (parse_number (codes "0b101") ≡ some (pos 5))
    × (parse_number (codes "4294967301") ≡ some (pos 5))
    × (parse_number (codes "-0xFF") ≡ some (negsuc 254))
    × (parse_number (codes "12ab") ≡ none)
unfolding parse_number after_sign number_at base_of convert strtol skip_space skip_prefix
    digits_loop clamped negate to_i32
numbers = (refl, refl, refl, refl)

parse_number-literal_example :
    parse_number (sign true ++ prefix hexadecimal ++ digit_codes (0 ∷ 15 ∷ 10 ∷ []))
    ≡ some (signed true (place_value (base hexadecimal) (0 ∷ 15 ∷ 10 ∷ [])))
parse_number-literal_example =
    parse_number-literal true hexadecimal 0 (15 ∷ 10 ∷ []) (omega arith) (omega arith)

r7_parsed :
    (parse_register (codes "r7") ≡ some 7)
    ↔ ((7 < 8) × ((codes "r7" ≡ b'R' ∷ (b'0' + 7) ∷ []) ⊎ (codes "r7" ≡ b'r' ∷ (b'0' + 7) ∷ [])))
r7_parsed = parse_register_iff (codes "r7") 7

parse_line-IsParsed_example : IsParsed (parse_line addi_line).0
parse_line-IsParsed_example = parse_line-IsParsed addi_line

-- `loop : ADDI R1 R2 -0x1`
abbrev addi_source : Line
addi_source = labelled (codes "loop") (
    instr (codes "ADDI") (
      reg 1
      ∷ reg 2
      ∷ num (record { negative = true; radix = hexadecimal; first = 1; digits = [] })
      ∷ []))

addi_source-IsLine : IsLine addi_source
addi_source-IsLine = (
  (refl, ((refl, (refl, (refl, tt))), omega arith)),
  (
    (refl, omega arith, ((refl, (refl, (refl, tt))), omega arith)),
    (
      omega arith,
      (
        omega arith,
        (
          record {
            digits_fit = (omega arith, tt);
            value_fits = omega arith;
            few_digits = omega arith;
          },
          tt,
        ),
      ),
    ),
    omega arith,
  ),
)

parse_line-print_line_example :
    (tl : TokenLine) × (lex_line (print_line addi_source) 4 ≡ ok tl)
    × (parse_line tl ≡ (parsed_line addi_source 4, none))
parse_line-print_line_example = parse_line-print_line addi_source 4 addi_source-IsLine
