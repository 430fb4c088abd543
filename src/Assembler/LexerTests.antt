-- ===== src/Assembler/LexerTests.antt =====
-- Runs of the lexer, and its theorems at concrete inputs.
use educpu.Prelude.{suc, ◌≡◌, refl, arith, List, [], ◌∷◌, length}
use educpu.Assembler.Text.{Text, codes}
use educpu.Assembler.Errors.{ok, err, internal}
use educpu.Assembler.Parser.{
  TokenKind, tok_ident, tok_label, tok_number, tok_string, tok_directive, Token,
}
use educpu.Assembler.Lexer.{
  c_string, push_token, skip_blanks, store, string_loop, run_loop, unsigned_number, number_text,
  starts_number, ident_end, next_token, push_and_go, lex_round, lex_loop, lex_line,
}
use educpu.Assembler.Lexer.Ends.{Ends, lex_line-Ends}
use educpu.Assembler.Lexer.Print.{print_tokens}
use educpu.Assembler.Lexer.ReadBack.{lex_line-print_tokens}

abbrev tok : TokenKind → Text → Token
tok kind text = record { kind = kind; text = text }

abbrev some_tokens : List Token
some_tokens =
    tok tok_label (codes "loop")
    ∷ tok tok_ident (codes "ADDI")
    ∷ tok tok_ident (codes "R1")
    ∷ tok tok_number (codes "-0x1f")
    ∷ tok tok_directive (codes ".ascii")
    ∷ tok tok_string (codes "say hi")
    ∷ []

single_quote : lex_line (codes "loop: ADDI R1,-0x1f .ascii 'x'; done") 3 ≡ err internal
unfolding lex_line lex_loop lex_round push_and_go next_token ident_end starts_number number_text
    unsigned_number run_loop string_loop store skip_blanks push_token c_string
single_quote = refl

line_lexed :
    lex_line (codes "loop: ADDI R1,-0x1f .ascii \"say hi\"; done") 3
    ≡ ok (record { tokens = some_tokens; line_no = 3 })
unfolding lex_line lex_loop lex_round push_and_go next_token ident_end starts_number number_text
    unsigned_number run_loop string_loop store skip_blanks push_token c_string
line_lexed = refl

-- A zero byte ends the text of a string.
cut_string :
    lex_line (codes "\"ab\\0cd\"") 1
    ≡ ok (record { tokens = tok tok_string (codes "ab") ∷ []; line_no = 1 })
unfolding lex_line lex_loop lex_round push_and_go next_token ident_end starts_number number_text
    unsigned_number run_loop string_loop store skip_blanks push_token c_string
cut_string = refl

lex_line-Ends_example : Ends (lex_loop (suc (length (codes "MOV R1, 5"))) (codes "MOV R1, 5") [])
lex_line-Ends_example = lex_line-Ends (codes "MOV R1, 5")

lex_line-print_tokens_example :
    lex_line (print_tokens some_tokens) 3 ≡ ok (record { tokens = some_tokens; line_no = 3 })
lex_line-print_tokens_example = lex_line-print_tokens some_tokens 3 (ground arith) (omega arith)
