-- ===== src/Assembler/Lexer/Numbering.antt =====
-- The line number of the tokens that the lexer makes.
use educpu.Prelude.{ℕ, suc, ◌≡◌, sym, ap, [], none, some, length}
use educpu.Assembler.Errors.{ok, err}
use educpu.Assembler.Text.{Text}
use educpu.Assembler.Parser.{TokenLine}
use educpu.Assembler.Lexer.{lex_line, lexed_line, lex_loop, Lexed}

lexed_line-line_no :
    (line_no : ℕ) (l : Lexed) (tl : TokenLine) → lexed_line line_no l ≡ ok tl → tl.line_no ≡ line_no
unfolding lexed_line
lexed_line-line_no line_no none tl is = cc
lexed_line-line_no line_no (some (err e)) tl is = cc
lexed_line-line_no line_no (some (ok ts)) tl is =
    let same : record { tokens = ts; line_no = line_no } ≡ tl = cc in
    ap (λ (t : TokenLine). t.line_no) (sym same)

pub lex_line-line_no :
    (src : Text) (line_no : ℕ) (tl : TokenLine)
    → lex_line src line_no ≡ ok tl
    → tl.line_no ≡ line_no
unfolding lex_line
lex_line-line_no src line_no tl is =
    lexed_line-line_no line_no (lex_loop (suc (length src)) src []) tl is
