-- ===== src/Assembler/Lexer/ReadBack.antt =====
-- The lexer reads printed tokens back.
use mathlib.Core.List.{append_assoc, append-nil}
use educpu.Prelude.{
  ℕ, zero, suc, ◌+◌, ◌≤◌, ◌<◌, ◌≡◌, ◌≢◌, ◌∙◌, refl, sym, ap, arith, true, false, ◌||◌, List, [],
  ◌∷◌, ◌++◌, some, length, length-append, leb, ◌==◌, if_yes, if_not, All,
}
use educpu.Assembler.Errors.{Result, ok}
use educpu.Assembler.Text.{Text, take, take_all}
use educpu.Assembler.Numbers.{is_space}
use educpu.Assembler.Parser.{
  TokenKind, tok_none, tok_ident, tok_label, tok_number, tok_string, tok_directive, Token,
  max_token_len,
}
use educpu.Assembler.Lexer.{
  max_tokens_per_line, is_ident_start, is_ident_cont, push_token, skip_blanks, string_loop,
  starts_number, ident_end, string_end, next_token, Lexed, push_and_go, lex_round, lex_loop,
  lexed_line, lex_line,
}
use educpu.Assembler.Lexer.Print.{
  escaped, print_as, print_tokens, IsIdentRest, Printable, run_ident, number_text-print,
  string_loop-escaped, c_string-All, Printable-whole,
}

starts_number-ident : (c : ℕ) (s : Text) → is_ident_start c ≡ true → starts_number (c ∷ s) ≡ false
unfolding starts_number
starts_number-ident c [] h = ground arith
starts_number-ident c (d ∷ s) h = ground arith

next_token-ident :
    (c : ℕ) (w : Text) (end : ℕ) (rest : Text)
    → is_ident_start c ≡ true
    → IsIdentRest w
    → is_ident_cont end ≡ false
    → end ≢ b'.'
    → next_token c (w ++ end ∷ rest) ≡ ok (ident_end (c == b'.') (c ∷ w) (end ∷ rest))
unfolding next_token
next_token-ident c w end rest start h stop no_dot =
    if_not {b = c == b'"'} _ _ (ground arith)
    ∙ if_not _ _ (starts_number-ident c (w ++ end ∷ rest) start)
    ∙ if_yes {b = is_ident_start c} _ _ start
    ∙ ap (λ (p : Text × Text). ok (ident_end (c == b'.') p.0 p.1))
        (run_ident c w end rest start h stop no_dot)

next_token-number :
    (c : ℕ) (w rest : Text)
    → Printable tok_number (c ∷ w)
    → c ≢ b'"'
    → next_token c (w ++ b' ' ∷ rest) ≡ ok (tok_number, c ∷ w, b' ' ∷ rest)
unfolding next_token
next_token-number c w rest h no_quote =
    let (text, starts) = number_text-print c w rest h in
    if_not {b = c == b'"'} _ _ (ground arith)
    ∙ if_yes _ _ starts
    ∙ ap (λ (p : Text × Text). ok (tok_number, p.0, p.1)) text

next_token-string :
    (w rest : Text)
    → length w ≤ max_token_len
    → next_token b'"' ((escaped w ++ b'"' ∷ []) ++ b' ' ∷ rest) ≡ ok (tok_string, w, b' ' ∷ rest)
unfolding next_token string_end
next_token-string w rest h =
    ap (λ (t : Text). string_end (string_loop 0 t))
      (append_assoc (escaped w) (b'"' ∷ []) (b' ' ∷ rest))
    ∙ ap string_end (string_loop-escaped 0 w (b' ' ∷ rest) (omega arith))

-- A byte that starts a token.
abbrev Starts : ℕ → Type 0
Starts c = ((is_space c || c == b',') ≡ false) × (c ≢ b';')

lex_round-first :
    (c : ℕ) (s : Text) (ts : List Token) (next : Text → List Token → Lexed)
    → Starts c
    → lex_round (skip_blanks (c ∷ s)) ts next ≡ push_and_go (next_token c s) ts next
unfolding lex_round skip_blanks
lex_round-first c s ts next (no_blank, no_comment) =
    ap (λ (t : Text). lex_round t ts next) (if_not {b = is_space c || c == b','} _ _ no_blank)
    ∙ if_not {b = c == b';'} _ _ (ground arith)

module _ (rest : Text) (ts : List Token) (next : Text → List Token → Lexed) where
  abbrev Reads : TokenKind → Text → Type 0
  Reads k s =
      lex_round (skip_blanks (print_as k s ++ b' ' ∷ rest)) ts next
      ≡ push_and_go (ok (k, s, b' ' ∷ rest)) ts next

  go :
      {p q : Result (TokenKind × Text × Text)}
      → p ≡ q
      → push_and_go p ts next ≡ push_and_go q ts next
  go e = ap (λ (r : Result (TokenKind × Text × Text)). push_and_go r ts next) e

  Reads-number :
      (c : ℕ) (w : Text)
      → Printable tok_number (c ∷ w)
      → Starts c
      → c ≢ b'"'
      → Reads tok_number (c ∷ w)
  Reads-number c w h starts no_quote =
      lex_round-first c (w ++ b' ' ∷ rest) ts next starts
      ∙ go (next_token-number c w rest h no_quote)

  lex_round-print : (k : TokenKind) (s : Text) → Printable k s → Reads k s
  unfolding ident_end
  lex_round-print tok_none s h = absurd h
  lex_round-print tok_ident [] h = absurd h
  lex_round-print tok_directive [] h = absurd h
  lex_round-print tok_label [] h = absurd h
  lex_round-print tok_number [] h = absurd h
  lex_round-print tok_ident (c ∷ w) (start, no_dot, h) =
      let plain : (c == b'.') ≡ false = ground arith in
      lex_round-first c (w ++ b' ' ∷ rest) ts next (ground arith, ground arith)
      ∙ go (next_token-ident c w b' ' rest start h refl (ground arith) ∙ rw plain refl)
  lex_round-print tok_directive (c ∷ w) (dot, h) =
      let dotted : (c == b'.') ≡ true = ground arith in
      lex_round-first c (w ++ b' ' ∷ rest) ts next (ground arith, ground arith)
      ∙ go (next_token-ident c w b' ' rest (ground arith) h refl (ground arith) ∙ rw dotted refl)
  lex_round-print tok_label (c ∷ w) (start, h) =
      ap (λ (t : Text). lex_round (skip_blanks (c ∷ t)) ts next)
        (append_assoc w (b':' ∷ []) (b' ' ∷ rest))
      ∙ lex_round-first c (w ++ b':' ∷ b' ' ∷ rest) ts next (ground arith, ground arith)
      ∙ go (next_token-ident c w b':' (b' ' ∷ rest) start h refl (ground arith))
  lex_round-print tok_number (c ∷ []) h =
      Reads-number c [] h (ground arith, ground arith) (ground arith)
  lex_round-print tok_number (c ∷ d ∷ w) h =
      Reads-number c (d ∷ w) h (ground arith, ground arith) (ground arith)
  lex_round-print tok_string w (no_zero, short) =
      lex_round-first b'"' ((escaped w ++ b'"' ∷ []) ++ b' ' ∷ rest) ts next (refl, ground arith)
      ∙ go (next_token-string w rest short)

push_token-print :
    (ts : List Token) (t : Token)
    → Printable t.kind t.text
    → length ts < max_tokens_per_line
    → push_token ts t.kind t.text ≡ ok (ts ++ t ∷ [])
unfolding push_token
push_token-print ts t h room =
    let (no_zero, short) = Printable-whole t.kind t.text h in
    if_not {b = leb max_tokens_per_line (length ts)} _ _ (ground arith)
    ∙ ap (λ (s : Text). ok (ts ++ record { kind = t.kind; text = s } ∷ []))
        (ap (take max_token_len) (c_string-All t.text no_zero)
          ∙ take_all max_token_len t.text short)

push_and_go-print :
    (ts : List Token) (t : Token) (rest : Text) (next : Text → List Token → Lexed)
    → Printable t.kind t.text
    → length ts < max_tokens_per_line
    → push_and_go (ok (t.kind, t.text, rest)) ts next ≡ next rest (ts ++ t ∷ [])
unfolding push_and_go
push_and_go-print ts t rest next h room = rw (push_token-print ts t h room, push_and_go) refl

lex_loop-blank :
    (fuel : ℕ) (s : Text) (ts : List Token) → lex_loop fuel (b' ' ∷ s) ts ≡ lex_loop fuel s ts
unfolding lex_loop skip_blanks
lex_loop-blank zero s ts = refl
lex_loop-blank (suc fuel) s ts = refl

lex_loop-print :
    (fuel : ℕ) (ts done : List Token)
    → All (λ t. Printable t.kind t.text) ts
    → length done + length ts ≤ max_tokens_per_line
    → length ts < fuel
    → lex_loop fuel (print_tokens ts) done ≡ some (ok (done ++ ts))
unfolding lex_loop skip_blanks lex_round
lex_loop-print zero ts done h le lt = absurd (omega arith)
lex_loop-print (suc fuel) [] done h le lt =
    ap (λ (l : List Token). some (ok l)) (sym (append-nil done))
lex_loop-print (suc fuel) (t ∷ ts) done h le lt =
    lex_round-print (print_tokens ts) done (lex_loop fuel) t.kind t.text h.0
    ∙ push_and_go-print done t (b' ' ∷ print_tokens ts) (lex_loop fuel) h.0 (omega arith)
    ∙ lex_loop-blank fuel (print_tokens ts) (done ++ t ∷ [])
    ∙ lex_loop-print fuel ts (done ++ t ∷ []) h.1 (omega (arith, length-append done (t ∷ [])))
        (omega arith)
    ∙ ap (λ (l : List Token). some (ok l)) (append_assoc done (t ∷ []) ts)

length-print_tokens : (ts : List Token) → length ts ≤ length (print_tokens ts)
length-print_tokens [] = omega arith
length-print_tokens (t ∷ ts) =
    omega (
      arith,
      length-append (print_as t.kind t.text) (b' ' ∷ print_tokens ts),
      length-print_tokens ts,
    )

-- At most sixteen printable tokens, each followed by a space, are read back as they are: the kinds,
-- the texts and the order, with the escapes of strings undone.
pub lex_line-print_tokens :
    (ts : List Token) (line_no : ℕ)
    → All (λ t. Printable t.kind t.text) ts
    → length ts ≤ max_tokens_per_line
    → lex_line (print_tokens ts) line_no ≡ ok (record { tokens = ts; line_no = line_no })
unfolding lex_line lexed_line
lex_line-print_tokens ts line_no h le = ap (lexed_line line_no) (
    lex_loop-print (suc (length (print_tokens ts))) ts [] h (omega arith)
      (omega (arith, length-print_tokens ts)))
