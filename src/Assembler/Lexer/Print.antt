-- ===== src/Assembler/Lexer/Print.antt =====
-- Lines that the lexer reads back: a printer of tokens.
use educpu.Prelude.{
  ℕ, suc, ◌+◌, ◌≤◌, ◌<◌, ◌≡◌, ◌≢◌, ◌⊎◌, inl, inr, refl, ◌∙◌, ap, arith, Bool, true, false, ◌&&◌,
  ◌||◌, List, [], ◌∷◌, ◌++◌, length, leb, ◌==◌, if◌then◌else◌, if_both, if_cases, if_yes, if_not,
  All,
}
use educpu.Assembler.Errors.{Result, ok}
use educpu.Assembler.Text.{Text}
use educpu.Assembler.Numbers.{is_digit}
use educpu.Assembler.Parser.{
  TokenKind, tok_none, tok_ident, tok_label, tok_number, tok_string, tok_directive, Token,
  max_token_len,
}
use educpu.Assembler.Lexer.{
  is_alnum, is_ident_start, is_ident_cont, c_string, escape, store, string_loop, run_loop,
  in_number, in_ident, is_sign, unsigned_number, number_text, starts_number,
}

-- A string literal's bytes, with a backslash before a quote or a backslash.
abbrev pub escaped : Text → Text
escaped [] = []
escaped (c ∷ s) = if c == b'"' || c == b'\\' then b'\\' ∷ c ∷ escaped s else c ∷ escaped s

abbrev pub print_as : TokenKind → Text → Text
print_as tok_label s = s ++ b':' ∷ []
print_as tok_string s = b'"' ∷ (escaped s ++ b'"' ∷ [])
print_as _ s = s

-- Tokens, each followed by a space.
abbrev pub print_tokens : List Token → Text
print_tokens [] = []
print_tokens (t ∷ ts) = print_as t.kind t.text ++ b' ' ∷ print_tokens ts

-- The rest of an identifier, and the rest of a number.
abbrev pub IsIdentRest : Text → Type 0
IsIdentRest w = All (λ c. is_ident_cont c ≡ true) w × (length w < max_token_len)

abbrev pub IsNumberRest : Text → Type 0
IsNumberRest w = All (λ c. is_alnum c ≡ true) w × (length w + 1 < max_token_len)

-- The texts that a token of each kind can have.
abbrev pub Printable : TokenKind → Text → Type 0
Printable tok_ident (c ∷ w) = (is_ident_start c ≡ true) × (c ≢ b'.') × IsIdentRest w
Printable tok_directive (c ∷ w) = (c ≡ b'.') × IsIdentRest w
Printable tok_label (c ∷ w) = (is_ident_start c ≡ true) × IsIdentRest w
Printable tok_number (c ∷ []) = is_digit c ≡ true
Printable tok_number (c ∷ d ∷ w) =
    (((is_digit c ≡ true) × (is_alnum d ≡ true)) ⊎ ((is_sign c ≡ true) × (is_digit d ≡ true)))
    × IsNumberRest w
Printable tok_string w = All (λ c. c ≢ 0) w × (length w ≤ max_token_len)
Printable _ w = ⊥

-- A run of bytes that pass ends at one that does not.
run_loop-append :
    (test : ℕ → ℕ → Bool) (P : ℕ → Type 0) (n : ℕ) (w : Text) (c : ℕ) (rest : Text)
    → ((k b : ℕ) → P b → test k b ≡ true)
    → ((k : ℕ) → test k c ≡ false)
    → All P w
    → n + length w ≤ max_token_len
    → run_loop test n (w ++ c ∷ rest) ≡ (w, c ∷ rest)
unfolding run_loop
run_loop-append test P n [] c rest passes stops h le = rw (stops n) refl
run_loop-append test P n (b ∷ w) c rest passes stops h le =
    let small : leb max_token_len n ≡ false = ground arith in
    rw
      (
        passes n b h.0,
        small,
        run_loop-append test P (n + 1) w c rest passes stops h.1 (omega arith),
      )
      refl

pub run_ident :
    (c : ℕ) (w : Text) (end : ℕ) (rest : Text)
    → is_ident_start c ≡ true
    → IsIdentRest w
    → is_ident_cont end ≡ false
    → end ≢ b'.'
    → run_loop in_ident 0 (c ∷ (w ++ end ∷ rest)) ≡ (c ∷ w, end ∷ rest)
unfolding run_loop
run_ident c w end rest start h stop no_dot =
    let first : in_ident 0 c ≡ true = ground arith in
    let stops : (k : ℕ) → in_ident k end ≡ false = λ k. ground arith in
    rw
      (
        first,
        run_loop-append in_ident (λ b. is_ident_cont b ≡ true) 1 w end rest (λ k b p. ground arith)
            stops h.0 (omega arith),
      )
      refl

run_number :
    (n : ℕ) (w rest : Text)
    → All (λ c. is_alnum c ≡ true) w
    → n + length w ≤ max_token_len
    → run_loop in_number n (w ++ b' ' ∷ rest) ≡ (w, b' ' ∷ rest)
run_number n w rest h le =
    run_loop-append in_number (λ b. is_alnum b ≡ true) n w b' ' rest (λ k b p. p) (λ k. refl) h le

unsigned_number-append :
    (n c : ℕ) (w rest : Text)
    → All (λ b. is_alnum b ≡ true) (c ∷ w)
    → n + suc (length w) ≤ max_token_len
    → unsigned_number n (c ∷ (w ++ b' ' ∷ rest)) ≡ (c ∷ w, b' ' ∷ rest)
unfolding unsigned_number
unsigned_number-append n c [] rest h le =
    if_cases (λ (r : Text × Text). r ≡ (c ∷ [], b' ' ∷ rest)) (c == b'0' && false)
      (λ e. absurd (ground arith)) (λ _. run_number n (c ∷ []) rest h le)
unsigned_number-append n c (x ∷ w) rest h le =
    if_both (λ (r : Text × Text). r ≡ (c ∷ x ∷ w, b' ' ∷ rest))
      (c == b'0' && (x == b'x' || x == b'X' || x == b'b' || x == b'B'))
      (ap (λ (p : Text × Text). (c ∷ x ∷ p.0, p.1)) (run_number (n + 2) w rest h.1.1 (omega arith)))
      (run_number n (c ∷ x ∷ w) rest h le)

pub number_text-print :
    (c : ℕ) (w rest : Text)
    → Printable tok_number (c ∷ w)
    → (number_text (c ∷ (w ++ b' ' ∷ rest)) ≡ (c ∷ w, b' ' ∷ rest))
      × (starts_number (c ∷ (w ++ b' ' ∷ rest)) ≡ true)
unfolding number_text starts_number
number_text-print c [] rest h = (
  if_not {b = is_sign c} _ _ (ground arith)
      ∙ unsigned_number-append 0 c [] rest (ground arith) (omega arith),
  ground arith,
)
number_text-print c (d ∷ w) rest (inl (first, second), h) = (
  if_not {b = is_sign c} _ _ (ground arith)
      ∙ unsigned_number-append 0 c (d ∷ w) rest (ground arith, (second, h.0)) (omega arith),
  ground arith,
)
number_text-print c (d ∷ w) rest (inr (first, second), h) = (
  if_yes {b = is_sign c} _ _ first
      ∙ ap (λ (p : Text × Text). (c ∷ p.0, p.1))
          (unsigned_number-append 1 d w rest (ground arith, h.0) (omega arith)),
  ground arith,
)

string_loop-plain :
    (n c : ℕ) (s : Text)
    → s ≢ []
    → c ≢ b'"'
    → c ≢ b'\\'
    → string_loop n (c ∷ s) ≡ store n c (string_loop (n + 1) s)
unfolding string_loop
string_loop-plain n c [] some_text h k = absurd (some_text refl)
string_loop-plain n c (e ∷ s) some_text h k =
    let p : (c == b'"') ≡ false = ground arith in
    let q : (c == b'\\') ≡ false = ground arith in rw (p, q, string_loop) refl

store-append :
    (n c : ℕ) (w rest : Text) (r : Result (Text × Text))
    → n < max_token_len
    → r ≡ ok (w, rest)
    → store n c r ≡ ok (c ∷ w, rest)
unfolding store
store-append n c w rest r h e =
    let small : leb max_token_len n ≡ false = ground arith in rw (small, e) refl

string_loop-quote : (n : ℕ) (rest : Text) → string_loop n (b'"' ∷ rest) ≡ ok ([], rest)
unfolding string_loop
string_loop-quote n [] = refl
string_loop-quote n (e ∷ s) = refl

string_loop-backslash :
    (n c : ℕ) (s : Text)
    → string_loop n (b'\\' ∷ c ∷ s) ≡ store n (escape c) (string_loop (n + 1) s)
unfolding string_loop
string_loop-backslash n c s = refl

append-not_empty : (w : Text) (c : ℕ) (rest : Text) → (w ++ c ∷ rest) ≢ []
append-not_empty [] c rest e = cc
append-not_empty (b ∷ w) c rest e = cc

pub string_loop-escaped :
    (n : ℕ) (w rest : Text)
    → n + length w ≤ max_token_len
    → string_loop n (escaped w ++ b'"' ∷ rest) ≡ ok (w, rest)
string_loop-escaped n [] rest le = string_loop-quote n rest
string_loop-escaped n (c ∷ w) rest le =
    if_cases (λ (t : Text). string_loop n (t ++ b'"' ∷ rest) ≡ ok (c ∷ w, rest))
      (c == b'"' || c == b'\\')
      (λ special.
        let same : escape c ≡ c = ground arith in
        string_loop-backslash n c (escaped w ++ b'"' ∷ rest)
        ∙ store-append n (escape c) w rest _ (omega arith)
            (string_loop-escaped (n + 1) w rest (omega arith))
        ∙ rw same refl)
      (λ plain.
        string_loop-plain n c (escaped w ++ b'"' ∷ rest) (append-not_empty (escaped w) b'"' rest)
          (ground arith) (ground arith)
        ∙ store-append n c w rest _ (omega arith)
            (string_loop-escaped (n + 1) w rest (omega arith)))

pub c_string-All : (w : Text) → All (λ c. c ≢ 0) w → c_string w ≡ w
unfolding c_string
c_string-All [] h = refl
c_string-All (c ∷ w) h = if_not {b = c == 0} _ _ (ground arith) ∙ ap (◌∷◌ c) (c_string-All w h.1)

All-impl : (P Q : ℕ → Type 0) (w : Text) → ((c : ℕ) → P c → Q c) → All P w → All Q w
All-impl P Q [] f h = tt
All-impl P Q (c ∷ w) f h = (f c h.0, All-impl P Q w f h.1)

-- A printable text is kept whole.
pub Printable-whole :
    (k : TokenKind) (s : Text) → Printable k s → All (λ c. c ≢ 0) s × (length s ≤ max_token_len)
Printable-whole tok_none s h = absurd h
Printable-whole tok_ident (c ∷ w) (p, q, r) =
    ((ground arith, All-impl _ _ w (λ b e. ground arith) r.0), omega arith)
Printable-whole tok_directive (c ∷ w) (p, r) =
    ((ground arith, All-impl _ _ w (λ b e. ground arith) r.0), omega arith)
Printable-whole tok_label (c ∷ w) (p, r) =
    ((ground arith, All-impl _ _ w (λ b e. ground arith) r.0), omega arith)
Printable-whole tok_number (c ∷ []) h = ((ground arith, tt), omega arith)
Printable-whole tok_number (c ∷ d ∷ w) (p, r) =
    ((ground arith, (ground arith, All-impl _ _ w (λ b e. ground arith) r.0)), omega arith)
Printable-whole tok_string w h = h
Printable-whole tok_ident [] h = absurd h
Printable-whole tok_directive [] h = absurd h
Printable-whole tok_label [] h = absurd h
Printable-whole tok_number [] h = absurd h
