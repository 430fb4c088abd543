-- ===== src/Assembler/Lexer/Ends.antt =====
-- The lexer ends on every line, and its tokens fit the arrays of a TokenLine.
use educpu.Prelude.{
  ℕ, zero, suc, ◌+◌, ◌≤◌, ◌<◌, ◌≡◌, inl, inr, arith, Bool, true, List, [], ◌∷◌, none, some, length,
  length-append, leb, ◌==◌, if_both, if_cases, Bool-cases, All, All-append,
}
use educpu.Assembler.Errors.{Result, ok, err, ResultAll}
use educpu.Assembler.Text.{Text, length-take, take}
use educpu.Assembler.Numbers.{is_digit}
use educpu.Assembler.Parser.{TokenKind, Token, max_token_len}
use educpu.Assembler.Lexer.{
  max_tokens_per_line, is_ident_start, c_string, push_token, skip_blanks, escape, store,
  string_loop, run_loop, in_number, in_ident, unsigned_number, number_text, starts_number,
  ident_end, string_end, next_token, Lexed, push_and_go, lex_round, lex_loop,
}

-- The tokens fit the arrays of a line.
pub record FitsLine (ts : List Token) : Type 0 where
  pub count_fits : length ts ≤ max_tokens_per_line
  pub texts_fit : All (λ t. length t.text ≤ max_token_len) ts

push_token-FitsLine :
    (ts : List Token) (kind : TokenKind) (text : Text)
    → FitsLine ts
    → ResultAll FitsLine (push_token ts kind text)
unfolding push_token
push_token-FitsLine ts kind text h = elim (Bool-cases (leb max_tokens_per_line (length ts))) [
  | inl full ↦ rw full tt
  | inr room ↦ rw room (record {
    count_fits = ground (
      arith,
      length-append ts (record { kind = kind; text = take max_token_len (c_string text) } ∷ []),
    );
    texts_fit = All-append _ ts _ h.texts_fit (length-take max_token_len (c_string text), tt);
  })
]

skip_blanks-le : (s : Text) → length (skip_blanks s) ≤ length s
unfolding skip_blanks
skip_blanks-le [] = omega arith
skip_blanks-le (c ∷ s) = ground (arith, skip_blanks-le s)

run_loop-le : (test : ℕ → ℕ → Bool) (n : ℕ) (s : Text) → length (run_loop test n s).1 ≤ length s
unfolding run_loop
run_loop-le test n [] = omega arith
run_loop-le test n (c ∷ s) = ground (arith, run_loop-le test (n + 1) s)

-- The first byte is taken if it passes the test.
run_loop-lt :
    (test : ℕ → ℕ → Bool) (c : ℕ) (s : Text)
    → test 0 c ≡ true
    → length (run_loop test 0 (c ∷ s)).1 ≤ length s
unfolding run_loop
run_loop-lt test c s h = rw h (run_loop-le test 1 s)

-- What is left after a token.
abbrev Leaves : ℕ → Result (TokenKind × Text × Text) → Type 0
Leaves n r = ResultAll (λ p. length p.2 ≤ n) r

abbrev LeavesText : ℕ → Result (Text × Text) → Type 0
LeavesText n r = ResultAll (λ p. length p.1 ≤ n) r

store-LeavesText :
    (n c k : ℕ) (r : Result (Text × Text)) → LeavesText k r → LeavesText k (store n c r)
unfolding store
store-LeavesText n c k (ok p) h = if_both (LeavesText k) (leb max_token_len n) tt h
store-LeavesText n c k (err e) h = if_both (LeavesText k) (leb max_token_len n) tt tt

wider : (k l : ℕ) (r : Result (Text × Text)) → k ≤ l → LeavesText k r → LeavesText l r
wider k l (ok p) h left = omega arith
wider k l (err e) h left = tt

string_loop-LeavesText : (n : ℕ) (s : Text) → LeavesText (length s) (string_loop n s)
unfolding string_loop
string_loop-LeavesText n [] = tt
string_loop-LeavesText n (c ∷ []) = if_both (LeavesText 1) (c == b'"') (omega arith) tt
string_loop-LeavesText n (c ∷ e ∷ s) = elim (Bool-cases (c == b'"')) [
  | inl quote ↦ rw (quote, string_loop) (omega arith)
  | inr more ↦ elim (Bool-cases (c == b'\\')) [
    | inl escaped ↦
        rw (more, escaped, string_loop)
          (store-LeavesText n (escape e) _ _
            (wider _ _ (string_loop (n + 1) s) (omega arith) (string_loop-LeavesText (n + 1) s)))
    | inr plain ↦
        rw (more, plain, string_loop)
          (store-LeavesText n c _ _ (
            wider _ _ (string_loop (n + 1) (e ∷ s)) (omega arith)
              (string_loop-LeavesText (n + 1) (e ∷ s))))
  ]
]

unsigned_number-le : (n : ℕ) (s : Text) → length (unsigned_number n s).1 ≤ length s
unfolding unsigned_number
unsigned_number-le n [] = run_loop-le in_number n []
unsigned_number-le n (z ∷ []) = run_loop-le in_number n (z ∷ [])
unsigned_number-le n (z ∷ x ∷ s) =
    ground (arith, run_loop-le in_number (n + 2) s, run_loop-le in_number n (z ∷ x ∷ s))

unsigned_number-lt :
    (c : ℕ) (s : Text) → is_digit c ≡ true → length (unsigned_number 0 (c ∷ s)).1 ≤ length s
unfolding unsigned_number
unsigned_number-lt c [] h = run_loop-lt in_number c [] (ground arith)
unsigned_number-lt c (x ∷ s) h =
    ground (arith, run_loop-le in_number 2 s, run_loop-lt in_number c (x ∷ s))

number_text-lt :
    (c : ℕ) (s : Text) → starts_number (c ∷ s) ≡ true → length (number_text (c ∷ s)).1 ≤ length s
unfolding number_text starts_number
number_text-lt c [] h = ground (arith, unsigned_number-le 1 [], unsigned_number-lt c [])
number_text-lt c (d ∷ s) h =
    ground (arith, unsigned_number-le 1 (d ∷ s), unsigned_number-lt c (d ∷ s))

ident_end-le : (b : Bool) (word rest : Text) → length (ident_end b word rest).2 ≤ length rest
unfolding ident_end
ident_end-le b word [] = omega arith
ident_end-le b word (c ∷ s) = ground arith

string_end-Leaves : (n : ℕ) (r : Result (Text × Text)) → LeavesText n r → Leaves n (string_end r)
unfolding string_end
string_end-Leaves n (ok p) h = h
string_end-Leaves n (err e) h = tt

ident_end-lt :
    (c : ℕ) (s : Text)
    → is_ident_start c ≡ true
    → length
        (ident_end (c == b'.') (run_loop in_ident 0 (c ∷ s)).0 (run_loop in_ident 0 (c ∷ s)).1).2
      ≤ length s
ident_end-lt c s h =
    let word = run_loop in_ident 0 (c ∷ s) in
    omega (arith, ident_end-le (c == b'.') word.0 word.1, run_loop-lt in_ident c s (ground arith))

-- A token takes its first byte at least.
next_token-Leaves : (c : ℕ) (s : Text) → Leaves (length s) (next_token c s)
unfolding next_token
next_token-Leaves c s =
    if_both (Leaves (length s)) (c == b'"') (string_end-Leaves _ _ (string_loop-LeavesText 0 s)) (
      if_cases (Leaves (length s)) (starts_number (c ∷ s)) (number_text-lt c s)
        (λ _. if_cases (Leaves (length s)) (is_ident_start c) (ident_end-lt c s) (λ _. tt)))

-- The outcome of the loop: it is not out of fuel, and the tokens fit.
abbrev pub Ends : Lexed → Type 0
Ends none = ⊥
Ends (some (err e)) = Unit
Ends (some (ok ts)) = FitsLine ts

pushed-Ends :
    (r : Result (List Token)) (rest : Text) (next : Text → List Token → Lexed)
    → ResultAll FitsLine r
    → ((more : List Token) → FitsLine more → Ends (next rest more))
    → Ends (elim r as (λ _. Lexed) [ err e ↦ some (err e) | ok more ↦ next rest more ])
pushed-Ends (ok more) rest next fits step = step more fits
pushed-Ends (err e) rest next fits step = tt

push_and_go-Ends :
    (n : ℕ) (r : Result (TokenKind × Text × Text)) (ts : List Token)
    (next : Text → List Token → Lexed)
    → Leaves n r
    → FitsLine ts
    → ((rest : Text) (more : List Token) → length rest ≤ n → FitsLine more → Ends (next rest more))
    → Ends (push_and_go r ts next)
unfolding push_and_go
push_and_go-Ends n (err e) ts next left fits step = tt
push_and_go-Ends n (ok (kind, word, rest)) ts next left fits step =
    pushed-Ends (push_token ts kind word) rest next (push_token-FitsLine ts kind word fits)
      (λ more. step rest more left)

lex_round-Ends :
    (s : Text) (ts : List Token) (next : Text → List Token → Lexed)
    → FitsLine ts
    → ((rest : Text) (more : List Token)
        → length rest < length s
        → FitsLine more
        → Ends (next rest more))
    → Ends (lex_round s ts next)
unfolding lex_round
lex_round-Ends [] ts next fits step = fits
lex_round-Ends (c ∷ s) ts next fits step = if_both Ends (c == b';') fits (
    push_and_go-Ends (length s) (next_token c s) ts next (next_token-Leaves c s) fits
      (λ rest more le. step rest more (omega arith)))

-- With more fuel than bytes the loop ends, and the tokens it returns fit a line, if those before did.
lex_loop-Ends :
    (fuel : ℕ) (s : Text) (ts : List Token)
    → length s < fuel
    → FitsLine ts
    → Ends (lex_loop fuel s ts)
unfolding lex_loop
lex_loop-Ends zero s ts lt fits = absurd (omega arith)
lex_loop-Ends (suc fuel) s ts lt fits =
    lex_round-Ends (skip_blanks s) ts (lex_loop fuel) fits
      (λ rest more shorter. lex_loop-Ends fuel rest more (omega (arith, skip_blanks-le s)))

-- The loop of `lex_line` ends on every text: with an error, or with at most 16 tokens, each of at
-- most 127 bytes. No fuel but the length of the text is needed.
pub lex_line-Ends : (src : Text) → Ends (lex_loop (suc (length src)) src [])
lex_line-Ends src = lex_loop-Ends (suc (length src)) src [] (omega arith) (omega arith)
