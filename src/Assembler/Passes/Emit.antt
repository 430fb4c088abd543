-- ===== src/Assembler/Passes/Emit.antt =====
-- The words of one line, and that the second pass writes exactly them from the line's address on.
pub mod Words
use mathlib.Core.Path.{ap₂}
use educpu.Prelude.{
  ℕ, zero, suc, ◌+◌, ◌-◌, ◌*◌, ◌/◌, ◌%◌, ◌^◌, ◌≤◌, ◌<◌, ◌≡◌, ◌∙◌, refl, sym, ap, arith, Bool, true,
  false, List, [], ◌∷◌, Option, none, some, length, get_or, bit_or, leb, ◌==◌, if◌then◌else◌,
  if_cases, if_yes, if_not, Bool-cases,
}
use educpu.Prelude.Bits.{bit_or-field, bit_or_comm}
use educpu.Prelude.Int.{to_u16}
use educpu.Emulator.Memory.{update}
use educpu.Assembler.Errors.{Result, ok, err, Result-cases}
use educpu.Assembler.Text.{Text}
use educpu.Assembler.Syntax.{Instr}
use educpu.Assembler.Parser.{
  ParsedKind, pl_empty, pl_label, pl_instr, pl_directive, DirectiveKind, dir_org, dir_word,
  dir_ascii, dir_equ, Directive, ParsedLine,
}
use educpu.Assembler.Encoder.{encode_instr}
use educpu.Assembler.Symtable.{SymTable}
use educpu.Assembler.Passes.{
  line_size, directive_size, size_of, resolve_operand, Pass2, error2, write_word, resolve_loop,
  encoded, emit_instr, emit_word, packed_word, ascii_loop, emit_ascii, emit_directive, emit_kind,
  pass2_line,
}

-- A text with its terminator, two bytes to a word, the first one low.
abbrev pub pack : Text → List ℕ
pack [] = 0 ∷ []
pack (c ∷ []) = (c % 2 ^ 8) ∷ []
pack (c ∷ d ∷ s) = (c % 2 ^ 8 + d % 2 ^ 8 * 2 ^ 8) ∷ pack s

-- Words at consecutive addresses.
abbrev pub write_words : ℕ → List ℕ → Pass2 → Pass2
write_words a [] st = st
write_words a (w ∷ ws) st = write_words ((a + 1) % 2 ^ 16) ws (write_word a w st)

packed_pair :
    (lo hi : ℕ)
    → bit_or (lo % 2 ^ 8) (hi % 2 ^ 8 * 2 ^ 8) % 2 ^ 16 ≡ lo % 2 ^ 8 + hi % 2 ^ 8 * 2 ^ 8
packed_pair lo hi = omega (
  arith,
  bit_or_comm (lo % 2 ^ 8) (hi % 2 ^ 8 * 2 ^ 8),
  bit_or-field 8 (hi % 2 ^ 8) (lo % 2 ^ 8) (omega arith),
)

-- `t` is what stands in `s` from `b` on.
abbrev TailAt : Text → ℕ → Text → Type 0
TailAt s b t = (length s ≡ b + length t) × ((j : ℕ) → get_or s (b + j) 0 ≡ get_or t j 0)

packed_word_lem :
    (s : Text) (b x y : ℕ)
    → b ≤ length s
    → get_or s b 0 ≡ x
    → get_or s (b + 1) 0 ≡ y
    → (length s < b + 1 → y ≡ 0)
    → packed_word s (length s) b ≡ x % 2 ^ 8 + y % 2 ^ 8 * 2 ^ 8
packed_word_lem s b x y le at_b at_next none_left =
    ap₂ (λ (lo hi : ℕ). bit_or lo (hi * 2 ^ 8) % 2 ^ 16)
      (let e : (if leb b (length s) then get_or s b 0 % 2 ^ 8 else 0) ≡ x % 2 ^ 8 = ground arith in
        e)
      (if_cases (λ (h : ℕ). h ≡ y % 2 ^ 8) (leb (b + 1) (length s))
        (λ _. ap (λ (t : ℕ). t % 2 ^ 8) at_next)
        (λ past. let zero_left : y ≡ 0 = none_left (ground arith) in omega arith))
    ∙ packed_pair x y

TailAt-packed :
    (s : Text) (b x y : ℕ) (t : Text)
    → TailAt s b t
    → get_or t 0 0 ≡ x
    → get_or t 1 0 ≡ y
    → (length t < 1 → y ≡ 0)
    → packed_word s (length s) b ≡ x % 2 ^ 8 + y % 2 ^ 8 * 2 ^ 8
TailAt-packed s b x y t (len, same) first second none_left =
    let here : b + 0 ≡ b = omega arith in
    packed_word_lem s b x y (omega arith) (ap (λ (i : ℕ). get_or s i 0) (sym here) ∙ same 0 ∙ first)
      (same 1 ∙ second) (λ past. none_left (omega arith))

TailAt-next : (s : Text) (b c d : ℕ) (t : Text) → TailAt s b (c ∷ d ∷ t) → TailAt s (b + 2) t
TailAt-next s b c d t (len, same) = (
  omega arith,
  λ j.
      let e : b + 2 + j ≡ b + suc (suc j) = omega arith in
      ap (λ (i : ℕ). get_or s i 0) e ∙ same (suc (suc j)),
)

ascii_loop-pack :
    (t s : Text) (b a : ℕ) (st : Pass2)
    → TailAt s b t
    → ascii_loop (length t / 2 + 1) b s (length s) a st ≡ write_words a (pack t) st
unfolding ascii_loop
ascii_loop-pack [] s b a st at =
    ap (λ (w : ℕ). write_word a w st) (TailAt-packed s b 0 0 [] at refl refl (λ _. refl))
ascii_loop-pack (c ∷ []) s b a st at =
    ap (λ (w : ℕ). write_word a w st)
      (TailAt-packed s b c 0 (c ∷ []) at refl refl (λ _. refl)
        ∙ (let e : c % 2 ^ 8 + 0 % 2 ^ 8 * 2 ^ 8 ≡ c % 2 ^ 8 = omega arith in e))
ascii_loop-pack (c ∷ d ∷ t) s b a st at =
    let rounds : suc (suc (length t)) / 2 + 1 ≡ suc (length t / 2 + 1) = omega arith in
    let word = TailAt-packed s b c d (c ∷ d ∷ t) at refl refl (λ past. absurd (omega arith)) in
    ap (λ (left : ℕ). ascii_loop left b s (length s) a st) rounds
    ∙ ascii_loop-pack t s (b + 2) ((a + 1) % 2 ^ 16) (write_word a (packed_word s (length s) b) st)
        (TailAt-next s b c d t at)
    ∙ ap (λ (w : ℕ). write_words ((a + 1) % 2 ^ 16) (pack t) (write_word a w st)) word

length-pack : (s : Text) → length (pack s) ≡ length s / 2 + 1
length-pack [] = refl
length-pack (c ∷ []) = refl
length-pack (c ∷ d ∷ s) = omega (arith, length-pack s)

unfoldable pub encoded_words : Result ℕ → Option (List ℕ)
encoded_words (ok w) = some (w ∷ [])
encoded_words (err e) = none

unfoldable pub instr_words : Instr × Bool → ℕ → Option (List ℕ)
unfolding encoded_words
instr_words (i, resolved) pc = if resolved then encoded_words (encode_instr i pc) else none

unfoldable pub directive_words : DirectiveKind → SymTable → Directive → Option (List ℕ)
directive_words dir_word table d =
    let (o, resolved) = resolve_operand table d.value in
    if resolved then some (to_u16 o.imm ∷ []) else none
directive_words dir_ascii table d = some (pack d.str)
directive_words _ table d = some []

unfoldable pub kind_words : ParsedKind → SymTable → ParsedLine → Option (List ℕ)
unfolding instr_words directive_words
kind_words pl_instr table pl = instr_words (resolve_loop pl.instr.nops 0 table pl.instr) pl.address
kind_words pl_directive table pl = directive_words pl.dir.kind table pl.dir
kind_words _ table pl = some []

-- The words that a line stands for, unless a label is undefined or its instruction cannot be encoded.
unfoldable pub line_words : SymTable → ParsedLine → Option (List ℕ)
unfolding kind_words
line_words table pl = kind_words pl.kind table pl

-- A step of the second pass counts an error, or writes `n` words from `a` on.
abbrev pub Writes : (Pass2 → Pass2) → ℕ → ℕ → Option (List ℕ) → Type 0
Writes step a n none = (st : Pass2) → step st ≡ error2 st
Writes step a n (some ws) = ((st : Pass2) → step st ≡ write_words a ws st) × (length ws ≡ n)

encoded-Writes : (a : ℕ) (r : Result ℕ) → Writes (encoded r a) a 1 (encoded_words r)
unfolding encoded encoded_words
encoded-Writes a (ok w) = (λ st. refl, refl)
encoded-Writes a (err e) = λ st. refl

instr-Writes :
    (a : ℕ) (i : Instr) (b : Bool)
    → Writes
        (λ st. if b then encoded (encode_instr i a) a st else error2 st)
        a
        1
        (instr_words (i, b) a)
unfolding instr_words
instr-Writes a i true = encoded-Writes a (encode_instr i a)
instr-Writes a i false = λ st. refl

word-Writes :
    (a w : ℕ) (b : Bool)
    → Writes
        (λ st. if b then write_word a w st else error2 st)
        a
        1
        (if b then some (w ∷ []) else none)
word-Writes a w true = (λ st. refl, refl)
word-Writes a w false = λ st. refl

emit_ascii-write_words :
    (pl : ParsedLine) (st : Pass2)
    → pl.dir.str_len ≡ length pl.dir.str
    → emit_ascii pl st ≡ write_words pl.address (pack pl.dir.str) st
unfolding emit_ascii
emit_ascii-write_words pl st len =
    ap (λ (n : ℕ). ascii_loop (n / 2 + 1) 0 pl.dir.str n pl.address st) len
    ∙ ascii_loop-pack pl.dir.str pl.dir.str 0 pl.address st
        (omega arith, λ j. ap (λ (i : ℕ). get_or pl.dir.str i 0) (omega arith))

directive-Writes :
    (k : DirectiveKind) (table : SymTable) (pl : ParsedLine)
    → pl.dir.str_len ≡ length pl.dir.str
    → length pl.dir.str ≤ 127
    → Writes
        (emit_directive k table pl)
        pl.address
        (directive_size k pl.dir.str_len)
        (directive_words k table pl.dir)
unfolding emit_directive emit_word directive_words
directive-Writes dir_org table pl len short = (λ st. refl, refl)
directive-Writes dir_equ table pl len short = (λ st. refl, refl)
directive-Writes dir_word table pl len short =
    word-Writes pl.address (to_u16 (resolve_operand table pl.dir.value).0.imm)
      (resolve_operand table pl.dir.value).1
directive-Writes dir_ascii table pl len short =
    (λ st. emit_ascii-write_words pl st len, omega (arith, length-pack pl.dir.str))

kind-Writes :
    (k : ParsedKind) (table : SymTable) (pl : ParsedLine)
    → pl.dir.str_len ≡ length pl.dir.str
    → length pl.dir.str ≤ 127
    → Writes (emit_kind k table pl) pl.address (size_of k pl.dir) (kind_words k table pl)
unfolding emit_kind emit_instr kind_words
kind-Writes pl_empty table pl len short = (λ st. refl, refl)
kind-Writes pl_label table pl len short = (λ st. refl, refl)
kind-Writes pl_directive table pl len short = directive-Writes pl.dir.kind table pl len short
kind-Writes pl_instr table pl len short =
    let r = resolve_loop pl.instr.nops 0 table pl.instr in instr-Writes pl.address r.0 r.1

-- On a line whose string is as the parser leaves it, of the length that is kept with it and of 127
-- bytes at most, the second pass counts an error if the line has no words, and otherwise writes its
-- words from the line's address on: as many as `line_size` has made room for in the first pass.
pub pass2_line-Writes :
    (table : SymTable) (pl : ParsedLine)
    → pl.dir.str_len ≡ length pl.dir.str
    → length pl.dir.str ≤ 127
    → Writes (pass2_line table pl) pl.address (line_size pl) (line_words table pl)
unfolding pass2_line line_words
pass2_line-Writes table pl len short = kind-Writes pl.kind table pl len short
