-- ===== src/Assembler/Passes/Emit/Words.antt =====
-- The words of a line are words.
use educpu.Prelude.{
  ℕ, ◌^◌, ◌<◌, ◌≡◌, refl, arith, Bool, true, false, List, [], ◌∷◌, none, some, length, All,
  if◌then◌else◌,
}
use educpu.Prelude.Int.{to_u16, to_u16-lt}
use educpu.Assembler.Errors.{Result, ok, err}
use educpu.Assembler.Text.{Text}
use educpu.Assembler.Syntax.{Instr}
use educpu.Assembler.Parser.{
  ParsedKind, pl_empty, pl_label, pl_instr, pl_directive, DirectiveKind, dir_org, dir_word,
  dir_ascii, dir_equ, Directive, ParsedLine, no_line,
}
use educpu.Assembler.Parser.Shape.{OptionAll}
use educpu.Assembler.Encoder.{
  Fmt, fmt_r3, fmt_r2, fmt_r_cmp, fmt_i3, fmt_i_mov, fmt_j, fmt_none, encode_instr,
}
use educpu.Assembler.Encoder.Reads.{Reads, encode_instr-Reads}
use educpu.Assembler.Symtable.{SymTable}
use educpu.Assembler.Passes.{line_size, resolve_operand, resolve_loop}
use educpu.Assembler.Passes.Emit.{
  pack, line_words, encoded_words, instr_words, directive_words, kind_words,
}

abbrev pub AreWords : List ℕ → Type 0
AreWords = All (λ w. w < 2 ^ 16)

pack-AreWords : (s : Text) → AreWords (pack s)
pack-AreWords [] = (omega arith, tt)
pack-AreWords (c ∷ []) = (omega arith, tt)
pack-AreWords (c ∷ d ∷ s) = (omega arith, pack-AreWords s)

Reads-lt : (fmt : Fmt) (op : ℕ) (i : Instr) (pc w : ℕ) → Reads fmt op i pc w → w < 2 ^ 16
Reads-lt fmt_r3 op i pc w (_, _, _, _, f, _) = f.fits
Reads-lt fmt_r2 op i pc w (_, _, _, f) = f.fits
Reads-lt fmt_r_cmp op i pc w (_, _, _, f, _) = f.fits
Reads-lt fmt_i3 op i pc w (_, _, _, _, f, _) = f.fits
Reads-lt fmt_i_mov op i pc w (_, _, _, f, _) = f.fits
Reads-lt fmt_j op i pc w (_, _, fits, _, _) = fits
Reads-lt fmt_none op i pc w (_, f) = f.fits

encoded_words-AreWords :
    (i : Instr) (pc : ℕ) (r : Result ℕ)
    → encode_instr i pc ≡ r
    → OptionAll AreWords (encoded_words r)
unfolding encoded_words
encoded_words-AreWords i pc (err e) is = tt
encoded_words-AreWords i pc (ok w) is =
    let (d, _, _, reads) = encode_instr-Reads i pc w is in
    (Reads-lt d.fmt d.opcode i pc w reads, tt)

instr_words-AreWords : (r : Instr × Bool) (pc : ℕ) → OptionAll AreWords (instr_words r pc)
unfolding instr_words
instr_words-AreWords (i, true) pc = encoded_words-AreWords i pc (encode_instr i pc) refl
instr_words-AreWords (i, false) pc = tt

directive_words-AreWords :
    (k : DirectiveKind) (table : SymTable) (d : Directive)
    → OptionAll AreWords (directive_words k table d)
unfolding directive_words
directive_words-AreWords dir_org table d = tt
directive_words-AreWords dir_equ table d = tt
directive_words-AreWords dir_ascii table d = pack-AreWords d.str
directive_words-AreWords dir_word table d = by_found (resolve_operand table d.value).1
  where
    by_found :
        (found : Bool)
        → OptionAll AreWords
            (if found then some (to_u16 (resolve_operand table d.value).0.imm ∷ []) else none)
    by_found true = (to_u16-lt (resolve_operand table d.value).0.imm, tt)
    by_found false = tt

kind_words-AreWords :
    (k : ParsedKind) (table : SymTable) (pl : ParsedLine)
    → OptionAll AreWords (kind_words k table pl)
unfolding kind_words
kind_words-AreWords pl_empty table pl = tt
kind_words-AreWords pl_label table pl = tt
kind_words-AreWords pl_instr table pl =
    instr_words-AreWords (resolve_loop pl.instr.nops 0 table pl.instr) pl.address
kind_words-AreWords pl_directive table pl = directive_words-AreWords pl.dir.kind table pl.dir

pub line_words-AreWords :
    (table : SymTable) (pl : ParsedLine) (ws : List ℕ) → line_words table pl ≡ some ws → AreWords ws
unfolding line_words
line_words-AreWords table pl ws is = rw is at (kind_words-AreWords pl.kind table pl)

-- A line of no words, as the parser leaves a refused one.
pub no_line_words :
    (table : SymTable)
    → (ws : List ℕ) × (line_words table no_line ≡ some ws) × (length ws ≡ line_size no_line)
unfolding line_words kind_words
no_line_words table = ([], refl, refl)

encoded_words-some :
    (r : Result ℕ) (ws : List ℕ) → encoded_words r ≡ some ws → (w : ℕ) × (ws ≡ w ∷ []) × (r ≡ ok w)
unfolding encoded_words
encoded_words-some (err e) ws is = cc
encoded_words-some (ok w) ws is = (w, cc, refl)

instr_words-some :
    (r : Instr × Bool) (pc : ℕ) (ws : List ℕ)
    → instr_words r pc ≡ some ws
    → (w : ℕ) × (ws ≡ w ∷ []) × (encode_instr r.0 pc ≡ ok w)
unfolding instr_words
instr_words-some (i, true) pc ws is = encoded_words-some (encode_instr i pc) ws is
instr_words-some (i, false) pc ws is = cc

kind_words-instr :
    (k : ParsedKind) (table : SymTable) (pl : ParsedLine) (ws : List ℕ)
    → k ≡ pl_instr
    → kind_words k table pl ≡ some ws
    → (w : ℕ) × (ws ≡ w ∷ [])
      × (encode_instr (resolve_loop pl.instr.nops 0 table pl.instr).0 pl.address ≡ ok w)
unfolding kind_words
kind_words-instr pl_instr table pl ws k is =
    instr_words-some (resolve_loop pl.instr.nops 0 table pl.instr) pl.address ws is
kind_words-instr pl_empty table pl ws k is = cc
kind_words-instr pl_label table pl ws k is = cc
kind_words-instr pl_directive table pl ws k is = cc

-- The one word of an instruction is the one that the encoder gives.
pub line_words-instr :
    (table : SymTable) (pl : ParsedLine) (ws : List ℕ)
    → pl.kind ≡ pl_instr
    → line_words table pl ≡ some ws
    → (w : ℕ) × (ws ≡ w ∷ [])
      × (encode_instr (resolve_loop pl.instr.nops 0 table pl.instr).0 pl.address ≡ ok w)
unfolding line_words
line_words-instr table pl ws k is = kind_words-instr pl.kind table pl ws k is
