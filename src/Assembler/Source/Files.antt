-- ===== src/Assembler/Source/Files.antt =====
-- Files that are written line by line, and lines that do not fit the buffer.
use mathlib.Core.Option
use mathlib.Core.List.{append-nil}
use educpu.Prelude.{
  ℕ, zero, suc, ◌+◌, ◌≤◌, ◌<◌, ◌≡◌, ◌≢◌, ◌∙◌, refl, sym, ap, arith, Bool, true, false, List, [],
  ◌∷◌, ◌++◌, some, length, length-append, get_or, ◌==◌, if_yes, if_not, All, All-append, All-get_or,
}
use educpu.Assembler.Text.{Text, take-append}
use educpu.Assembler.Lexer.Print.{c_string-All}
use educpu.Assembler.Source.{
  fgets, is_line_end, strip, source_line, buf_room, read_loop, source_read,
}
use educpu.Assembler.Source.Lines.{source_read-round}

-- What stands before a newline in a file with Windows line ends.
abbrev carriage : Bool → Text
carriage true = b'\r' ∷ []
carriage false = []

abbrev pub print_lines : Bool → List Text → Text
print_lines crlf [] = []
print_lines crlf (l ∷ ls) = l ++ (carriage crlf ++ b'\n' ∷ print_lines crlf ls)

-- A text that is one line: it fits the buffer with its line end, and has no line end or zero byte.
abbrev pub IsLine : Text → Type 0
IsLine l =
    (length l + 2 ≤ buf_room) × All (λ (c : ℕ). is_line_end c ≡ false) l × All (λ (c : ℕ). c ≢ 0) l

fgets-line :
    (l : Text) (crlf : Bool) (rest : Text) (room : ℕ)
    → All (λ (c : ℕ). is_line_end c ≡ false) l
    → length l + 2 ≤ room
    → fgets room (l ++ (carriage crlf ++ b'\n' ∷ rest)) ≡ (l ++ (carriage crlf ++ b'\n' ∷ []), rest)
unfolding fgets
fgets-line l crlf rest zero plain fits = absurd (omega arith)
fgets-line [] true rest (suc zero) plain fits = absurd (omega arith)
fgets-line [] true rest (suc (suc room)) plain fits = refl
fgets-line [] false rest (suc room) plain fits = refl
fgets-line (c ∷ l) crlf rest (suc room) plain fits =
    let tail = fgets-line l crlf rest room plain.1 (omega arith) in
    let other : (c == b'\n') ≡ false = ground (arith, plain.0) in
    if_not _ _ other ∙ ap (λ (r : Text × Text). (c ∷ r.0, r.1)) tail

get_or-left : (l e : Text) (i : ℕ) → i < length l → get_or (l ++ e) i 0 ≡ get_or l i 0
get_or-left [] e i lt = absurd (omega arith)
get_or-left (c ∷ l) e zero lt = refl
get_or-left (c ∷ l) e (suc i) lt = get_or-left l e i (omega arith)

get_or-right : (l e : Text) (k : ℕ) → get_or (l ++ e) (k + length l) 0 ≡ get_or e k 0
get_or-right [] e k = ap (λ (i : ℕ). get_or e i 0) (omega arith)
get_or-right (c ∷ l) e k =
    ap (λ (i : ℕ). get_or (c ∷ l ++ e) i 0)
      (let h : k + suc (length l) ≡ suc (k + length l) = omega arith in h)
    ∙ get_or-right l e k

strip-plain :
    (l e : Text) → All (λ (c : ℕ). is_line_end c ≡ false) l → strip (length l) (l ++ e) ≡ l
unfolding strip
strip-plain [] e plain = refl
strip-plain (c ∷ l) e plain =
    let last : is_line_end (get_or (c ∷ l ++ e) (length l) 0) ≡ false =
      ap is_line_end (get_or-left (c ∷ l) e (length l) (omega arith))
      ∙ All-get_or (λ (d : ℕ). is_line_end d ≡ false) (c ∷ l) (length l) 0 refl plain in
    if_not _ _ last ∙ take-append (c ∷ l) e

strip-ends :
    (k : ℕ) (l e : Text)
    → All (λ (c : ℕ). is_line_end c ≡ false) l
    → ((i : ℕ) → i < k → is_line_end (get_or e i 0) ≡ true)
    → strip (k + length l) (l ++ e) ≡ l
unfolding strip
strip-ends zero l e plain ends =
    ap (λ (n : ℕ). strip n (l ++ e)) (omega arith) ∙ strip-plain l e plain
strip-ends (suc k) l e plain ends =
    ap (λ (n : ℕ). strip n (l ++ e))
      (let h : suc k + length l ≡ suc (k + length l) = omega arith in h)
    ∙ if_yes _ _ (ap is_line_end (get_or-right l e k) ∙ ends k (omega arith))
    ∙ strip-ends k l e plain (λ i lt. ends i (omega arith))

source_line-plain :
    (l : Text) (crlf : Bool) → IsLine l → source_line (l ++ (carriage crlf ++ b'\n' ∷ [])) ≡ l
source_line-plain l crlf (fits, plain, bytes) = by_end crlf
  where
    stripped :
        (k : ℕ) (e : Text)
        → All (λ (c : ℕ). c ≢ 0) e
        → length e ≡ k
        → ((i : ℕ) → i < k → is_line_end (get_or e i 0) ≡ true)
        → source_line (l ++ e) ≡ l
    stripped k e some_bytes size ends =
        ap (λ (s : Text). strip (length s) s)
          (c_string-All (l ++ e) (All-append _ l e bytes some_bytes))
        ∙ ap (λ (n : ℕ). strip n (l ++ e))
            (let h : length (l ++ e) ≡ k + length l = omega (arith, length-append l e) in h)
        ∙ strip-ends k l e plain ends

    by_end : (b : Bool) → source_line (l ++ (carriage b ++ b'\n' ∷ [])) ≡ l
    by_end false = stripped 1 (b'\n' ∷ []) (omega arith, tt) refl (λ i lt. ground arith)
    by_end true =
        stripped 2 (b'\r' ∷ b'\n' ∷ []) (omega arith, (omega arith, tt)) refl (λ i lt. ground arith)

empty_file : source_read [] ≡ some []
unfolding source_read read_loop
empty_file = refl

not_empty : (l x : Text) → 0 < length x → l ++ x ≢ []
not_empty l x some_bytes e =
    let size = ap (λ (t : Text). length t) e in absurd (omega (arith, length-append l x))

-- Texts of at most 4093 bytes with no line end and no zero byte, written as lines with Unix or Windows
-- line ends, are what is read from the file.
pub source_read-print_lines :
    (crlf : Bool) (lines : List Text)
    → All IsLine lines
    → source_read (print_lines crlf lines) ≡ some lines
source_read-print_lines crlf [] h = empty_file
source_read-print_lines crlf (l ∷ ls) h =
    let rest = print_lines crlf ls in
    let more = length-append (carriage crlf) (b'\n' ∷ rest) in
    source_read-round (l ++ (carriage crlf ++ b'\n' ∷ rest)) (l ++ (carriage crlf ++ b'\n' ∷ []))
      rest (not_empty l (carriage crlf ++ b'\n' ∷ rest) (omega arith))
      (fgets-line l crlf rest buf_room h.0.1 h.0.0)
    ∙ ap (λ (line : Text). Option.map (λ (r : List Text). line ∷ r) (source_read rest))
        (source_line-plain l crlf h.0)
    ∙ ap (Option.map (λ (r : List Text). l ∷ r)) (source_read-print_lines crlf ls h.1)

fgets-full :
    (l rest : Text)
    → All (λ (c : ℕ). is_line_end c ≡ false) l
    → fgets (length l) (l ++ rest) ≡ (l, rest)
unfolding fgets
fgets-full [] rest plain = refl
fgets-full (c ∷ l) rest plain =
    let other : (c == b'\n') ≡ false = ground (arith, plain.0) in
    if_not _ _ other ∙ ap (λ (r : Text × Text). (c ∷ r.0, r.1)) (fgets-full l rest plain.1)

-- The first 4095 bytes of a file, if none of them is a line end or zero, are a line by themselves,
-- whatever follows them: the rest of the same line is read as the next one.
pub source_read-long :
    (l rest : Text)
    → length l ≡ buf_room
    → All (λ (c : ℕ). is_line_end c ≡ false) l
    → All (λ (c : ℕ). c ≢ 0) l
    → source_read (l ++ rest) ≡ Option.map (λ (ls : List Text). l ∷ ls) (source_read rest)
source_read-long l rest size plain bytes =
    let cut : fgets buf_room (l ++ rest) ≡ (l, rest) =
      ap (λ (room : ℕ). fgets room (l ++ rest)) (sym size) ∙ fgets-full l rest plain in
    let line : source_line l ≡ l =
      ap (λ (s : Text). strip (length s) s) (c_string-All l bytes)
      ∙ ap (strip (length l)) (sym (append-nil l))
      ∙ strip-plain l [] plain in
    source_read-round (l ++ rest) l rest
      (λ e. let n = ap (λ (t : Text). length t) e in absurd (omega (arith, length-append l rest)))
      cut
    ∙ ap (λ (t : Text). Option.map (λ (ls : List Text). t ∷ ls) (source_read rest)) line
