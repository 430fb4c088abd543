-- ===== src/Assembler/Source/Lines.antt =====
-- What `source_read` gives: every file is read to its end, and texts that are written as lines are
-- read back.
use mathlib.Core.Option
use educpu.Prelude.{
  ℕ, zero, suc, ◌+◌, ◌≤◌, ◌≡◌, ◌≢◌, ◌∙◌, refl, ap, arith, List, [], ◌∷◌, some, length, get_or, ◌==◌,
  if_cases, All,
}
use educpu.Assembler.Text.{Text, length-take}
use educpu.Assembler.Lexer.{c_string}
use educpu.Assembler.Source.{
  fgets, is_line_end, strip, source_line, buf_room, read_loop, source_read,
}

fgets-length :
    (room : ℕ) (s : Text)
    → (length (fgets room s).0 + length (fgets room s).1 ≡ length s)
      × (length (fgets room s).0 ≤ room)
unfolding fgets
fgets-length zero s = (omega arith, omega arith)
fgets-length (suc room) [] = (omega arith, omega arith)
fgets-length (suc room) (c ∷ s) =
    let h = fgets-length room s in
    if_cases
      (λ (r : Text × Text). (length r.0 + length r.1 ≡ suc (length s)) × (length r.0 ≤ suc room))
      (c == b'\n') (λ _. (omega arith, omega arith)) (λ _. (omega (arith, h), omega (arith, h)))

fgets-rest : (room c : ℕ) (s : Text) → length (fgets (suc room) (c ∷ s)).1 ≤ length s
unfolding fgets
fgets-rest room c s =
    if_cases (λ (r : Text × Text). length r.1 ≤ length s) (c == b'\n') (λ _. omega arith)
      (λ _. omega (arith, fgets-length room s))

length-c_string : (s : Text) → length (c_string s) ≤ length s
unfolding c_string
length-c_string [] = omega arith
length-c_string (c ∷ s) = ground (arith, length-c_string s)

length-strip : (n : ℕ) (s : Text) → length (strip n s) ≤ n
unfolding strip
length-strip zero s = omega arith
length-strip (suc n) s =
    if_cases (λ (t : Text). length t ≤ suc n) (is_line_end (get_or s n 0))
      (λ _. omega (arith, length-strip n s)) (λ _. length-take (suc n) s)

length-source_line : (buf : Text) → length (source_line buf) ≤ length buf
length-source_line buf =
    omega (arith, length-strip (length (c_string buf)) (c_string buf), length-c_string buf)

-- Lines that fit the buffer, no more of them than `n`.
abbrev pub AreLines : ℕ → List Text → Type 0
AreLines n lines = (length lines ≤ n) × All (λ (l : Text). length l ≤ buf_room) lines

read_loop-AreLines :
    (fuel : ℕ) (s : Text)
    → length s ≤ fuel
    → (lines : List Text) × (read_loop fuel s ≡ some lines) × AreLines (length s) lines
unfolding read_loop
read_loop-AreLines fuel [] enough = ([], refl, (omega arith, tt))
read_loop-AreLines zero (c ∷ s) enough = absurd (omega arith)
read_loop-AreLines (suc fuel) (c ∷ s) enough =
    let buf = (fgets buf_room (c ∷ s)).0 in
    let rest = (fgets buf_room (c ∷ s)).1 in
    let shorter = fgets-rest 4094 c s in
    let (lines, run, (few, fit)) = read_loop-AreLines fuel rest (omega arith) in
    (
      source_line buf ∷ lines,
      ap (Option.map (λ (ls : List Text). source_line buf ∷ ls)) run,
      (omega arith, (omega (arith, length-source_line buf, fgets-length buf_room (c ∷ s)), fit)),
    )

-- Every file is read to its end: it has no more lines than bytes, and each fits the buffer.
pub source_read-AreLines :
    (bytes : Text)
    → (lines : List Text) × (source_read bytes ≡ some lines) × AreLines (length bytes) lines
unfolding source_read
source_read-AreLines bytes = read_loop-AreLines (length bytes) bytes (omega arith)

-- More fuel than bytes changes nothing.
read_loop-fuel :
    (fuel more : ℕ) (s : Text)
    → length s ≤ fuel
    → length s ≤ more
    → read_loop fuel s ≡ read_loop more s
unfolding read_loop
read_loop-fuel fuel more [] enough also = refl
read_loop-fuel zero more (c ∷ s) enough also = absurd (omega arith)
read_loop-fuel (suc fuel) zero (c ∷ s) enough also = absurd (omega arith)
read_loop-fuel (suc fuel) (suc more) (c ∷ s) enough also =
    let shorter = fgets-rest 4094 c s in
    ap (Option.map (λ (ls : List Text). source_line (fgets buf_room (c ∷ s)).0 ∷ ls))
      (read_loop-fuel fuel more (fgets buf_room (c ∷ s)).1 (omega arith) (omega arith))

-- One round of the loop, for a text that is not empty.
pub source_read-round :
    (s buf rest : Text)
    → s ≢ []
    → fgets buf_room s ≡ (buf, rest)
    → source_read s ≡ Option.map (λ (ls : List Text). source_line buf ∷ ls) (source_read rest)
unfolding source_read read_loop
source_read-round [] buf rest some_bytes cut = absurd (some_bytes refl)
source_read-round (c ∷ s) buf rest some_bytes cut =
    let shorter = fgets-rest 4094 c s in
    ap (Option.map (λ (ls : List Text). source_line (fgets buf_room (c ∷ s)).0 ∷ ls)) (
      read_loop-fuel (length s) (length (fgets buf_room (c ∷ s)).1) (fgets buf_room (c ∷ s)).1
        (omega arith) (omega arith))
    ∙ ap
        (λ (r : Text × Text).
          Option.map (λ (ls : List Text). source_line r.0 ∷ ls) (read_loop (length r.1) r.1))
        cut
