-- ===== src/Assembler/Source.antt =====
-- assembler/assembler.c: `source_read`, on the bytes of the file. `none` is a loop that has run out of
-- fuel.
pub mod Lines
pub mod Files
use mathlib.Core.Option
use educpu.Prelude.{
  ℕ, zero, suc, ◌+◌, Bool, ◌||◌, List, [], ◌∷◌, Option, none, some, length, get_or, ◌==◌,
  if◌then◌else◌,
}
use educpu.Assembler.Text.{Text, take}
use educpu.Assembler.Lexer.{c_string}
use educpu.Assembler.Passes.{Assembled, assemble}

-- The bytes that `fgets` takes, for a buffer with room for so many, and what it leaves.
unfoldable pub fgets : ℕ → Text → Text × Text
fgets zero s = ([], s)
fgets (suc room) [] = ([], [])
fgets (suc room) (c ∷ s) =
    let (line, rest) = fgets room s in if c == b'\n' then (c ∷ [], s) else (c ∷ line, rest)

abbrev pub is_line_end : ℕ → Bool
is_line_end c = c == b'\n' || c == b'\r'

-- What is left of `n` bytes without the line ends.
unfoldable pub strip : ℕ → Text → Text
strip zero s = []
strip (suc n) s =
    let rest = strip n s in if is_line_end (get_or s n 0) then rest else take (suc n) s

abbrev pub source_line : Text → Text
source_line buf = let s = c_string buf in strip (length s) s

-- One byte of the buffer is for the terminator.
abbrev pub buf_room : ℕ
buf_room = 4095

unfoldable pub read_loop : ℕ → Text → Option (List Text)
read_loop fuel [] = some []
read_loop zero (c ∷ s) = none
read_loop (suc fuel) (c ∷ s) =
    let (buf, rest) = fgets buf_room (c ∷ s) in
    Option.map (λ lines. source_line buf ∷ lines) (read_loop fuel rest)

unfoldable pub source_read : Text → Option (List Text)
unfolding read_loop
source_read bytes = read_loop (length bytes) bytes

-- `assemble_file` on the bytes of the source file.
unfoldable pub assemble_file : Text → Option Assembled
assemble_file bytes = Option.map assemble (source_read bytes)
