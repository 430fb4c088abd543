-- ===== src/Assembler/Passes/Program.antt =====
-- The program that the emulator loads from what the assembler writes.
use educpu.Prelude.{
  ℕ, ◌+◌, ◌%◌, ◌^◌, ◌≤◌, ◌<◌, ◌≡◌, ◌∙◌, sym, ap, arith, false, List, [], ◌∷◌, some, get_or, All,
  All-get_or, ◌==◌, ltb, if_yes,
}
use educpu.Assembler.Text.{Text}
use educpu.Assembler.Parser.{pl_instr, ParsedLine, no_line}
use educpu.Assembler.Symtable.{SymTable}
use educpu.Emulator.Memory.{Bus}
use educpu.Isa.{io_base}
use educpu.Emulator.Startup.{load_file}
use educpu.Assembler.Passes.{
  line_size, resolve_loop, pass1, pass1_start, Pass1, Pass2, pass2, pass2_start, image_bytes,
  word_count, finish, Assembled, assemble,
}
use educpu.Assembler.Passes.Emit.Words.{line_words-AreWords, line_words-instr, no_line_words}
use educpu.Assembler.Encoder.Step.{Means, cpu_step-encode_instr}
use educpu.Emulator.Control.{Machine}
use educpu.Emulator.Control.Invariant.{IsMachine}
use educpu.Assembler.Passes.Symbols.{IsShort, symbols}
use educpu.Assembler.Passes.Names.{with_names, source_names, resolve_loop-source_names}
use educpu.Assembler.Passes.Image.{Ascends, StandsIn, pass2-StandsIn, pass2-n_errors, Ascends-le}
use educpu.Assembler.Passes.Layout.{pass1-HasString}
use educpu.Assembler.Passes.Written.{assemble-clean}
use educpu.Assembler.Passes.Addresses.{Forward, pass1-Ascends}
use educpu.Assembler.Passes.Output.{load_file-image_bytes}

-- Lines that stand in an image stand in a memory that agrees with it on words below the end.
StandsIn-loaded :
    (table : SymTable) (image mem : ℕ → ℕ) (pls : List ParsedLine) (a e : ℕ)
    → ((x : ℕ) → x < e → mem x ≡ image x % 2 ^ 16)
    → Ascends a pls e
    → All (StandsIn table image) pls
    → All (StandsIn table mem) pls
StandsIn-loaded table image mem [] a e same up stand = tt
StandsIn-loaded table image mem (pl ∷ pls) a e same up ((ws, is, size, at), stand) =
    let ends = Ascends-le (pl.address + line_size pl) pls e up.1 in
    (
      (
        ws,
        is,
        size,
        λ j lt.
            let fits : get_or ws j 0 < 2 ^ 16 =
              All-get_or (λ (w : ℕ). w < 2 ^ 16) ws j 0 (omega arith)
                (line_words-AreWords table pl ws is) in
            omega (arith, same (pl.address + j) (omega arith), at j lt),
      ),
      StandsIn-loaded table image mem pls (pl.address + line_size pl) e same up.1 stand,
    )

abbrev pub Loads : Assembled → Bus → SymTable → List ParsedLine → Type 0
Loads out bus table pls =
    (bytes : List ℕ) × (loaded : Bus) × (out.output ≡ some bytes)
    × (load_file bus bytes ≡ some loaded)
    × All (StandsIn table loaded.mem) pls

-- Each word of an image of `n` words is in the memory that is loaded.
loaded_word :
    (bus loaded : Bus) (image : ℕ → ℕ) (n x : ℕ)
    → n < 2 ^ 16
    → load_file bus (image_bytes n 0 image) ≡ some loaded
    → x < n
    → loaded.mem x ≡ image x % 2 ^ 16
loaded_word bus loaded image n x small loads lt =
    let (other, same, at) = load_file-image_bytes bus image n x small (omega arith) in
    let both : other ≡ loaded = cc in
    sym (ap (λ (b : Bus). b.mem x) both) ∙ at ∙ if_yes {b = ltb x n} _ _ (ground arith)

written :
    (one : Pass1) (two : Pass2)
    → two.n_errors ≡ 0
    → (finish one two).output ≡ some (image_bytes (word_count one.addr) 0 two.image)
unfolding finish
written one two clean = if_yes {b = two.n_errors == 0} _ _ (ground arith)

-- If a source is assembled without an error, and from address 0 no `.org` goes back to a lower
-- address and the last line ends at `e`, at most 0xFFFF, then a file is written that the emulator
-- loads, and in the loaded memory the words of every line stand from the line's address on.
pub assemble-Loads :
    (lines : List Text) (bus : Bus) (e : ℕ)
    → (assemble lines).n_errors ≡ 0
    → Forward 0 (pass1 lines 1 pass1_start).1 e
    → e < 2 ^ 16
    → Loads (assemble lines) bus (pass1 lines 1 pass1_start).0.table (pass1 lines 1 pass1_start).1
unfolding assemble finish
assemble-Loads lines bus e clean forward small =
    let (one, pls) = pass1 lines 1 pass1_start in
    let two = pass2 one.table pls (pass2_start one) in
    let strings = pass1-HasString lines 1 pass1_start in
    let grows = pass2-n_errors one.table pls (pass2_start one) strings in
    let (up, ends) = pass1-Ascends lines 1 pass1_start e (omega arith) forward small in
    let n = word_count one.addr in
    let covers : (n < 2 ^ 16) × (e ≤ n) = ground arith in
    let (loaded, loads, _) = load_file-image_bytes bus two.image n 0 covers.0 (omega arith) in
    (
      image_bytes n 0 two.image,
      loaded,
      written one two clean,
      loads,
      StandsIn-loaded one.table two.image loaded.mem pls 0 e
          (λ x lt. loaded_word bus loaded two.image n x covers.0 loads (omega (arith, covers))) up
          (pass2-StandsIn one.table pls 0 e (pass2_start one) strings up (omega arith)
            (omega arith)),
    )

no_line-StandsIn : (table : SymTable) (mem : ℕ → ℕ) → StandsIn table mem no_line
no_line-StandsIn table mem =
    let (ws, is, size) = no_line_words table in (ws, is, size, λ j lt. absurd (omega arith))

-- If a source is assembled without an error, the names of its labels and constants have 63 bytes at
-- most, no `.org` goes back to a lower address and the last line ends at 0xFFFF at most, the emulator
-- loads the file that is written, line `k` is an instruction below the ports, and a running processor,
-- whose registers, flags and memory words are in their ranges, is at its address with the loaded word
-- in memory there, then one cycle does what `meaning` says of the instruction that the line's mnemonic
-- names, with its operands as parsed, where each label stands for the address of its line and each
-- constant for its value modulo 2 ^ 16.
pub assemble-MeansLine :
    (lines : List Text) (bus loaded : Bus) (e k : ℕ) (m : Machine) (bytes : List ℕ)
    → (assemble lines).n_errors ≡ 0
    → All IsShort (symbols (pass1 lines 1 pass1_start).1)
    → Forward 0 (pass1 lines 1 pass1_start).1 e
    → e < 2 ^ 16
    → (assemble lines).output ≡ some bytes
    → load_file bus bytes ≡ some loaded
    → (get_or (pass1 lines 1 pass1_start).1 k no_line).kind ≡ pl_instr
    → (get_or (pass1 lines 1 pass1_start).1 k no_line).address < io_base
    → IsMachine m
    → m.cpu.halted ≡ false
    → m.cpu.pc ≡ (get_or (pass1 lines 1 pass1_start).1 k no_line).address
    → m.bus.mem m.cpu.pc ≡ loaded.mem m.cpu.pc
    → Means
        (with_names
          (source_names (pass1 lines 1 pass1_start).1)
          (get_or (pass1 lines 1 pass1_start).1 k no_line).instr)
        m
assemble-MeansLine lines bus loaded e k m bytes clean short forward small out loads instr ram fits
      live at holds =
    let (one, pls) = pass1 lines 1 pass1_start in
    let pl = get_or pls k no_line in
    let (bytes', loaded', out', loads', stand) = assemble-Loads lines bus e clean forward small in
    let same : loaded' ≡ loaded = cc in
    let (ws, is, size, there) =
      All-get_or (StandsIn one.table loaded'.mem) pls k no_line
        (no_line-StandsIn one.table loaded'.mem) stand in
    let (w, single, encodes) = line_words-instr one.table pl ws instr is in
    let first : get_or ws 0 0 ≡ w = ap (λ (v : List ℕ). get_or v 0 0) single in
    let word : loaded.mem (pl.address + 0) ≡ w =
      ap (λ (b : Bus). b.mem (pl.address + 0)) (sym same)
      ∙ there 0 (rw single (omega arith))
      ∙ first in
    let here : m.bus.mem pl.address ≡ w =
      ap m.bus.mem (sym at)
      ∙ holds
      ∙ ap loaded.mem (at ∙ (let e : pl.address ≡ pl.address + 0 = omega arith in e))
      ∙ word in
    rw (resolve_loop-source_names lines k short (assemble-clean lines bytes out)) at (
      cpu_step-encode_instr (resolve_loop pl.instr.nops 0 one.table pl.instr).0 pl.address w m
        encodes fits live at ram here)
