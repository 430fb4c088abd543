-- ===== src/Assembler/Passes/Runs.antt =====
-- Runs of an assembled program, against a reading of its source that knows no words: the line at the
-- program counter says what a cycle does.
use mathlib.Core.Option
use educpu.Prelude.{
  ℕ, zero, suc, ◌<◌, ◌≡◌, ◌∙◌, inl, inr, refl, sym, ap, arith, Bool, true, false, ◌&&◌, List, [],
  ◌∷◌, Option, none, some, get_or, All, ltb, ◌==◌, if◌then◌else◌, if_yes, if_not, Bool-cases, ◌^◌,
}
use educpu.Isa.{io_base}
use educpu.Assembler.Text.{Text}
use educpu.Assembler.Syntax.{Instr}
use educpu.Assembler.Parser.{
  ParsedKind, pl_empty, pl_label, pl_instr, pl_directive, ParsedLine, no_line,
}
use educpu.Assembler.Encoder.Meaning.{Op, op_of, meaning, past}
use educpu.Assembler.Encoder.Step.{Means}
use educpu.Assembler.Passes.{pass1, pass1_start, assemble}
use educpu.Assembler.Passes.Symbols.{Env, IsShort, symbols}
use educpu.Assembler.Passes.Names.{with_names, source_names}
use educpu.Assembler.Passes.Addresses.{Forward}
use educpu.Assembler.Passes.Written.{assemble-no_errors}
use educpu.Assembler.Passes.Program.{assemble-MeansLine}
use educpu.Emulator.Memory.{Bus}
use educpu.Emulator.Control.{Machine, cpu_step}
use educpu.Emulator.Control.Invariant.{IsMachine, cpu_step-IsMachine}
use educpu.Emulator.Run.{cycles}
use educpu.Emulator.Startup.{load_file}

abbrev is_instr : ParsedKind → Bool
is_instr pl_instr = true
is_instr _ = false

-- The instruction at an address.
abbrev pub find_line : ℕ → List ParsedLine → Option ParsedLine
find_line pc [] = none
find_line pc (pl ∷ pls) =
    let rest = find_line pc pls in if is_instr pl.kind && pl.address == pc then some pl else rest

abbrev pub line_meaning : Instr → Machine → Option Op → Option Machine
line_meaning i m none = none
line_meaning i m (some o) = some (meaning o i (past m))

abbrev pub instr_step : (ℕ → ℕ) → Machine → Option Instr → Option Machine
instr_step image m none = none
instr_step image m (some i) =
    if ltb m.cpu.pc io_base && m.bus.mem m.cpu.pc == image m.cpu.pc
    then line_meaning i m (op_of i.mnemonic)
    else none

abbrev pub line_instr : Env → ParsedLine → Instr
line_instr env pl = with_names env pl.instr

-- A cycle by the source: `none` if no instruction stands at the program counter, or if the program has
-- overwritten its word there.
abbrev pub source_step : (ℕ → ℕ) → List ParsedLine → Machine → Option Machine
source_step image pls m =
    if m.cpu.halted
    then some m
    else instr_step image m (Option.map (line_instr (source_names pls)) (find_line m.cpu.pc pls))

abbrev pub source_run : (ℕ → ℕ) → List ParsedLine → ℕ → Machine → Option Machine
source_run image pls zero m = some m
source_run image pls (suc n) m = Option.bind (source_step image pls m) (source_run image pls n)

bind-some :
    (o : Option Machine) (f : Machine → Option Machine) {last : Machine}
    → Option.bind o f ≡ some last
    → (next : Machine) × (o ≡ some next) × (f next ≡ some last)
unfolding Option.bind
bind-some none f {last} is = absurd (Option.none-ne-some last is)
bind-some (some next) f is = (next, refl, is)

is_instr-true : (k : ParsedKind) → is_instr k ≡ true → k ≡ pl_instr
is_instr-true pl_instr h = refl
is_instr-true pl_empty h = cc
is_instr-true pl_label h = cc
is_instr-true pl_directive h = cc

find_line-some :
    (pc : ℕ) (pls : List ParsedLine) (pl : ParsedLine)
    → find_line pc pls ≡ some pl
    → (k : ℕ) × (get_or pls k no_line ≡ pl) × (pl.kind ≡ pl_instr) × (pc ≡ pl.address)
find_line-some pc [] pl is = absurd (Option.none-ne-some pl is)
find_line-some pc (first ∷ pls) pl is =
    elim (Bool-cases (is_instr first.kind && first.address == pc)) [
      | inl here ↦
          let same : first ≡ pl = Option.some-injective first pl (sym (if_yes _ _ here) ∙ is) in
          let both : (is_instr first.kind ≡ true) × (first.address ≡ pc) = ground (arith, here) in
          (
            0,
            same,
            ap (λ (l : ParsedLine). l.kind) (sym same) ∙ is_instr-true first.kind both.0,
            sym both.1 ∙ ap (λ (l : ParsedLine). l.address) same,
          )
      | inr later ↦
          let (k, line, instr, at) = find_line-some pc pls pl (sym (if_not _ _ later) ∙ is) in
          (suc k, line, instr, at)
    ]

cpu_step-halted : (m : Machine) → m.cpu.halted ≡ true → cpu_step m ≡ m
unfolding cpu_step
cpu_step-halted m h = if_yes _ _ h

line_meaning-some :
    (i : Instr) (m after : Machine) (known : Option Op) (o : Op)
    → known ≡ some o
    → line_meaning i m known ≡ some after
    → meaning o i (past m) ≡ after
line_meaning-some i m after none o known is = absurd (Option.none-ne-some o known)
line_meaning-some i m after (some o') o known is =
    ap (λ (x : Op). meaning x i (past m)) (sym (Option.some-injective o' o known))
    ∙ Option.some-injective _ after is

module _ (lines : List Text) (bus loaded : Bus) (e : ℕ) (bytes : List ℕ)
    (short : All IsShort (symbols (pass1 lines 1 pass1_start).1))
    (forward : Forward 0 (pass1 lines 1 pass1_start).1 e) (small : e < 2 ^ 16)
    (written : (assemble lines).output ≡ some bytes)
    (loads : load_file bus bytes ≡ some loaded) where
  line_lem :
      (m : Machine) (k : ℕ) (pl : ParsedLine)
      → IsMachine m
      → m.cpu.halted ≡ false
      → get_or (pass1 lines 1 pass1_start).1 k no_line ≡ pl
      → pl.kind ≡ pl_instr
      → m.cpu.pc ≡ pl.address
      → m.cpu.pc < io_base
      → m.bus.mem m.cpu.pc ≡ loaded.mem m.cpu.pc
      → Means (with_names (source_names (pass1 lines 1 pass1_start).1) pl.instr) m
  line_lem m k pl fits live line instr at ram holds =
      let here = at ∙ ap (λ (l : ParsedLine). l.address) (sym line) in
      rw line at (
        assemble-MeansLine lines bus loaded e k m bytes (assemble-no_errors lines bytes written)
          short forward small written loads (ap (λ (l : ParsedLine). l.kind) line ∙ instr)
          (omega (arith, here)) fits live here holds)

  found_lem :
      (m after : Machine) (o : Option ParsedLine)
      → IsMachine m
      → m.cpu.halted ≡ false
      → find_line m.cpu.pc (pass1 lines 1 pass1_start).1 ≡ o
      → instr_step loaded.mem m
          (Option.map (line_instr (source_names (pass1 lines 1 pass1_start).1)) o)
        ≡ some after
      → cpu_step m ≡ after
  found_lem m after none fits live found is = absurd (Option.none-ne-some after is)
  found_lem m after (some pl) fits live found is =
      let pls = (pass1 lines 1 pass1_start).1 in
      let (k, line, instr, at) = find_line-some m.cpu.pc pls pl found in
      let i = with_names (source_names pls) pl.instr in
      elim (Bool-cases (ltb m.cpu.pc io_base && m.bus.mem m.cpu.pc == loaded.mem m.cpu.pc)) [
        | inr stopped ↦ absurd (Option.none-ne-some after (sym (if_not _ _ stopped) ∙ is))
        | inl goes ↦
            let (o, known, means) =
              line_lem m k pl fits live line instr at (ground (arith, goes))
                (ground (arith, goes)) in
            means
            ∙ line_meaning-some i m after (op_of i.mnemonic) o known (sym (if_yes _ _ goes) ∙ is)
      ]

  source_step_lem :
      (m after : Machine)
      → IsMachine m
      → source_step loaded.mem (pass1 lines 1 pass1_start).1 m ≡ some after
      → cpu_step m ≡ after
  source_step_lem m after fits is = elim (Bool-cases m.cpu.halted) [
    | inl halted ↦
        cpu_step-halted m halted ∙ Option.some-injective m after (sym (if_yes _ _ halted) ∙ is)
    | inr live ↦
        found_lem m after (find_line m.cpu.pc (pass1 lines 1 pass1_start).1) fits live refl
          (sym (if_not _ _ live) ∙ is)
  ]

  -- If a source is assembled to a file, the names of its labels and constants have 63 bytes at most,
  -- no `.org` goes back to a lower address and the last line ends at 0xFFFF at most, and the emulator
  -- loads that file, then for any number of cycles, from any machine whose registers, flags and memory
  -- words are in their ranges: if the run by the source goes so far, the processor is where it is. The
  -- run by the source goes on as long as the program counter is the address of an instruction among the
  -- lines as the first pass parses and places them, below the ports, whose word is still as it was
  -- loaded; each step does what `meaning` says of the instruction that the mnemonic names, with each
  -- label standing for the address of its line and each constant for its value modulo 2 ^ 16, and after
  -- HALT nothing changes.
  pub cycles-source_run :
      (n : ℕ) (m last : Machine)
      → IsMachine m
      → source_run loaded.mem (pass1 lines 1 pass1_start).1 n m ≡ some last
      → cycles n m ≡ last
  cycles-source_run zero m last fits is = Option.some-injective m last is
  cycles-source_run (suc n) m last fits is =
      let pls = (pass1 lines 1 pass1_start).1 in
      let (next, first, rest) =
        bind-some (source_step loaded.mem pls m) (source_run loaded.mem pls n) is in
      let step = source_step_lem m next fits first in
      ap (cycles n) step
      ∙ cycles-source_run n next last (rw step at (cpu_step-IsMachine m fits)) rest
