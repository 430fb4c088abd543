-- ===== src/Emulator/Startup/Reachable.antt =====
-- The machines that a run goes through, from the loaded file on.
use educpu.Prelude.{
  ℕ, zero, suc, ◌+◌, ◌/◌, ◌%◌, ◌^◌, ◌<◌, ◌≡◌, arith, not, List, [], ◌∷◌, Option, none, some, length,
  get_or, All, All-get_or, ltb, ◌==◌, if_both,
}
use educpu.Isa.{mem_size}
use educpu.Emulator.Cpu.{Cpu, cpu_init, cpu_reset, IsWord, IsCpu}
use educpu.Emulator.Memory.{Bus, mem_load, load_loop}
use educpu.Emulator.Control.{Machine, cpu_step}
use educpu.Emulator.Control.Invariant.{IsMachine, cpu_step-IsMachine}
use educpu.Emulator.Run.{cycles}
use educpu.Emulator.Startup.{read_words, load_file, start_with, startup}

abbrev pub HoldsWords : (ℕ → ℕ) → Type 0
HoldsWords mem = (a : ℕ) → IsWord (mem a)

load_loop-HoldsWords :
    (left i : ℕ) (program : List ℕ) (base : ℕ) (m : ℕ → ℕ)
    → ((j : ℕ) → IsWord (get_or program j 0))
    → HoldsWords m
    → HoldsWords (load_loop left i program base m)
unfolding load_loop
load_loop-HoldsWords zero i program base m words fits = fits
load_loop-HoldsWords (suc left) i program base m words fits =
    load_loop-HoldsWords left (i + 1) program base _ words
      (λ a. if_both IsWord ((base + i) % 2 ^ 16 == a) (words i) (fits a))

read_words-IsWord : (bytes : List ℕ) → All (λ b. b < 2 ^ 8) bytes → All IsWord (read_words bytes)
read_words-IsWord [] h = tt
read_words-IsWord (b ∷ []) h = tt
read_words-IsWord (lo ∷ hi ∷ bytes) h = (omega arith, read_words-IsWord bytes h.1.1)

abbrev pub BusFits : Option Bus → Type 0
BusFits none = Unit
BusFits (some bus) = HoldsWords bus.mem

pub load_file-BusFits :
    (bus : Bus) (bytes : List ℕ)
    → All (λ b. b < 2 ^ 8) bytes
    → HoldsWords bus.mem
    → BusFits (load_file bus bytes)
unfolding load_file mem_load
load_file-BusFits bus bytes h fits = if_both BusFits (not (length bytes % 2 == 0)) tt (
    if_both BusFits (ltb mem_size (length bytes / 2)) tt (
      if_both (λ (b : Bus). HoldsWords b.mem) (ltb 0 (length bytes / 2))
        {yes = mem_load bus (read_words bytes) (length bytes / 2 % 2 ^ 16) 0} {no = bus}
        (load_loop-HoldsWords (length bytes / 2 % 2 ^ 16) 0 (read_words bytes) 0 bus.mem
          (λ j. All-get_or IsWord (read_words bytes) j 0 (omega arith) (read_words-IsWord bytes h))
          fits)
        fits))

cycles-IsMachine : (n : ℕ) (m : Machine) → IsMachine m → IsMachine (cycles n m)
cycles-IsMachine zero m h = h
cycles-IsMachine (suc n) m h = cycles-IsMachine n (cpu_step m) (cpu_step-IsMachine m h)

reset-IsCpu : (cpu : Cpu) → IsCpu (cpu_reset (cpu_init cpu))
unfolding cpu_reset
reset-IsCpu cpu = omega arith

start_with-IsMachine :
    (cpu : Cpu) (b : Option Bus) (m : Machine) → BusFits b → start_with cpu b ≡ some m → IsMachine m
unfolding start_with
start_with-IsMachine cpu none m fits e = absurd (cc)
start_with-IsMachine cpu (some bus) m fits e =
    let same : record { cpu = cpu_reset (cpu_init cpu); bus = bus; stderr = [] } ≡ m = cc in
    rw (← same) (record { is_cpu = reset-IsCpu cpu; is_bus = fits })

-- From any file of bytes that is accepted, after any number of cycles the machine keeps its ranges:
-- registers, program counter, instruction register and memory words below 2 ^ 16, flags below 16.
pub startup-IsMachine :
    (cpu : Cpu) (bus : Bus) (bytes : List ℕ) (m : Machine) (n : ℕ)
    → All (λ b. b < 2 ^ 8) bytes
    → HoldsWords bus.mem
    → startup cpu bus bytes ≡ some m
    → IsMachine (cycles n m)
unfolding startup
startup-IsMachine cpu bus bytes m n small fits e =
    cycles-IsMachine n m (start_with-IsMachine cpu _ m (load_file-BusFits bus bytes small fits) e)
