-- ===== src/Emulator/Startup/Load.antt =====
-- What `main` loads, and a machine that is fit to run.
use mathlib.Core.Path.{ap₂}
use native.Mathlib.Decide.{dec_lt}
use educpu.Emulator.Cpu.{Cpu, cpu_init, cpu_reset}
use educpu.Emulator.Control.{Machine}
use educpu.Prelude.{
  Option, ◌≤◌, ◌≢◌, ◌⊎◌, inl, inr, refl, none, Bool-cases, ==_iff, ℕ, zero, suc, ◌+◌, ◌-◌, ◌*◌, ◌/◌,
  ◌%◌, ◌^◌, ◌<◌, ◌≡◌, ◌∙◌, refl, sym, ap, arith, List, [], ◌∷◌, some, length, get_or, ltb, not,
  ◌==◌, if◌then◌else◌, if_yes, if_not,
}
use educpu.Isa.{mem_size}
use educpu.Emulator.Memory.{Bus, mem_load, load_loop}
use educpu.Emulator.Memory.Laws.{mem_load_lem}
use educpu.Emulator.Startup.{read_words, load_file, startup, start_with}

pub get_or-read_words :
    (bytes : List ℕ) (i : ℕ)
    → length bytes % 2 ≡ 0
    → get_or (read_words bytes) i 0 ≡ get_or bytes (2 * i) 0 + get_or bytes (2 * i + 1) 0 * 2 ^ 8
get_or-read_words [] i even = omega arith
get_or-read_words (lo ∷ []) i even = absurd (omega arith)
get_or-read_words (lo ∷ hi ∷ bytes) zero even = refl
get_or-read_words (lo ∷ hi ∷ bytes) (suc i) even =
    let first : 2 * suc i ≡ suc (suc (2 * i)) = omega arith in
    let second : 2 * suc i + 1 ≡ suc (suc (2 * i + 1)) = omega arith in
    rw (second, first) (get_or-read_words bytes i (omega arith))

-- A file of an even number of bytes, less than 2 ^ 17, is loaded: each address below its number of
-- words holds the little-endian word of its two bytes, any other what it held.
pub load_file-words :
    (bus : Bus) (bytes : List ℕ) (a : ℕ)
    → length bytes % 2 ≡ 0
    → length bytes < 2 ^ 17
    → a < 2 ^ 16
    → (loaded : Bus) × (load_file bus bytes ≡ some loaded)
      × (loaded.mem a ≡ (
          if ltb a (length bytes / 2)
          then get_or bytes (2 * a) 0 + get_or bytes (2 * a + 1) 0 * 2 ^ 8
          else bus.mem a))
unfolding load_file
load_file-words bus bytes a even small lt =
    let words = length bytes / 2 in
    (
      if ltb 0 words then mem_load bus (read_words bytes) (words % 2 ^ 16) 0 else bus,
      if_not {b = not (length bytes % 2 == 0)} _ _ (ground arith)
          ∙ if_not {b = ltb mem_size words} _ _ (ground arith),
      elim (dec_lt 0 words) [
        | yes some_words ↦
            ap (λ (b : Bus). b.mem a) (if_yes {b = ltb 0 words} _ _ (ground arith))
            ∙ mem_load_lem bus (read_words bytes) (words % 2 ^ 16) 0 a (omega arith) (omega arith)
                lt
            ∙ ap₂ (λ (i n : ℕ). if ltb i n then get_or (read_words bytes) i 0 else bus.mem a)
                (let e : (a + 2 ^ 16 - 0) % 2 ^ 16 ≡ a = omega arith in e)
                (let e : words % 2 ^ 16 ≡ words = omega arith in e)
            ∙ ap (λ (w : ℕ). if ltb a words then w else bus.mem a) (get_or-read_words bytes a even)
        | no empty ↦
            ap (λ (b : Bus). b.mem a) (if_not {b = ltb 0 words} _ _ (ground arith))
            ∙ sym (if_not {b = ltb a words} _ _ (ground arith))
      ],
    )

-- A file of 2 ^ 17 bytes, which fills the memory, is accepted, and nothing of it is loaded.
pub load_file-full :
    (bus : Bus) (bytes : List ℕ) → length bytes ≡ 2 ^ 17 → load_file bus bytes ≡ some bus
unfolding load_file mem_load load_loop
load_file-full bus bytes full = rw full refl

-- A file is accepted exactly if it has an even number of bytes, 2 ^ 17 at most.
pub startup_cases :
    (cpu : Cpu) (bus : Bus) (bytes : List ℕ)
    → ((length bytes % 2 ≡ 0)
        × (length bytes ≤ 2 ^ 17)
        × ((first : Machine) × (startup cpu bus bytes ≡ some first)))
      ⊎ (((length bytes % 2 ≢ 0) ⊎ (2 ^ 17 < length bytes)) × (startup cpu bus bytes ≡ none))
unfolding startup load_file start_with
startup_cases cpu bus bytes = elim (Bool-cases (length bytes % 2 == 0)) [
  | inr odd ↦ inr (inl (λ e. let even = (==_iff _ 0).1 e in cc), rw odd refl)
  | inl even ↦ elim (Bool-cases (ltb mem_size (length bytes / 2))) [
    | inl large ↦ inr (inr (ground (arith, large)), rw (even, large) refl)
    | inr fits ↦ inl (
      ground (arith, even),
      ground (arith, fits),
      accepted {loaded = loaded} (load_file bus bytes) (rw (even, fits) refl),
    )
  ]
]
  where
    loaded : Bus
    loaded =
        if ltb 0 (length bytes / 2)
        then mem_load bus (read_words bytes) (length bytes / 2 % 2 ^ 16) 0
        else bus

    accepted :
        {loaded : Bus} (o : Option Bus)
        → o ≡ some loaded
        → (first : Machine) × (start_with cpu o ≡ some first)
    accepted none is = cc
    accepted (some b) is = (record { cpu = cpu_reset (cpu_init cpu); bus = b; stderr = [] }, refl)
