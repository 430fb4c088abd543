-- ===== src/Emulator/Memory/Laws.antt =====
-- Reads and writes of memory and ports, and what `mem_load` leaves in memory.
use educpu.Prelude.{
  ℕ, zero, suc, ◌+◌, ◌-◌, ◌%◌, ◌^◌, ◌≤◌, ◌<◌, ◌≡◌, ◌∙◌, arith, ltb, leb, List, [], ◌∷◌, ◌++◌,
  get_or, ◌==◌, if◌then◌else◌, ◌&&◌,
}
use educpu.Prelude.Bits.{bit_and-mask}
use educpu.Isa.{io_base, io_stdout}
use educpu.Emulator.Cpu.{IsWord}
use educpu.Emulator.Memory.{Bus, update, mem_read, mem_write, load_loop, mem_load}

-- Every word of memory is a uint16_t.
abbrev pub IsBus : Bus → Type 0
IsBus bus = (a : ℕ) → IsWord (bus.mem a)

pub mem_read-IsWord : (bus : Bus) (addr : ℕ) → IsBus bus → IsWord (mem_read bus addr).0
unfolding mem_read
mem_read-IsWord bus addr h = ground (arith, h addr, bit_and-mask 16 (bus.clock bus.clock_calls))

pub mem_read-mem : (bus : Bus) (addr : ℕ) → (mem_read bus addr).1.mem ≡ bus.mem
unfolding mem_read
mem_read-mem bus addr = ground arith

pub mem_write-IsBus :
    (bus : Bus) (addr val : ℕ) → IsBus bus → IsWord val → IsBus (mem_write bus addr val)
unfolding mem_write
mem_write-IsBus bus addr val h fits a = ground (arith, h a)

-- Below the ports, a write sets one word, and a read returns it and changes nothing.
pub mem_read-ram : (bus : Bus) (addr : ℕ) → addr < io_base → mem_read bus addr ≡ (bus.mem addr, bus)
unfolding mem_read
mem_read-ram bus addr h = ground arith

pub mem_write-ram :
    (bus : Bus) (addr val : ℕ)
    → addr < io_base
    → mem_write bus addr val ≡ record bus { mem = update bus.mem addr val }
unfolding mem_write
mem_write-ram bus addr val h = ground arith

-- A read below the ports after a write: at the written address the word written, at any other what
-- was there. A write below the ports changes one word, a write to a port none; only `IO_STDOUT`
-- takes output, the low byte of the word; no write takes input.
pub mem_read-mem_write :
    (bus : Bus) (addr val a : ℕ)
    → a < io_base
    → ((mem_read (mem_write bus addr val) a).0 ≡ (if addr == a then val else bus.mem a))
      × ((mem_write bus addr val).stdout
          ≡ (if addr == io_stdout then bus.stdout ++ (val % 2 ^ 8) ∷ [] else bus.stdout))
      × ((mem_write bus addr val).stdin ≡ bus.stdin)
      × ((mem_write bus addr val).mem
          ≡ (if ltb addr io_base then update bus.mem addr val else bus.mem))
unfolding mem_read mem_write
mem_read-mem_write bus addr val a h = ground (arith, bit_and-mask 8 val)

load_loop_lem :
    (left i : ℕ) (program : List ℕ) (base : ℕ) (m : ℕ → ℕ) (a : ℕ)
    → i + left ≤ 2 ^ 16
    → base < 2 ^ 16
    → a < 2 ^ 16
    → load_loop left i program base m a ≡ (
        if leb i ((a + 2 ^ 16 - base) % 2 ^ 16) && ltb ((a + 2 ^ 16 - base) % 2 ^ 16) (i + left)
        then get_or program ((a + 2 ^ 16 - base) % 2 ^ 16) 0
        else m a)
unfolding load_loop
load_loop_lem zero i program base m a h hb ha = ground arith
load_loop_lem (suc left) i program base m a h hb ha = ground (
  arith,
  load_loop_lem left (i + 1) program base (update m ((base + i) % 2 ^ 16) (get_or program i 0)) a,
)

-- Loading `len` words at `base` puts the word of index (a - base) modulo 2 ^ 16 at each address `a`
-- whose index is below `len`, and leaves every other word.
pub mem_load_lem :
    (bus : Bus) (program : List ℕ) (len base a : ℕ)
    → len < 2 ^ 16
    → base < 2 ^ 16
    → a < 2 ^ 16
    → (mem_load bus program len base).mem a ≡ (
        if ltb ((a + 2 ^ 16 - base) % 2 ^ 16) len
        then get_or program ((a + 2 ^ 16 - base) % 2 ^ 16) 0
        else bus.mem a)
unfolding mem_load
mem_load_lem bus program len base a hl hb ha =
    load_loop_lem len 0 program base bus.mem a (omega arith) hb ha ∙ ground arith
