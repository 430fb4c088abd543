-- ===== src/Emulator/Memory.antt =====
-- emulator/memory.c. The 64K words are a function of the address. `getchar` takes the next byte of
-- standard input, `putchar` adds a byte to standard output, and the n-th call of `clock` returns
-- `clock n`, of which nothing is assumed.
pub mod Laws
pub mod Dump
use educpu.Prelude.{
  ℕ, zero, suc, ◌+◌, ◌%◌, ◌^◌, List, [], ◌∷◌, ◌++◌, get_or, bit_and, leb, ◌==◌, if◌then◌else◌,
}
use educpu.Isa.{io_base, io_stdout, io_stdin, io_timer}

pub record Bus : Type 0 where
  pub mem : ℕ → ℕ
  pub stdin : List ℕ
  pub stdout : List ℕ
  pub clock : ℕ → ℕ
  pub clock_calls : ℕ

-- `mem[addr] = val`
abbrev pub update : (ℕ → ℕ) → ℕ → ℕ → ℕ → ℕ
update m addr val a = if addr == a then val else m a

-- What `mem_read` returns for the port `IO_STDIN`: 0 at the end of the input.
unfoldable pub read_stdin : Bus → List ℕ → ℕ × Bus
read_stdin bus [] = (0, bus)
read_stdin bus (ch ∷ rest) = (ch % 2 ^ 8, record bus { stdin = rest })

unfoldable pub mem_read : Bus → ℕ → ℕ × Bus
unfolding read_stdin
mem_read bus addr =
    if addr == io_stdin
    then read_stdin bus bus.stdin
    else if addr == io_timer
    then (
      bit_and (bus.clock bus.clock_calls) 0xffff,
      record bus { clock_calls = suc bus.clock_calls },
    )
    else (bus.mem addr, bus)

unfoldable pub mem_write : Bus → ℕ → ℕ → Bus
mem_write bus addr val =
    if addr == io_stdout
    then record bus { stdout = bus.stdout ++ bit_and val 0x00ff ∷ [] }
    else if leb io_base addr
    then bus
    else record bus { mem = update bus.mem addr val }

-- The loop of `mem_load` at index `i`, with `left` rounds to go. `len` is at most the length of the
-- buffer in every call, so the default of `get_or` is never read.
unfoldable pub load_loop : ℕ → ℕ → List ℕ → ℕ → (ℕ → ℕ) → ℕ → ℕ
load_loop zero i program base m = m
load_loop (suc left) i program base m =
    load_loop left (i + 1) program base (update m ((base + i) % 2 ^ 16) (get_or program i 0))

unfoldable pub mem_load : Bus → List ℕ → ℕ → ℕ → Bus
unfolding load_loop
mem_load bus program len base = record bus { mem = load_loop len 0 program base bus.mem }
