-- ===== src/Emulator/Startup/DumpRange.antt =====
-- Whether the dump that `main` asks for ends.
use educpu.Prelude.{ℕ, suc, ◌+◌, ◌-◌, ◌%◌, ◌^◌, ◌≤◌, ◌<◌, ◌≡◌, ◌≢◌, arith, true, List, none, some}
use educpu.Emulator.Memory.{Bus}
use educpu.Emulator.Memory.Dump.{Row, words_from, all_words, mem_dump_words, mem_dump_never_ends}
use educpu.Emulator.Startup.{dump_end, dump_range}

dump_end_below : (start : ℕ) → start ≤ 0xfeff → dump_end true start ≡ start + 256
unfolding dump_end
dump_end_below start lt = ground arith

dump_end_above : (start : ℕ) → 0xff00 ≤ start → dump_end true start ≡ 0xffff
unfolding dump_end
dump_end_above start lt = ground arith

-- With `--addr` at most 0xfeff the dump ends within 33 rounds, and prints the 256 words from there.
pub dump_range-words :
    (fuel start : ℕ) (bus : Bus)
    → 32 ≤ fuel
    → start ≤ 0xfeff
    → (dump_end true start ≡ start + 256)
      × ((rows : List Row) × (dump_range (suc fuel) true start bus ≡ some rows)
          × (all_words rows ≡ words_from bus.mem start (dump_end true start - start)))
unfolding dump_range
dump_range-words fuel start bus enough lt =
    let end_is = dump_end_below start lt in
    (
      end_is,
      mem_dump_words fuel bus start (dump_end true start) (omega arith) (omega arith) (omega arith),
    )

-- With `--addr` from 0xff00 on, unless it is 7 modulo 8, the dump does not end.
pub dump_range-never_ends :
    (fuel start : ℕ) (bus : Bus)
    → 0xff00 ≤ start
    → start < 2 ^ 16
    → start % 8 ≢ 7
    → dump_range fuel true start bus ≡ none
unfolding dump_range
dump_range-never_ends fuel start bus lo hi ne =
    mem_dump_never_ends fuel bus start (dump_end true start) hi
      (omega (arith, dump_end_above start lo))
