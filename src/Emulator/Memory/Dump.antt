-- ===== src/Emulator/Memory/Dump.antt =====
-- `mem_dump` of emulator/memory.c: the rows of eight words that it prints. The address wraps at
-- 2 ^ 16, so the outer loop takes fuel; `none` says that the fuel ran out.
use Prim.Native.Nat.{min}
use mathlib.Core.Path.{ap₂}
use native.Mathlib.Decide.{dec_lt}
use educpu.Prelude.{
  ℕ, zero, suc, ◌+◌, ◌-◌, ◌*◌, ◌%◌, ◌^◌, ◌≤◌, ◌<◌, ◌≡◌, refl, sym, ◌∙◌, ap, ◌⊎◌, inl, inr, arith,
  Option, none, some, List, [], ◌∷◌, ◌++◌, ltb, leb, if◌then◌else◌, if_yes, if_not,
}
use educpu.Emulator.Memory.{Bus}

pub record Row : Type 0 where
  pub start : ℕ
  pub words : List ℕ

-- The inner loop at column `8 - left`.
unfoldable pub row_loop : ℕ → (ℕ → ℕ) → ℕ → ℕ → ℕ → List ℕ
row_loop zero m addr col end_addr = []
row_loop (suc left) m addr col end_addr =
    if ltb ((addr + col) % 2 ^ 16) end_addr
    then m ((addr + col) % 2 ^ 16) ∷ row_loop left m addr (col + 1) end_addr
    else []

add_row : Row → Option (List Row) → Option (List Row)
add_row row none = none
add_row row (some rows) = some (row ∷ rows)

unfoldable pub dump_loop : ℕ → (ℕ → ℕ) → ℕ → ℕ → Option (List Row)
unfolding row_loop add_row
dump_loop zero m addr end_addr = none
dump_loop (suc fuel) m addr end_addr =
    let rest = dump_loop fuel m ((addr + 8) % 2 ^ 16) end_addr in
    if ltb addr end_addr
    then add_row (record { start = addr; words = row_loop 8 m addr 0 end_addr }) rest
    else some []

unfoldable pub mem_dump : ℕ → Bus → ℕ → ℕ → Option (List Row)
mem_dump fuel bus start end_addr =
    let rows = dump_loop fuel bus.mem start end_addr in if leb end_addr start then some [] else rows

-- No address that the loop can reach from `start` is at or past `end_addr`.
dump_loop_stuck :
    (fuel : ℕ) (m : ℕ → ℕ) (addr end_addr : ℕ)
    → addr < 2 ^ 16
    → 2 ^ 16 - 8 + addr % 8 < end_addr
    → dump_loop fuel m addr end_addr ≡ none
unfolding dump_loop
dump_loop_stuck zero m addr end_addr lt far = refl
dump_loop_stuck (suc fuel) m addr end_addr lt far =
    ground (arith, dump_loop_stuck fuel m ((addr + 8) % 2 ^ 16) end_addr)

-- The words at `count` addresses from `a` on, and all the words of some rows.
abbrev pub words_from : (ℕ → ℕ) → ℕ → ℕ → List ℕ
words_from m a zero = []
words_from m a (suc count) = m a ∷ words_from m (a + 1) count

abbrev pub all_words : List Row → List ℕ
all_words [] = []
all_words (row ∷ rows) = row.words ++ all_words rows

words_from-add :
    (m : ℕ → ℕ) (j a k : ℕ) → words_from m a (j + k) ≡ words_from m a j ++ words_from m (a + j) k
words_from-add m zero a k = ap₂ (words_from m) (omega arith) (omega arith)
words_from-add m (suc j) a k =
    ap (words_from m a) suc_add
    ∙ ap (◌∷◌ (m a)) (
        words_from-add m j (a + 1) k
        ∙ ap (λ (t : ℕ). words_from m (a + 1) j ++ words_from m t k) (omega arith))
  where
    suc_add : suc j + k ≡ suc (j + k)
    suc_add = omega arith

words_from_none : (m : ℕ → ℕ) (a n : ℕ) → n ≡ 0 → [] ≡ words_from m a n
words_from_none m a n e = rw e

words_from_next :
    (m : ℕ → ℕ) (a n b k : ℕ) → n ≡ suc k → b ≡ a + 1 → m a ∷ words_from m b k ≡ words_from m a n
words_from_next m a n b k e f = rw (e, f)

row_loop-words_from :
    (left : ℕ) (m : ℕ → ℕ) (addr col end_addr : ℕ)
    → addr + col + left ≤ 2 ^ 16
    → row_loop left m addr col end_addr
      ≡ words_from m (addr + col) (min left (end_addr - (addr + col)))
unfolding row_loop
row_loop-words_from zero m addr col end_addr fits = words_from_none m _ _ (omega arith)
row_loop-words_from (suc left) m addr col end_addr fits =
    let here : (addr + col) % 2 ^ 16 ≡ addr + col = omega arith in
    rw here (elim (dec_lt (addr + col) end_addr) [
      | no done ↦
          if_not {b = ltb (addr + col) end_addr} _ _ (ground arith)
          ∙ words_from_none m _ _ (omega arith)
      | yes more ↦
          if_yes {b = ltb (addr + col) end_addr} _ _ (ground arith)
          ∙ ap (◌∷◌ (m (addr + col)))
              (row_loop-words_from left m addr (col + 1) end_addr (omega arith))
          ∙ words_from_next m (addr + col) _ (addr + (col + 1)) _ (omega arith) (omega arith)
    ])

-- Where no words are taken the address does not matter.
words_at : (m : ℕ → ℕ) (a b n : ℕ) → (n ≡ 0) ⊎ (a ≡ b) → words_from m a n ≡ words_from m b n
words_at m a b n (inl e) = rw e
words_at m a b n (inr e) = rw e

-- One row in front of the rows of the addresses after it.
row-append :
    (m : ℕ → ℕ) (addr end_addr : ℕ)
    → addr < end_addr
    → end_addr ≤ 2 ^ 16 - 8 + addr % 8
    → row_loop 8 m addr 0 end_addr
        ++ words_from m ((addr + 8) % 2 ^ 16) (end_addr - (addr + 8) % 2 ^ 16)
      ≡ words_from m addr (end_addr - addr)
row-append m addr end_addr lt near =
    let j = min 8 (end_addr - (addr + 0)) in
    let split : end_addr - addr ≡ j + (end_addr - (addr + 8)) = omega arith in
    let same : (addr + 8) % 2 ^ 16 ≡ addr + 8 = omega arith in
    ap₂ (λ u v. u ++ v)
      (row_loop-words_from 8 m addr 0 end_addr (omega arith)
        ∙ ap (λ (t : ℕ). words_from m t j) (omega arith))
      (ap (λ (t : ℕ). words_from m t (end_addr - t)) same ∙ words_at m _ _ _ (omega arith))
    ∙ sym (words_from-add m j addr (end_addr - (addr + 8)))
    ∙ ap (words_from m addr) (sym split)

dump_loop_words :
    (fuel : ℕ) (m : ℕ → ℕ) (addr end_addr : ℕ)
    → addr < 2 ^ 16
    → end_addr ≤ 2 ^ 16 - 8 + addr % 8
    → end_addr ≤ addr + 8 * fuel
    → (rows : List Row) × (dump_loop (suc fuel) m addr end_addr ≡ some rows)
      × (all_words rows ≡ words_from m addr (end_addr - addr))
unfolding dump_loop
dump_loop_words zero m addr end_addr lt near enough =
    ([], ground arith, words_from_none m _ _ (omega arith))
dump_loop_words (suc fuel) m addr end_addr lt near enough = elim (dec_lt addr end_addr) [
  | no done ↦ ([], ground arith, words_from_none m _ _ (omega arith))
  | yes more ↦
      let (rows, run, words) =
        dump_loop_words fuel m ((addr + 8) % 2 ^ 16) end_addr (omega arith) (omega arith)
          (omega arith) in
      let row : Row = record { start = addr; words = row_loop 8 m addr 0 end_addr } in
      (
        row ∷ rows,
        if_yes {b = ltb addr end_addr} _ _ (ground arith) ∙ ap (add_row row) run,
        ap (◌++◌ row.words) words ∙ row-append m addr end_addr more near,
      )
]

-- `mem_dump` prints nothing for an empty range.
mem_dump_empty :
    (fuel : ℕ) (bus : Bus) (start end_addr : ℕ)
    → end_addr ≤ start
    → mem_dump fuel bus start end_addr ≡ some []
unfolding mem_dump
mem_dump_empty fuel bus start end_addr h = ground arith

-- If `end_addr` is at most 2 ^ 16 - 8 + start % 8, then one round for each eight words and one more
-- are enough, and the rows that are printed hold the words from `start` up to `end_addr`, each once
-- and in order.
pub mem_dump_words :
    (fuel : ℕ) (bus : Bus) (start end_addr : ℕ)
    → start < 2 ^ 16
    → end_addr ≤ 2 ^ 16 - 8 + start % 8
    → end_addr ≤ start + 8 * fuel
    → (rows : List Row) × (mem_dump (suc fuel) bus start end_addr ≡ some rows)
      × (all_words rows ≡ words_from bus.mem start (end_addr - start))
unfolding mem_dump
mem_dump_words fuel bus start end_addr lt near enough = elim (dec_lt start end_addr) [
  | no empty ↦ (
    [],
    mem_dump_empty (suc fuel) bus start end_addr (omega arith),
    words_from_none bus.mem _ _ (omega arith),
  )
  | yes more ↦
      let (rows, run, words) = dump_loop_words fuel bus.mem start end_addr lt near enough in
      (rows, if_not {b = leb end_addr start} _ _ (ground arith) ∙ run, words)
]

-- Otherwise no address that the loop reaches is past the end: no number of rounds is enough.
pub mem_dump_never_ends :
    (fuel : ℕ) (bus : Bus) (start end_addr : ℕ)
    → start < 2 ^ 16
    → 2 ^ 16 - 8 + start % 8 < end_addr
    → mem_dump fuel bus start end_addr ≡ none
unfolding mem_dump
mem_dump_never_ends fuel bus start end_addr lt far =
    if_not {b = leb end_addr start} _ _ (ground arith)
    ∙ dump_loop_stuck fuel bus.mem start end_addr lt far
