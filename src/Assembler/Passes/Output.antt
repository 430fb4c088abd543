-- ===== src/Assembler/Passes/Output.antt =====
-- The bytes that the assembler writes, read by the emulator.
use educpu.Prelude.{
  ℕ, zero, suc, ◌+◌, ◌*◌, ◌/◌, ◌%◌, ◌^◌, ◌<◌, ◌≡◌, ◌∙◌, refl, sym, ap, arith, some, length, get_or,
  bit_and, ltb, if◌then◌else◌, if_cases,
}
use educpu.Prelude.Bits.{bit_and-mask}
use educpu.Emulator.Memory.{Bus}
use educpu.Emulator.Startup.{read_words, load_file}
use educpu.Emulator.Startup.Load.{get_or-read_words, load_file-words}
use educpu.Assembler.Passes.{image_bytes}

pub length-image_bytes : (n w : ℕ) (image : ℕ → ℕ) → length (image_bytes n w image) ≡ 2 * n
unfolding image_bytes
length-image_bytes zero w image = refl
length-image_bytes (suc n) w image = omega (arith, length-image_bytes n (w + 1) image)

split_word : (x : ℕ) → bit_and x 0xff + bit_and (x / 2 ^ 8) 0xff * 2 ^ 8 ≡ x % 2 ^ 16
split_word x = omega (arith, bit_and-mask 8 x, bit_and-mask 8 (x / 2 ^ 8))

read_words-image_bytes :
    (n w : ℕ) (image : ℕ → ℕ) (j : ℕ)
    → j < n
    → get_or (read_words (image_bytes n w image)) j 0 ≡ image (w + j) % 2 ^ 16
unfolding image_bytes
read_words-image_bytes zero w image j lt = absurd (omega arith)
read_words-image_bytes (suc n) w image zero lt =
    split_word (image w) ∙ ap (λ (a : ℕ). image a % 2 ^ 16) (omega arith)
read_words-image_bytes (suc n) w image (suc j) lt =
    read_words-image_bytes n (w + 1) image j (omega arith)
    ∙ ap (λ (a : ℕ). image a % 2 ^ 16) (omega arith)

-- Of the words that the assembler writes, fewer than 2 ^ 16 of them, the emulator loads each at its
-- address in the image, and leaves the memory after them.
pub load_file-image_bytes :
    (bus : Bus) (image : ℕ → ℕ) (n a : ℕ)
    → n < 2 ^ 16
    → a < 2 ^ 16
    → (loaded : Bus) × (load_file bus (image_bytes n 0 image) ≡ some loaded)
      × (loaded.mem a ≡ (if ltb a n then image a % 2 ^ 16 else bus.mem a))
load_file-image_bytes bus image n a small lt =
    let bytes = image_bytes n 0 image in
    let size = length-image_bytes n 0 image in
    let half : length bytes / 2 ≡ n = omega arith in
    let (loaded, run, at) = load_file-words bus bytes a (omega arith) (omega arith) lt in
    (
      loaded,
      run,
      at
          ∙ ap
              (λ (k : ℕ).
                if ltb a k
                then get_or bytes (2 * a) 0 + get_or bytes (2 * a + 1) 0 * 2 ^ 8
                else bus.mem a)
              half
          ∙ if_cases (λ (v : ℕ). v ≡ (if ltb a n then image a % 2 ^ 16 else bus.mem a)) (ltb a n)
              (λ inside.
                sym (get_or-read_words bytes a (omega arith))
                ∙ read_words-image_bytes n 0 image a (ground arith)
                ∙ ap (λ (x : ℕ). image x % 2 ^ 16) (let e : 0 + a ≡ a = omega arith in e)
                ∙ rw inside refl)
              (λ outside. rw outside refl),
    )
