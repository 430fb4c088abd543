-- ===== src/Emulator/Alu/Flags.antt =====
-- Flags do not disturb one another, and stay below 16.
use educpu.Prelude.{
  ℕ, zero, suc, ◌+◌, ◌/◌, ◌*◌, ◌%◌, ◌^◌, ◌<◌, ◌≡◌, refl, ap, ◌∙◌, arith, Bool, true, false, not,
  ◌&&◌, bit_and, leb, leb_iff, ◌==◌, if◌then◌else◌,
}
use mathlib.Core.Path.{subst₃}
use native.Mathlib.Nat.{pow-suc, mul_comm, div-div-eq-div-mul}
use educpu.Prelude.Bits.{bit_and-mask, bit_and_step}
use educpu.Prelude.Int.{pos, ltb_ℤ, to_i16}
use educpu.Emulator.Cpu.{Cpu, flag_zf, flag_nf, flag_cf, flag_of, has_flag, IsWord}
use educpu.Emulator.Alu.{flags_with, no_carry, sign_bit}

all_flags : (ℕ → Bool) → ℕ → Bool
all_flags test zero = true
all_flags test (suc bound) = all_flags test bound && test bound

all_flags_sound :
    (test : ℕ → Bool) (bound flags : ℕ)
    → flags < bound
    → all_flags test bound ≡ true
    → test flags ≡ true
unfolding all_flags
all_flags_sound test zero flags small every = absurd (omega arith)
all_flags_sound test (suc bound) flags small every =
    ground (arith, all_flags_sound test bound flags)

same : Bool → Bool → Bool
same true b = b
same false b = not b

same-eq : (a b : Bool) → same a b ≡ true → a ≡ b
unfolding same
same-eq true b h = ground arith
same-eq false b h = ground arith

-- Every flag after an assignment to the flag of `mask`, for one byte of flags.
four : ℕ → ℕ → Bool → Bool
four mask flags v =
    let after = flags_with flags mask v in
    same (has_flag after 1) (if mask == 1 then v else has_flag flags 1)
    && same (has_flag after 2) (if mask == 2 then v else has_flag flags 2)
    && same (has_flag after 4) (if mask == 4 then v else has_flag flags 4)
    && same (has_flag after 8) (if mask == 8 then v else has_flag flags 8)
    && leb (after + 1) 16

four_table :
    (v : Bool) → all_flags (λ f. four 1 f v && four 2 f v && four 4 f v && four 8 f v) 16 ≡ true
unfolding all_flags four flags_with same
four_table true = refl
four_table false = refl

-- An assignment to one flag sets that flag, leaves the three others, and uses no further bit.
abbrev pub Assigns : ℕ → ℕ → Bool → Type 0
Assigns mask flags v =
    (has_flag (flags_with flags mask v) flag_zf
      ≡ (if mask == flag_zf then v else has_flag flags flag_zf))
    × (has_flag (flags_with flags mask v) flag_nf
        ≡ (if mask == flag_nf then v else has_flag flags flag_nf))
    × (has_flag (flags_with flags mask v) flag_cf
        ≡ (if mask == flag_cf then v else has_flag flags flag_cf))
    × (has_flag (flags_with flags mask v) flag_of
        ≡ (if mask == flag_of then v else has_flag flags flag_of))
    × (flags_with flags mask v < 16)

all_five :
    (a b c d e : Bool)
    → (a && b && c && d && e) ≡ true
    → (a ≡ true) × (b ≡ true) × (c ≡ true) × (d ≡ true) × (e ≡ true)
all_five a b c d e h = ground arith

four-Assigns : (mask flags : ℕ) (v : Bool) → four mask flags v ≡ true → Assigns mask flags v
unfolding four
four-Assigns mask flags v h =
    let (p, q, r, s, t) = all_five _ _ _ _ _ h in
    (
      same-eq _ _ p,
      same-eq _ _ q,
      same-eq _ _ r,
      same-eq _ _ s,
      omega (arith, (leb_iff (flags_with flags mask v + 1) 16).0 t),
    )

module _ (flags : ℕ) (v : Bool) (fits : flags < 16) where
  table : (four 1 flags v && four 2 flags v && four 4 flags v && four 8 flags v) ≡ true
  table = all_flags_sound _ 16 flags fits (four_table v)

  pub zf-Assigns : Assigns flag_zf flags v
  zf-Assigns = four-Assigns 1 flags v (ground (arith, table))

  pub nf-Assigns : Assigns flag_nf flags v
  nf-Assigns = four-Assigns 2 flags v (ground (arith, table))

  pub cf-Assigns : Assigns flag_cf flags v
  cf-Assigns = four-Assigns 4 flags v (ground (arith, table))

  pub of-Assigns : Assigns flag_of flags v
  of-Assigns = four-Assigns 8 flags v (ground (arith, table))

-- What an operation makes of a processor: the value, the four flags, and nothing else changed.
-- The negative flag is the sign of the value as a signed word.
pub record Outcome (before : Cpu) (after : Cpu × ℕ) (value : ℕ) (carry overflow : Bool)
    : Type 0 where
  pub value_is : after.1 ≡ value
  pub zf_is : has_flag after.0.flags flag_zf ≡ (value == 0)
  pub nf_is : has_flag after.0.flags flag_nf ≡ ltb_ℤ (to_i16 value) (pos 0)
  pub cf_is : has_flag after.0.flags flag_cf ≡ carry
  pub of_is : has_flag after.0.flags flag_of ≡ overflow
  pub flags_fit : after.0.flags < 16
  pub frame : after.0 ≡ record before { flags = after.0.flags }

pub sign_bit_lem : (x : ℕ) → IsWord x → sign_bit x ≡ x / 2 ^ 15
sign_bit_lem x h = omega (arith, bit_and-mask 1 (x / 2 ^ 15))

-- `result & 0x8000`
pub top_bit : (k x : ℕ) → bit_and x (2 ^ k) ≡ x / 2 ^ k % 2 * 2 ^ k
top_bit zero x = omega (arith, bit_and-mask 1 x)
top_bit (suc k) x = ground (
  arith,
  bit_and_step x (2 ^ suc k),
  pow-suc 2 k,
  top_bit k (x / 2),
  div-div-eq-div-mul x 2 (2 ^ k),
  ap (λ (t : ℕ). x / (2 * 2 ^ k) % 2 * t) (pow-suc 2 k),
  ap (λ (t : ℕ). x / t) (pow-suc 2 k),
  mul_comm (2 ^ k) 2,
)

-- The test `(result & 0x8000u) != 0` is the sign of the signed word.
negative_lem : (x : ℕ) → IsWord x → not (bit_and x 0x8000 == 0) ≡ ltb_ℤ (to_i16 x) (pos 0)
unfolding to_i16
negative_lem x h = ground (arith, top_bit 15 x)

pub no_carry-Outcome :
    (cpu : Cpu) (result : ℕ)
    → cpu.flags < 16
    → IsWord result
    → Outcome cpu
        (no_carry cpu result)
        result
        (has_flag cpu.flags flag_cf)
        (has_flag cpu.flags flag_of)
unfolding no_carry
no_carry-Outcome cpu result fits word =
    let z = zf-Assigns cpu.flags (result == 0) fits in
    let n = nf-Assigns _ (not (bit_and result 0x8000 == 0)) z.4 in
    record {
      value_is = refl;
      zf_is = n.0 ∙ z.0;
      nf_is = n.1 ∙ negative_lem result word;
      cf_is = n.2 ∙ z.2;
      of_is = n.3 ∙ z.3;
      flags_fit = n.4;
      frame = refl;
    }

-- An outcome, with its parts stated another way.
pub Outcome-along :
    {before : Cpu} {after : Cpu × ℕ} {v v' : ℕ} {c c' o o' : Bool}
    → Outcome before after v c o
    → v ≡ v'
    → c ≡ c'
    → o ≡ o'
    → Outcome before after v' c' o'
Outcome-along {before} {after} h p q r = subst₃ (λ v c o. Outcome before after v c o) p q r h
