-- ===== src/Emulator/Run/Halting.antt =====
-- What `cpu_run` returns, and when.
use educpu.Prelude.{
  ℕ, zero, suc, ◌+◌, ◌%◌, ◌^◌, ◌<◌, ◌≡◌, sym, ◌∙◌, arith, true, false, some, inl, inr, Bool-cases,
  if_yes, if_not,
}
use educpu.Emulator.Control.{Machine, cpu_step}
use educpu.Emulator.Control.Count.{cpu_step-cycle_count}
use educpu.Emulator.Run.{cpu_run, cycles}

-- The processor halts after `n` cycles, and not before.
pub record HaltsAfter (m : Machine) (n : ℕ) : Type 0 where
  pub halts : (cycles n m).cpu.halted ≡ true
  pub runs : (k : ℕ) → k < n → (cycles k m).cpu.halted ≡ false

HaltsAfter-step :
    (m : Machine) (n : ℕ) → m.cpu.halted ≡ false → HaltsAfter (cpu_step m) n → HaltsAfter m (suc n)
HaltsAfter-step m n live h = record { halts = h.halts; runs = earlier }
  where
    earlier : (k : ℕ) → k < suc n → (cycles k m).cpu.halted ≡ false
    earlier zero lt = live
    earlier (suc k) lt = h.runs k (omega arith)

-- With more fuel than the processor has cycles to its halt, the loop returns the machine of then.
pub cpu_run-HaltsAfter :
    (n fuel : ℕ) (m : Machine) → HaltsAfter m n → n < fuel → cpu_run fuel m ≡ some (cycles n m)
unfolding cpu_run
cpu_run-HaltsAfter n zero m h lt = absurd (omega arith)
cpu_run-HaltsAfter zero (suc fuel) m h lt = if_yes _ _ h.halts
cpu_run-HaltsAfter (suc n) (suc fuel) m h lt =
    if_not _ _ (h.runs 0 (omega arith))
    ∙ cpu_run-HaltsAfter n fuel (cpu_step m)
        (record { halts = h.halts; runs = λ k lt'. h.runs (suc k) (omega arith) }) (omega arith)

-- Whatever the loop returns is the machine after some number of cycles, which the counter has
-- counted, and at which the processor halted for the first time.
pub cpu_run-counts :
    (fuel : ℕ) (m r : Machine)
    → m.cpu.cycle_count < 2 ^ 64
    → cpu_run fuel m ≡ some r
    → (n : ℕ) × (r ≡ cycles n m)
      × HaltsAfter m n
      × (r.cpu.cycle_count ≡ (m.cpu.cycle_count + n) % 2 ^ 64)
unfolding cpu_run
cpu_run-counts zero m r fits e = absurd (cc)
cpu_run-counts (suc fuel) m r fits e = elim (Bool-cases m.cpu.halted) [
  | inl stopped ↦
      let found : some m ≡ some r = sym (if_yes _ _ stopped) ∙ e in
      let same : m ≡ r = cc in
      (
        0,
        sym same,
        record { halts = stopped; runs = λ k lt. absurd (omega arith) },
        rw (← same) (omega arith),
      )
  | inr live ↦
      let counted = cpu_step-cycle_count m live in
      let (n, is, halts, total) =
        cpu_run-counts fuel (cpu_step m) r (omega arith) (sym (if_not _ _ live) ∙ e) in
      (suc n, is, HaltsAfter-step m n live halts, omega arith)
]
