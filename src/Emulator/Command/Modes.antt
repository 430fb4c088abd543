-- ===== src/Emulator/Command/Modes.antt =====
-- The three ways to run.
use mathlib.Core.Option
use mathlib.Core.Path.{fun_ext, subst}
use educpu.Prelude.{
  inl, inr, refl, sym, Bool, ◌||◌, Option, none, Bool-cases, if◌then◌else◌, ℕ, zero, suc, ◌<◌, ◌≡◌,
  ◌∙◌, ap, arith, true, false, List, [], ◌∷◌, some, if_yes, if_not,
}
use educpu.Emulator.Cpu.{Cpu}
use educpu.Emulator.Control.{Machine, cpu_step}
use educpu.Emulator.Memory.{Bus, read_stdin}
use educpu.Emulator.Run.{cycles, cpu_run}
use educpu.Emulator.Run.Halting.{HaltsAfter, cpu_run-HaltsAfter}
use educpu.Emulator.Command.{Ran, wait_key, dump_each, run_mode}

-- The processors after each of the first `n` cycles.
abbrev pub cpus : ℕ → Machine → List Cpu
cpus zero m = []
cpus (suc n) m = (cpu_step m).cpu ∷ cpus n (cpu_step m)

dump_each-cycles :
    (n fuel : ℕ) (m : Machine)
    → HaltsAfter m n
    → n < fuel
    → dump_each (λ next. next) fuel m ≡ some (cycles n m, cpus n m)
unfolding dump_each
dump_each-cycles n zero m h lt = absurd (omega arith)
dump_each-cycles zero (suc fuel) m h lt = if_yes _ _ h.halts
dump_each-cycles (suc n) (suc fuel) m h lt =
    if_not _ _ (h.runs 0 (omega arith))
    ∙ ap (Option.map (λ (r : Ran). (r.0, (cpu_step m).cpu ∷ r.1))) (
        dump_each-cycles n fuel (cpu_step m)
          (record { halts = h.halts; runs = λ k lt. h.runs (suc k) (omega arith) }) (omega arith))

-- If the processor halts after `n` cycles, and there is more fuel, then with `--trace` the run ends at
-- the same machine as without an option, and the dumps are those of the processor after each cycle.
pub run_mode-HaltsAfter :
    (n fuel : ℕ) (m : Machine)
    → HaltsAfter m n
    → n < fuel
    → (run_mode false true fuel m ≡ some (cycles n m, cpus n m))
      × (run_mode false false fuel m ≡ some (cycles n m, []))
unfolding run_mode
run_mode-HaltsAfter n fuel m h lt = (
  dump_each-cycles n fuel m h lt,
  ap (Option.map (λ (r : Machine). (r, []))) (cpu_run-HaltsAfter n fuel m h lt),
)

map-some {ℓ} :
    {A : Type ℓ} (o : Option A) (f : A → Ran) (ran : Ran)
    → Option.map f o ≡ some ran
    → (a : A) × (o ≡ some a) × (ran ≡ f a)
map-some none f ran is = absurd (Option.none-ne-some ran is)
map-some (some a) f ran is = (a, refl, sym (Option.some-injective (f a) ran is))

-- With `--step` a byte of the input, if there is one, is read for the key after each cycle.
abbrev pub without_key : List ℕ → List ℕ
without_key [] = []
without_key (key ∷ rest) = rest

abbrev pub between : Bool → Machine → Machine
between true m = record m { bus = record m.bus { stdin = without_key m.bus.stdin } }
between false m = m

-- The machine after `n` cycles, with or without a key after each.
abbrev pub rounds : Bool → ℕ → Machine → Machine
rounds keys zero m = m
rounds keys (suc n) m = rounds keys n (between keys (cpu_step m))

-- The processors after each of these cycles.
abbrev pub round_cpus : Bool → ℕ → Machine → List Cpu
round_cpus keys zero m = []
round_cpus keys (suc n) m = (cpu_step m).cpu ∷ round_cpus keys n (between keys (cpu_step m))

-- A run goes to the first machine that has halted, and has dumped as the options say.
abbrev pub RunsTo : Bool → Bool → Machine → Ran → Type 0
RunsTo keys dumps m ran =
    (n : ℕ) × ((rounds keys n m).cpu.halted ≡ true)
    × ((k : ℕ) → k < n → (rounds keys k m).cpu.halted ≡ false)
    × (ran.0 ≡ rounds keys n m)
    × (ran.1 ≡ (if dumps then round_cpus keys n m else []))

read_stdin-without_key :
    (bus : Bus) (input : List ℕ)
    → bus.stdin ≡ input
    → (read_stdin bus input).1 ≡ record bus { stdin = without_key input }
unfolding read_stdin
read_stdin-without_key bus [] empty = ap (λ (l : List ℕ). record bus { stdin = l }) empty
read_stdin-without_key bus (key ∷ rest) is = refl

wait_key-between : wait_key ≡ between true
wait_key-between =
    fun_ext
      (λ m. ap (λ (b : Bus). record m { bus = b }) (read_stdin-without_key m.bus m.bus.stdin refl))

RunsTo-now :
    (keys dumps : Bool) (m : Machine) (ran : Ran)
    → m.cpu.halted ≡ true
    → ran ≡ (m, [])
    → RunsTo keys dumps m ran
RunsTo-now keys true m ran halted is =
    (0, halted, λ k lt. absurd (omega arith), ap (λ (r : Ran). r.0) is, ap (λ (r : Ran). r.1) is)
RunsTo-now keys false m ran halted is =
    (0, halted, λ k lt. absurd (omega arith), ap (λ (r : Ran). r.0) is, ap (λ (r : Ran). r.1) is)

-- One cycle more in front.
RunsTo-later :
    (keys dumps : Bool) (m : Machine) (ran rest : Ran)
    → m.cpu.halted ≡ false
    → ran ≡ (rest.0, if dumps then (cpu_step m).cpu ∷ rest.1 else rest.1)
    → RunsTo keys dumps (between keys (cpu_step m)) rest
    → RunsTo keys dumps m ran
RunsTo-later keys dumps m ran rest live is (n, halted, runs, last, seen) = (
  suc n,
  halted,
  earlier,
  ap (λ (r : Ran). r.0) is ∙ last,
  ap (λ (r : Ran). r.1) is ∙ in_front dumps rest.1 seen,
)
  where
    earlier : (k : ℕ) → k < suc n → (rounds keys k m).cpu.halted ≡ false
    earlier zero lt = live
    earlier (suc k) lt = runs k (omega arith)

    in_front :
        (d : Bool) (l : List Cpu)
        → l ≡ (if d then round_cpus keys n (between keys (cpu_step m)) else [])
        → (if d then (cpu_step m).cpu ∷ l else l) ≡ (if d then round_cpus keys (suc n) m else [])
    in_front true l same = ap (◌∷◌ (cpu_step m).cpu) same
    in_front false l same = same

dump_each-RunsTo :
    (keys : Bool) (fuel : ℕ) (m : Machine) (ran : Ran)
    → dump_each (between keys) fuel m ≡ some ran
    → RunsTo keys true m ran
unfolding dump_each
dump_each-RunsTo keys zero m ran is = absurd (Option.none-ne-some ran is)
dump_each-RunsTo keys (suc fuel) m ran is = elim (Bool-cases m.cpu.halted) [
  | inl halted ↦
      RunsTo-now keys true m ran halted
        (sym (Option.some-injective _ ran (sym (if_yes _ _ halted) ∙ is)))
  | inr live ↦
      let (rest, found, same) =
        map-some (dump_each (between keys) fuel (between keys (cpu_step m)))
          (λ (r : Ran). (r.0, (cpu_step m).cpu ∷ r.1)) ran (sym (if_not _ _ live) ∙ is) in
      RunsTo-later keys true m ran rest live same
        (dump_each-RunsTo keys fuel (between keys (cpu_step m)) rest found)
]

cpu_run-RunsTo :
    (fuel : ℕ) (m last : Machine) → cpu_run fuel m ≡ some last → RunsTo false false m (last, [])
unfolding cpu_run
cpu_run-RunsTo zero m last is = absurd (Option.none-ne-some last is)
cpu_run-RunsTo (suc fuel) m last is = elim (Bool-cases m.cpu.halted) [
  | inl halted ↦
      RunsTo-now false false m (last, []) halted
        (ap (λ (x : Machine). (x, []))
          (sym (Option.some-injective m last (sym (if_yes _ _ halted) ∙ is))))
  | inr live ↦
      RunsTo-later false false m (last, []) (last, []) live refl
        (cpu_run-RunsTo fuel (cpu_step m) last (sym (if_not _ _ live) ∙ is))
]

-- Whatever the options, a run that ends has gone to the first machine that has halted.
pub run_mode-RunsTo :
    (step trace : Bool) (fuel : ℕ) (m : Machine) (ran : Ran)
    → run_mode step trace fuel m ≡ some ran
    → RunsTo step (step || trace) m ran
unfolding run_mode
run_mode-RunsTo true trace fuel m ran is =
    dump_each-RunsTo true fuel m ran
      (ap (λ (f : Machine → Machine). dump_each f fuel m) (sym wait_key-between) ∙ is)
run_mode-RunsTo false true fuel m ran is = dump_each-RunsTo false fuel m ran is
run_mode-RunsTo false false fuel m ran is =
    let (last, found, same) = map-some (cpu_run fuel m) (λ (r : Machine). (r, [])) ran is in
    subst (RunsTo false false m) (sym same) (cpu_run-RunsTo fuel m last found)
