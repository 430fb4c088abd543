-- ===== src/Emulator/Run.antt =====
-- `cpu_run` of emulator/cpu.c. The loop takes fuel: `none` says that the fuel ran out before the
-- processor halted.
pub mod Halting
use educpu.Prelude.{ℕ, zero, suc, Option, none, some, if◌then◌else◌}
use educpu.Emulator.Control.{Machine, cpu_step}

unfoldable pub cpu_run : ℕ → Machine → Option Machine
cpu_run zero m = none
cpu_run (suc fuel) m = let rest = cpu_run fuel (cpu_step m) in if m.cpu.halted then some m else rest

-- The machine after `n` cycles.
abbrev pub cycles : ℕ → Machine → Machine
cycles zero m = m
cycles (suc n) m = cycles n (cpu_step m)
