-- ===== src/Emulator/Command/Ends.antt =====
-- The end of a process whose machine halts.
use educpu.Prelude.{
  ℕ, ◌<◌, ◌≡◌, ◌∙◌, ap, Bool, true, false, ◌&&◌, List, [], Option, some, if◌then◌else◌, if_not,
}
use educpu.Assembler.Text.{Text}
use educpu.Emulator.Cpu.{Cpu}
use educpu.Emulator.Memory.{Bus}
use educpu.Emulator.Control.{Machine}
use educpu.Emulator.Startup.{startup}
use educpu.Emulator.Run.{cycles}
use educpu.Emulator.Run.Halting.{HaltsAfter}
use educpu.Emulator.Command.Modes.{cpus, run_mode-HaltsAfter}
use educpu.Emulator.Command.{
  Options, no_options, read_args, run_mode, dump_after, run_from, run_file, run_path, run_options,
  main,
}

-- If the arguments are accepted and name a file that is accepted, without `--step` and `--dump`, and
-- the machine that starts from the file halts after `n` cycles, fewer than the fuel, then the process
-- ends with code 0 and the machine after these cycles, and with `--trace` the dumps after each cycle.
pub main-HaltsAfter :
    (fuel n : ℕ) (read_file : Text → Option Text) (cpu : Cpu) (bus : Bus) (args : List Text)
    (opt : Options) (path bytes : Text) (first : Machine)
    → read_args args false no_options ≡ some opt
    → opt.bin_path ≡ some path
    → opt.do_step ≡ false
    → opt.do_dump ≡ false
    → read_file path ≡ some bytes
    → startup cpu bus bytes ≡ some first
    → HaltsAfter first n
    → n < fuel
    → main fuel read_file cpu bus args
      ≡ some (record {
        code = 0;
        ran = some (cycles n first, if opt.do_trace then cpus n first else []);
        rows = [];
      })
unfolding main run_options run_path run_file run_from dump_after
main-HaltsAfter fuel n read_file cpu bus args opt path bytes first accepted named no_step no_dump
      there starts halts lt =
    ap (run_options fuel read_file cpu bus) accepted
    ∙ ap (run_path fuel read_file cpu bus opt) named
    ∙ if_not _ _ (ap (λ (b : Bool). b && opt.do_trace) no_step)
    ∙ ap (run_file fuel cpu bus opt) there
    ∙ ap (run_from fuel opt) starts
    ∙ ap (λ (b : Bool). dump_after fuel opt (run_mode b opt.do_trace fuel first)) no_step
    ∙ by_trace opt.do_trace
  where
    by_trace :
        (trace : Bool)
        → dump_after fuel opt (run_mode false trace fuel first)
          ≡ some (record {
            code = 0;
            ran = some (cycles n first, if trace then cpus n first else []);
            rows = [];
          })
    by_trace true = rw (run_mode-HaltsAfter n fuel first halts lt).0 (if_not _ _ no_dump)
    by_trace false = rw (run_mode-HaltsAfter n fuel first halts lt).1 (if_not _ _ no_dump)
