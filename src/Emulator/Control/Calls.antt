-- ===== src/Emulator/Control/Calls.antt =====
-- CALL and RET: the return address travels through memory at the stack pointer.
use educpu.Prelude.{
  ℕ, ◌+◌, ◌-◌, ◌%◌, ◌^◌, ◌<◌, ◌≡◌, ◌∙◌, ap, arith, length, get_or-set, if◌then◌else◌, ◌==◌,
}
use educpu.Prelude.Int.{ℤ}
use educpu.Isa.{io_base, num_regs}
use educpu.Emulator.Cpu.{Cpu, reg, set_reg}
use educpu.Emulator.Memory.{Bus, mem_read, update}
use educpu.Emulator.Memory.Laws.{mem_read-ram, mem_write-ram}
use educpu.Emulator.Control.{Machine, call_by, jump_by, return_from}
use educpu.Emulator.Control.Invariant.{IsMachine, reg-IsWord}

pub reg-set_reg :
    (cpu : Cpu) (i j v : ℕ)
    → length cpu.regs ≡ num_regs
    → i < num_regs
    → reg (set_reg cpu i v) j ≡ (if i == j then v else reg cpu j)
reg-set_reg cpu i j v h lt = get_or-set cpu.regs i j v 0 (rw h lt)

module _ (m : Machine) (h : IsMachine m) (off : ℤ) (ram : reg m.cpu 7 < io_base) where
  -- CALL with the stack pointer in memory stores the address of the next instruction there, moves
  -- the stack pointer one word down, and changes no other register and no other word.
  pub call_by_lem :
      ((call_by m off).bus.mem ≡ update m.bus.mem (reg m.cpu 7) m.cpu.pc)
      × ((j : ℕ)
          → reg (call_by m off).cpu j
            ≡ (if 7 == j then (reg m.cpu 7 + 2 ^ 16 - 1) % 2 ^ 16 else reg m.cpu j))
  unfolding call_by jump_by
  call_by_lem = (
    ap (λ (b : Bus). b.mem) (mem_write-ram m.bus (reg m.cpu 7) m.cpu.pc ram),
    λ j. reg-set_reg m.cpu 7 j _ h.is_cpu.eight (omega arith),
  )

  -- A RET from any machine that has the stack pointer of after the CALL, and the word that the CALL
  -- stored, goes to the instruction after the CALL and restores the stack pointer.
  pub return_from-call_by :
      (callee : Machine)
      → length callee.cpu.regs ≡ num_regs
      → reg callee.cpu 7 ≡ reg (call_by m off).cpu 7
      → callee.bus.mem (reg m.cpu 7) ≡ (call_by m off).bus.mem (reg m.cpu 7)
      → ((return_from callee).cpu.pc ≡ m.cpu.pc)
        × (reg (return_from callee).cpu 7 ≡ reg m.cpu 7)
        × ((return_from callee).bus ≡ callee.bus)
  unfolding return_from
  return_from-call_by callee eight same_sp same_word =
      let sp : (reg callee.cpu 7 + 1) % 2 ^ 16 ≡ reg m.cpu 7 =
        omega (arith, call_by_lem.1 7, reg-IsWord m.cpu 7 h.is_cpu) in
      let top : reg (set_reg callee.cpu 7 ((reg callee.cpu 7 + 1) % 2 ^ 16)) 7 ≡ reg m.cpu 7 =
        reg-set_reg callee.cpu 7 7 _ eight (omega arith) ∙ sp in
      let word : callee.bus.mem (reg m.cpu 7) ≡ m.cpu.pc =
        same_word ∙ ap (λ (f : ℕ → ℕ). f (reg m.cpu 7)) call_by_lem.0 ∙ ground arith in
      let read : mem_read callee.bus
            (reg (set_reg callee.cpu 7 ((reg callee.cpu 7 + 1) % 2 ^ 16)) 7)
          ≡ (callee.bus.mem (reg m.cpu 7), callee.bus) =
        ap (mem_read callee.bus) top ∙ mem_read-ram callee.bus (reg m.cpu 7) ram in
      (ap (λ (r : ℕ × Bus). r.0) read ∙ word, top, ap (λ (r : ℕ × Bus). r.1) read)
