-- ===== src/Emulator.antt =====
-- The emulator of emulator/: the processor's registers and flags (cpu.c), the arithmetic unit
-- (alu.c), the memory with its mapped ports (memory.c), the fetch, decode and execute cycle
-- (control.c), and what main.c does before and after the run. A C function that changes an object
-- through a pointer returns the new object. Every caller passes the address of an object, so the
-- tests for NULL have no counterpart.
pub mod Cpu
pub mod Alu
pub mod Memory
pub mod Control
pub mod Run
pub mod Startup
pub mod Command
mod Tests
mod StartupTests
mod CommandTests
