-- ===== src/Cpu/Control/Stack.antt =====
-- The stack of src/CPU/cpu.cpp while it lies in the high RAM, 0xFF80 to 0xFFFE.
use gameboy_emulator.Base.{ℕ, ◌+◌, ◌-◌, ◌≤◌, ◌<◌, ◌≡◌, refl, true, Build, ok, arith}
use gameboy_emulator.Base.Words.{u16}
use gameboy_emulator.Bus.{Component, poke}
use gameboy_emulator.Bus.Hardware.{read-register, write-register}
use gameboy_emulator.Cpu.Control.{
  Processor, with_sp, set_pc, pop_sp, push_byte, push_pc_to_stack, ret,
}
use gameboy_emulator.Cpu.Registers.{dword_msb, dword_lsb}

-- The processor with a value written below its stack.
abbrev pub pushed : ℕ → Processor → Processor
pushed value p = record (with_sp (p.regs.sp - 1) p) { bus = poke p.bus (p.regs.sp - 1) value }

push_byte_lem :
    (build : Build) (value : ℕ) (p : Processor)
    → 0xFF81 ≤ p.regs.sp
    → p.regs.sp < 65536
    → push_byte build value p ≡ ok (pushed value p)
unfolding push_byte
push_byte_lem build value p low high =
    let sp : ℕ = p.regs.sp - 1 in
    let below : u16 (p.regs.sp + 0xFFFF) ≡ sp = omega arith in
    rw
      (
        below,
        write-register build p.bus sp value Component.cpu (omega arith) (omega arith) (omega arith)
            (omega arith) (omega arith) (omega arith) (cc),
      )
      refl

pub push_pc_to_stack_lem :
    (build : Build) (p : Processor)
    → 0xFF82 ≤ p.regs.sp
    → p.regs.sp < 65536
    → push_pc_to_stack build p ≡ ok (pushed (dword_lsb p.regs.pc) (pushed (dword_msb p.regs.pc) p))
unfolding push_pc_to_stack
push_pc_to_stack_lem build p low high =
    rw (push_byte_lem build (dword_msb p.regs.pc) p (omega arith) high) (
      push_byte_lem build (dword_lsb p.regs.pc) (pushed (dword_msb p.regs.pc) p) (omega arith)
        (omega arith))

pop_sp_lem :
    (build : Build) (p : Processor)
    → 0xFF80 ≤ p.regs.sp
    → p.regs.sp < 65535
    → pop_sp build p ≡ ok (p.bus.memory p.regs.sp, with_sp (p.regs.sp + 1) p)
unfolding pop_sp
pop_sp_lem build p low high =
    let above : u16 (p.regs.sp + 1) ≡ p.regs.sp + 1 = omega arith in
    rw (read-register build p.bus p.regs.sp (omega arith), above) refl

pub ret_lem :
    (build : Build) (p : Processor)
    → 0xFF80 ≤ p.regs.sp
    → p.regs.sp < 65534
    → ret build true p
      ≡ ok (
          set_pc
            (p.bus.memory (p.regs.sp + 1))
            (p.bus.memory p.regs.sp)
            (with_sp (p.regs.sp + 2) p))
unfolding ret
ret_lem build p low high =
    let again : p.regs.sp + 1 + 1 ≡ p.regs.sp + 2 = omega arith in
    rw (pop_sp_lem build p low (omega arith))
      (rw (pop_sp_lem build (with_sp (p.regs.sp + 1) p) (omega arith) (omega arith), again) refl)
