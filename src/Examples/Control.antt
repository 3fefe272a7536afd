-- ===== src/Examples/Control.antt =====
-- The dispatch of an interrupt on a concrete processor.
use gameboy_emulator.Base.{
  ℕ, zero, suc, ◌+◌, ◌*◌, ◌<◌, ◌≡◌, refl, true, false, [], none, ◌==◌, if◌then◌else◌, not, ◌&&◌,
  release, ok, arith,
}
use gameboy_emulator.Base.Int.{pos, negsuc}
use gameboy_emulator.Bus.{read}
use gameboy_emulator.Bus.Map.{reg_if, reg_ie}
use gameboy_emulator.Cartridge.Mbc0.{refers_to_cartridge}
use gameboy_emulator.Cpu.Control.{Processor, jr, pop_pc, ret, has_bit, try_trigger_interrupt}
use gameboy_emulator.Cpu.Control.Served.{is_pending, try_trigger_interrupt-ret}

-- Timer and joypad are requested, the serial port, the timer and the joypad are enabled.
abbrev memory : ℕ → ℕ
memory a =
    if a == reg_if
    then 0b10100
    else if a == reg_ie
    then 0b11100
    else if a == 0xC123
    then 0xFB
    else 0

abbrev running : Processor
running = record {
  regs = record {
    a = 1;
    f = record { fz = false; fn = false; fh = false; fc = false };
    b = 0;
    c = 0;
    d = 0;
    e = 0;
    h = 0;
    l = 0;
    sp = 0xFFFE;
    pc = 0xC123;
  };
  halted = true;
  crashed = false;
  ime = true;
  busy_cycles = pos 0;
  bus = record { memory = memory; cart = none; joypad_status = 0; serial_buffer = [] };
}

-- A jump by -5 from behind the two bytes of the instruction, and one that is not taken.
jump_back :
    jr release true running ≡ ok (record running { regs = record running.regs { pc = 0xC11F } })
unfolding jr pop_pc read refers_to_cartridge
jump_back = refl

jump_not_taken :
    jr release false running
    ≡ ok (record running { regs = record running.regs { pc = 0xC124 }; busy_cycles = negsuc 0 })
unfolding jr pop_pc read refers_to_cartridge
jump_not_taken = refl

none_before : (j : ℕ) → j < 2 → is_pending running.bus j ≡ false
unfolding is_pending has_bit
none_before zero h = refl
none_before (suc zero) h = refl
none_before (suc (suc j)) h = absurd (omega arith)

try_trigger_interrupt-ret_example :
    (p' : Processor) × (try_trigger_interrupt release running ≡ ok (true, p'))
    × (((p'.regs.pc ≡ 0x40 + 8 * 2) × (p'.ime ≡ false))
        × ((p'.halted ≡ false) × (p'.busy_cycles ≡ pos 5)))
    × ((j : ℕ) → j < 5 → is_pending p'.bus j ≡ (not (j == 2) && is_pending running.bus j))
    × ((p'' : Processor) × (ret release true p' ≡ ok p'')
        × (p''.regs.pc ≡ 0xC123)
        × (p''.regs.sp ≡ 0xFFFE))
unfolding is_pending has_bit
try_trigger_interrupt-ret_example =
    try_trigger_interrupt-ret release 2 running (omega arith) refl refl (omega arith) (omega arith)
      (omega arith) (omega arith) refl none_before
