-- ===== src/Examples/Ppu.antt =====
-- The graphics unit on a sample memory.
use gameboy_emulator.Base.{
  ℕ, ◌+◌, ◌*◌, ◌%◌, ◌^◌, ◌<◌, ◌≡◌, refl, false, [], none, ◌==◌, if◌then◌else◌, debug, release, ok,
  arith,
}
use gameboy_emulator.Bus.{Bus, Component, poke, write}
use gameboy_emulator.Bus.Map.{reg_stat, reg_if}
use gameboy_emulator.Bus.Video.{SameVideo, write-SameVideo}
use gameboy_emulator.Cartridge.Mbc0.{refers_to_cartridge}
use gameboy_emulator.Cpu.Control.{Processor}
use gameboy_emulator.Base.Int.{pos}
use gameboy_emulator.Gameboy.Cycle.{System, blank_screen}
use gameboy_emulator.Gameboy.Cycle
use gameboy_emulator.Gameboy.Cycle.Lockstep.{screen_part, run-busy}
use gameboy_emulator.Ppu.{Ppu, reg_lcdc, reg_bgp}
use gameboy_emulator.Ppu.Clock.{machine_clock, draw_current_line, fresh}
use gameboy_emulator.Ppu.Position.{frame_length, StandsAt}
use gameboy_emulator.Ppu.Drawn.Line.{screen_pixel}
use gameboy_emulator.Ppu.Drawn.Screen.{draw_current_line-pixels}
use gameboy_emulator.Ppu.Frame.{
  IsAt, Environment, KeepsVideo, next_position, vblank_begins, frames_after, run,
  machine_clock-position, vblank_within_frame,
}

-- The display is on in the mode of the scan, tile 0 has a row of set bits, and bit 0 of the interrupt
-- flags is clear.
abbrev memory : ℕ → ℕ
memory a =
    if a == reg_stat
    then 2
    else if a == reg_lcdc
    then 0x91
    else if a == reg_bgp
    then 0xE4
    else if a == 0x8000
    then 0xFF
    else 0

abbrev bus : Bus
bus = record { memory = memory; cart = none; joypad_status = 0xFF; serial_buffer = [] }

abbrev ppu : Ppu
ppu = fresh blank_screen bus

ppu-IsAt : IsAt 0 ppu
ppu-IsAt = record {
  line_register = refl;
  mode_bits = refl;
  fits = λ a. ground arith;
  counter = refl;
  screen = refl;
  on_line = tt;
  cleared = λ _. refl;
}

machine_clock-position_example :
    (q : Ppu) × (machine_clock debug ppu ≡ ok q)
    × IsAt (next_position 0) q
    × (q.bus.memory reg_if % 2 ≡ (if vblank_begins 0 then 1 else 0 % 2))
    × (q.frame_count ≡ frames_after 0 0)
    × (q.bus.memory 0xC000 ≡ 0)
machine_clock-position_example =
    machine_clock-position debug ppu 0 0xC000 (omega arith) ppu-IsAt (omega arith) (omega arith)
      (omega arith)

-- The others count in a cell of the work RAM.
abbrev others : Environment
others n b = poke b 0xC000 ((b.memory 0xC000 + n) % 256)

others-KeepsVideo : KeepsVideo others
others-KeepsVideo n b fits = (λ a. ground (arith, fits a), ground arith, ground arith)

vblank_within_frame_example :
    (n : ℕ) × (q r : Ppu) × (n < frame_length)
    × (run release others n ppu ≡ ok q)
    × (machine_clock release q ≡ ok r)
    × (r.bus.memory reg_if % 2 ≡ 1)
    × StandsAt 144 0 r
vblank_within_frame_example =
    vblank_within_frame release others 0 ppu others-KeepsVideo (omega arith) (omega arith) ppu-IsAt

draw_current_line-pixels_example :
    (q : Ppu) × (draw_current_line debug ppu ≡ ok q)
    × (q.screen.cell (5 + 0 * 160) ≡ screen_pixel bus 0 5)
    × (q.bus ≡ bus)
    × (q.line_clock ≡ 0)
    × (q.screen.size ≡ 23040)
    × (q.screen.cell 160 ≡ 0)
draw_current_line-pixels_example =
    draw_current_line-pixels debug ppu 5 160 (λ a. ground arith, omega arith) tt refl (omega arith)
      refl

-- The pixel of that row: color 1 through the palette.
pixel_of_row : screen_pixel bus 0 5 ≡ 1
pixel_of_row = refl

-- The processor writes to STAT: only the upper bits are its own.
abbrev stored : Bus
stored = poke bus reg_stat 0x7A

stored_by_write : write debug reg_stat 0x7D Component.cpu bus ≡ ok stored
unfolding write refers_to_cartridge
stored_by_write = refl

write-SameVideo_example : SameVideo bus stored
write-SameVideo_example =
    write-SameVideo debug reg_stat 0x7D Component.cpu bus stored (omega arith) (omega arith) refl
      refl stored_by_write

abbrev busy : Processor
busy = record {
  regs = record {
    a = 0;
    f = record { fz = false; fn = false; fh = false; fc = false };
    b = 0;
    c = 0;
    d = 0;
    e = 0;
    h = 0;
    l = 0;
    sp = 0;
    pc = 0x100;
  };
  halted = false;
  crashed = false;
  ime = false;
  busy_cycles = pos 6;
  bus = bus;
}

abbrev system : System
system = record {
  gameboy = record { cpu = busy; is_cartridge_battery_backed = false };
  ppu = ppu;
  clock_count = 62;
}

run-busy_example :
    (s' : System) × (Cycle.run debug 4 system ≡ ok s')
    × IsAt ((0 + 4) % frame_length) (screen_part s')
    × (s'.gameboy.cpu.busy_cycles ≡ pos 2)
    × (s'.gameboy.cpu.regs ≡ busy.regs)
    × (s'.clock_count ≡ (62 + 4) % 2 ^ 64)
run-busy_example = run-busy debug 4 2 0 system (omega arith) (omega arith) ppu-IsAt refl refl
