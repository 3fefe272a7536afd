-- ===== src/Gameboy/Cycle.antt =====
-- `machineClock` of src/Gameboy/gameboy.cpp, and the parts of the object that it runs: the timer, the
-- processor and the graphics unit, in this order, on one bus.
pub mod Lockstep
use gameboy_emulator.Base.{ℕ, zero, suc, ◌*◌, Build, Outcome, ok, ◌>>=◌}
use gameboy_emulator.Base.Bytes.{Binary}
use gameboy_emulator.Bus.{Bus}
use gameboy_emulator.Cpu
use gameboy_emulator.Ppu
use gameboy_emulator.Timer
use gameboy_emulator.Gameboy.{Gameboy, make_gameboy, blank_bus}
use gameboy_emulator.Ppu.Clock.{with_bus, make_ppu}

-- The bus is the one in the processor.
pub record System : Type 0 where
  pub gameboy : Gameboy
  pub ppu : Ppu.Ppu
  pub clock_count : ℕ

abbrev pub blank_screen : Binary
blank_screen = record { size = 160 * 144; cell = λ i. 0 }

-- The members come first, the graphics unit on a bus without a cartridge, and then the body of the
-- constructor.
unfoldable pub make_system : Build → Binary → Outcome System
make_system build rom = do
  p ← make_ppu build blank_screen blank_bus
  g ← make_gameboy rom
  ok (record {
    gameboy = record g { cpu = record g.cpu { bus = record p.bus { cart = g.cpu.bus.cart } } };
    ppu = p;
    clock_count = 0;
  })

unfoldable pub machine_clock : Build → System → Outcome System
machine_clock build s = do
  t ← Timer.machine_clock build (record { clock_count = s.clock_count; bus = s.gameboy.cpu.bus })
  c ← Cpu.Clock.machine_clock build (record s.gameboy.cpu { bus = t.bus })
  p ← Ppu.Clock.machine_clock build (with_bus c.bus s.ppu)
  ok (record {
    gameboy = record s.gameboy { cpu = record c { bus = p.bus } };
    ppu = p;
    clock_count = t.clock_count;
  })

unfoldable pub run : Build → ℕ → System → Outcome System
run build zero s = ok s
run build (suc k) s = do s' ← machine_clock build s; run build k s'
