-- ===== src/Gameboy/Cycle/Lockstep.antt =====
-- The parts of the Gameboy in step, by `machineClock` of src/Gameboy/gameboy.cpp.
use Prim.Native.Nat.{bit_and, bit_or}
use gameboy_emulator.Base.{
  ℕ, zero, suc, ◌+◌, ◌%◌, ◌^◌, Bool, ◌<◌, ◌≡◌, refl, ap, ◌∙◌, true, false, ltb, not, ◌==◌, Build,
  Outcome, ok, assert-true, arith,
}
use gameboy_emulator.Base.Int.{pos, sub_ℕ}
use gameboy_emulator.Base.Bytes.{Binary}
use gameboy_emulator.Base.Words.{all_below, all_below_sound}
use gameboy_emulator.Bus.{Bus}
use gameboy_emulator.Bus.Map.{reg_if, reg_tac, reg_tma}
use gameboy_emulator.Cpu
use gameboy_emulator.Cpu.Control.{Processor}
use gameboy_emulator.Gameboy.{Gameboy, blank_bus, make_gameboy}
use gameboy_emulator.Gameboy.Cycle.{System, blank_screen, make_system, machine_clock, run}
use gameboy_emulator.Ppu.{Ppu}
use gameboy_emulator.Ppu.Clock.{with_bus}
use gameboy_emulator.Ppu.Position.{frame_length}
use gameboy_emulator.Ppu.Frame.{IsAt, next_position, clock_advances}
use gameboy_emulator.Ppu.Start.{make_ppu-IsAt}
use gameboy_emulator.Timer.Laws.{after_div, after_tima, machine_clock_lem}

-- The graphics unit, on the bus that all share.
abbrev pub screen_part : System → Ppu
screen_part s = with_bus s.gameboy.cpu.bus s.ppu

abbrev flag_test : ℕ → Bool
flag_test f = ltb (bit_or (bit_and f 31) 4) 256

flag_table : all_below 256 flag_test ≡ true
unfolding all_below
flag_table = refl

timer_fits :
    (clock : ℕ) (b : Bus)
    → ((a : ℕ) → b.memory a < 256)
    → (a : ℕ) → (after_tima clock (after_div clock b)).memory a < 256
timer_fits clock b fits a =
    let f = b.memory reg_if in
    let t : flag_test f ≡ true = all_below_sound 256 flag_test f flag_table (fits reg_if) in
    ground (arith, fits a, fits reg_tma)

-- The timer keeps what the graphics unit rests on.
timer-IsAt :
    (place clock : ℕ) (s : System)
    → IsAt place (screen_part s)
    → IsAt place (with_bus (after_tima clock (after_div clock s.gameboy.cpu.bus)) s.ppu)
timer-IsAt place clock s at = record {
  line_register = ground (arith, at.line_register);
  mode_bits = ground (arith, at.mode_bits);
  fits = timer_fits clock s.gameboy.cpu.bus at.fits;
  counter = at.counter;
  screen = at.screen;
  on_line = at.on_line;
  cleared = at.cleared;
}

busy_clock :
    (build : Build) (n : ℕ) (p : Processor)
    → p.crashed ≡ false
    → p.busy_cycles ≡ pos (suc n)
    → Cpu.Clock.machine_clock build p ≡ ok (record p { busy_cycles = pos n })
unfolding Cpu.Clock.machine_clock
busy_clock build n p runs busy =
    let less : sub_ℕ (suc n) 1 ≡ pos n = ground arith in
    let waits : not (suc n == 0) ≡ true = ground arith in
    rw (busy, runs, assert-true build true refl, waits)
      (ap (λ t. ok (record p { crashed = false; busy_cycles = t })) less)

-- A cycle while an instruction is under way.
pub record Stepped (place n : ℕ) (s : System) (m : Outcome System) : Type 0 where
  pub final : System
  pub ran : m ≡ ok final
  pub at : IsAt (next_position place) (screen_part final)
  pub busy : final.gameboy.cpu.busy_cycles ≡ pos n
  pub runs : final.gameboy.cpu.crashed ≡ false
  pub registers : final.gameboy.cpu.regs ≡ s.gameboy.cpu.regs
  pub count : final.clock_count ≡ (s.clock_count + 1) % 2 ^ 64

busy_cycle :
    (build : Build) (place n : ℕ) (s : System)
    → place < frame_length
    → IsAt place (screen_part s)
    → s.gameboy.cpu.crashed ≡ false
    → s.gameboy.cpu.busy_cycles ≡ pos (suc n)
    → Stepped place n s (machine_clock build s)
unfolding machine_clock
busy_cycle build place n s low at runs busy =
    let clock = (s.clock_count + 1) % 2 ^ 64 in
    let b = after_tima clock (after_div clock s.gameboy.cpu.bus) in
    let c : Processor = record s.gameboy.cpu { bus = b; busy_cycles = pos n } in
    let (q, ran, at', request, frames, others) =
      clock_advances build (with_bus b s.ppu) place low (timer-IsAt place clock s at) in
    record {
      final = record {
        gameboy = record s.gameboy { cpu = record c { bus = q.bus } };
        ppu = q;
        clock_count = clock;
      };
      ran =
          rw
            (machine_clock_lem build
              (record { clock_count = s.clock_count; bus = s.gameboy.cpu.bus }) (at.fits reg_tac))
            (rw (busy_clock build n (record s.gameboy.cpu { bus = b }) runs busy) (rw ran refl));
      at = at';
      busy = refl;
      runs = runs;
      registers = refl;
      count = refl;
    }

-- The parts advance in step while an instruction is under way: when the processor has not crashed and is busy for `k + n` cycles, and the graphics unit stands at a position of the frame on the shared bus, `k` machine cycles of the whole return in either build; the processor is then busy for `n` cycles with its registers as before, the timer has counted `k` cycles modulo 2^64, and the graphics unit stands `k` positions further on, at the position 0 after the last.
pub run-busy :
    (build : Build) (k n place : ℕ) (s : System)
    → place < frame_length
    → s.clock_count < 2 ^ 64
    → IsAt place (screen_part s)
    → s.gameboy.cpu.crashed ≡ false
    → s.gameboy.cpu.busy_cycles ≡ pos (k + n)
    → (s' : System) × (run build k s ≡ ok s')
      × IsAt ((place + k) % frame_length) (screen_part s')
      × (s'.gameboy.cpu.busy_cycles ≡ pos n)
      × (s'.gameboy.cpu.regs ≡ s.gameboy.cpu.regs)
      × (s'.clock_count ≡ (s.clock_count + k) % 2 ^ 64)
unfolding run
run-busy build zero n place s low small at runs busy =
    let same : (place + 0) % frame_length ≡ place = omega arith in
    let left : 0 + n ≡ n = omega arith in
    (s, refl, rw same at, busy ∙ ap pos left, refl, omega arith)
run-busy build (suc k) n place s low small at runs busy =
    let step : suc k + n ≡ suc (k + n) = omega arith in
    let a = busy_cycle build place (k + n) s low at runs (busy ∙ ap pos step) in
    let (s', ran, at', busy', registers, count) =
      run-busy build k n (next_position place) a.final (omega arith) (omega (arith, a.count)) a.at
        a.runs a.busy in
    let further : (place + suc k) % frame_length ≡ (next_position place + k) % frame_length =
      omega arith in
    (
      s',
      rw a.ran ran,
      rw further at',
      busy',
      registers ∙ a.registers,
      omega (arith, a.count, count),
    )

-- For every ROM that the constructor of the Gameboy accepts, the whole object is made in either build, its assertions included: the processor begins at address 0 and is not busy, the timer has counted no cycle, the cartridge is on the bus, and the graphics unit stands at the beginning of a frame.
pub make_system-IsAt :
    (build : Build) (rom : Binary) (g : Gameboy)
    → make_gameboy rom ≡ ok g
    → (s : System) × (make_system build rom ≡ ok s)
      × IsAt 0 (screen_part s)
      × (s.gameboy.cpu.bus.cart ≡ g.cpu.bus.cart)
      × (s.gameboy.cpu.regs ≡ g.cpu.regs)
      × (s.clock_count ≡ 0)
unfolding make_system
make_system-IsAt build rom g made =
    let (p, ran, at) =
      make_ppu-IsAt build blank_screen blank_bus refl (λ a. omega arith) refl refl in
    (
      record {
        gameboy = record g { cpu = record g.cpu { bus = record p.bus { cart = g.cpu.bus.cart } } };
        ppu = p;
        clock_count = 0;
      },
      rw ran (rw made refl),
      record {
        line_register = at.line_register;
        mode_bits = at.mode_bits;
        fits = at.fits;
        counter = at.counter;
        screen = at.screen;
        on_line = at.on_line;
        cleared = at.cleared;
      },
      refl,
      refl,
      refl,
    )
