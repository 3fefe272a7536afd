-- ===== src/Timer.antt =====
-- src/TimerController: the divider and the programmable timer.
pub mod Laws
use Prim.Native.Nat.{bit_and}
use gameboy_emulator.Base.{
  ℕ, ◌+◌, ◌%◌, ◌^◌, Bool, List, [], ◌∷◌, ◌==◌, if◌then◌else◌, not, ◌||◌, get_elem?, element, Build,
  Outcome, ok, ◌>>=◌, ◌>>◌, assert,
}
use gameboy_emulator.Base.Words.{u8}
use gameboy_emulator.Bus.Map.{reg_div, reg_tima, reg_tma, reg_tac}
use gameboy_emulator.Bus.{Bus, Component, read, write}
use gameboy_emulator.Interrupts.{request_interrupt, interrupt_timer}

abbrev pub tima_rates : List ℕ
tima_rates = 256 ∷ 4 ∷ 16 ∷ 64 ∷ []

abbrev pub div_rate : ℕ
div_rate = 64

-- The controller's own counter, an `unsigned long long`, and the bus that it shares.
pub record Machine : Type 0 where
  pub clock_count : ℕ
  pub bus : Bus

unfoldable pub increment_timer : Build → ℕ → Bus → Outcome Bus
increment_timer build address b = do
  assert build (address == reg_div || address == reg_tima)
  old_value ← read build b address
  if address == reg_div || not (old_value == 0xFF)
      then write build address (u8 (old_value + 1)) Component.tc b
      else (do
        tma ← read build b reg_tma
        b' ← write build reg_tima tma Component.tc b
        request_interrupt build interrupt_timer b')

-- The part of `machineClock` that follows the divider.
unfoldable pub clock_tima : Build → ℕ → Bus → Outcome Bus
clock_tima build clock b = do
  tac ← read build b reg_tac
  if bit_and tac 0b100 == 0 then ok b else (do
    rate ← element (get_elem? tima_rates (bit_and tac 0b11))
    assert build (not (rate == 0))
    if clock % rate == 0 then increment_timer build reg_tima b else ok b)

unfoldable pub machine_clock : Build → Machine → Outcome Machine
machine_clock build m = do
  let clock = (m.clock_count + 1) % 2 ^ 64
  b ← (if clock % div_rate == 0 then increment_timer build reg_div m.bus else ok m.bus)
  b' ← clock_tima build clock b
  ok (record { clock_count = clock; bus = b' })

-- Consecutive calls, one for each machine cycle.
unfoldable pub run : Build → ℕ → Machine → Outcome Machine
run build ℕ.zero m = ok m
run build (ℕ.suc n) m = do m' ← machine_clock build m; run build n m'
