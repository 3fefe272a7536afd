-- ===== src/Interrupts.antt =====
-- The interrupt flag register, `CPU::IF` and `CPU::IE` of src/CPU/cpu.cpp, and
-- `Gameboy::requestInterrupt` of src/Gameboy/gameboy.cpp.
pub mod Laws
use Prim.Native.Nat.{bit_and, bit_or}
use gameboy_emulator.Base.{ℕ, ◌-◌, ◌^◌, Bool, true, if◌then◌else◌, Build, Outcome, ok, ◌>>=◌}
use gameboy_emulator.Bus.Map.{reg_if, reg_ie}
use gameboy_emulator.Bus.{Bus, Component, read, write}

-- `INTERRUPT_ID`, by the bit that it stands for.
abbrev pub interrupt_timer : ℕ
interrupt_timer = 2

-- `flags[interrupt] = enabled` on a `std::bitset<5>`.
unfoldable pub set_flag : ℕ → Bool → ℕ → ℕ
set_flag interrupt enabled flags =
    if enabled then bit_or flags (2 ^ interrupt) else bit_and flags (31 - 2 ^ interrupt)

unfoldable pub interrupt_enable : Build → Bus → Outcome ℕ
interrupt_enable build b = do value ← read build b reg_ie; ok (bit_and value 0b11111)

unfoldable pub interrupt_flags : Build → Bus → Outcome ℕ
interrupt_flags build b = do value ← read build b reg_if; ok (bit_and value 0b11111)

unfoldable pub set_interrupt_flag : Build → ℕ → Bool → Bus → Outcome Bus
unfolding interrupt_flags set_flag
set_interrupt_flag build interrupt enabled b = do
  flags ← interrupt_flags build b
  write build reg_if (set_flag interrupt enabled flags) Component.cpu b

unfoldable pub request_interrupt : Build → ℕ → Bus → Outcome Bus
request_interrupt build interrupt b = set_interrupt_flag build interrupt true b
