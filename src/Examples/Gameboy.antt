-- ===== src/Examples/Gameboy.antt =====
-- The Gameboy object on sample inputs.
use gameboy_emulator.Base.{ℕ, ◌≡◌, refl, [], none, ◌==◌, if◌then◌else◌, debug, ok, ◌>>=◌, arith}
use gameboy_emulator.Bus.{Bus, read, get_joypad, write, write_memory}
use gameboy_emulator.Bus.Map.{reg_joip, reg_if}
use gameboy_emulator.Cartridge.Mbc0.{refers_to_cartridge}
use gameboy_emulator.Gameboy.{set_joypad}
use gameboy_emulator.Gameboy.Joypad.{set_joypad-read}
use gameboy_emulator.Interrupts.{request_interrupt, set_interrupt_flag}

-- The game has selected the directions, and nothing is pressed.
abbrev idle : Bus
idle = record {
  memory = λ a. if a == reg_joip then 0b00100000 else 0;
  cart = none;
  joypad_status = 0xFF;
  serial_buffer = [];
}

directions_selected : read debug idle reg_joip ≡ ok 0b00101111
unfolding read get_joypad
directions_selected = refl

-- Button B is pressed: the interrupt is requested, and the register now selects the buttons.
buttons_selected : (set_joypad debug 0b11011111 idle >>= λ b. read debug b reg_joip) ≡ ok 0b11011101
unfolding set_joypad read get_joypad write request_interrupt refers_to_cartridge set_interrupt_flag
    write_memory
buttons_selected = refl

interrupt_requested : (set_joypad debug 0b11011111 idle >>= λ b. read debug b reg_if) ≡ ok 0b10000
unfolding set_joypad read write request_interrupt refers_to_cartridge set_interrupt_flag
    write_memory
interrupt_requested = refl

-- The game has selected the buttons.
abbrev buttons : Bus
buttons = record {
  memory = λ a. if a == reg_joip then 0b00010000 else 0;
  cart = none;
  joypad_status = 0xFF;
  serial_buffer = [];
}

set_joypad-read_example :
    (seen : ℕ) × ((set_joypad debug 0b11011111 idle >>= λ b. read debug b reg_joip) ≡ ok seen)
    × ((set_joypad debug 0b11011111 buttons >>= λ b. read debug b reg_joip) ≡ ok seen)
set_joypad-read_example =
    set_joypad-read debug 0b11011111 idle buttons (λ e. absurd (omega (arith, e)))
      (λ e. absurd (omega (arith, e)))
