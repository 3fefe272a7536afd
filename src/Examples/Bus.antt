-- ===== src/Examples/Bus.antt =====
-- The bus and the timer on a sample memory.
use gameboy_emulator.Base.{◌≡◌, ◌+◌, ◌==◌, if◌then◌else◌, [], none, debug, ok, arith, refl}
use gameboy_emulator.Cartridge.Mbc0.{refers_to_cartridge}
use gameboy_emulator.Bus.Map.{reg_div, reg_tac, reg_stat}
use gameboy_emulator.Bus.{Bus, Component, poke, write, mirror, write_memory}
use gameboy_emulator.Bus.Echo.{IsMirrored, write-IsMirrored}
use gameboy_emulator.Timer.{Machine, machine_clock, run}
use gameboy_emulator.Timer.Laws.{after_div, after_tima, div_after, machine_clock_lem, run-divider}

-- A bus without a cartridge and all of whose memory but three registers is zero.
abbrev blank : Bus
blank = record {
  memory = λ a.
      if a == reg_stat
      then 0x85
      else if a == reg_tac
      then 0x05
      else if a == reg_div
      then 0xFF
      else 0;
  cart = none;
  joypad_status = 0xFF;
  serial_buffer = [];
}

blank-IsMirrored : IsMirrored blank
blank-IsMirrored = record { same = λ a lo hi. ground arith }

abbrev stored : Bus
stored = poke (poke (poke blank 0xC123 0x42) (0xC123 + 0x2000) 0x42) 0xC123 0x42

stored_by_write : write debug 0xC123 0x42 Component.cpu blank ≡ ok stored
unfolding write write_memory refers_to_cartridge mirror
stored_by_write = refl

write-IsMirrored_example : IsMirrored stored
write-IsMirrored_example =
    write-IsMirrored debug 0xC123 0x42 Component.cpu blank stored blank-IsMirrored refl
      stored_by_write

-- A timer controller one cycle before the divider changes.
abbrev machine : Machine
machine = record { clock_count = 63; bus = blank }

machine_clock_lem_example :
    machine_clock debug machine
    ≡ ok (record { clock_count = 64; bus = after_tima 64 (after_div 64 blank) })
machine_clock_lem_example = machine_clock_lem debug machine (omega arith)

abbrev idle : Machine
idle = record { clock_count = 63; bus = poke blank reg_tac 0 }

run-divider_example :
    (m' : Machine) × (run debug 100 idle ≡ ok m')
    × (m'.clock_count ≡ 63 + 100)
    × (m'.bus.memory reg_div
        ≡ (if reg_div == reg_div then div_after 100 idle else idle.bus.memory reg_div))
run-divider_example =
    run-divider debug 100 idle reg_div
      (record { disabled = refl; tac_fits = omega arith; div_fits = omega arith }) (omega arith)
