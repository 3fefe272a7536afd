-- ===== src/Gameboy.antt =====
-- src/Gameboy: the object that owns the parts. The joypad status and the serial buffer are fields of
-- the bus here, the bus is in `Processor`, and the cartridge is on the bus.
pub mod Joypad
pub mod Cycle
use gameboy_emulator.Base.{
  ℕ, ◌/◌, ◌%◌, ◌^◌, Bool, false, List, [], ◌∷◌, none, some, ◌==◌, if◌then◌else◌, not, ◌||◌, Build,
  Outcome, ok, thrown, out_of_range, ◌>>=◌, ◌>>◌, assert,
}
use gameboy_emulator.Base.Bytes.{Binary}
use gameboy_emulator.Bus.{
  Bus, Component, Controller, mbc0, mbc1, mbc3, read, write, is_boot_rom_enabled,
}
use gameboy_emulator.Bus.Map.{
  boot_rom_lock, reg_joip, reg_sb, reg_sc, reg_div, reg_tima, reg_tma, reg_tac, reg_if, reg_ie,
  reg_dma,
}
use gameboy_emulator.Cartridge.{Cartridge, get_mbc, make_cartridge, load_battery_backed_ram}
use gameboy_emulator.Cartridge.Mbc1
use gameboy_emulator.Cartridge.Mbc3
use gameboy_emulator.Cpu.Control.{Processor}
use gameboy_emulator.Cpu.Registers.{reset}
use gameboy_emulator.Interrupts.{request_interrupt}
use gameboy_emulator.Base.Int.{pos}

pub record Gameboy : Type 0 where
  pub cpu : Processor
  pub is_cartridge_battery_backed : Bool

-- The `switch` of the constructor.
unfoldable pub make_controller : Binary → Outcome Controller
make_controller rom = do
  mbc ← get_mbc rom
  cart ←
      (if mbc == 0x00 || mbc == 0x01 || mbc == 0x02 || mbc == 0x03 || mbc == 0x11 || mbc == 0x13
        then make_cartridge rom
        else thrown)
  ok (
      if mbc == 0x00
      then mbc0 cart
      else if mbc == 0x11 || mbc == 0x13
      then mbc3 (Mbc3.make cart)
      else mbc1 (Mbc1.make cart))

abbrev pub base_of : Controller → Cartridge
base_of (mbc0 c) = c
base_of (mbc1 m) = m.base
base_of (mbc3 m) = m.base

-- The bus before the cartridge is loaded.
abbrev pub blank_bus : Bus
blank_bus = record { memory = λ address. 0; cart = none; joypad_status = 0xFF; serial_buffer = [] }

-- The initial values of the members of `Gameboy`, `AddressBus` and `CPU`, with a cartridge loaded.
unfoldable pub make_gameboy : Binary → Outcome Gameboy
unfolding make_controller
make_gameboy rom = do
  cart ← make_controller rom
  ok (record {
    cpu = record {
      regs = record {
        a = 0;
        f = record { fz = false; fn = false; fh = false; fc = false };
        b = 0;
        c = 0;
        d = 0;
        e = 0;
        h = 0;
        l = 0;
        sp = 0;
        pc = 0;
      };
      halted = false;
      crashed = false;
      ime = false;
      busy_cycles = pos 0;
      bus = record blank_bus { cart = some cart };
    };
    is_cartridge_battery_backed = (base_of cart).header.is_battery_backed;
  })

-- The writes of `skipBoot` as the Gameboy, in their order.
abbrev pub boot_values : List (ℕ × ℕ)
boot_values =
    (reg_joip, 0xCF)
    ∷ (reg_sb, 0x00)
    ∷ (reg_sc, 0x7E)
    ∷ (reg_div, 0x18)
    ∷ (reg_tima, 0x00)
    ∷ (reg_tma, 0x00)
    ∷ (reg_tac, 0xF8)
    ∷ (reg_if, 0xE1)
    ∷ (0xFF40, 0x91)
    ∷ (0xFF42, 0x00)
    ∷ (0xFF43, 0x00)
    ∷ (reg_dma, 0xFF)
    ∷ (0xFF47, 0xFC)
    ∷ (0xFF4A, 0x00)
    ∷ (0xFF4B, 0x00)
    ∷ (reg_ie, 0x00)
    ∷ []

unfoldable pub write_all : Build → List (ℕ × ℕ) → Bus → Outcome Bus
write_all build [] b = ok b
write_all build ((address, value) ∷ others) b = do
  b₁ ← write build address value Component.gb b
  write_all build others b₁

unfoldable pub skip_boot : Build → Gameboy → Outcome Gameboy
unfolding write_all
skip_boot build g = do
  unlocked ← write build boot_rom_lock 1 Component.cpu g.cpu.bus
  assert build (not (is_boot_rom_enabled unlocked))
  bus ← write_all build boot_values unlocked
  ok (record g { cpu = record g.cpu { bus = bus; regs = reset g.cpu.regs; busy_cycles = pos 0 } })

abbrev pub interrupt_joypad : ℕ
interrupt_joypad = 4

unfoldable pub set_joypad : Build → ℕ → Bus → Outcome Bus
set_joypad build value b = if b.joypad_status == value then ok b else (do
  b₁ ← write build reg_joip value Component.gb (record b { joypad_status = value })
  request_interrupt build interrupt_joypad b₁)

-- Bit 7 of LCDC.
unfoldable pub is_screen_on : Build → Bus → Outcome Bool
is_screen_on build b = do value ← read build b 0xFF40; ok (value / 2 ^ 7 % 2 == 1)

unfoldable pub load_ram : Binary → Controller → Outcome Controller
load_ram ram (mbc0 c) = do c' ← load_battery_backed_ram ram c; ok (mbc0 c')
load_ram ram (mbc1 m) = do
  c' ← load_battery_backed_ram ram m.base
  ok (mbc1 (record m { base = c' }))
load_ram ram (mbc3 m) = do
  c' ← load_battery_backed_ram ram m.base
  ok (mbc3 (record m { base = c' }))

abbrev pub with_cart : Controller → Gameboy → Gameboy
with_cart cart g = record g { cpu = record g.cpu { bus = record g.cpu.bus { cart = some cart } } }

-- The constructor has loaded a cartridge; without one the pointer would be null.
unfoldable pub load_save : Binary → Gameboy → Outcome Gameboy
unfolding load_ram
load_save ram g = if not g.is_cartridge_battery_backed then thrown else elim g.cpu.bus.cart [
  | none ↦ out_of_range
  | some cart ↦ load_ram ram cart >>= λ cart'. ok (with_cart cart' g)
]

unfoldable pub get_save : Build → Gameboy → Outcome Binary
get_save build g = do
  assert build g.is_cartridge_battery_backed
  elim g.cpu.bus.cart [ none ↦ out_of_range | some cart ↦ ok (base_of cart).ram ]

-- The text that is printed, and the buffer that is left.
unfoldable pub print_serial_buffer : Bus → List ℕ × Bus
print_serial_buffer b = (b.serial_buffer, record b { serial_buffer = [] })
