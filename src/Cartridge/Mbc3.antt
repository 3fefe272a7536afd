-- ===== src/Cartridge/Mbc3.antt =====
-- src/Cartridge/Controllers/mbc3.hpp, without the clock, which the source leaves out too.
pub mod Laws
use Prim.Native.Nat.{bit_and}
use gameboy_emulator.Base.{
  ℕ, ◌+◌, ◌-◌, ◌*◌, ◌^◌, Bool, false, ltb, leb, ◌==◌, if◌then◌else◌, ◌&&◌, Build, Outcome, ok,
  ◌>>=◌, ◌>>◌, assert,
}
use gameboy_emulator.Base.Words.{u16}
use gameboy_emulator.Base.Bytes.{Binary, read_at, write_at}
use gameboy_emulator.Cartridge.{Cartridge}

pub record Mbc3 : Type 0 where
  pub base : Cartridge
  pub rom_bank : ℕ
  pub ram_bank : ℕ
  pub external_ram_enabled : Bool

unfoldable pub make : Cartridge → Mbc3
make c = record { base = c; rom_bank = 0; ram_bank = 0; external_ram_enabled = false }

unfoldable pub ram_mapped : Mbc3 → Bool
ram_mapped m = ltb m.ram_bank 0x04 && m.external_ram_enabled

unfoldable pub clock_mapped : Mbc3 → Bool
clock_mapped m = leb 0x08 m.ram_bank && ltb m.ram_bank 0x0D

-- The index that a read takes, and the one that a write takes.
unfoldable pub ram_address : Mbc3 → ℕ → ℕ
ram_address m address = u16 (0x2000 * m.ram_bank + (address - 0xA000))

unfoldable pub write_address : Mbc3 → ℕ → ℕ
write_address m address = u16 (0x2000 * m.ram_bank + (address - 0xA000))

unfoldable pub read : Build → Mbc3 → ℕ → Outcome ℕ
unfolding ram_mapped clock_mapped ram_address read_at
read build m address =
    if ltb address 0x4000
    then read_at m.base.rom address
    else if ltb address 0x8000
    then read_at m.base.rom (0x4000 * m.rom_bank + (address - 0x4000))
    else (do
      assert build (leb 0xA000 address)
      assert build (ltb address 0xC000)
      if ram_mapped m
          then read_at m.base.ram (ram_address m address)
          else if clock_mapped m
          then (do assert build false; ok 0xFF)
          else ok 0xFF)

unfoldable pub write : Build → Mbc3 → ℕ → ℕ → Outcome Mbc3
unfolding ram_mapped write_address write_at
write build m address value =
    if ltb address 0x2000
    then ok (record m { external_ram_enabled = bit_and value 0b1111 == 0xA })
    else if ltb address 0x4000
    then (let bank = bit_and value 0b1111111 in
        ok (record m { rom_bank = if bank == 0 then 1 else bank }))
    else if ltb address 0x6000
    then ok (record m { ram_bank = value })
    else if ltb address 0x8000
    then ok m
    else (do
      assert build (leb 0xA000 address)
      assert build (ltb address 0xC000)
      if ram_mapped m
          then (do
            ram ← write_at m.base.ram (write_address m address) value
            ok (record m { base = record (m.base) { ram = ram } }))
          else ok m)
