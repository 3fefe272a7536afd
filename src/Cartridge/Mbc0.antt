-- ===== src/Cartridge/Mbc0.antt =====
-- src/Cartridge/Controllers/mbc0.hpp: a cartridge with two fixed banks.
use gameboy_emulator.Base.{
  ℕ, ◌*◌, Bool, ltb, leb, ◌&&◌, ◌||◌, ◌==◌, Build, Outcome, ok, ◌>>◌, assert,
}
use gameboy_emulator.Base.Bytes.{read_at}
use gameboy_emulator.Cartridge.{Cartridge, rom_bank_size}

-- The addresses that the bus hands to a cartridge.
unfoldable pub refers_to_cartridge : ℕ → Bool
refers_to_cartridge address = ltb address 0x8000 || (leb 0xA000 address && ltb address 0xC000)

unfoldable pub read : Build → Cartridge → ℕ → Outcome ℕ
unfolding refers_to_cartridge read_at
read build c address = do
  assert build (refers_to_cartridge address)
  assert build (c.rom.size == 2 * rom_bank_size)
  read_at c.rom address

unfoldable pub write : Build → Cartridge → ℕ → ℕ → Outcome Cartridge
unfolding refers_to_cartridge
write build c address value = do assert build (refers_to_cartridge address); ok c
