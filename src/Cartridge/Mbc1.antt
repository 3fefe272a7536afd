-- ===== src/Cartridge/Mbc1.antt =====
-- src/Cartridge/Controllers/mbc1.hpp: bank switching, and RAM that may be disabled.
-- Addresses are `dword`s; `address - 0xA000` is an `int`, stored back into a `dword`.
pub mod Banks
pub mod Bounds
pub mod Ram
pub mod Mode
use Prim.Native.Nat.{bit_and}
use gameboy_emulator.Base.{
  ℕ, ◌+◌, ◌-◌, ◌*◌, ◌%◌, ◌^◌, Bool, true, false, ltb, leb, ◌==◌, if◌then◌else◌, not, ◌&&◌, Build,
  Outcome, ok, thrown, ◌>>=◌, ◌>>◌, assert,
}
use gameboy_emulator.Base.Words.{u16, bit}
use gameboy_emulator.Base.Bytes.{Binary, read_at, write_at}
use gameboy_emulator.Cartridge.{Cartridge}

pub record Mbc1 : Type 0 where
  pub base : Cartridge
  pub rom_bank : ℕ
  pub ram_bank : ℕ
  pub mode_flag : Bool
  pub external_ram_enabled : Bool

unfoldable pub make : Cartridge → Mbc1
make c = record {
  base = c;
  rom_bank = 1;
  ram_bank = 0;
  mode_flag = false;
  external_ram_enabled = false;
}

-- `getBankBitmask`, by the size code of the header.
unfoldable pub bank_bitmask : ℕ → Outcome ℕ
bank_bitmask code =
    if code == 0
    then ok 0b1
    else if code == 1
    then ok 0b11
    else if code == 2
    then ok 0b111
    else if code == 3
    then ok 0b1111
    else if leb code 6
    then ok 0b11111
    else thrown

unfoldable pub get_ram_address : Build → Mbc1 → ℕ → Outcome ℕ
get_ram_address build m address = do
  assert build (not (m.base.ram.size == 0))
  let base_address = u16 (address + 2 ^ 16 - 0xA000)
  ok (
      if m.mode_flag
      then u16 (0x2000 * m.ram_bank + base_address)
      else u16 (base_address % m.base.ram.size))

unfoldable pub get_zero_bank : Mbc1 → ℕ
get_zero_bank m =
    let code = m.base.header.rom_size in
    if not m.mode_flag
    then 0
    else if ltb code 0x05
    then 0
    else if code == 0x05
    then bit_and m.ram_bank 0b1 * 2 ^ 5
    else if code == 0x06
    then bit_and m.ram_bank 0b11 * 2 ^ 5
    else 0

unfoldable pub get_high_bank : Mbc1 → Outcome ℕ
unfolding bank_bitmask
get_high_bank m = do
  let code = m.base.header.rom_size
  bitmask ← bank_bitmask code
  ok (
      if ltb code 0x05
      then bit_and m.rom_bank bitmask
      else if code == 0x05
      then bit_and (bit_and m.rom_bank bitmask) (bit_and m.ram_bank 0b1 * 2 ^ 5)
      else if code == 0x06
      then bit_and (bit_and m.rom_bank bitmask) (bit_and m.ram_bank 0b11 * 2 ^ 5)
      else 0)

-- The condition under which RAM is accessed at all.
unfoldable pub ram_usable : Mbc1 → Bool
ram_usable m = m.external_ram_enabled && not (m.base.ram.size == 0)

unfoldable pub read_ram : Build → Mbc1 → ℕ → Outcome ℕ
unfolding ram_usable
read_ram build m address = do
  assert build (leb 0xA000 address)
  assert build (ltb address 0xC000)
  if ram_usable m then get_ram_address build m address >>= read_at m.base.ram else ok 0xFF

unfoldable pub read : Build → Mbc1 → ℕ → Outcome ℕ
read build m address =
    if ltb address 0x4000
    then read_at m.base.rom (0x4000 * get_zero_bank m + address)
    else if ltb address 0x8000
    then (do bank ← get_high_bank m; read_at m.base.rom (0x4000 * bank + (address - 0x4000)))
    else read_ram build m address

unfoldable pub store : Mbc1 → Binary → Mbc1
store m ram = record m { base = record (m.base) { ram = ram } }

unfoldable pub write_ram : Build → Mbc1 → ℕ → ℕ → Outcome Mbc1
unfolding ram_usable store
write_ram build m address value = do
  assert build (leb 0xA000 address)
  assert build (ltb address 0xC000)
  if ram_usable m
      then (do
        ram_address ← get_ram_address build m address
        ram ← write_at m.base.ram ram_address value
        ok (store m ram))
      else ok m

-- There is no `return` behind the mode register: the code goes on to the RAM.
unfoldable pub write : Build → Mbc1 → ℕ → ℕ → Outcome Mbc1
write build m address value =
    if ltb address 0x2000
    then ok (record m { external_ram_enabled = bit_and value 0b1111 == 0xA })
    else if ltb address 0x4000
    then (do
      bitmask ← bank_bitmask m.base.header.rom_size
      let bank = bit_and value bitmask
      ok (record m { rom_bank = if bank == 0 then 1 else bank }))
    else if ltb address 0x6000
    then ok (record m { ram_bank = bit_and value 0b11 })
    else if ltb address 0x8000
    then write_ram build (record m { mode_flag = bit_and value 0b1 == 1 }) address value
    else write_ram build m address value
