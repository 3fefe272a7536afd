-- ===== src/Cartridge.antt =====
-- src/Cartridge/cartridge.hpp and cartridge.cpp: the header, the two memories and the checks that
-- the constructors make. The controllers are in the modules below.
pub mod Loading
pub mod Mbc0
pub mod Mbc1
pub mod Mbc3
use gameboy_emulator.Base.{
  ℕ, ◌+◌, ◌*◌, ◌%◌, Bool, true, false, List, [], ◌∷◌, ◌++◌, ltb, ◌==◌, if◌then◌else◌, not, Outcome,
  ok, thrown, ◌>>=◌,
}
use gameboy_emulator.Base.Bytes.{Binary, zeros, slice}

abbrev pub rom_bank_size : ℕ
rom_bank_size = 0x4000

abbrev pub min_rom_banks : ℕ
min_rom_banks = 2

pub record Header : Type 0 where
  pub title : List ℕ
  pub license_0 : ℕ
  pub license_1 : ℕ
  pub sgb_flag : ℕ
  pub cartridge_type : ℕ
  pub rom_size : ℕ
  pub ram_size : ℕ
  pub destination_code : ℕ
  pub old_license : ℕ
  pub version_number : ℕ
  pub header_checksum : ℕ
  pub global_checksum_0 : ℕ
  pub global_checksum_1 : ℕ
  pub is_battery_backed : Bool

-- The cases of the `switch` on the cartridge type.
unfoldable pub battery_backed : ℕ → Bool
battery_backed t =
    if t == 0x0F
    then true
    else if t == 0x10
    then true
    else if t == 0x13
    then true
    else if t == 0x03
    then true
    else if t == 0x06
    then true
    else if t == 0x1B
    then true
    else if t == 0x1E
    then true
    else if t == 0x22
    then true
    else if t == 0x0D
    then true
    else (t == 0x09)

-- The fields that the constructor of the header copies.
unfoldable pub header_of : Binary → Header
unfolding slice battery_backed
header_of rom = record {
  title = slice rom 0x134 15 ++ 0 ∷ [];
  license_0 = rom.cell 0x144;
  license_1 = rom.cell 0x145;
  sgb_flag = rom.cell 0x146;
  cartridge_type = rom.cell 0x147;
  rom_size = rom.cell 0x148;
  ram_size = rom.cell 0x149;
  destination_code = rom.cell 0x14A;
  old_license = rom.cell 0x14B;
  version_number = rom.cell 0x14C;
  header_checksum = rom.cell 0x14D;
  global_checksum_0 = rom.cell 0x14E;
  global_checksum_1 = rom.cell 0x14F;
  is_battery_backed = battery_backed (rom.cell 0x147);
}

unfoldable pub parse_header : Binary → Outcome Header
parse_header rom =
    if ltb rom.size (min_rom_banks * rom_bank_size) then thrown else ok (header_of rom)

unfoldable pub get_mbc : Binary → Outcome ℕ
get_mbc rom = if ltb rom.size (min_rom_banks * rom_bank_size) then thrown else ok (rom.cell 0x147)

pub record Cartridge : Type 0 where
  pub header : Header
  pub rom : Binary
  pub ram : Binary

-- `setRAMSize`: the size code of the header, in bytes.
unfoldable pub ram_bytes : ℕ → ℕ
ram_bytes code =
    if code == 1 then 0x800 else if code == 2 then 0x2000 else if code == 3 then 0x8000 else 0

unfoldable pub make_cartridge : Binary → Outcome Cartridge
unfolding ram_bytes
make_cartridge input = do
  header ← parse_header input
  if not (input.size % rom_bank_size == 0)
      then thrown
      else ok (record { header = header; rom = input; ram = zeros (ram_bytes header.ram_size) })

unfoldable pub load_battery_backed_ram : Binary → Cartridge → Outcome Cartridge
load_battery_backed_ram new_ram c =
    if not (new_ram.size == c.ram.size)
    then thrown
    else ok (record c { ram = record { size = c.ram.size; cell = new_ram.cell } })
