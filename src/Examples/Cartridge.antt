-- ===== src/Examples/Cartridge.antt =====
-- Cartridges and their controllers on sample files.
use gameboy_emulator.Base.{
  ℕ, ◌≡◌, ◌≤◌, ◌⊎◌, thrown, ◌<◌, Bool, ◌-◌, ◌%◌, ◌==◌, if◌then◌else◌, true, false, debug, release,
  ok, assert_failed, out_of_range, ◌>>=◌, ◌&&◌, arith, refl, inl,
}
use gameboy_emulator.Base.Bytes.{Binary, zeros, update, read_at}
use gameboy_emulator.Cartridge.{Header, Cartridge, header_of, make_cartridge}
use gameboy_emulator.Cartridge.Loading.{IsLoaded, make_cartridge_lem}
use gameboy_emulator.Cartridge.Mbc1.{Mbc1, store, ram_usable, bank_bitmask}
use gameboy_emulator.Cartridge.Mbc1
use gameboy_emulator.Cartridge.Mbc1.Banks.{IsValid, read-rom_in_range, read-large_rom}
use gameboy_emulator.Cartridge.Mbc1.Bounds.{write-IsValid}
use gameboy_emulator.Cartridge.Mbc1.Ram.{ram_index, read-write_ram, read-ram_past_end}
use gameboy_emulator.Cartridge.Mbc1.Mode.{write-mode}
use gameboy_emulator.Cartridge.Mbc3
use gameboy_emulator.Cartridge.Mbc3.{Mbc3}
use gameboy_emulator.Cartridge.Mbc3.Laws.{read-write_mapped_ram}

-- A file of 32 KiB whose byte at `i` is `i % 251`.
abbrev file : Binary
file = record { size = 0x8000; cell = λ i. i % 251 }

make_cartridge_lem_example :
    ((0x8000 ≤ file.size)
      × (file.size % 0x4000 ≡ 0)
      × ((c : Cartridge) × (make_cartridge file ≡ ok c) × IsLoaded file c))
    ⊎ (((file.size < 0x8000) ⊎ (0 < file.size % 0x4000)) × (make_cartridge file ≡ thrown))
make_cartridge_lem_example = make_cartridge_lem file

-- A cartridge with the given size code and memory sizes.
abbrev sample_header : ℕ → Header
sample_header code = record (header_of file) { rom_size = code; is_battery_backed = false }

abbrev sample_cartridge : ℕ → ℕ → ℕ → Cartridge
sample_cartridge code rom_size ram_size = record {
  header = sample_header code;
  rom = record { size = rom_size; cell = λ i. i % 251 };
  ram = zeros ram_size;
}

-- A controller after the program has selected banks and enabled RAM.
abbrev sample_mbc1 : ℕ → ℕ → ℕ → Bool → Mbc1
sample_mbc1 code rom_size ram_size mode = record {
  base = sample_cartridge code rom_size ram_size;
  rom_bank = 7;
  ram_bank = 2;
  mode_flag = mode;
  external_ram_enabled = true;
}

sample_mbc1-IsValid :
    (code rom_size ram_size : ℕ) (mode : Bool) → IsValid (sample_mbc1 code rom_size ram_size mode)
sample_mbc1-IsValid code rom_size ram_size mode = record {
  rom_bank_pos = omega arith;
  rom_bank_fits = omega arith;
  ram_bank_fits = omega arith;
}

abbrev large : Mbc1
large = sample_mbc1 5 0x100000 0x2000 true

abbrev small : Mbc1
small = sample_mbc1 1 0x10000 0x2000 false

read-rom_in_range_example :
    (i : ℕ) × (Mbc1.read release small 0x5000 ≡ ok (small.base.rom.cell i))
    × (i < small.base.rom.size)
read-rom_in_range_example =
    read-rom_in_range small (sample_mbc1-IsValid 1 0x10000 0x2000 false) release 0x5000
      (omega arith) refl (omega arith)

read-large_rom_example : Mbc1.read debug large 0x5000 ≡ read_at large.base.rom (0x5000 - 0x4000)
read-large_rom_example =
    read-large_rom large (sample_mbc1-IsValid 5 0x100000 0x2000 true) debug 0x5000 (inl refl)
      (omega arith) (omega arith)

selected : Mbc1.write debug small 0x2000 0x20 ≡ ok (record small { rom_bank = 1 })
unfolding Mbc1.write bank_bitmask
selected = refl

write-IsValid_example : IsValid (record small { rom_bank = 1 })
write-IsValid_example =
    write-IsValid debug small (record small { rom_bank = 1 }) 0x2000 0x20
      (sample_mbc1-IsValid 1 0x10000 0x2000 false) (omega arith) selected

read-write_ram_example :
    (m' : Mbc1) × (Mbc1.write debug small 0xA123 0x77 ≡ ok m')
    × (Mbc1.read debug m' 0xA124 ≡ (
        if ram_index small 0xA124 == ram_index small 0xA123
        then ok 0x77
        else Mbc1.read debug small 0xA124))
    × (m'.rom_bank ≡ small.rom_bank)
    × (m'.ram_bank ≡ small.ram_bank)
    × (m'.mode_flag ≡ small.mode_flag)
    × (m'.external_ram_enabled ≡ small.external_ram_enabled)
    × (m'.base.rom ≡ small.base.rom)
    × (m'.base.header ≡ small.base.header)
    × (m'.base.ram.size ≡ small.base.ram.size)
read-write_ram_example =
    read-write_ram debug small 0xA123 0xA124 0x77 (omega arith) (omega arith) (omega arith)
      (omega arith) (sample_mbc1-IsValid 1 0x10000 0x2000 false) (unfold ram_usable in refl)
      (inl refl)

read-ram_past_end_example : Mbc1.read release large 0xA000 ≡ out_of_range
read-ram_past_end_example =
    read-ram_past_end release large 0xA000 (sample_mbc1-IsValid 5 0x100000 0x2000 true) refl refl
      (omega arith) refl (omega arith) (omega arith)

write-mode_example :
    (Mbc1.write debug large 0x6001 0x10 ≡ assert_failed)
    × (Mbc1.write release large 0x6001 0x10
        ≡ ok (
            store
              (record large { mode_flag = false })
              (record {
                size = large.base.ram.size;
                cell = update large.base.ram.cell (0x6001 - 0x6000) 0x10;
              })))
write-mode_example =
    write-mode large 0x6001 0x10 (omega arith) (omega arith) (omega arith) refl refl refl

abbrev sample_mbc3 : Mbc3
sample_mbc3 = record {
  base = sample_cartridge 6 0x200000 0x8000;
  rom_bank = 1;
  ram_bank = 3;
  external_ram_enabled = true;
}

abbrev bank_number : ℕ
bank_number = 0x45

read-write_mapped_ram_example :
    (Mbc3.write debug sample_mbc3 0xBFFF 0x99 >>= λ m'.
    Mbc3.write debug m' 0x4000 2 >>= λ m''. Mbc3.read debug m'' 0xBFFF)
    ≡ (if 2 == 3 && 0xBFFF == 0xBFFF
        then ok 0x99
        else (Mbc3.write debug sample_mbc3 0x4000 2 >>= λ m'. Mbc3.read debug m' 0xBFFF))
read-write_mapped_ram_example =
    read-write_mapped_ram debug sample_mbc3 0xBFFF 0xBFFF 0x99 0x4000 2 (omega arith) (omega arith)
      (omega arith) (omega arith) (omega arith) (omega arith) (omega arith) (omega arith) refl refl
