-- ===== src/Cartridge/Mbc3/Laws.antt =====
-- Bank selection and RAM of src/Cartridge/Controllers/mbc3.hpp.
use gameboy_emulator.Base.{
  ℕ, ◌+◌, ◌-◌, ◌*◌, ◌%◌, ◌≤◌, ◌<◌, ◌≡◌, true, ◌==◌, if◌then◌else◌, ◌&&◌, Build, ok, ◌>>=◌, arith,
}
use gameboy_emulator.Base.Words.{bit_and_seven_bits}
use gameboy_emulator.Base.Bytes.{read_at, update, write_at-in_range}
use gameboy_emulator.Cartridge.Mbc3.{Mbc3, read, write}

-- A ROM bank that is selected by a byte `value` is the one that reads see: after a write to 0x2000 to 0x3FFF, a read of 0x4000 to 0x7FFF returns the byte of bank `value % 128`, or of bank 1 where that is 0.
pub read-write_bank :
    (build : Build) (m : Mbc3) (select address value : ℕ)
    → 0x2000 ≤ select
    → select < 0x4000
    → 0x4000 ≤ address
    → address < 0x8000
    → value < 256
    → (write build m select value >>= λ m'. read build m' address)
      ≡ read_at m.base.rom
          (0x4000 * (if value % 128 == 0 then 1 else value % 128) + (address - 0x4000))
unfolding read write read_at
read-write_bank build m select address value lo hi lo' hi' fits =
    ground (arith, bit_and_seven_bits value fits)

-- The index of an address in a RAM bank names the bank and the address.
index-injective :
    (bank bank' address other : ℕ)
    → 0xA000 ≤ address
    → address < 0xC000
    → 0xA000 ≤ other
    → other < 0xC000
    → (0x2000 * bank + (other - 0xA000) == 0x2000 * bank' + (address - 0xA000))
      ≡ (bank == bank' && other == address)
index-injective bank bank' address other lo hi lo' hi' = ground arith

-- The index of an address of the RAM area in the bank that is selected.
ram_index : Mbc3 → ℕ → ℕ
ram_index m address = 0x2000 * m.ram_bank + (address - 0xA000)

stored : Mbc3 → ℕ → ℕ → Mbc3
stored m address value = record m {
  base = record (m.base) {
    ram = record {
      size = m.base.ram.size;
      cell = update m.base.ram.cell (ram_index m address) value;
    };
  };
}

module _ (build : Build) (m : Mbc3) where
  select_bank :
      (select bank : ℕ)
      → 0x4000 ≤ select
      → select < 0x6000
      → write build m select bank ≡ ok (record m { ram_bank = bank })
  unfolding write
  select_bank select bank from to = ground arith

  module _ (address : ℕ) (lo : 0xA000 ≤ address) (hi : address < 0xC000) (mapped : m.ram_bank < 4)
      (on : m.external_ram_enabled ≡ true) (size : m.base.ram.size ≡ 0x8000) where
    read-ram : read build m address ≡ ok (m.base.ram.cell (ram_index m address))
    unfolding read ram_index
    read-ram = ground arith

    write-ram : (value : ℕ) → write build m address value ≡ ok (stored m address value)
    unfolding write ram_index stored
    write-ram value = ground (
      arith,
      write_at-in_range m.base.ram (0x2000 * m.ram_bank + (address - 0xA000)) value (omega arith),
    )

-- With RAM mapped and of 32 KiB, a RAM write succeeds, and when a RAM bank is selected afterwards, an address reads as the value where it is the written address and the bank is the one that was written to, and as it would without the write otherwise.
pub read-write_mapped_ram :
    (build : Build) (m : Mbc3) (address other value select bank : ℕ)
    → 0xA000 ≤ address
    → address < 0xC000
    → 0xA000 ≤ other
    → other < 0xC000
    → 0x4000 ≤ select
    → select < 0x6000
    → m.ram_bank < 4
    → bank < 4
    → m.external_ram_enabled ≡ true
    → m.base.ram.size ≡ 0x8000
    → (write build m address value >>= λ m'.
        write build m' select bank >>= λ m''. read build m'' other)
      ≡ (if bank == m.ram_bank && other == address
          then ok value
          else (write build m select bank >>= λ m'. read build m' other))
unfolding ram_index stored
read-write_mapped_ram build m address other value select bank lo hi lo' hi' from to mapped mapped'
      on size =
    rw
      (
        write-ram build m address lo hi mapped on size value,
        select_bank build m select bank from to,
        select_bank build (stored m address value) select bank from to,
        read-ram build (record (stored m address value) { ram_bank = bank }) other lo' hi' mapped'
            on size,
        read-ram build (record m { ram_bank = bank }) other lo' hi' mapped' on size,
        index-injective bank m.ram_bank address other lo hi lo' hi',
      )
      (ground arith)
