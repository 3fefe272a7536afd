-- ===== src/Cartridge/Mbc1/Ram.antt =====
-- The external RAM behind src/Cartridge/Controllers/mbc1.hpp.
use native.Mathlib.Nat.{mod-eq_of_lt}
use gameboy_emulator.Base.{
  ℕ, ◌+◌, ◌-◌, ◌*◌, ◌%◌, ◌≤◌, ◌<◌, ◌≡◌, refl, ◌⊎◌, Build, true, false, ◌==◌, if◌then◌else◌, ok,
  out_of_range, arith,
}
use gameboy_emulator.Base.Bytes.{update, read_at, write_at-in_range}
use gameboy_emulator.Cartridge.Mbc1.{
  Mbc1, ram_usable, get_ram_address, read_ram, write_ram, read, write, store,
}
use gameboy_emulator.Cartridge.Mbc1.Banks.{IsValid}

-- The index of an address in RAM.
pub ram_index : Mbc1 → ℕ → ℕ
ram_index m address =
    if m.mode_flag
    then 0x2000 * m.ram_bank + (address - 0xA000)
    else (address - 0xA000) % m.base.ram.size

wrap_base :
    (address : ℕ)
    → 0xA000 ≤ address
    → address < 0xC000
    → (address + 65536 - 0xA000) % 65536 ≡ address - 0xA000
wrap_base address lo hi = omega arith

wrap_mod : (x n : ℕ) → x < 65536 → (x % n) % 65536 ≡ x % n
wrap_mod x n h = mod-eq_of_lt (omega arith)

module _ (build : Build) (m : Mbc1) (address : ℕ) (lo : 0xA000 ≤ address)
    (hi : address < 0xC000) where
  ram_address :
      IsValid m → ram_usable m ≡ true → get_ram_address build m address ≡ ok (ram_index m address)
  unfolding get_ram_address ram_usable ram_index
  ram_address valid usable =
      rw (wrap_base address lo hi, wrap_mod (address - 0xA000) m.base.ram.size (omega arith))
        (ground arith)

  -- With RAM disabled, or with no RAM, a RAM read returns 0xFF and a RAM write changes nothing.
  pub ram_unusable :
      (value : ℕ)
      → ram_usable m ≡ false
      → (read build m address ≡ ok 0xFF) × (write build m address value ≡ ok m)
  unfolding read write read_ram write_ram
  ram_unusable value off = (ground arith, ground arith)

  -- Where a RAM read goes.
  pub read-ram :
      IsValid m
      → ram_usable m ≡ true
      → read build m address ≡ read_at m.base.ram (ram_index m address)
  unfolding read read_ram
  read-ram valid usable = ground (arith, ram_address valid usable)

  pub write-ram :
      (value : ℕ)
      → IsValid m
      → ram_usable m ≡ true
      → ram_index m address < m.base.ram.size
      → write build m address value
        ≡ ok (
            store m (record {
              size = m.base.ram.size;
              cell = update m.base.ram.cell (ram_index m address) value;
            }))
  unfolding write write_ram
  write-ram value valid usable fits = ground (
    arith,
    ram_address valid usable,
    write_at-in_range m.base.ram (ram_index m address) value fits,
  )

  ram_index-fits :
      ram_usable m ≡ true
      → IsValid m
      → (m.mode_flag ≡ false) ⊎ (m.base.ram.size ≡ 0x8000)
      → ram_index m address < m.base.ram.size
  unfolding ram_usable ram_index
  ram_index-fits usable valid fit = ground arith

  -- The controller that a RAM write leaves.
  pub stored : ℕ → Mbc1
  stored value =
      store m (record {
        size = m.base.ram.size;
        cell = update m.base.ram.cell (ram_index m address) value;
      })

stored-read :
    (build : Build) (m : Mbc1) (address other value : ℕ) (lo : 0xA000 ≤ address)
    (hi : address < 0xC000)
    → 0xA000 ≤ other
    → other < 0xC000
    → IsValid m
    → ram_usable m ≡ true
    → (m.mode_flag ≡ false) ⊎ (m.base.ram.size ≡ 0x8000)
    → read build (stored build m address lo hi value) other
      ≡ (if ram_index m other == ram_index m address then ok value else read build m other)
unfolding stored store ram_usable ram_index read_at
stored-read build m address other value lo hi lo' hi' valid usable fit = ground (
  arith,
  read-ram build m other lo' hi' valid usable,
  read-ram build (stored build m address lo hi value) other lo' hi' (omega arith) usable,
  ram_index-fits build m other lo' hi' usable valid fit,
)

-- A RAM write on a valid controller with RAM enabled, where banking is off or the RAM has its full 32 KiB, succeeds; afterwards every address of the RAM area that selects the written cell reads as the value, and every other one reads as before; the bank registers, the mode, the RAM enable, the ROM, the header and the size of the RAM are as before.
pub read-write_ram :
    (build : Build) (m : Mbc1) (address other value : ℕ)
    → 0xA000 ≤ address
    → address < 0xC000
    → 0xA000 ≤ other
    → other < 0xC000
    → IsValid m
    → ram_usable m ≡ true
    → (m.mode_flag ≡ false) ⊎ (m.base.ram.size ≡ 0x8000)
    → (m' : Mbc1) × (write build m address value ≡ ok m')
      × (read build m' other
          ≡ (if ram_index m other == ram_index m address then ok value else read build m other))
      × (m'.rom_bank ≡ m.rom_bank)
      × (m'.ram_bank ≡ m.ram_bank)
      × (m'.mode_flag ≡ m.mode_flag)
      × (m'.external_ram_enabled ≡ m.external_ram_enabled)
      × (m'.base.rom ≡ m.base.rom)
      × (m'.base.header ≡ m.base.header)
      × (m'.base.ram.size ≡ m.base.ram.size)
unfolding stored store
read-write_ram build m address other value lo hi lo' hi' valid usable fit = (
  stored build m address lo hi value,
  write-ram build m address lo hi value valid usable
      (ram_index-fits build m address lo hi usable valid fit),
  stored-read build m address other value lo hi lo' hi' valid usable fit,
  refl,
  refl,
  refl,
  refl,
  refl,
  refl,
  refl,
)

-- With banking on, a RAM bank above 0 selected and a RAM of only 8 KiB, every read of the RAM area goes past the end of the RAM vector.
pub read-ram_past_end :
    (build : Build) (m : Mbc1) (address : ℕ)
    → IsValid m
    → m.external_ram_enabled ≡ true
    → m.mode_flag ≡ true
    → 0 < m.ram_bank
    → m.base.ram.size ≡ 0x2000
    → 0xA000 ≤ address
    → address < 0xC000
    → read build m address ≡ out_of_range
unfolding ram_usable ram_index read_at
read-ram_past_end build m address valid on mode bank size lo hi =
    ground (arith, read-ram build m address lo hi valid (ground arith))
