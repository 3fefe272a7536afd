-- ===== src/Cartridge/Mbc1/Mode.antt =====
-- The mode register of src/Cartridge/Controllers/mbc1.hpp, whose branch has no `return`.
use Prim.Native.Nat.{bit_and}
use gameboy_emulator.Base.{
  ℕ, ◌-◌, ◌%◌, ◌≤◌, ◌<◌, ◌≡◌, refl, debug, release, true, false, ◌==◌, ok, assert_failed, arith,
}
use gameboy_emulator.Base.Words.{bit_and_one}
use gameboy_emulator.Base.Bytes.{update, write_at-in_range}
use gameboy_emulator.Cartridge.Mbc1.{Mbc1, get_ram_address, write_ram, write, store}

mode_ram_address :
    (m : Mbc1) (address value : ℕ)
    → 0x6000 ≤ address
    → address < 0x8000
    → m.base.ram.size ≡ 0x2000
    → m.mode_flag ≡ false
    → get_ram_address release m address ≡ ok (address - 0x6000)
unfolding get_ram_address
mode_ram_address m address value lo hi size off = rw (size, off) (ground arith)

mode_bit : (value : ℕ) → value < 256 → (bit_and value 1 == 1) ≡ (value % 2 == 1)
mode_bit value fits = rw (bit_and_one value fits)

-- A write of an even byte to the mode register 0x6000 to 0x7FFF, with 8 KiB of RAM enabled, clears the mode and goes on: the Debug build fails an assert, and the Release build overwrites the byte at `address - 0x6000` of the RAM with the value.
pub write-mode :
    (m : Mbc1) (address value : ℕ)
    → 0x6000 ≤ address
    → address < 0x8000
    → value < 256
    → value % 2 ≡ 0
    → m.external_ram_enabled ≡ true
    → m.base.ram.size ≡ 0x2000
    → (write debug m address value ≡ assert_failed)
      × (write release m address value
          ≡ ok (
              store
                (record m { mode_flag = false })
                (record {
                  size = m.base.ram.size;
                  cell = update m.base.ram.cell (address - 0x6000) value;
                })))
unfolding write write_ram
write-mode m address value lo hi fits even on size = (
  ground arith,
  rw (mode_bit value fits) (
      ground (
        arith,
        mode_ram_address (record m { mode_flag = false }) address value lo hi size refl,
        write_at-in_range m.base.ram (address - 0x6000) value (omega arith),
      )),
)
