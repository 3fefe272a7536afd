-- ===== src/Cartridge/Mbc1/Bounds.antt =====
-- The bank registers of src/Cartridge/Controllers/mbc1.hpp under writes.
use Prim.Native.Nat.{bit_and}
use gameboy_emulator.Base.{
  ℕ, ◌≤◌, ◌<◌, ◌≡◌, ◌⊎◌, inl, inr, Build, leb, ◌==◌, if◌then◌else◌, ok, thrown, arith, Bool-cases,
}
use gameboy_emulator.Base.Words.{
  bit_and_one, bit_and_three, bit_and_seven, bit_and_nibble, bit_and_thirty_one,
}
use gameboy_emulator.Base.Bytes.{write_at}
use gameboy_emulator.Cartridge.{Cartridge}
use gameboy_emulator.Cartridge.Mbc1.{Mbc1, make, bank_bitmask, write_ram, write}
use gameboy_emulator.Cartridge.Mbc1.Banks.{IsValid}

pub make-IsValid : (c : Cartridge) → IsValid (make c)
unfolding make
make-IsValid c = omega arith

-- The bank register after a write of `value`.
selected-bounds :
    (code value mask : ℕ)
    → value < 256
    → bank_bitmask code ≡ ok mask
    → let bank = bit_and value mask in
      let stored = (if bank == 0 then 1 else bank) in (0 < stored) × (stored < 32)
unfolding bank_bitmask
selected-bounds code value mask h e = ground (
  arith,
  bit_and_one value h,
  bit_and_three value h,
  bit_and_seven value h,
  bit_and_nibble value h,
  bit_and_thirty_one value h,
)

write_ram-IsValid :
    (build : Build) (m m' : Mbc1) (address value : ℕ)
    → IsValid m
    → write_ram build m address value ≡ ok m'
    → IsValid m'
unfolding write_ram write_at
write_ram-IsValid build m m' address value valid e = ground arith

bitmask-cases :
    (code : ℕ) → (bank_bitmask code ≡ thrown) ⊎ ((mask : ℕ) × (bank_bitmask code ≡ ok mask))
unfolding bank_bitmask
bitmask-cases code = elim (Bool-cases (leb code 6)) [
  | inl small ↦ inr (
    if code == 0
        then 1
        else if code == 1
        then 3
        else if code == 2
        then 7
        else if code == 3
        then 15
        else 31,
    ground arith,
  )
  | inr large ↦ inl (ground arith)
]

write_bank-IsValid :
    (build : Build) (m m' : Mbc1) (address value : ℕ)
    → IsValid m
    → value < 256
    → 0x2000 ≤ address
    → address < 0x4000
    → write build m address value ≡ ok m'
    → IsValid m'
unfolding write
write_bank-IsValid build m m' address value valid fits lo hi e =
    elim (bitmask-cases m.base.header.rom_size) [
      | inl thrown_away ↦ absurd (ground arith)
      | inr (mask, found) ↦
          ground (arith, selected-bounds m.base.header.rom_size value mask fits found)
    ]

-- Every write of a byte that returns, to any address and in either build, leaves the bank registers in range: the ROM bank is never 0 and below 32, the RAM bank below 4.
pub write-IsValid :
    (build : Build) (m m' : Mbc1) (address value : ℕ)
    → IsValid m
    → value < 256
    → write build m address value ≡ ok m'
    → IsValid m'
unfolding write
write-IsValid build m m' address value valid fits e = ground (
  arith,
  write_bank-IsValid build m m' address value valid fits,
  write_ram-IsValid build m m' address value valid,
  write_ram-IsValid build (record m { mode_flag = bit_and value 1 == 1 }) m' address value,
  bit_and_three value fits,
)
