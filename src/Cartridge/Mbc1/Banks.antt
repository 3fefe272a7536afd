-- ===== src/Cartridge/Mbc1/Banks.antt =====
-- Which ROM bank src/Cartridge/Controllers/mbc1.hpp selects for the two halves of the ROM area.
use Prim.Native.Nat.{bit_and}
use gameboy_emulator.Base.{
  ℕ, zero, suc, ◌+◌, ◌-◌, ◌*◌, ◌%◌, ◌^◌, ◌≤◌, ◌<◌, ◌≡◌, ◌⊎◌, refl, Bool, true, ltb, ◌==◌, ==_iff,
  Bool-cases, inl, inr, Build, ok, arith,
}
use gameboy_emulator.Base.Words.{
  all_below, all_below_sound, bit_and_one, bit_and_three, bit_and_seven, bit_and_nibble,
  bit_and_thirty_one,
}
use gameboy_emulator.Base.Bytes.{read_at, read_at-in_range}
use gameboy_emulator.Cartridge.Mbc1.{Mbc1, get_high_bank, get_zero_bank, read}

-- The registers hold what the register writes can leave there.
pub record IsValid (m : Mbc1) : Type 0 where
  pub rom_bank_pos : 0 < m.rom_bank
  pub rom_bank_fits : m.rom_bank < 32
  pub ram_bank_fits : m.ram_bank < 4

abbrev overlap_test : ℕ → ℕ → Bool
overlap_test rom_bank ram_bits = bit_and (bit_and rom_bank 31) (ram_bits * 32) == 0

abbrev overlap_row : ℕ → Bool
overlap_row rom_bank = all_below 4 (overlap_test rom_bank)

overlap_table : all_below 32 overlap_row ≡ true
unfolding all_below
overlap_table = refl

-- The five bits of the ROM bank and the two bits above them have none in common.
overlap-zero :
    (rom_bank ram_bits : ℕ)
    → rom_bank < 32
    → ram_bits < 4
    → bit_and (bit_and rom_bank 31) (ram_bits * 32) ≡ 0
overlap-zero rom_bank ram_bits h k =
    let row : overlap_row rom_bank ≡ true =
      all_below_sound 32 overlap_row rom_bank overlap_table h in
    (==_iff _ _).0 (all_below_sound 4 (overlap_test rom_bank) ram_bits row k)

module _ (m : Mbc1) (valid : IsValid m) where
  high_bank-5 : m.base.header.rom_size ≡ 5 → get_high_bank m ≡ ok 0
  unfolding get_high_bank
  high_bank-5 e = rw (
    e,
    bit_and_one m.ram_bank (omega arith),
    overlap-zero m.rom_bank (m.ram_bank % 2) valid.rom_bank_fits (omega arith),
  )

  high_bank-6 : m.base.header.rom_size ≡ 6 → get_high_bank m ≡ ok 0
  unfolding get_high_bank
  high_bank-6 e = rw (
    e,
    bit_and_three m.ram_bank (omega arith),
    overlap-zero m.rom_bank (m.ram_bank % 4) valid.rom_bank_fits (omega arith),
  )

  -- On a cartridge of 1 or 2 MiB (size codes 5 and 6) every read of the switchable area 0x4000 to 0x7FFF returns the byte of bank 0, whatever the bank registers hold.
  pub read-large_rom :
      (build : Build) (address : ℕ)
      → (m.base.header.rom_size ≡ 5) ⊎ (m.base.header.rom_size ≡ 6)
      → 0x4000 ≤ address
      → address < 0x8000
      → read build m address ≡ read_at m.base.rom (address - 0x4000)
  unfolding read
  read-large_rom build address size lo hi = ground (arith, high_bank-5, high_bank-6)

  small_bank :
      (code : ℕ)
      → m.base.header.rom_size ≡ code
      → code ≤ 4
      → get_high_bank m ≡ ok (m.rom_bank % 2 ^ (code + 1))
  unfolding get_high_bank
  small_bank zero e h = rw (e, bit_and_one m.rom_bank (omega arith))
  small_bank (suc zero) e h = rw (e, bit_and_three m.rom_bank (omega arith))
  small_bank (suc (suc zero)) e h = rw (e, bit_and_seven m.rom_bank (omega arith))
  small_bank (suc (suc (suc zero))) e h = rw (e, bit_and_nibble m.rom_bank (omega arith))
  small_bank (suc (suc (suc (suc zero)))) e h = rw (e, bit_and_thirty_one m.rom_bank (omega arith))
  small_bank (suc (suc (suc (suc (suc n))))) e h = absurd (omega arith)

  -- The bank that the code selects up to size code 4: the low bits of the bank register.
  pub high_bank-small :
      m.base.header.rom_size ≤ 4
      → get_high_bank m ≡ ok (m.rom_bank % 2 ^ (m.base.header.rom_size + 1))
  high_bank-small h = small_bank m.base.header.rom_size refl h

  zero_bank-5 : m.base.header.rom_size ≡ 5 → get_zero_bank m ≤ 32
  unfolding get_zero_bank
  zero_bank-5 e = ground (arith, bit_and_one m.ram_bank)

  zero_bank-6 : m.base.header.rom_size ≡ 6 → get_zero_bank m ≤ 96
  unfolding get_zero_bank
  zero_bank-6 e = ground (arith, bit_and_three m.ram_bank)

  zero_bank-small : m.base.header.rom_size ≤ 4 → get_zero_bank m ≡ 0
  unfolding get_zero_bank
  zero_bank-small h = ground arith

  -- The bank at 0x4000 lies within a ROM of the size that the header names.
  high_bank_within :
      (code : ℕ)
      → m.base.header.rom_size ≡ code
      → code ≤ 6
      → m.base.rom.size ≡ 0x8000 * 2 ^ code
      → (bank : ℕ) × (get_high_bank m ≡ ok bank) × (0x4000 * bank + 0x4000 ≤ m.base.rom.size)
  high_bank_within zero e h s = (m.rom_bank % 2, small_bank 0 e (omega arith), omega arith)
  high_bank_within (suc zero) e h s = (m.rom_bank % 4, small_bank 1 e (omega arith), omega arith)
  high_bank_within (suc (suc zero)) e h s =
      (m.rom_bank % 8, small_bank 2 e (omega arith), omega arith)
  high_bank_within (suc (suc (suc zero))) e h s =
      (m.rom_bank % 16, small_bank 3 e (omega arith), omega arith)
  high_bank_within (suc (suc (suc (suc zero)))) e h s =
      (m.rom_bank % 32, small_bank 4 e (omega arith), omega arith)
  high_bank_within (suc (suc (suc (suc (suc zero))))) e h s = (0, high_bank-5 e, omega arith)
  high_bank_within (suc (suc (suc (suc (suc (suc zero)))))) e h s = (0, high_bank-6 e, omega arith)
  high_bank_within (suc (suc (suc (suc (suc (suc (suc n))))))) e h s = absurd (omega arith)

  zero_bank_within :
      (code : ℕ)
      → m.base.header.rom_size ≡ code
      → code ≤ 6
      → m.base.rom.size ≡ 0x8000 * 2 ^ code
      → 0x4000 * get_zero_bank m + 0x4000 ≤ m.base.rom.size
  zero_bank_within zero e h s = omega (arith, zero_bank-small (omega arith))
  zero_bank_within (suc zero) e h s = omega (arith, zero_bank-small (omega arith))
  zero_bank_within (suc (suc zero)) e h s = omega (arith, zero_bank-small (omega arith))
  zero_bank_within (suc (suc (suc zero))) e h s = omega (arith, zero_bank-small (omega arith))
  zero_bank_within (suc (suc (suc (suc zero)))) e h s = omega (arith, zero_bank-small (omega arith))
  zero_bank_within (suc (suc (suc (suc (suc zero))))) e h s = omega (arith, zero_bank-5 e)
  zero_bank_within (suc (suc (suc (suc (suc (suc zero)))))) e h s = omega (arith, zero_bank-6 e)
  zero_bank_within (suc (suc (suc (suc (suc (suc (suc n))))))) e h s = absurd (omega arith)

  -- When the ROM has the size that its header names, no ROM read of a valid controller goes out of range or throws: it returns a byte of the ROM, in either build.
  pub read-rom_in_range :
      (build : Build) (address : ℕ)
      → m.base.header.rom_size ≤ 6
      → m.base.rom.size ≡ 0x8000 * 2 ^ m.base.header.rom_size
      → address < 0x8000
      → (i : ℕ) × (read build m address ≡ ok (m.base.rom.cell i)) × (i < m.base.rom.size)
  read-rom_in_range build address known size hi = elim (Bool-cases (ltb address 0x4000)) [
    | inl low ↦ (
      0x4000 * get_zero_bank m + address,
      unfold read in
          ground (arith, read_at-in_range m.base.rom (0x4000 * get_zero_bank m + address), zero),
      ground (arith, zero),
    )
    | inr high ↦ (
      0x4000 * within.0 + (address - 0x4000),
      unfold read in
          ground (
            arith,
            read_at-in_range m.base.rom (0x4000 * within.0 + (address - 0x4000)),
            within.1,
            within.2,
          ),
      ground (arith, within.2),
    )
  ]
    where
      zero : 0x4000 * get_zero_bank m + 0x4000 ≤ m.base.rom.size
      zero = zero_bank_within m.base.header.rom_size refl known size

      within : (bank : ℕ) × (get_high_bank m ≡ ok bank) × (0x4000 * bank + 0x4000 ≤ m.base.rom.size)
      within = high_bank_within m.base.header.rom_size refl known size
