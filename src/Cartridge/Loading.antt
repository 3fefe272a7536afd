-- ===== src/Cartridge/Loading.antt =====
-- Which files src/Cartridge/cartridge.cpp accepts, and the cartridges that it makes of them.
use gameboy_emulator.Base.{
  ℕ, zero, suc, ◌*◌, ◌^◌, ◌-◌, ◌%◌, ◌≤◌, ◌<◌, ◌≡◌, refl, ◌⊎◌, arith, inl, inr, leb, ◌&&◌, ◌==◌,
  Bool-cases, le→ltb, ok, thrown,
}
use gameboy_emulator.Base.Bytes.{Binary, zeros}
use gameboy_emulator.Cartridge.{
  Cartridge, header_of, parse_header, make_cartridge, ram_bytes, get_mbc,
}

-- A RAM of the size that a code of the header stands for: each code from 1 to 3 four times the one
-- before, from 2 KiB on, and none for any other code; every cell is 0.
pub record IsRamOf (code : ℕ) (ram : Binary) : Type 0 where
  pub sized : 1 ≤ code → code ≤ 3 → ram.size ≡ 0x800 * 4 ^ (code - 1)
  pub none_at_zero : code ≡ 0 → ram.size ≡ 0
  pub none_beyond : 4 ≤ code → ram.size ≡ 0
  pub cleared : (i : ℕ) → ram.cell i ≡ 0

-- The cartridge that a file makes: its cells are the ROM, and the cells from 0x147 to 0x149 say
-- what it is and how large its memories are.
pub record IsLoaded (input : Binary) (c : Cartridge) : Type 0 where
  pub rom_is_file : c.rom ≡ input
  pub type_at : c.header.cartridge_type ≡ input.cell 0x147
  pub rom_size_at : c.header.rom_size ≡ input.cell 0x148
  pub ram_size_at : c.header.ram_size ≡ input.cell 0x149
  pub ram_of_header : IsRamOf (input.cell 0x149) c.ram
  pub same_mbc : get_mbc input ≡ ok c.header.cartridge_type

abbrev pub loaded : Binary → Cartridge
loaded input = record {
  header = header_of input;
  rom = input;
  ram = zeros (ram_bytes (header_of input).ram_size);
}

code_bytes : (code : ℕ) → 1 ≤ code → code ≤ 3 → ram_bytes code ≡ 0x800 * 4 ^ (code - 1)
unfolding ram_bytes
code_bytes zero lo hi = absurd (omega arith)
code_bytes (suc zero) lo hi = refl
code_bytes (suc (suc zero)) lo hi = refl
code_bytes (suc (suc (suc zero))) lo hi = refl
code_bytes (suc (suc (suc (suc n)))) lo hi = absurd (omega arith)

zeros-IsRamOf : (code : ℕ) → IsRamOf code (zeros (ram_bytes code))
unfolding ram_bytes
zeros-IsRamOf code = record {
  sized = λ lo hi. code_bytes code lo hi;
  none_at_zero = λ e. rw e refl;
  none_beyond = λ h. ground arith;
  cleared = λ i. refl;
}

module _ (input : Binary) where
  make_cartridge-valid :
      0x8000 ≤ input.size → input.size % 0x4000 ≡ 0 → make_cartridge input ≡ ok (loaded input)
  unfolding make_cartridge parse_header
  make_cartridge-valid big whole = rw (le→ltb input.size 0x8000 big, whole)

  make_cartridge-invalid :
      (input.size < 0x8000) ⊎ (0 < input.size % 0x4000) → make_cartridge input ≡ thrown
  unfolding make_cartridge parse_header
  make_cartridge-invalid bad = ground arith

  loaded-IsLoaded : 0x8000 ≤ input.size → IsLoaded input (loaded input)
  unfolding get_mbc header_of
  loaded-IsLoaded big = record {
    rom_is_file = refl;
    type_at = refl;
    rom_size_at = refl;
    ram_size_at = refl;
    ram_of_header = zeros-IsRamOf (input.cell 0x149);
    same_mbc = rw (le→ltb input.size 0x8000 big) refl;
  }

-- A file is accepted where it has at least two ROM banks of 16 KiB and only whole ones. Its cells are then the ROM, the header has the cartridge type, the ROM size and the RAM size of the cells 0x147 to 0x149, `getMBC` on the file returns the same type, and the RAM has 2 KiB, 8 KiB or 32 KiB for the size codes 1, 2 and 3, no cell for any other code, and 0 everywhere. Every other file is refused with an exception.
pub make_cartridge_lem :
    (input : Binary)
    → ((0x8000 ≤ input.size)
        × (input.size % 0x4000 ≡ 0)
        × ((c : Cartridge) × (make_cartridge input ≡ ok c) × IsLoaded input c))
      ⊎ (((input.size < 0x8000) ⊎ (0 < input.size % 0x4000)) × (make_cartridge input ≡ thrown))
make_cartridge_lem input = elim (Bool-cases (leb 0x8000 input.size && input.size % 0x4000 == 0)) [
  | inl good ↦
      let big : 0x8000 ≤ input.size = ground arith in
      let whole : input.size % 0x4000 ≡ 0 = ground arith in
      inl (
        big,
        whole,
        (loaded input, make_cartridge-valid input big whole, loaded-IsLoaded input big),
      )
  | inr bad ↦
      let why : (input.size < 0x8000) ⊎ (0 < input.size % 0x4000) = ground arith in
      inr (why, make_cartridge-invalid input why)
]
