-- ===== src/Cpu/Registers.antt =====
-- src/CPU/cpu.hpp and the accessors of src/CPU/cpu.cpp: the registers, the flags, the pairs.
-- `F` is a bitset of which the code only ever sets the bits 7 to 4, so it is four Booleans.
use Prim.Native.Nat.{bit_and}
use gameboy_emulator.Base.{ℕ, ◌+◌, ◌*◌, ◌/◌, ◌%◌, ◌^◌, ◌<◌, ◌≡◌, refl, Bool, false, arith}
use gameboy_emulator.Base.Words.{u16, bit_and_byte}

pub record Flags : Type 0 where
  pub fz : Bool
  pub fn : Bool
  pub fh : Bool
  pub fc : Bool

pub record Registers : Type 0 where
  pub a : ℕ
  pub f : Flags
  pub b : ℕ
  pub c : ℕ
  pub d : ℕ
  pub e : ℕ
  pub h : ℕ
  pub l : ℕ
  pub sp : ℕ
  pub pc : ℕ

-- Every register holds a value of its C++ type.
pub record IsValid (r : Registers) : Type 0 where
  pub a_fits : r.a < 256
  pub b_fits : r.b < 256
  pub c_fits : r.c < 256
  pub d_fits : r.d < 256
  pub e_fits : r.e < 256
  pub h_fits : r.h < 256
  pub l_fits : r.l < 256
  pub sp_fits : r.sp < 65536
  pub pc_fits : r.pc < 65536

unfoldable pub two_word_to_dword : ℕ → ℕ → ℕ
two_word_to_dword msb lsb = u16 (u16 (msb * 2 ^ 8) + lsb)

unfoldable pub dword_lsb : ℕ → ℕ
dword_lsb value = bit_and value 0xFF

unfoldable pub dword_msb : ℕ → ℕ
dword_msb value = bit_and (value / 2 ^ 8) 0xFF

unfoldable pub get_bc : Registers → ℕ
get_bc r = two_word_to_dword r.b r.c

unfoldable pub set_bc : ℕ → Registers → Registers
set_bc value r = record r { b = dword_msb value; c = dword_lsb value }

unfoldable pub get_de : Registers → ℕ
get_de r = two_word_to_dword r.d r.e

unfoldable pub set_de : ℕ → Registers → Registers
set_de value r = record r { d = dword_msb value; e = dword_lsb value }

unfoldable pub get_hl : Registers → ℕ
get_hl r = two_word_to_dword r.h r.l

unfoldable pub set_hl : ℕ → Registers → Registers
set_hl value r = record r { h = dword_msb value; l = dword_lsb value }

unfoldable pub reset : Registers → Registers
reset r = record {
  a = 0x01;
  f = record { fz = false; fn = false; fh = false; fc = false };
  b = 0xFF;
  c = 0x13;
  d = 0x00;
  e = 0xC1;
  h = 0x84;
  l = 0x03;
  pc = 0x0100;
  sp = 0xFFFE;
}

dword_lsb_lem : (v : ℕ) → v < 65536 → dword_lsb v ≡ v % 256
unfolding dword_lsb
dword_lsb_lem v h = bit_and_byte v h

dword_msb_lem : (v : ℕ) → v < 65536 → dword_msb v ≡ v / 256
unfolding dword_msb
dword_msb_lem v h = omega (arith, bit_and_byte (v / 2 ^ 8) (omega arith))

-- Splitting a 16-bit value and joining the halves gives it back.
pub two_word-halves : (v : ℕ) → v < 65536 → two_word_to_dword (dword_msb v) (dword_lsb v) ≡ v
unfolding two_word_to_dword
two_word-halves v h = omega (arith, dword_lsb_lem v h, dword_msb_lem v h)

-- Joining two bytes and splitting the result gives them back.
pub halves-two_word :
    (m l : ℕ)
    → m < 256
    → l < 256
    → (dword_msb (two_word_to_dword m l) ≡ m) × (dword_lsb (two_word_to_dword m l) ≡ l)
unfolding two_word_to_dword
halves-two_word m l hm hl =
    let v : ℕ = u16 (u16 (m * 256) + l) in
    (omega (arith, dword_msb_lem v (omega arith)), omega (arith, dword_lsb_lem v (omega arith)))

-- A register pair that is written reads back as the value written, and the other two pairs keep their values.
pub pairs_roundtrip :
    (v : ℕ) (r : Registers)
    → v < 65536
    → ((get_bc (set_bc v r) ≡ v)
        × (get_de (set_bc v r) ≡ get_de r)
        × (get_hl (set_bc v r) ≡ get_hl r))
      × ((get_de (set_de v r) ≡ v)
          × (get_bc (set_de v r) ≡ get_bc r)
          × (get_hl (set_de v r) ≡ get_hl r))
      × ((get_hl (set_hl v r) ≡ v)
          × (get_bc (set_hl v r) ≡ get_bc r)
          × (get_de (set_hl v r) ≡ get_de r))
unfolding get_bc set_bc get_de set_de get_hl set_hl
pairs_roundtrip v r h = (
  (two_word-halves v h, refl, refl),
  (two_word-halves v h, refl, refl),
  (two_word-halves v h, refl, refl),
)
