-- ===== src/Bus/Hardware.antt =====
-- The registers of src/AddressBus/address-bus.cpp, as the other components read and write them.
use Prim.Native.Nat.{bit_and, bit_or}
use gameboy_emulator.Base.{
  ℕ, ◌+◌, ◌*◌, ◌/◌, ◌%◌, ◌≤◌, ◌<◌, ◌≡◌, ◌≢◌, refl, Bool, true, false, ◌==◌, if◌then◌else◌, ◌&&◌,
  Build, ok, arith,
}
use gameboy_emulator.Base.Words.{all_below, all_below_sound}
use gameboy_emulator.Cartridge.Mbc0.{refers_to_cartridge}
use gameboy_emulator.Bus.Map.{reg_sc, reg_dma, reg_stat, reg_ly, reg_div}
use gameboy_emulator.Bus.{
  Component, Bus, poke, is_gb, is_ppu, read, mirror, write_stat, write_memory, write,
}

-- A read of a register above the joypad's returns its memory cell.
pub read-register :
    (build : Build) (b : Bus) (a : ℕ) → 0xFF01 ≤ a → read build b a ≡ ok (b.memory a)
unfolding read refers_to_cartridge
read-register build b a lo = ground arith

-- So does a read of the graphics memory, and of the memory of the sprites.
pub read-video :
    (build : Build) (b : Bus) (a : ℕ) → 0x8000 ≤ a → a < 0xA000 → read build b a ≡ ok (b.memory a)
unfolding read refers_to_cartridge
read-video build b a lo hi = ground arith

pub read-oam :
    (build : Build) (b : Bus) (a : ℕ) → 0xFE00 ≤ a → a < 0xFF00 → read build b a ≡ ok (b.memory a)
unfolding read refers_to_cartridge
read-oam build b a lo hi = ground arith

-- A register with no special case stores what is written.
pub write-register :
    (build : Build) (b : Bus) (a value : ℕ) (whois : Component)
    → 0xFF01 ≤ a
    → a ≢ reg_stat
    → a ≢ reg_ly
    → a ≢ reg_sc
    → a ≢ reg_dma
    → a ≢ reg_div
    → is_gb whois ≡ false
    → write build a value whois b ≡ ok (poke b a value)
unfolding write write_memory refers_to_cartridge mirror
write-register build b a value whois lo n1 n2 n3 n4 n5 g = ground arith

pub write-div :
    (build : Build) (b : Bus) (value : ℕ)
    → write build reg_div value Component.tc b ≡ ok (poke b reg_div value)
unfolding write write_memory refers_to_cartridge mirror
write-div build b value = ground arith

abbrev stat_test : ℕ → ℕ → Bool
stat_test old value =
    (bit_or (bit_and old 248) (bit_and value 7) == old / 8 * 8 + value % 8)
    && (bit_or (bit_and old 7) (bit_and value 248) == value / 8 * 8 + old % 8)

abbrev stat_row : ℕ → Bool
stat_row old = all_below 256 (stat_test old)

stat_table : all_below 256 stat_row ≡ true
unfolding all_below
stat_table = refl

stat_bits : (old value : ℕ) → old < 256 → value < 256 → stat_test old value ≡ true
stat_bits old value h k =
    let row : stat_row old ≡ true = all_below_sound 256 stat_row old stat_table h in
    all_below_sound 256 (stat_test old) value row k

-- A write to STAT by the graphics unit changes its three low bits and keeps the other five; a write by the processor or the timer changes the five high bits and keeps the three low ones; it succeeds, and no other cell changes.
pub write-stat :
    (build : Build) (b : Bus) (value : ℕ) (whois : Component)
    → b.memory reg_stat < 256
    → value < 256
    → is_gb whois ≡ false
    → let old = b.memory reg_stat in
      write build reg_stat value whois b
      ≡ ok (
          poke b reg_stat
            (if is_ppu whois then old / 8 * 8 + value % 8 else value / 8 * 8 + old % 8))
unfolding write write_stat refers_to_cartridge
write-stat build b value Component.ppu h k g =
    ground (arith, stat_bits (b.memory reg_stat) value h k)
write-stat build b value _ h k g = ground (arith, stat_bits (b.memory reg_stat) value h k)
