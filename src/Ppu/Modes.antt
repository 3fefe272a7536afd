-- ===== src/Ppu/Modes.antt =====
-- What setPPUMode and the other writes of src/PPU/ppu.cpp make of the bus: LY, the mode in STAT and
-- the request for the V-blank interrupt.
pub mod Entering
use Prim.Native.Nat.{bit_and, bit_or}
use gameboy_emulator.Base.{
  ℕ, zero, suc, ◌+◌, ◌-◌, ◌*◌, ◌/◌, ◌%◌, ◌^◌, ◌<◌, ◌≡◌, ◌≢◌, refl, ap, ◌∙◌, ◌⊎◌, inl, inr, Bool,
  true, false, ltb, ◌==◌, if◌then◌else◌, ◌&&◌, ◌||◌, not, Bool-cases, Build, Outcome, ok, ◌>>=◌,
  assert-true, arith,
}
use gameboy_emulator.Base.Words.{bit, all_below, all_below_sound}
use gameboy_emulator.Bus.{Bus, Component, poke, read, write, write_memory, mirror}
use gameboy_emulator.Bus.Hardware.{read-register, write-stat}
use gameboy_emulator.Bus.Map.{reg_ly, reg_stat, reg_if}
use gameboy_emulator.Cartridge.Mbc0.{refers_to_cartridge}
use gameboy_emulator.Interrupts.{request_interrupt}
use gameboy_emulator.Interrupts.Laws.{request_interrupt_lem}
use gameboy_emulator.Ppu.{Ppu, bit_at, with_bit, stat, set_stat, set_ly}
use gameboy_emulator.Ppu.Clock.{
  PpuMode, h_blank, v_blank, oam_scan, drawing, mode_of, same_mode, get_ppu_mode, with_bus,
  try_request_stat_interrupt, request_if_enabled, enter_mode, set_ppu_mode,
}

-- STAT with a flag set or cleared.
abbrev changed : ℕ → Bool → ℕ → ℕ
changed flag value s = s - s / 2 ^ flag % 2 * 2 ^ flag + bit value * 2 ^ flag

abbrev changed_test : ℕ → Bool → ℕ → Bool
changed_test flag value s =
    ltb (with_bit flag value s) 256
    && (s / 8 * 8 + with_bit flag value s % 8 == changed flag value s)

abbrev changed_tests : ℕ → Bool
changed_tests s =
    (changed_test 0 false s && changed_test 0 true s)
    && (changed_test 1 false s && changed_test 1 true s)
    && (changed_test 2 false s && changed_test 2 true s)

changed_table : all_below 256 changed_tests ≡ true
unfolding all_below with_bit
changed_table = refl

changed_sound :
    (flag : ℕ) (value : Bool) (s : ℕ) → flag < 3 → s < 256 → changed_test flag value s ≡ true
changed_sound flag value s h k =
    let t : changed_tests s ≡ true = all_below_sound 256 changed_tests s changed_table k in
    by_flag flag value h t
  where
    by_flag :
        (flag : ℕ) (value : Bool)
        → flag < 3
        → changed_tests s ≡ true
        → changed_test flag value s ≡ true
    by_flag zero false h t = ground arith
    by_flag zero true h t = ground arith
    by_flag (suc zero) false h t = ground arith
    by_flag (suc zero) true h t = ground arith
    by_flag (suc (suc zero)) false h t = ground arith
    by_flag (suc (suc zero)) true h t = ground arith
    by_flag (suc (suc (suc n))) value h t = absurd (omega arith)

set_stat_lem :
    (build : Build) (flag : ℕ) (value : Bool) (b : Bus)
    → flag < 3
    → b.memory reg_stat < 256
    → set_stat build flag value b ≡ ok (poke b reg_stat (changed flag value (b.memory reg_stat)))
unfolding set_stat
set_stat_lem build flag value b h k =
    let t = changed_sound flag value (b.memory reg_stat) h k in
    rw (read-register build b reg_stat (omega arith)) (
      write-stat build b (with_bit flag value (b.memory reg_stat)) Component.ppu k (ground arith)
        (cc)
      ∙ ground arith)

pub set_ly_lem :
    (build : Build) (value : ℕ) (b : Bus) → set_ly build value b ≡ ok (poke b reg_ly value)
unfolding set_ly write write_memory refers_to_cartridge mirror
set_ly_lem build value b = ground arith

pub get_ppu_mode_lem :
    (build : Build) (b : Bus)
    → let s = b.memory reg_stat in get_ppu_mode build b ≡ ok (mode_of (bit_at s 1) (bit_at s 0))
unfolding get_ppu_mode stat
get_ppu_mode_lem build b = rw (read-register build b reg_stat (omega arith))

-- A bus that the graphics unit has made of another one: the line, the mode's number in STAT,
-- and whether the V-blank interrupt was requested in between. No other cell but the two registers
-- and the interrupt flags differs.
pub record Makes (origin b : Bus) (ly mode : ℕ) (vblank : Bool) : Type 0 where
  pub line : b.memory reg_ly ≡ ly
  pub mode_bits : b.memory reg_stat % 4 ≡ mode
  pub request : b.memory reg_if % 2 ≡ (if vblank then 1 else origin.memory reg_if % 2)
  pub fits : (a : ℕ) → b.memory a < 256
  pub others : (a : ℕ) → a ≢ reg_ly → a ≢ reg_stat → a ≢ reg_if → b.memory a ≡ origin.memory a

abbrev if_test : ℕ → Bool
if_test f =
    let v = bit_or (bit_and f 31) 1 in
    let s = bit_or (bit_and f 31) 2 in
    (ltb v 256 && (v % 2 == 1)) && (ltb s 256 && (s % 2 == f % 2))

if_table : all_below 256 if_test ≡ true
unfolding all_below
if_table = refl

module _ (build : Build) (origin b : Bus) (ly mode : ℕ) (vblank : Bool)
    (made : Makes origin b ly mode vblank) where
  pub set_ly-Makes :
      (value : ℕ) → value < 256 → Makes origin (poke b reg_ly value) value mode vblank
  set_ly-Makes value h = record {
    line = refl;
    mode_bits = made.mode_bits;
    request = made.request;
    fits = λ a. ground (arith, made.fits a);
    others = λ a n1 n2 n3. ground (arith, made.others a n1 n2 n3);
  }

  pub request_vblank-Makes :
      (b' : Bus) × (request_interrupt build 0 b ≡ ok b') × Makes origin b' ly mode true
  request_vblank-Makes =
      let t : if_test (b.memory reg_if) ≡ true =
        all_below_sound 256 if_test (b.memory reg_if) if_table (made.fits reg_if) in
      (
        poke b reg_if (bit_or (bit_and (b.memory reg_if) 31) 1),
        request_interrupt_lem build 0 b,
        record {
          line = made.line;
          mode_bits = made.mode_bits;
          request = ground arith;
          fits = λ a. ground (arith, made.fits a);
          others = λ a n1 n2 n3. ground (arith, made.others a n1 n2 n3);
        },
      )

  pub request_stat-Makes :
      (b' : Bus) × (request_interrupt build 1 b ≡ ok b') × Makes origin b' ly mode vblank
  request_stat-Makes =
      let t : if_test (b.memory reg_if) ≡ true =
        all_below_sound 256 if_test (b.memory reg_if) if_table (made.fits reg_if) in
      (
        poke b reg_if (bit_or (bit_and (b.memory reg_if) 31) 2),
        request_interrupt_lem build 1 b,
        record {
          line = made.line;
          mode_bits = made.mode_bits;
          request = ground (arith, made.request);
          fits = λ a. ground (arith, made.fits a);
          others = λ a n1 n2 n3. ground (arith, made.others a n1 n2 n3);
        },
      )

  -- Bit 2 of STAT.
  pub set_comparison-Makes :
      (value : Bool)
      → (b' : Bus) × (set_stat build 2 value b ≡ ok b') × Makes origin b' ly mode vblank
  set_comparison-Makes value = (
    poke b reg_stat (changed 2 value (b.memory reg_stat)),
    set_stat_lem build 2 value b (omega arith) (made.fits reg_stat),
    record {
      line = made.line;
      mode_bits = low_bits value;
      request = made.request;
      fits = λ a. ground (arith, made.fits a, made.fits reg_stat, changed-lt value);
      others = λ a n1 n2 n3. ground (arith, made.others a n1 n2 n3);
    },
  )
    where
      low_bits : (v : Bool) → changed 2 v (b.memory reg_stat) % 4 ≡ mode
      low_bits true = omega (arith, made.mode_bits)
      low_bits false = omega (arith, made.mode_bits)

      changed-lt : (v : Bool) → changed 2 v (b.memory reg_stat) < 256
      changed-lt true = omega (arith, made.fits reg_stat)
      changed-lt false = omega (arith, made.fits reg_stat)

  -- The two writes of a mode.
  pub set_mode-Makes :
      (msb lsb : Bool)
      → (b₁ b₂ : Bus) × (set_stat build 1 msb b ≡ ok b₁)
        × (set_stat build 0 lsb b₁ ≡ ok b₂)
        × Makes origin b₂ ly (2 * bit msb + bit lsb) vblank
  set_mode-Makes msb lsb =
      let b₁ = poke b reg_stat (changed 1 msb (b.memory reg_stat)) in
      (
        b₁,
        poke b₁ reg_stat (changed 0 lsb (changed 1 msb (b.memory reg_stat))),
        set_stat_lem build 1 msb b (omega arith) (made.fits reg_stat),
        set_stat_lem build 0 lsb b₁ (omega arith) (small msb),
        record {
          line = made.line;
          mode_bits = low_bits msb lsb;
          request = made.request;
          fits = λ a. ground (arith, made.fits a, small_both msb lsb);
          others = λ a n1 n2 n3. ground (arith, made.others a n1 n2 n3);
        },
      )
    where
      small : (v : Bool) → changed 1 v (b.memory reg_stat) < 256
      small true = omega (arith, made.fits reg_stat)
      small false = omega (arith, made.fits reg_stat)

      small_both : (v w : Bool) → changed 0 w (changed 1 v (b.memory reg_stat)) < 256
      small_both v true = omega (arith, small v)
      small_both v false = omega (arith, small v)

      low_bits :
          (v w : Bool) → changed 0 w (changed 1 v (b.memory reg_stat)) % 4 ≡ 2 * bit v + bit w
      low_bits true true = omega arith
      low_bits true false = omega arith
      low_bits false true = omega arith
      low_bits false false = omega arith
