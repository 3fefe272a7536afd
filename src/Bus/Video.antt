-- ===== src/Bus/Video.antt =====
-- What the other components cannot write of the graphics unit's registers, in
-- src/AddressBus/address-bus.cpp.
use mathlib.Core.Path.{subst}
use gameboy_emulator.Base.{
  bind-returns, ok-injective, Ensures, Ensures-ok, Ensures-if, Ensures-bind, not, ℕ, zero, suc, ◌+◌,
  ◌*◌, ◌/◌, ◌%◌, ◌≤◌, ◌<◌, ◌≡◌, ◌≢◌, refl, sym, ◌∙◌, inl, inr, Bool-cases, false, leb, ◌==◌,
  if◌then◌else◌, ◌&&◌, Build, ok, arith,
}
use gameboy_emulator.Cartridge.Mbc0.{refers_to_cartridge}
use gameboy_emulator.Bus.Hardware.{write-stat}
use gameboy_emulator.Bus.Map.{reg_sc, reg_sb, reg_dma, reg_stat, reg_ly, reg_div}
use gameboy_emulator.Bus.{
  Component, Bus, poke, is_gb, is_ppu, is_tc, read, dma, mirror, write_cart, write_memory, write,
}

-- LY, and the three low bits of STAT.
pub record SameVideo (b b' : Bus) : Type 0 where
  pub line : b'.memory reg_ly ≡ b.memory reg_ly
  pub low_bits : b'.memory reg_stat % 8 ≡ b.memory reg_stat % 8

poke-SameVideo :
    (o b : Bus) (address value : ℕ)
    → SameVideo o b
    → address ≢ reg_ly
    → address ≢ reg_stat
    → SameVideo o (poke b address value)
poke-SameVideo o b address value h n1 n2 = record {
  line = ground (arith, h.line);
  low_bits = ground (arith, h.low_bits);
}

mirror-SameVideo :
    (o b : Bus) (address value : ℕ)
    → SameVideo o b
    → address ≢ reg_ly
    → address ≢ reg_stat
    → SameVideo o (mirror address value (poke b address value))
unfolding mirror
mirror-SameVideo o b address value h n1 n2 = record {
  line = ground (arith, h.line);
  low_bits = ground (arith, h.low_bits);
}

dma-SameVideo :
    (build : Build) (page left i : ℕ) (o b b' : Bus)
    → SameVideo o b
    → i + left ≤ 0xA0
    → dma build page left i b ≡ ok b'
    → SameVideo o b'
unfolding dma
dma-SameVideo build page zero i o b b' h low e = subst (SameVideo o) (ok-injective e) h
dma-SameVideo build page (suc left) i o b b' h low e =
    let (byte, found, rest) =
      bind-returns (read build b (page * 0x100 + i))
        (λ byte. dma build page left (i + 1) (poke b (0xFE00 + i) byte)) e in
    dma-SameVideo build page left (i + 1) o (poke b (0xFE00 + i) byte) b'
      (poke-SameVideo o b (0xFE00 + i) byte h (omega arith) (omega arith)) (omega arith) rest

write_memory-SameVideo :
    (build : Build) (address value : ℕ) (b : Bus)
    → address ≢ reg_ly
    → address ≢ reg_stat
    → Ensures (SameVideo b) (write_memory build address value b)
unfolding write_memory
write_memory-SameVideo build address value b n1 n2 =
    let same : SameVideo b b = record { line = refl; low_bits = refl } in
    let stored = poke-SameVideo b b address value same n1 n2 in
    Ensures-if (address == reg_sc && value == 0x81)
      (λ serial.
        Ensures-bind (read build (poke b address value) reg_sb)
          λ byte _. Ensures-ok (record { line = stored.line; low_bits = stored.low_bits }))
      λ _.
        Ensures-if (address == reg_dma)
          (λ dma_start.
            Ensures-if (leb 0xE0 value) (λ _. Ensures-ok stored)
              λ _. record {
                at = λ b' e.
                    dma-SameVideo build value 0xA0 0 b (poke b address value) b' stored
                      (omega arith) e;
              })
          λ _. Ensures-ok (mirror-SameVideo b b address value same n1 n2)

write_keeps :
    (build : Build) (address value : ℕ) (whois : Component) (b : Bus)
    → is_gb whois ≡ false
    → is_ppu whois ≡ false
    → (address ≡ reg_stat → ⊥)
    → Ensures (SameVideo b) (write build address value whois b)
unfolding write
write_keeps build address value whois b not_gb not_ppu other =
    let same : SameVideo b b = record { line = refl; low_bits = refl } in
    Ensures-if (is_gb whois) (λ t. cc)
      λ _.
        Ensures-if (refers_to_cartridge address)
          (λ _.
            Ensures-bind (write_cart build b.cart address value)
              λ c _. Ensures-ok (record { line = refl; low_bits = refl }))
          λ _.
            Ensures-if (address == reg_stat) (λ t. absurd (other (ground arith)))
              λ _.
                Ensures-if (address == reg_ly && not (is_ppu whois)) (λ _. Ensures-ok same)
                  λ n.
                    Ensures-if (address == reg_div && not (is_tc whois))
                      (λ t.
                        Ensures-ok
                          (poke-SameVideo b b address 0 same (ground arith) (ground arith)))
                      λ _. write_memory-SameVideo build address value b (ground arith) other

stat_low_bits :
    (build : Build) (value : ℕ) (whois : Component) (b b' : Bus)
    → b.memory reg_stat < 256
    → value < 256
    → is_gb whois ≡ false
    → is_ppu whois ≡ false
    → write build reg_stat value whois b ≡ ok b'
    → SameVideo b b'
stat_low_bits build value whois b b' h k not_gb not_ppu e =
    let old = b.memory reg_stat in
    let new = if is_ppu whois then old / 8 * 8 + value % 8 else value / 8 * 8 + old % 8 in
    subst (SameVideo b) (ok-injective (sym (write-stat build b value whois h k not_gb) ∙ e))
      (record { line = refl; low_bits = ground arith })

-- A write by the processor or the timer of a byte to a bus of bytes that returns changes neither LY nor the low three bits of STAT, which hold the mode and the comparison of LY with LYC: whatever the address, a DMA transfer included.
pub write-SameVideo :
    (build : Build) (address value : ℕ) (whois : Component) (b b' : Bus)
    → b.memory reg_stat < 256
    → value < 256
    → is_gb whois ≡ false
    → is_ppu whois ≡ false
    → write build address value whois b ≡ ok b'
    → SameVideo b b'
write-SameVideo build address value whois b b' h k not_gb not_ppu e =
    elim (Bool-cases (address == reg_stat)) [
      | inl at ↦
          let there : address ≡ reg_stat = ground arith in
          stat_low_bits build value whois b b' h k not_gb not_ppu (rw there at e)
      | inr other ↦
          (write_keeps build address value whois b not_gb not_ppu (λ e'. ground arith)).at b' e
    ]
