-- ===== src/Bus/Echo.antt =====
-- The mirrored work RAM of src/AddressBus/address-bus.cpp.
use mathlib.Core.Path.{subst}
use gameboy_emulator.Base.{
  bind-returns, ok-injective, Ensures, Ensures-ok, Ensures-if, Ensures-bind, not, ℕ, zero, suc, ◌+◌,
  ◌*◌, ◌≤◌, ◌<◌, ◌≡◌, ◌⊎◌, inr, false, leb, ◌==◌, ◌&&◌, Build, ok, arith,
}
use gameboy_emulator.Cartridge.Mbc0.{refers_to_cartridge}
use gameboy_emulator.Bus.Map.{reg_sc, reg_sb, reg_dma, reg_stat, reg_ly, reg_div}
use gameboy_emulator.Bus.{
  Component, Bus, poke, is_gb, is_ppu, is_tc, read, dma, mirror, write_cart, write_memory, write,
}

-- The two copies of the work RAM agree.
pub record IsMirrored (b : Bus) : Type 0 where
  pub same : (a : ℕ) → 0xC000 ≤ a → a < 0xDE00 → b.memory a ≡ b.memory (a + 0x2000)

-- A store outside both copies.
poke-IsMirrored :
    (b : Bus) (address value : ℕ)
    → IsMirrored b
    → (address < 0xC000) ⊎ (0xFE00 ≤ address)
    → IsMirrored (poke b address value)
poke-IsMirrored b address value h out = record { same = λ a lo hi. ground (arith, h.same a lo hi) }

mirror-IsMirrored :
    (b : Bus) (address value : ℕ)
    → IsMirrored b
    → IsMirrored (mirror address value (poke b address value))
unfolding mirror
mirror-IsMirrored b address value h = record { same = λ a lo hi. ground (arith, h.same a lo hi) }

dma-IsMirrored :
    (build : Build) (page left i : ℕ) (b b' : Bus)
    → IsMirrored b
    → dma build page left i b ≡ ok b'
    → IsMirrored b'
unfolding dma
dma-IsMirrored build page zero i b b' h e = subst IsMirrored (ok-injective e) h
dma-IsMirrored build page (suc left) i b b' h e =
    let (byte, found, rest) =
      bind-returns (read build b (page * 0x100 + i))
        (λ byte. dma build page left (i + 1) (poke b (0xFE00 + i) byte)) e in
    dma-IsMirrored build page left (i + 1) (poke b (0xFE00 + i) byte) b'
      (poke-IsMirrored b (0xFE00 + i) byte h (inr (omega arith))) rest

write_memory-IsMirrored :
    (build : Build) (address value : ℕ) (b : Bus)
    → IsMirrored b
    → Ensures IsMirrored (write_memory build address value b)
unfolding write_memory
write_memory-IsMirrored build address value b h =
    Ensures-if (address == reg_sc && value == 0x81)
      (λ serial. Ensures-bind (read build (poke b address value) reg_sb) λ byte _.
        Ensures-ok (record { same = (poke-IsMirrored b address value h (ground arith)).same }))
      λ _.
        Ensures-if (address == reg_dma)
          (λ dma_start.
            let stored = poke-IsMirrored b address value h (ground arith) in
            Ensures-if (leb 0xE0 value) (λ _. Ensures-ok stored)
              λ _. record {
                at = λ b' e. dma-IsMirrored build value 0xA0 0 (poke b address value) b' stored e;
              })
          λ _. Ensures-ok (mirror-IsMirrored b address value h)

write-keeps :
    (build : Build) (address value : ℕ) (whois : Component) (b : Bus)
    → IsMirrored b
    → is_gb whois ≡ false
    → Ensures IsMirrored (write build address value whois b)
unfolding write
write-keeps build address value whois b h not_gb =
    Ensures-if (is_gb whois) (λ t. cc)
      λ _.
        Ensures-if (refers_to_cartridge address)
          (λ _.
            Ensures-bind (write_cart build b.cart address value)
              λ c _. Ensures-ok (record { same = h.same }))
          λ _.
            Ensures-if (address == reg_stat)
              (λ _. Ensures-ok (poke-IsMirrored b reg_stat _ h (inr (omega arith))))
              λ _.
                Ensures-if (address == reg_ly && not (is_ppu whois)) (λ _. Ensures-ok h)
                  λ _.
                    Ensures-if (address == reg_div && not (is_tc whois))
                      (λ t. Ensures-ok (poke-IsMirrored b address 0 h (ground arith)))
                      λ _. write_memory-IsMirrored build address value b h

-- A write by the processor, the graphics unit or the timer that returns keeps the two copies of the work RAM, 0xC000 to 0xDDFF and 0xE000 to 0xFDFF, equal, whatever the address and also when it starts a DMA transfer.
pub write-IsMirrored :
    (build : Build) (address value : ℕ) (whois : Component) (b b' : Bus)
    → IsMirrored b
    → is_gb whois ≡ false
    → write build address value whois b ≡ ok b'
    → IsMirrored b'
write-IsMirrored build address value whois b b' h not_gb e =
    (write-keeps build address value whois b h not_gb).at b' e
