-- ===== src/Ppu/Start.antt =====
-- The constructor of src/PPU/ppu.cpp.
use gameboy_emulator.Base.{
  ℕ, ◌+◌, ◌*◌, ◌/◌, ◌%◌, ◌<◌, ◌≡◌, refl, ◌∙◌, Bool, true, false, ltb, ◌==◌, ◌&&◌, Build, ok, arith,
}
use gameboy_emulator.Base.Bytes.{Binary}
use gameboy_emulator.Base.Words.{all_below, all_below_sound}
use gameboy_emulator.Bus.{Bus, Component, poke}
use gameboy_emulator.Bus.Hardware.{read-register, write-stat}
use gameboy_emulator.Bus.Map.{reg_ly, reg_stat}
use gameboy_emulator.Ppu.{Ppu, with_bit, set_stat}
use gameboy_emulator.Ppu.Clock.{h_blank, oam_scan, fresh, make_ppu}
use gameboy_emulator.Ppu.Frame.{IsAt}
use gameboy_emulator.Ppu.Sprites.{reset_oam_buffer}
use gameboy_emulator.Ppu.Modes.{Makes}
use gameboy_emulator.Ppu.Modes.Entering.{mode_number, set_ppu_mode-Ends}

abbrev unused_test : ℕ → Bool
unused_test s = ltb (with_bit 7 true s) 256 && (s / 8 * 8 + with_bit 7 true s % 8 == s)

unused_table : all_below 256 unused_test ≡ true
unfolding all_below with_bit
unused_table = refl

-- Setting bit 7 of STAT by the graphics unit leaves STAT as it was: the bus takes only the three low
-- bits from it.
pub set_stat-unused :
    (build : Build) (b : Bus)
    → b.memory reg_stat < 256
    → set_stat build 7 true b ≡ ok (poke b reg_stat (b.memory reg_stat))
unfolding set_stat
set_stat-unused build b h =
    let s = b.memory reg_stat in
    let t : unused_test s ≡ true = all_below_sound 256 unused_test s unused_table h in
    rw (read-register build b reg_stat (omega arith))
      (write-stat build b (with_bit 7 true s) Component.ppu h (ground arith) (cc) ∙ ground arith)

-- On a bus of bytes with LY 0 and mode 0, as after power on, the constructor returns and the graphics
-- unit stands at the beginning of a frame.
pub make_ppu-IsAt :
    (build : Build) (screen : Binary) (b : Bus)
    → screen.size ≡ 23040
    → ((a : ℕ) → b.memory a < 256)
    → b.memory reg_ly ≡ 0
    → b.memory reg_stat % 4 ≡ 0
    → (p : Ppu) × (make_ppu build screen b ≡ ok p) × IsAt 0 p
unfolding make_ppu reset_oam_buffer
make_ppu-IsAt build screen b size fits line mode =
    let b' = poke b reg_stat (b.memory reg_stat) in
    let made : Makes b b' 0 (mode_number h_blank) false = record {
      line = line;
      mode_bits = mode;
      request = refl;
      fits = λ a. ground (arith, fits a, fits reg_stat);
      others = λ a n1 n2 n3. ground arith;
    } in
    let e = set_ppu_mode-Ends build b (fresh screen b') 0 h_blank oam_scan false made refl in
    (
      record (fresh screen b') { bus = e.bus; stat_requested = e.requested },
      rw (set_stat-unused build b (fits reg_stat)) (rw e.ran),
      record {
        line_register = e.made.line;
        mode_bits = e.made.mode_bits;
        fits = e.made.fits;
        counter = refl;
        screen = size;
        on_line = tt;
        cleared = λ _. refl;
      },
    )
