-- ===== src/Ppu/Position.antt =====
-- The positions of src/PPU/ppu.cpp in a frame of 154 lines of 114 cycles, and what a cycle does to
-- the graphics unit at one of them.
use gameboy_emulator.Base.{
  ℕ, ◌+◌, ◌%◌, ◌<◌, ◌≡◌, ◌≢◌, refl, sym, ap, ◌∙◌, true, false, [], ltb, leb, ◌==◌, if◌then◌else◌,
  ◌||◌, ◌&&◌, Build, Outcome, ok, arith,
}
use gameboy_emulator.Bus.Map.{reg_ly, reg_stat, reg_if}
use gameboy_emulator.Ppu.{Ppu}
use gameboy_emulator.Ppu.Clock.{line_end_logic, PpuMode, h_blank, v_blank, oam_scan, drawing, tick}
use gameboy_emulator.Ppu.Drawn.Overlay.{All, IsOnLine}
use gameboy_emulator.Ppu.Lines.{
  line_behind, mode_before, mode_behind, frames_behind, line_end_logic-Ends,
}
use gameboy_emulator.Ppu.Modes.{Makes}
use gameboy_emulator.Ppu.Modes.Entering.{Ends, mode_number}

abbrev pub frame_length : ℕ
frame_length = 17556

abbrev pub mode_in : ℕ → ℕ → PpuMode
mode_in line clock =
    if leb 144 line
    then v_blank
    else if ltb clock 20
    then oam_scan
    else if ltb clock 63
    then drawing
    else h_blank

-- The graphics unit stands at cycle `clock` of line `line`.
pub record StandsAt (line clock : ℕ) (p : Ppu) : Type 0 where
  pub line_register : p.bus.memory reg_ly ≡ line
  pub mode_bits : p.bus.memory reg_stat % 4 ≡ mode_number (mode_in line clock)
  pub fits : (a : ℕ) → p.bus.memory a < 256
  pub counter : p.line_clock ≡ clock
  pub screen : p.screen.size ≡ 23040
  pub on_line : All (IsOnLine line) p.oam_line
  pub cleared : leb 21 clock || leb 144 line ≡ true → p.oam_line ≡ []

-- What a cycle does to a graphics unit at this place.
pub record Advances (line clock : ℕ) (p : Ppu) (m : Outcome Ppu) : Type 0 where
  pub final : Ppu
  pub ran : m ≡ ok final
  pub at :
      StandsAt
        (if clock == 113 then line_behind line else line)
        (if clock == 113 then 0 else clock + 1)
        final
  pub request :
      final.bus.memory reg_if % 2
      ≡ (if clock == 113 && line == 143 then 1 else p.bus.memory reg_if % 2)
  pub frames :
      final.frame_count ≡ (if clock == 113 then frames_behind line p.frame_count else p.frame_count)
  pub others :
      (a : ℕ) → a ≢ reg_ly → a ≢ reg_stat → a ≢ reg_if → final.bus.memory a ≡ p.bus.memory a

pub itself :
    (p : Ppu) (line clock : ℕ)
    → StandsAt line clock p
    → Makes p.bus p.bus line (mode_number (mode_in line clock)) false
itself p line clock s = record {
  line = s.line_register;
  mode_bits = s.mode_bits;
  request = refl;
  fits = s.fits;
  others = λ a n1 n2 n3. refl;
}

module _ (build : Build) (p : Ppu) (line clock : ℕ) (s : StandsAt line clock p)
    (line_low : line < 154) (clock_low : clock < 114) where
  -- A cycle before the last of the line.
  pub inside :
      (m : Outcome Ppu) (q : Ppu)
      → clock < 113
      → m ≡ ok q
      → Makes p.bus q.bus line (mode_number (mode_in line (clock + 1))) false
      → q.line_clock ≡ clock + 1
      → q.screen.size ≡ 23040
      → All (IsOnLine line) q.oam_line
      → (leb 21 (clock + 1) || leb 144 line ≡ true → q.oam_line ≡ [])
      → q.frame_count ≡ p.frame_count
      → Advances line clock p m
  inside m q more ran made counter screen on cleared frames =
      let early : (clock == 113) ≡ false = ground arith in
      record {
        final = q;
        ran = ran;
        at = rw early (record {
          line_register = made.line;
          mode_bits = made.mode_bits;
          fits = made.fits;
          counter = counter;
          screen = screen;
          on_line = on;
          cleared = cleared;
        });
        request = rw early made.request;
        frames = rw early frames;
        others = made.others;
      }

  counted : (tick p).line_clock ≡ clock + 1
  counted = ground (arith, s.counter)

  -- Nothing but the counter changes.
  pub ticked :
      clock < 113
      → mode_in line (clock + 1) ≡ mode_in line clock
      → (leb 21 (clock + 1) || leb 144 line ≡ true → p.oam_line ≡ [])
      → Advances line clock p (ok (tick p))
  ticked more same cleared =
      inside (ok (tick p)) (tick p) more refl (rw same (itself p line clock s)) counted s.screen
        s.on_line cleared refl

  -- The last cycle of the line.
  line_ended :
      (m : Outcome Ppu)
      → clock ≡ 113
      → p.oam_line ≡ []
      → Ends p.bus
          (line_behind line)
          (mode_number (mode_behind line))
          (line == 143 || false)
          (frames_behind line p.frame_count)
          (record p { line_clock = 0 })
          m
      → Advances line clock p m
  line_ended m last empty e =
      let late : (clock == 113) ≡ true = ground arith in
      let mode : mode_in (line_behind line) 0 ≡ mode_behind line = ground arith in
      record {
        final = record p {
          line_clock = 0;
          bus = e.bus;
          stat_requested = e.requested;
          frame_count = frames_behind line p.frame_count;
        };
        ran = e.ran;
        at = rw late (record {
          line_register = e.made.line;
          mode_bits = e.made.mode_bits ∙ ap mode_number (sym mode);
          fits = e.made.fits;
          counter = refl;
          screen = s.screen;
          on_line = rw empty tt;
          cleared = λ _. empty;
        });
        request = e.made.request ∙ ground arith;
        frames = rw late refl;
        others = e.made.others;
      }

  empty_line : leb 21 clock || leb 144 line ≡ true → All (IsOnLine line) p.oam_line
  empty_line h = rw (s.cleared h) tt

  pub line_end :
      clock ≡ 113
      → mode_before line ≡ mode_in line clock
      → leb 21 clock || leb 144 line ≡ true
      → Advances line clock p (line_end_logic build line (tick p))
  line_end last same past =
      let made = itself p line clock s in
      line_ended (line_end_logic build line (tick p)) last (s.cleared past) (
        line_end_logic-Ends build p.bus (tick p) line false (rw same made) line_low
          (counted ∙ omega arith))
