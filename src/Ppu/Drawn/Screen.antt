-- ===== src/Ppu/Drawn/Screen.antt =====
-- The screen behind drawCurrentLine of src/PPU/ppu.cpp: the background and the window, and then the
-- sprites over them.
use gameboy_emulator.Base.{
  ℕ, ◌+◌, ◌-◌, ◌*◌, ◌%◌, ◌≤◌, ◌<◌, ◌≡◌, refl, ◌∙◌, inl, inr, true, false, [], ltb, leb, ◌&&◌,
  Bool-cases, Build, ok, arith,
}
use gameboy_emulator.Bus.Hardware.{read-register}
use gameboy_emulator.Bus.Map.{reg_ly}
use gameboy_emulator.Ppu.{Ppu, reg_scx, reg_wx, reg_bgp}
use gameboy_emulator.Ppu.Drawing.{
  color_loop, compute_color_buffers, pixel_value, flush_line_to_screen_buffer, draw_background,
}
use gameboy_emulator.Ppu.Sprites.{reset_oam_buffer}
use gameboy_emulator.Ppu.Clock.{draw_current_line}
use gameboy_emulator.Ppu.Drawn.{covered, line_color, color_loop_lem, with_pixels, flush_loop_lem}
use gameboy_emulator.Ppu.Drawn.Overlay.{
  apply_palette_lem, KeepsOthers, All, IsOnLine, sprites_drawn, KeepsOthers-trans,
}
use gameboy_emulator.Ppu.Drawn.Line.{
  flag, inside_window, background_dot, window_dot, screen_pixel, inside_lem,
  prepare_background_line_lem, prepare_window_line_lem,
}

pixel_value_lem :
    (build : Build) (q : Ppu) (x : ℕ)
    → x < 160
    → let b = q.bus in
      let ly = b.memory reg_ly in
      ((i : ℕ) → i < 256 → q.background i ≡ background_dot b ly i)
      → (inside_window b x ly ≡ true → (i : ℕ) → i < 256 → q.window i ≡ window_dot b ly i)
      → pixel_value build q x ≡ ok (screen_pixel b ly x)
unfolding pixel_value
pixel_value_lem build q x h background window =
    let b = q.bus in
    let ly = b.memory reg_ly in
    rw (read-register build b reg_ly (omega arith)) (
      rw (inside_lem build b x ly) (elim (Bool-cases (inside_window b x ly)) [
        | inl within ↦
            let small : (x + 7 - b.memory reg_wx) % 256 ≡ x + 7 - b.memory reg_wx = omega arith in
            rw within (
              rw (read-register build b reg_wx (omega arith))
                (rw (window within ((x + 7 - b.memory reg_wx) % 256) (omega arith)) (rw small)))
        | inr out ↦ rw out (
            rw (read-register build b reg_scx (omega arith)) (
              rw (background ((x + b.memory reg_scx) % 256) (omega arith))
                (apply_palette_lem build b reg_bgp _ (omega arith))))
      ]))

-- The state behind the background and the window, with these line buffers.
abbrev drawn : Ppu → (lsb msb wlsb wmsb : ℕ → ℕ) → Ppu
drawn p lsb msb wlsb wmsb = record p {
  background_lsb = lsb;
  background_msb = msb;
  window_lsb = wlsb;
  window_msb = wmsb;
  background = color_loop lsb msb 32 0 p.background;
  window = color_loop wlsb wmsb 32 0 p.window;
  screen =
      with_pixels (p.bus.memory reg_ly) 0 160 (screen_pixel p.bus (p.bus.memory reg_ly)) p.screen;
}

full_color_loop :
    (lsb msb buffer : ℕ → ℕ) (i : ℕ)
    → i < 256
    → color_loop lsb msb 32 0 buffer i ≡ line_color lsb msb i
full_color_loop lsb msb buffer i h =
    let inside : (leb 0 i && ltb i 256) ≡ true = ground arith in
    color_loop_lem lsb msb 32 0 buffer i ∙ rw inside

abbrev pub IsDrawable : Ppu → Type 0
IsDrawable p = ((a : ℕ) → p.bus.memory a < 256) × (160 + p.bus.memory reg_ly * 160 ≤ p.screen.size)

draw_background_lem :
    (build : Build) (p : Ppu)
    → IsDrawable p
    → (lsb msb wlsb wmsb : ℕ → ℕ) × (draw_background build p ≡ ok (drawn p lsb msb wlsb wmsb))
unfolding draw_background compute_color_buffers flush_line_to_screen_buffer
draw_background_lem build p (fits, room) =
    let (lsb, msb, ran, background) = prepare_background_line_lem build p fits in
    let p₁ : Ppu = record p { background_lsb = lsb; background_msb = msb } in
    let (wlsb, wmsb, ran', window) = prepare_window_line_lem build p₁ fits in
    let q : Ppu = compute_color_buffers (record p₁ { window_lsb = wlsb; window_msb = wmsb }) in
    (
      lsb,
      msb,
      wlsb,
      wmsb,
      rw ran (
          rw ran' (
            rw (
              flush_loop_lem build q (p.bus.memory reg_ly) refl
                (screen_pixel p.bus (p.bus.memory reg_ly))
                (λ x h.
                  pixel_value_lem build q x h
                    (λ i k. full_color_loop lsb msb p.background i k ∙ background i k)
                    (λ within i k. full_color_loop wlsb wmsb p.window i k ∙ window x i h within k))
                160 0 p.screen (omega arith) room))),
    )

-- What drawing a line leaves.
pub record Drawn (p q : Ppu) : Type 0 where
  pub bus : q.bus ≡ p.bus
  pub line_clock : q.line_clock ≡ p.line_clock
  pub stat_requested : q.stat_requested ≡ p.stat_requested
  pub frame_count : q.frame_count ≡ p.frame_count
  pub oam_line : q.oam_line ≡ []
  pub screen : KeepsOthers (p.bus.memory reg_ly) p.screen q.screen
  pub pixels :
      flag p.bus 1 ≡ false
      → (x : ℕ) → x < 160
      → q.screen.cell (x + p.bus.memory reg_ly * 160) ≡ screen_pixel p.bus (p.bus.memory reg_ly) x

pub draw_current_line_lem :
    (build : Build) (p : Ppu)
    → IsDrawable p
    → All (IsOnLine (p.bus.memory reg_ly)) p.oam_line
    → (q : Ppu) × (draw_current_line build p ≡ ok q) × Drawn p q
unfolding draw_current_line reset_oam_buffer
draw_current_line_lem build p drawable on =
    let (lsb, msb, wlsb, wmsb, ran) = draw_background_lem build p drawable in
    let p₃ = drawn p lsb msb wlsb wmsb in
    let ly = p.bus.memory reg_ly in
    let (screen, ran', keeps, same) = sprites_drawn build p₃ drawable.0 drawable.1 on in
    (
      record p₃ { screen = screen; oam_line = [] },
      rw ran (rw ran'),
      record {
        bus = refl;
        line_clock = refl;
        stat_requested = refl;
        frame_count = refl;
        oam_line = refl;
        screen =
            KeepsOthers-trans ly p.screen p₃.screen screen
              (record {
                size = refl;
                others = λ j out.
                    let outside : covered (0 + ly * 160) 160 j ≡ false = ground arith in rw outside;
              })
              keeps;
        pixels = λ off x h.
            let inside : covered (0 + ly * 160) 160 (x + ly * 160) ≡ true = ground arith in
            let column : x + ly * 160 - ly * 160 ≡ x = omega arith in
            rw (same off) (rw (inside, column));
      },
    )

-- The drawing of a line whose sprites are off: on a bus of bytes, with room for the line on the screen, and with sprites buffered for this line only, in either build, it returns; each of the 160 pixels of the line is then what the registers and the tiles say of that pixel alone, by `screen_pixel`; and the bus, the counter, the size of the screen and every pixel off the line stay.
pub draw_current_line-pixels :
    (build : Build) (p : Ppu) (x j : ℕ)
    → IsDrawable p
    → All (IsOnLine (p.bus.memory reg_ly)) p.oam_line
    → flag p.bus 1 ≡ false
    → x < 160
    → covered (p.bus.memory reg_ly * 160) 160 j ≡ false
    → (q : Ppu) × (draw_current_line build p ≡ ok q)
      × (q.screen.cell (x + p.bus.memory reg_ly * 160) ≡ screen_pixel p.bus (p.bus.memory reg_ly) x)
      × (q.bus ≡ p.bus)
      × (q.line_clock ≡ p.line_clock)
      × (q.screen.size ≡ p.screen.size)
      × (q.screen.cell j ≡ p.screen.cell j)
draw_current_line-pixels build p x j drawable on off h outside =
    let (q, ran, d) = draw_current_line_lem build p drawable on in
    (q, ran, d.pixels off x h, d.bus, d.line_clock, d.screen.size, d.screen.others j outside)
