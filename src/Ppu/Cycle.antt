-- ===== src/Ppu/Cycle.antt =====
-- One machine cycle of src/PPU/ppu.cpp, in each of the four modes.
use gameboy_emulator.Base.{
  ℕ, ◌+◌, ◌*◌, ◌<◌, ◌≤◌, ◌≡◌, refl, ◌∙◌, inl, inr, true, false, [], ltb, leb, ◌==◌, ◌||◌, ◌&&◌,
  Bool-cases, Build, ok, assert-true, arith,
}
use gameboy_emulator.Bus.Hardware.{read-register}
use gameboy_emulator.Bus.Map.{reg_ly}
use gameboy_emulator.Ppu.{Ppu}
use gameboy_emulator.Ppu.Clock.{
  draw_current_line, same_mode, PpuMode, h_blank, v_blank, oam_scan, drawing, tick, clock_h_blank,
  clock_v_blank, clock_oam_scan, clock_drawing, machine_clock, set_ppu_mode,
}
use gameboy_emulator.Ppu.Drawn.Overlay.{All, IsOnLine}
use gameboy_emulator.Ppu.Drawn.Screen.{draw_current_line_lem}
use gameboy_emulator.Ppu.Modes.{Makes}
use gameboy_emulator.Ppu.Modes.Entering.{is_v_blank, mode_number, mode_known, set_ppu_mode-Ends}
use gameboy_emulator.Ppu.Scan.{add_sprite_lem}
use gameboy_emulator.Ppu.Position.{mode_in, StandsAt, Advances, itself, inside, ticked, line_end}

module _ (build : Build) (p : Ppu) (line clock : ℕ) (s : StandsAt line clock p)
    (line_low : line < 154) (clock_low : clock < 114) where
  counted : (tick p).line_clock ≡ clock + 1
  counted = ground (arith, s.counter)

  h_blank_cycle : line < 144 → 63 ≤ clock → Advances line clock p (clock_h_blank build p)
  unfolding clock_h_blank
  h_blank_cycle visible drawn =
      let low : leb 63 p.line_clock ≡ true = ground (arith, s.counter) in
      let high : ltb p.line_clock 114 ≡ true = ground (arith, s.counter) in
      let past : leb 21 clock || leb 144 line ≡ true = ground arith in
      rw (assert-true build (leb 63 p.line_clock) low) (
        rw (assert-true build (ltb p.line_clock 114) high)
          (elim (Bool-cases ((tick p).line_clock == 114)) [
            | inl last ↦
                let in_picture : ltb line 144 ≡ true = ground arith in
                rw last (
                  rw (read-register build p.bus reg_ly (omega arith)) (
                    rw s.line_register (
                      rw (assert-true build (ltb line 144) in_picture) (
                        line_end build p line clock s line_low clock_low (ground (arith, counted))
                          (ground arith) past))))
            | inr more ↦ rw more (
                ticked build p line clock s line_low clock_low (ground (arith, counted))
                  (ground arith) (λ _. s.cleared past))
          ]))

  v_blank_cycle : 144 ≤ line → Advances line clock p (clock_v_blank build p)
  unfolding clock_v_blank
  v_blank_cycle below =
      let past : leb 21 clock || leb 144 line ≡ true = ground arith in
      elim (Bool-cases ((tick p).line_clock == 114)) [
        | inl last ↦
            let low : leb 144 line ≡ true = ground arith in
            let high : ltb line 154 ≡ true = ground arith in
            rw last (
              rw (read-register build p.bus reg_ly (omega arith)) (
                rw s.line_register (
                  rw (assert-true build (leb 144 line) low) (
                    rw (assert-true build (ltb line 154) high) (
                      line_end build p line clock s line_low clock_low (ground (arith, counted))
                        (ground arith) past)))))
        | inr more ↦ rw more (
            ticked build p line clock s line_low clock_low (ground (arith, counted)) (ground arith)
              (λ _. s.cleared past))
      ]

  -- A cycle that ends by entering another mode, with these sprites in the buffer.
  mode_entered :
      (from to : PpuMode) (q : Ppu)
      → mode_in line clock ≡ from
      → mode_in line (clock + 1) ≡ to
      → same_mode from to ≡ false
      → is_v_blank to ≡ false
      → q.bus ≡ p.bus
      → q.line_clock ≡ clock + 1
      → q.screen.size ≡ 23040
      → q.frame_count ≡ p.frame_count
      → All (IsOnLine line) q.oam_line
      → (leb 21 (clock + 1) || leb 144 line ≡ true → q.oam_line ≡ [])
      → clock < 113
      → Advances line clock p (set_ppu_mode build to q)
  mode_entered from to q now next differs plain bus counter screen frames on cleared more =
      let made : Makes p.bus q.bus line (mode_number from) false =
        rw bus (rw now at (itself p line clock s)) in
      let e = set_ppu_mode-Ends build p.bus q line from to false made differs in
      let plain' : is_v_blank to || false ≡ false = ground arith in
      let made' : Makes p.bus e.bus line (mode_number (mode_in line (clock + 1))) false =
        rw next (rw plain' at e.made) in
      inside build p line clock s line_low clock_low (set_ppu_mode build to q)
        (record q { bus = e.bus; stat_requested = e.requested }) more e.ran made' counter screen on
        cleared frames

  oam_scan_cycle : line < 144 → clock < 20 → Advances line clock p (clock_oam_scan build p)
  unfolding clock_oam_scan
  oam_scan_cycle visible early =
      let low : ltb p.line_clock 20 ≡ true = ground (arith, s.counter) in
      let on : All (IsOnLine (p.bus.memory reg_ly)) p.oam_line = rw s.line_register s.on_line in
      let (one, ran, on₁) =
        add_sprite_lem build p (p.line_clock * 2) (omega (arith, s.counter)) s.fits on in
      let (both, ran', on₂) =
        add_sprite_lem build (record p { oam_line = one }) (p.line_clock * 2 + 1)
          (omega (arith, s.counter)) s.fits on₁ in
      let q : Ppu = tick (record p { oam_line = both }) in
      let on' : All (IsOnLine line) q.oam_line = rw s.line_register at on₂ in
      let scanned : leb 21 (clock + 1) || leb 144 line ≡ true → q.oam_line ≡ [] =
        λ past. absurd (ground arith) in
      rw (assert-true build (ltb p.line_clock 20) low) (
        rw ran (
          rw ran' (elim (Bool-cases (q.line_clock == 20)) [
            | inl last ↦ rw last (
                mode_entered oam_scan drawing q (ground arith) (ground (arith, counted)) refl refl
                  refl counted s.screen refl on' scanned (omega arith))
            | inr more ↦ rw more (
                inside build p line clock s line_low clock_low (ok q) q (omega arith) refl
                  (let same : mode_in line (clock + 1) ≡ mode_in line clock =
                      ground (arith, counted) in
                    rw same (itself p line clock s))
                  counted s.screen on' scanned refl)
          ])))

  drawing_cycle :
      line < 144 → 20 ≤ clock → clock < 63 → Advances line clock p (clock_drawing build p)
  unfolding clock_drawing
  drawing_cycle visible scanned early =
      let range : leb 20 p.line_clock && ltb p.line_clock 63 ≡ true = ground (arith, s.counter) in
      rw (assert-true build (leb 20 p.line_clock && ltb p.line_clock 63) range)
        (elim (Bool-cases ((tick p).line_clock == 63)) [
          | inl last ↦
              let past : leb 21 clock || leb 144 line ≡ true = ground (arith, counted) in
              rw last (
                mode_entered drawing h_blank (tick p) (ground arith) (ground (arith, counted)) refl
                  refl refl counted s.screen refl s.on_line (λ _. s.cleared past)
                  (ground (arith, counted)))
          | inr more ↦
              let same : mode_in line (clock + 1) ≡ mode_in line clock = ground (arith, counted) in
              elim (Bool-cases ((tick p).line_clock == 21)) [
                | inl first ↦
                    let on : All (IsOnLine (p.bus.memory reg_ly)) p.oam_line =
                      rw s.line_register s.on_line in
                    let room : 160 + p.bus.memory reg_ly * 160 ≤ p.screen.size =
                      omega (arith, s.screen, s.line_register) in
                    let (q, ran, drawn) = draw_current_line_lem build (tick p) (s.fits, room) on in
                    rw more (
                      rw first (
                        inside build p line clock s line_low clock_low
                          (draw_current_line build (tick p)) q (omega arith) ran
                          (rw (drawn.bus, same) (itself p line clock s))
                          (drawn.line_clock ∙ counted) (drawn.screen.size ∙ s.screen)
                          (rw drawn.oam_line tt) (λ _. drawn.oam_line) drawn.frame_count))
                | inr later ↦ rw more (
                    rw later (
                      ticked build p line clock s line_low clock_low (omega arith) same
                        (λ _. s.cleared (ground (arith, counted)))))
              ]
        ])

  pub cycle_lem : Advances line clock p (machine_clock build p)
  unfolding machine_clock
  cycle_lem =
      rw (mode_known build p.bus (mode_in line clock) s.mode_bits)
        (elim (Bool-cases (leb 144 line)) [
          | inl below ↦
              let now : mode_in line clock ≡ v_blank = ground arith in
              rw now (v_blank_cycle (ground arith))
          | inr visible ↦ elim (Bool-cases (ltb clock 20)) [
            | inl scan ↦
                let now : mode_in line clock ≡ oam_scan = ground arith in
                rw now (oam_scan_cycle (ground arith) (ground arith))
            | inr scanned ↦ elim (Bool-cases (ltb clock 63)) [
              | inl draw ↦
                  let now : mode_in line clock ≡ drawing = ground arith in
                  rw now (drawing_cycle (ground arith) (ground arith) (ground arith))
              | inr drawn ↦
                  let now : mode_in line clock ≡ h_blank = ground arith in
                  rw now (h_blank_cycle (ground arith) (ground arith))
            ]
          ]
        ])
