-- ===== src/Ppu/Lines.antt =====
-- The end of a line: lineEndLogic of src/PPU/ppu.cpp.
use gameboy_emulator.Base.{
  ℕ, ◌+◌, ◌%◌, ◌^◌, ◌<◌, ◌≡◌, refl, inl, inr, Bool, true, false, ltb, leb, ◌==◌, if◌then◌else◌,
  ◌&&◌, ◌||◌, Bool-cases, Build, ok, assert, assert-true, arith,
}
use gameboy_emulator.Base.Words.{u8}
use gameboy_emulator.Bus.{Bus, poke}
use gameboy_emulator.Bus.Hardware.{read-register}
use gameboy_emulator.Bus.Map.{reg_ly, reg_stat}
use gameboy_emulator.Ppu.{Ppu, bit_at, reg_lyc, stat}
use gameboy_emulator.Ppu.Clock.{
  PpuMode, h_blank, v_blank, oam_scan, same_mode, with_bus, set_ppu_mode, next_line, compare_line,
  line_end_logic,
}
use gameboy_emulator.Ppu.Modes.{Makes, set_ly_lem, set_ly-Makes, set_comparison-Makes}
use gameboy_emulator.Ppu.Modes.Entering.{
  is_v_blank, Ends, mode_number, mode_known, after, state_of, try_request-Ends, set_ppu_mode-Ends,
}

compare_line-Ends :
    (build : Build) (origin : Bus) (p : Ppu) (ly mode : ℕ) (vblank : Bool)
    → Makes origin p.bus ly mode vblank
    → Ends origin ly mode vblank p.frame_count p (compare_line build p)
unfolding compare_line stat
compare_line-Ends build origin p ly mode vblank made =
    let lyc = p.bus.memory reg_lyc in
    let now = p.bus.memory reg_ly in
    rw (read-register build p.bus reg_lyc (omega arith)) (
      rw (read-register build p.bus reg_ly (omega arith)) (
        rw (read-register build p.bus reg_stat (omega arith))
          (elim (Bool-cases (now == lyc && bit_at (p.bus.memory reg_stat) 6)) [
            | inl equal ↦
                let e = try_request-Ends build origin p ly mode vblank made in
                let (b', ran, made') =
                  set_comparison-Makes build origin e.bus ly mode vblank e.made true in
                rw equal (
                  after p _ _ e
                    (record { bus = b'; requested = e.requested; ran = rw ran; made = made' }))
            | inr other ↦
                let (b', ran, made') =
                  set_comparison-Makes build origin p.bus ly mode vblank made false in
                rw other (record { bus = b'; requested = false; ran = rw ran; made = made' })
          ])))

-- The line and the mode that follow the end of line `ly`.
abbrev pub line_behind : ℕ → ℕ
line_behind ly = if ly == 153 then 0 else ly + 1

abbrev pub mode_before : ℕ → PpuMode
mode_before ly = if ltb ly 144 then h_blank else v_blank

abbrev pub mode_behind : ℕ → PpuMode
mode_behind ly = if leb 143 ly && ltb ly 153 then v_blank else oam_scan

abbrev pub frames_behind : ℕ → ℕ → ℕ
frames_behind ly n = if ly == 153 then (n + 1) % 2 ^ 64 else n

module _ (build : Build) (origin : Bus) (p : Ppu) (ly : ℕ) (vblank : Bool)
    (made : Makes origin p.bus ly (mode_number (mode_before ly)) vblank) (small : ly < 154) where
  abbrev moved : ℕ → Ppu
  moved value = with_bus (poke p.bus reg_ly value) p

  line_moved :
      (value : ℕ)
      → value < 256
      → Makes origin (poke p.bus reg_ly value) value (mode_number (mode_before ly)) vblank
  line_moved value h =
      set_ly-Makes build origin p.bus ly (mode_number (mode_before ly)) vblank made value h

  -- LY is written, and another mode is entered.
  entered :
      (value : ℕ) (to : PpuMode)
      → value < 256
      → same_mode (mode_before ly) to ≡ false
      → Ends origin value
          (mode_number to)
          (is_v_blank to || vblank)
          p.frame_count
          (moved value)
          (set_ppu_mode build to (moved value))
  entered value to h differs =
      set_ppu_mode-Ends build origin (moved value) value (mode_before ly) to vblank
        (line_moved value h) differs

  abbrev NextLine : Type 0
  NextLine =
      Ends origin (line_behind ly) (mode_number (mode_behind ly)) (ly == 143 || vblank)
        (frames_behind ly p.frame_count) p (next_line build ly p)

  asserted : assert build true ≡ ok tt
  asserted = assert-true build true refl

  last_line : (ly == 153) ≡ true → NextLine
  unfolding next_line
  last_line last =
      let before : mode_before ly ≡ v_blank = ground arith in
      let behind : mode_behind ly ≡ oam_scan = ground arith in
      let early : (ly == 143) ≡ false = ground arith in
      let e = entered 0 oam_scan (omega arith) (rw before) in
      rw
        (
          mode_known build p.bus (mode_before ly) made.mode_bits,
          last,
          before,
          behind,
          early,
          asserted,
          set_ly_lem build 0 p.bus,
        )
        (record { bus = e.bus; requested = e.requested; ran = rw e.ran; made = e.made })

  vblank_line : (ly == 143) ≡ true → NextLine
  unfolding next_line
  vblank_line at =
      let more : (ly == 153) ≡ false = ground arith in
      let before : mode_before ly ≡ h_blank = ground arith in
      let behind : mode_behind ly ≡ v_blank = ground arith in
      let e = entered (ly + 1) v_blank (omega arith) (rw before) in
      rw
        (
          mode_known build p.bus (mode_before ly) made.mode_bits,
          more,
          at,
          before,
          behind,
          asserted,
          set_ly_lem build (ly + 1) p.bus,
        )
        (record { bus = e.bus; requested = e.requested; ran = e.ran; made = e.made })

  visible_line : ltb ly 143 ≡ true → NextLine
  unfolding next_line
  visible_line visible =
      let more : (ly == 153) ≡ false = ground arith in
      let between : (ly == 143) ≡ false = ground arith in
      let wrapped : u8 (ly + 1) ≡ ly + 1 = ground arith in
      let before : mode_before ly ≡ h_blank = ground arith in
      let behind : mode_behind ly ≡ oam_scan = ground arith in
      let e = entered (ly + 1) oam_scan (omega arith) (rw before) in
      rw
        (
          mode_known build p.bus (mode_before ly) made.mode_bits,
          more,
          between,
          before,
          behind,
          asserted,
          wrapped,
          set_ly_lem build (ly + 1) p.bus,
        )
        (record { bus = e.bus; requested = e.requested; ran = e.ran; made = e.made })

  blank_line : (leb 144 ly && ltb ly 153) ≡ true → NextLine
  unfolding next_line
  blank_line below =
      let more : (ly == 153) ≡ false = ground arith in
      let between : (ly == 143) ≡ false = ground arith in
      let wrapped : u8 (ly + 1) ≡ ly + 1 = ground arith in
      let before : mode_before ly ≡ v_blank = ground arith in
      let behind : mode_behind ly ≡ v_blank = ground arith in
      rw
        (
          mode_known build p.bus (mode_before ly) made.mode_bits,
          more,
          between,
          before,
          behind,
          asserted,
          wrapped,
          set_ly_lem build (ly + 1) p.bus,
        )
        (record {
          bus = poke p.bus reg_ly (ly + 1);
          requested = p.stat_requested;
          ran = refl;
          made = rw before at (line_moved (ly + 1) (omega arith));
        })

  next_line-Ends : NextLine
  next_line-Ends = elim (Bool-cases (ly == 153)) [
    | inl last ↦ last_line last
    | inr more ↦ elim (Bool-cases (ly == 143)) [
      | inl at ↦ vblank_line at
      | inr between ↦ elim (Bool-cases (ltb ly 143)) [
        | inl visible ↦ visible_line visible
        | inr below ↦ blank_line (ground arith)
      ]
    ]
  ]

-- The end of a line: LY and the mode go on, the V-blank interrupt is requested at the end of line
-- 143 alone, and the frames are counted at the end of line 153.
pub line_end_logic-Ends :
    (build : Build) (origin : Bus) (p : Ppu) (ly : ℕ) (vblank : Bool)
    → Makes origin p.bus ly (mode_number (mode_before ly)) vblank
    → ly < 154
    → p.line_clock ≡ 114
    → Ends origin
        (line_behind ly)
        (mode_number (mode_behind ly))
        (ly == 143 || vblank)
        (frames_behind ly p.frame_count)
        (record p { line_clock = 0 })
        (line_end_logic build ly p)
unfolding line_end_logic
line_end_logic-Ends build origin p ly vblank made small full =
    let p₀ : Ppu = record p { line_clock = 0 } in
    let low : ltb ly 154 ≡ true = ground arith in
    let at_end : (p.line_clock == 114) ≡ true = ground arith in
    let e = next_line-Ends build origin p₀ ly vblank made small in
    rw (assert-true build (ltb ly 154) low) (
      rw (assert-true build (p.line_clock == 114) at_end) (
        after p₀ _ _ e (
          compare_line-Ends build origin (state_of e) (line_behind ly)
            (mode_number (mode_behind ly)) (ly == 143 || vblank) e.made)))
