-- ===== src/Ppu/Clock.antt =====
-- The state machine of src/PPU/ppu.cpp: getPPUMode, setPPUMode, tryRequestSTATInterrupt,
-- lineEndLogic, drawCurrentLine, the constructor and machineClock.
use gameboy_emulator.Base.{
  ℕ, ◌+◌, ◌*◌, ◌%◌, ◌^◌, Bool, true, false, [], ltb, leb, ◌==◌, if◌then◌else◌, not, ◌&&◌, ◌||◌,
  Build, Outcome, ok, ◌>>=◌, ◌>>◌, assert,
}
use gameboy_emulator.Base.Bytes.{Binary}
use gameboy_emulator.Base.Words.{u8}
use gameboy_emulator.Bus.{Bus, read}
use gameboy_emulator.Bus.Map.{reg_ly}
use gameboy_emulator.Interrupts.{request_interrupt}
use gameboy_emulator.Ppu.{Ppu, reg_lyc, stat, set_stat, set_ly}
use gameboy_emulator.Ppu.Drawing.{draw_background}
use gameboy_emulator.Ppu.Sprites.{
  add_sprite_to_buffer_if_needed, reset_oam_buffer, compute_and_flush_sprites_to_screen_buffer,
}

pub data PpuMode : Type 0 where
  h_blank v_blank oam_scan drawing : PpuMode

abbrev pub interrupt_vblank : ℕ
interrupt_vblank = 0

abbrev pub interrupt_stat : ℕ
interrupt_stat = 1

-- `static_cast<PPU_MODE>(msb << 1 | lsb)`.
abbrev pub mode_of : Bool → Bool → PpuMode
mode_of false false = h_blank
mode_of false true = v_blank
mode_of true false = oam_scan
mode_of true true = drawing

abbrev pub same_mode : PpuMode → PpuMode → Bool
same_mode h_blank h_blank = true
same_mode v_blank v_blank = true
same_mode oam_scan oam_scan = true
same_mode drawing drawing = true
same_mode _ _ = false

unfoldable pub get_ppu_mode : Build → Bus → Outcome PpuMode
get_ppu_mode build b = do msb ← stat build b 1; lsb ← stat build b 0; ok (mode_of msb lsb)

abbrev pub with_bus : Bus → Ppu → Ppu
with_bus b p = record p { bus = b }

unfoldable pub try_request_stat_interrupt : Build → Ppu → Outcome Ppu
try_request_stat_interrupt build p = if p.stat_requested then ok p else (do
  b ← request_interrupt build interrupt_stat p.bus
  ok (record p { bus = b; stat_requested = true }))

-- A STAT interrupt, if bit `enable` of STAT is set.
unfoldable pub request_if_enabled : Build → ℕ → Ppu → Outcome Ppu
request_if_enabled build enable p = do
  enabled ← stat build p.bus enable
  if enabled then try_request_stat_interrupt build p else ok p

-- The assertion and the two writes with which every case begins.
unfoldable pub enter_mode : Build → PpuMode → (msb lsb : Bool) → Ppu → Outcome Ppu
enter_mode build mode msb lsb p = do
  current ← get_ppu_mode build p.bus
  assert build (not (same_mode current mode))
  b₁ ← set_stat build 1 msb p.bus
  b₂ ← set_stat build 0 lsb b₁
  ok (with_bus b₂ p)

unfoldable pub set_ppu_mode : Build → PpuMode → Ppu → Outcome Ppu
set_ppu_mode build h_blank p = do
  p₁ ← enter_mode build h_blank false false p
  request_if_enabled build 3 p₁
set_ppu_mode build v_blank p = do
  p₁ ← enter_mode build v_blank false true p
  p₂ ← request_if_enabled build 4 p₁
  b ← request_interrupt build interrupt_vblank p₂.bus
  ok (with_bus b p₂)
set_ppu_mode build oam_scan p = do
  p₁ ← enter_mode build oam_scan true false p
  request_if_enabled build 5 p₁
set_ppu_mode build drawing p = enter_mode build drawing true true p

-- The `switch` of `lineEndLogic`.
unfoldable pub next_line : Build → ℕ → Ppu → Outcome Ppu
next_line build ly p = do
  mode ← get_ppu_mode build p.bus
  if ly == 153
      then (do
        assert build (same_mode mode v_blank)
        b ← set_ly build 0 p.bus
        p' ← set_ppu_mode build oam_scan (with_bus b p)
        ok (record p' { frame_count = (p'.frame_count + 1) % 2 ^ 64 }))
      else if ly == 143
      then (do
        assert build (same_mode mode h_blank)
        b ← set_ly build (ly + 1) p.bus
        set_ppu_mode build v_blank (with_bus b p))
      else (do
        assert build (same_mode mode h_blank || same_mode mode v_blank)
        b ← set_ly build (u8 (ly + 1)) p.bus
        if same_mode mode h_blank
            then set_ppu_mode build oam_scan (with_bus b p)
            else ok (with_bus b p))

-- What follows the `switch`: the comparison of LY with LYC.
unfoldable pub compare_line : Build → Ppu → Outcome Ppu
compare_line build p = do
  lyc ← read build p.bus reg_lyc
  ly ← read build p.bus reg_ly
  enabled ← stat build p.bus 6
  if ly == lyc && enabled
      then (do
        p' ← try_request_stat_interrupt build p
        b ← set_stat build 2 true p'.bus
        ok (with_bus b p'))
      else (do b ← set_stat build 2 false p.bus; ok (record p { bus = b; stat_requested = false }))

unfoldable pub line_end_logic : Build → ℕ → Ppu → Outcome Ppu
line_end_logic build ly p = do
  assert build (ltb ly 154)
  assert build (p.line_clock == 114)
  p' ← next_line build ly (record p { line_clock = 0 })
  compare_line build p'

unfoldable pub draw_current_line : Build → Ppu → Outcome Ppu
draw_current_line build p = do
  p₁ ← draw_background build p
  p₂ ← compute_and_flush_sprites_to_screen_buffer build p₁
  ok (reset_oam_buffer p₂)

abbrev pub tick : Ppu → Ppu
tick p = record p { line_clock = u8 (p.line_clock + 1) }

-- The four cases of `machineClock`.
unfoldable pub clock_h_blank : Build → Ppu → Outcome Ppu
clock_h_blank build p = do
  assert build (leb 63 p.line_clock)
  assert build (ltb p.line_clock 114)
  if not ((tick p).line_clock == 114) then ok (tick p) else (do
    ly ← read build p.bus reg_ly
    assert build (ltb ly 144)
    line_end_logic build ly (tick p))

unfoldable pub clock_v_blank : Build → Ppu → Outcome Ppu
clock_v_blank build p = if not ((tick p).line_clock == 114) then ok (tick p) else (do
  ly ← read build p.bus reg_ly
  assert build (leb 144 ly)
  assert build (ltb ly 154)
  line_end_logic build ly (tick p))

unfoldable pub clock_oam_scan : Build → Ppu → Outcome Ppu
clock_oam_scan build p = do
  assert build (ltb p.line_clock 20)
  p₁ ← add_sprite_to_buffer_if_needed build (p.line_clock * 2) p
  p₂ ← add_sprite_to_buffer_if_needed build (p.line_clock * 2 + 1) p₁
  if not ((tick p₂).line_clock == 20) then ok (tick p₂) else set_ppu_mode build drawing (tick p₂)

unfoldable pub clock_drawing : Build → Ppu → Outcome Ppu
clock_drawing build p = do
  assert build (leb 20 p.line_clock && ltb p.line_clock 63)
  if (tick p).line_clock == 63
      then set_ppu_mode build h_blank (tick p)
      else if (tick p).line_clock == 21
      then draw_current_line build (tick p)
      else ok (tick p)

unfoldable pub machine_clock : Build → Ppu → Outcome Ppu
machine_clock build p = do
  mode ← get_ppu_mode build p.bus
  elim mode [
    | h_blank ↦ clock_h_blank build p
    | v_blank ↦ clock_v_blank build p
    | oam_scan ↦ clock_oam_scan build p
    | drawing ↦ clock_drawing build p
  ]

-- The initial values of the members.
abbrev pub fresh : Binary → Bus → Ppu
fresh screen b = record {
  bus = b;
  screen = screen;
  line_clock = 0;
  stat_requested = false;
  background_lsb = λ i. 0;
  background_msb = λ i. 0;
  window_lsb = λ i. 0;
  window_msb = λ i. 0;
  background = λ i. 0;
  window = λ i. 0;
  oam_line = [];
  frame_count = 0;
}

-- The constructor, on the bus and the screen of the Gameboy object.
unfoldable pub make_ppu : Build → Binary → Bus → Outcome Ppu
make_ppu build screen b = do
  b' ← set_stat build 7 true b
  p ← set_ppu_mode build oam_scan (fresh screen b')
  ok (reset_oam_buffer p)
