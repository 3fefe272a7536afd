-- ===== src/Ppu/Drawing.antt =====
-- The background and the window of src/PPU/ppu.cpp: prepareBackgroundLine, prepareWindowLine,
-- computeColorBuffers and flushLineToScreenBuffer.
use gameboy_emulator.Base.{
  ℕ, zero, suc, ◌+◌, ◌-◌, ◌*◌, ◌/◌, ◌%◌, ◌^◌, Bool, true, false, ltb, ◌==◌, if◌then◌else◌, not,
  Build, Outcome, ok, ◌>>=◌,
}
use gameboy_emulator.Base.Bytes.{Binary, update, write_at}
use gameboy_emulator.Base.Words.{u16}
use gameboy_emulator.Bus.{Bus, read}
use gameboy_emulator.Bus.Map.{reg_ly}
use gameboy_emulator.Ppu.{
  Ppu, reg_scy, reg_scx, reg_wy, reg_wx, reg_bgp, width, tilemap_side_size, lcdc,
  get_tilemap_base_address, get_tiledata_base_address, is_position_inside_window, apply_palette,
}

-- The address of a row of a tile. Without the addressing from 0x8000 the number is a signed char;
-- the sum is never below 0.
unfoldable pub tiledata_address : ℕ → ℕ → ℕ → ℕ
tiledata_address base tile_number row_offset = u16 (
    (if base == 0x8000
      then base + tile_number * 16
      else if ltb tile_number 128
      then base + tile_number * 16
      else base + tile_number * 16 - 4096)
    + row_offset)

-- The loop over the tiles of a line, with `left` rounds to go from `tile_x`; `row` and `offset` give
-- the row of the tile map and the offset of the tile's row, read anew in each round.
unfoldable pub tile_loop :
    Build
    → Bus
    → (row offset : Outcome ℕ) → (map_base data_base : ℕ) → (left tile_x : ℕ) → (ℕ → ℕ) × (ℕ → ℕ)
    → Outcome ((ℕ → ℕ) × (ℕ → ℕ))
tile_loop build b row offset map_base data_base zero tile_x (lsb, msb) = ok (lsb, msb)
tile_loop build b row offset map_base data_base (suc left) tile_x (lsb, msb) = do
  tile_y ← row
  tile_number ← read build b (u16 (map_base + (tile_x + tile_y * tilemap_side_size)))
  row_offset ← offset
  low ← read build b (tiledata_address data_base tile_number row_offset)
  high ← read build b (u16 (tiledata_address data_base tile_number row_offset + 1))
  tile_loop build b row offset map_base data_base left (tile_x + 1)
      (update lsb tile_x low, update msb tile_x high)

-- `LY() + SCY()`.
unfoldable pub scrolled_line : Build → Bus → Outcome ℕ
scrolled_line build b = do ly ← read build b reg_ly; scy ← read build b reg_scy; ok (ly + scy)

-- `LY() - WY()`, where the line is not above the window.
unfoldable pub window_line : Build → Bus → Outcome ℕ
window_line build b = do ly ← read build b reg_ly; wy ← read build b reg_wy; ok (ly - wy)

-- The loop with its addresses; `line` is the line of the tile map that is drawn.
unfoldable pub fill_tiles :
    Build → Bus → Bool → Outcome ℕ → (ℕ → ℕ) × (ℕ → ℕ) → Outcome ((ℕ → ℕ) × (ℕ → ℕ))
fill_tiles build b drawing_window line buffers = do
  map_base ← get_tilemap_base_address build b drawing_window
  data_base ← get_tiledata_base_address build b
  tile_loop build b (line >>= λ y. ok (y / 8 % tilemap_side_size)) (line >>= λ y. ok (2 * (y % 8)))
      map_base data_base tilemap_side_size 0 buffers

unfoldable pub prepare_background_line : Build → Ppu → Outcome Ppu
prepare_background_line build p = do
  enabled ← lcdc build p.bus 0
  if not enabled then ok (record p { background_lsb = λ i. 0; background_msb = λ i. 0 }) else (do
    buffers ←
        fill_tiles build p.bus false (scrolled_line build p.bus)
          (p.background_lsb, p.background_msb)
    ok (record p { background_lsb = buffers.0; background_msb = buffers.1 }))

unfoldable pub prepare_window_line : Build → Ppu → Outcome Ppu
prepare_window_line build p = do
  enabled ← lcdc build p.bus 0
  if not enabled then ok (record p { window_lsb = λ i. 0; window_msb = λ i. 0 }) else (do
    ly ← read build p.bus reg_ly
    inside ← is_position_inside_window build p.bus (width - 1) ly
    if not inside then ok p else (do
      buffers ← fill_tiles build p.bus true (window_line build p.bus) (p.window_lsb, p.window_msb)
      ok (record p { window_lsb = buffers.0; window_msb = buffers.1 })))

-- `msb[bit] << 1 | lsb[bit]`.
abbrev pub color_of : ℕ → ℕ → ℕ → ℕ
color_of lsb msb bit = msb / 2 ^ bit % 2 * 2 + lsb / 2 ^ bit % 2

-- The loop over the bits of a tile's row, with `left` rounds to go from `bit`.
unfoldable pub bit_loop : (lsb msb pixel left bit : ℕ) → (ℕ → ℕ) → ℕ → ℕ
bit_loop lsb msb pixel zero bit buffer = buffer
bit_loop lsb msb pixel (suc left) bit buffer =
    bit_loop lsb msb pixel left (bit + 1) (update buffer (pixel + (7 - bit)) (color_of lsb msb bit))

-- The loop over the tiles; the two buffers of the source are filled in the same rounds.
unfoldable pub color_loop : (lsb msb : ℕ → ℕ) → (left tile_x : ℕ) → (ℕ → ℕ) → ℕ → ℕ
color_loop lsb msb zero tile_x buffer = buffer
color_loop lsb msb (suc left) tile_x buffer =
    color_loop lsb msb left (tile_x + 1)
      (bit_loop (lsb tile_x) (msb tile_x) (tile_x * 8) 8 0 buffer)

unfoldable pub compute_color_buffers : Ppu → Ppu
compute_color_buffers p = record p {
  background = color_loop p.background_lsb p.background_msb tilemap_side_size 0 p.background;
  window = color_loop p.window_lsb p.window_msb tilemap_side_size 0 p.window;
}

-- The value of a pixel of the line.
unfoldable pub pixel_value : Build → Ppu → ℕ → Outcome ℕ
pixel_value build p x = do
  ly ← read build p.bus reg_ly
  inside ← is_position_inside_window build p.bus x ly
  if inside then (do wx ← read build p.bus reg_wx; ok (p.window ((x + 7 - wx) % 256))) else (do
    scx ← read build p.bus reg_scx
    apply_palette build p.bus reg_bgp (p.background ((x + scx) % 256)))

-- `screenBuffer[x + LY() * WIDTH] = value`.
unfoldable pub set_pixel : Build → Bus → ℕ → ℕ → Binary → Outcome Binary
set_pixel build b x value screen = do
  ly ← read build b reg_ly
  write_at screen (x + ly * width) value

unfoldable pub flush_loop : Build → Ppu → (left x : ℕ) → Binary → Outcome Binary
flush_loop build p zero x screen = ok screen
flush_loop build p (suc left) x screen = do
  value ← pixel_value build p x
  screen' ← set_pixel build p.bus x value screen
  flush_loop build p left (x + 1) screen'

unfoldable pub flush_line_to_screen_buffer : Build → Ppu → Outcome Ppu
flush_line_to_screen_buffer build p = do
  screen ← flush_loop build p width 0 p.screen
  ok (record p { screen = screen })

-- The first three steps of `drawCurrentLine` with the flush, all that is done before the sprites.
unfoldable pub draw_background : Build → Ppu → Outcome Ppu
draw_background build p = do
  p₁ ← prepare_background_line build p
  p₂ ← prepare_window_line build p₁
  flush_line_to_screen_buffer build (compute_color_buffers p₂)
