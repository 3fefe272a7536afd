-- ===== src/Ppu/Sprites.antt =====
-- The sprites of src/PPU/ppu.cpp: addSpriteToBufferIfNeeded, resetOamBuffer and
-- computeAndFlushSpritesToScreenBuffer.
use Prim.Native.Nat.{bit_and, bit_or}
use gameboy_emulator.Base.{
  ℕ, zero, suc, ◌+◌, ◌-◌, ◌*◌, ◌%◌, ◌^◌, Bool, List, [], ◌∷◌, ◌++◌, ltb, leb, ◌==◌, if◌then◌else◌,
  not, ◌&&◌, ◌||◌, length, Build, Outcome, ok, ◌>>=◌, ◌>>◌, assert,
}
use gameboy_emulator.Base.Bytes.{Binary}
use gameboy_emulator.Base.Words.{u8, u16}
use gameboy_emulator.Bus.{Bus, read}
use gameboy_emulator.Bus.Map.{reg_ly}
use gameboy_emulator.Ppu.{
  Ppu, Sprite, bit_at, reg_obp0, reg_obp1, width, lcdc, get_sprite_height, apply_palette,
}
use gameboy_emulator.Ppu.Drawing.{color_of, set_pixel}

unfoldable pub read_sprite : Build → Bus → ℕ → Outcome Sprite
read_sprite build b sprite_number = do
  let address = 0xFE00 + 4 * sprite_number
  y ← read build b address
  x ← read build b (address + 1)
  tile ← read build b (address + 2)
  flags ← read build b (address + 3)
  ok (record { y_pos = y; x_pos = x; tile_number = tile; flags = flags })

unfoldable pub add_sprite_to_buffer_if_needed : Build → ℕ → Ppu → Outcome Ppu
add_sprite_to_buffer_if_needed build sprite_number p = do
  sprite ← read_sprite build p.bus sprite_number
  ly ← read build p.bus reg_ly
  height ← get_sprite_height build p.bus
  if length p.oam_line == 10
        || (sprite.x_pos == 0
            || (ltb (ly + 16) sprite.y_pos || leb (sprite.y_pos + height) (ly + 16)))
      then ok p
      else (do
        assert build (ltb 0 sprite.y_pos)
        ok (record p { oam_line = p.oam_line ++ sprite ∷ [] }))

unfoldable pub reset_oam_buffer : Ppu → Ppu
reset_oam_buffer p = record p { oam_line = [] }

-- `tileDataRowOffset`, modulo the size of an address. The difference of the lines is signed, and its
-- remainder has its sign.
unfoldable pub row_offset : Bool → ℕ → ℕ → ℕ
row_offset flip_y ly y_pos =
    if leb y_pos (ly + 16)
    then (let r = (ly + 16 - y_pos) % 8 in if flip_y then 2 * (8 - r) else 2 * r)
    else (let r = (y_pos - (ly + 16)) % 8 in if flip_y then 2 * (8 + r) else 2 ^ 16 - 2 * r)

-- The tile of a sprite at one of its lines: in the double height the flag's lowest bit chooses.
unfoldable pub sprite_tile : ℕ → ℕ → Sprite → ℕ
sprite_tile height sprite_line s =
    if height == 8
    then s.tile_number
    else (let bottom = ltb 7 sprite_line in
        if (if bit_at s.flags 6 then not bottom else bottom)
        then bit_or s.tile_number 0b00000001
        else bit_and s.tile_number 0b11111110)

-- A pixel of a sprite on the screen: colour 0 is clear, and a sprite with the priority flag shows
-- only over the background's colour 0.
unfoldable pub sprite_pixel : Build → Ppu → Sprite → (value screen_x : ℕ) → Binary → Outcome Binary
sprite_pixel build p s value screen_x screen =
    if value == 0 || (bit_at s.flags 7 && not (p.background screen_x == 0)) then ok screen else (do
      color ← apply_palette build p.bus (if bit_at s.flags 4 then reg_obp1 else reg_obp0) value
      set_pixel build p.bus screen_x color screen)

-- The loop over the pixels of a sprite, with `left` rounds to go from `sprite_x`; `lsb` and `msb` are
-- the row's bytes, and pixel `i` of the row is their bit `7 - i`.
unfoldable pub sprite_loop :
    Build → Ppu → Sprite → (lsb msb left sprite_x : ℕ) → Binary → Outcome Binary
sprite_loop build p s lsb msb zero sprite_x screen = ok screen
sprite_loop build p s lsb msb (suc left) sprite_x screen =
    let x = sprite_x + s.x_pos in
    let value = color_of lsb msb (if bit_at s.flags 5 then sprite_x else 7 - sprite_x) in
    if leb (width + 8) x || ltb x 8 then ok screen else (do
      screen' ← sprite_pixel build p s value (x - 8) screen
      sprite_loop build p s lsb msb left (sprite_x + 1) screen')

unfoldable pub draw_sprite : Build → Ppu → Sprite → Binary → Outcome Binary
draw_sprite build p s screen = do
  ly ← read build p.bus reg_ly
  let sprite_line = u8 (ly + 16 + 2 ^ 8 - s.y_pos)
  assert build (ltb sprite_line 16)
  height ← get_sprite_height build p.bus
  assert build (not (s.y_pos == 0))
  let address =
      0x8000 + sprite_tile height sprite_line s * 16 + row_offset (bit_at s.flags 6) ly s.y_pos
  lsb ← read build p.bus (u16 address)
  msb ← read build p.bus (u16 (address + 1))
  sprite_loop build p s lsb msb 8 0 screen

unfoldable pub draw_sprites : Build → Ppu → List Sprite → Binary → Outcome Binary
draw_sprites build p [] screen = ok screen
draw_sprites build p (s ∷ others) screen = do
  screen' ← draw_sprite build p s screen
  draw_sprites build p others screen'

unfoldable pub compute_and_flush_sprites_to_screen_buffer : Build → Ppu → Outcome Ppu
compute_and_flush_sprites_to_screen_buffer build p = do
  enabled ← lcdc build p.bus 1
  if not enabled
      then ok p
      else (do screen ← draw_sprites build p p.oam_line p.screen; ok (record p { screen = screen }))
