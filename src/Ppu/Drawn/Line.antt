-- ===== src/Ppu/Drawn/Line.antt =====
-- The line that prepareBackgroundLine, prepareWindowLine, computeColorBuffers and
-- flushLineToScreenBuffer of src/PPU/ppu.cpp draw, against a description of each pixel by itself.
use gameboy_emulator.Base.{
  ℕ, ◌+◌, ◌-◌, ◌*◌, ◌/◌, ◌%◌, ◌^◌, ◌<◌, ◌≡◌, inl, inr, Bool, true, false, leb, if◌then◌else◌,
  Bool-cases, Build, ok, arith,
}
use gameboy_emulator.Bus.{Bus}
use gameboy_emulator.Bus.Hardware.{read-register}
use gameboy_emulator.Bus.Map.{reg_ly}
use gameboy_emulator.Ppu.{
  Ppu, bit_at, reg_lcdc, reg_scy, reg_scx, reg_wy, reg_wx, reg_bgp, lcdc, get_tilemap_base_address,
  get_tiledata_base_address, is_position_inside_window,
}
use gameboy_emulator.Ppu.Drawing.{
  color_of, scrolled_line, window_line, fill_tiles, prepare_background_line, prepare_window_line,
}
use gameboy_emulator.Ppu.Drawn.{
  tile_row, map_number, covered, overwritten, IsTileBase, tile_loop_lem, line_color,
}

abbrev pub flag : Bus → ℕ → Bool
flag b n = bit_at (b.memory reg_lcdc) n

abbrev pub map_base : Bus → ℕ → ℕ
map_base b n = if flag b n then 0x9C00 else 0x9800

abbrev pub data_base : Bus → ℕ
data_base b = if flag b 4 then 0x8000 else 0x9000

-- The colour of one dot of a tile map: the tile is looked up, its row, and the two bits.
abbrev pub dot : Bus → ℕ → ℕ → ℕ → ℕ
dot b base px py =
    let row = tile_row (data_base b) (map_number b base (py / 8 % 32) (px / 8)) (py % 8) in
    color_of (b.memory row) (b.memory (row + 1)) (7 - px % 8)

abbrev pub inside_window : Bus → ℕ → ℕ → Bool
inside_window b x y =
    if flag b 5
    then (if leb (b.memory reg_wy) y then leb (b.memory reg_wx) (x + 7) else false)
    else false

abbrev pub background_dot : Bus → ℕ → ℕ → ℕ
background_dot b ly x = if flag b 0 then dot b (map_base b 3) x (ly + b.memory reg_scy) else 0

abbrev pub window_dot : Bus → ℕ → ℕ → ℕ
window_dot b ly x = if flag b 0 then dot b (map_base b 6) x (ly - b.memory reg_wy) else 0

-- The pixel in column `x` of line `ly`, without the sprites.
abbrev pub screen_pixel : Bus → ℕ → ℕ → ℕ
screen_pixel b ly x =
    if inside_window b x ly
    then window_dot b ly (x + 7 - b.memory reg_wx)
    else b.memory reg_bgp / 2 ^ (background_dot b ly ((x + b.memory reg_scx) % 256) * 2) % 4

module _ (build : Build) (b : Bus) where
  pub lcdc_lem : (n : ℕ) → lcdc build b n ≡ ok (flag b n)
  unfolding lcdc
  lcdc_lem n = rw (read-register build b reg_lcdc (omega arith))

  map_base_lem :
      (w : Bool) → get_tilemap_base_address build b w ≡ ok (map_base b (if w then 6 else 3))
  unfolding get_tilemap_base_address
  map_base_lem true = rw (lcdc_lem 6)
  map_base_lem false = rw (lcdc_lem 3)

  data_base_lem : get_tiledata_base_address build b ≡ ok (data_base b)
  unfolding get_tiledata_base_address
  data_base_lem = rw (lcdc_lem 4)

  pub inside_lem : (x y : ℕ) → is_position_inside_window build b x y ≡ ok (inside_window b x y)
  unfolding is_position_inside_window
  inside_lem x y = ground (
    arith,
    lcdc_lem 5,
    read-register build b reg_wy (omega arith),
    read-register build b reg_wx (omega arith),
  )

  scrolled_line_lem : scrolled_line build b ≡ ok (b.memory reg_ly + b.memory reg_scy)
  unfolding scrolled_line
  scrolled_line_lem = ground (
    arith,
    read-register build b reg_ly (omega arith),
    read-register build b reg_scy (omega arith),
  )

  window_line_lem : window_line build b ≡ ok (b.memory reg_ly - b.memory reg_wy)
  unfolding window_line
  window_line_lem = ground (
    arith,
    read-register build b reg_ly (omega arith),
    read-register build b reg_wy (omega arith),
  )

  data_base-IsTileBase : IsTileBase (data_base b)
  data_base-IsTileBase = ground arith

zero_color : (x : ℕ) → line_color (λ i. 0) (λ i. 0) x ≡ 0
zero_color x = grind arith

abbrev row_of_line : Bus → ℕ → ℕ → ℕ → ℕ
row_of_line b base y x = tile_row (data_base b) (map_number b base (y / 8 % 32) x) (y % 8)

abbrev low_bytes : Bus → ℕ → ℕ → (ℕ → ℕ) → ℕ → ℕ
low_bytes b base y old = overwritten 0 32 (λ i. b.memory (row_of_line b base y i)) old

abbrev high_bytes : Bus → ℕ → ℕ → (ℕ → ℕ) → ℕ → ℕ
high_bytes b base y old = overwritten 0 32 (λ i. b.memory (row_of_line b base y i + 1)) old

-- A line buffer that the loop over the tiles has filled holds the dots of its line.
line_color-overwritten :
    (b : Bus) (base y : ℕ) (lsb msb : ℕ → ℕ) (x : ℕ)
    → x < 256
    → line_color (low_bytes b base y lsb) (high_bytes b base y msb) x ≡ dot b base x y
line_color-overwritten b base y lsb msb x h =
    let low : covered 0 32 (x / 8) ≡ true = ground arith in rw low

fill_tiles_lem :
    (build : Build) (b : Bus) (w : Bool) (y : ℕ) (lsb msb : ℕ → ℕ)
    → ((a : ℕ) → b.memory a < 256)
    → let base = map_base b (if w then 6 else 3) in
      fill_tiles build b w (ok y) (lsb, msb) ≡ ok (low_bytes b base y lsb, high_bytes b base y msb)
unfolding fill_tiles
fill_tiles_lem build b w y lsb msb fits =
    let base = map_base b (if w then 6 else 3) in
    rw (map_base_lem build b w) (
      rw (data_base_lem build b) (
        tile_loop_lem build b fits base (data_base b) (y / 8 % 32) (y % 8) (ground arith)
          (ground arith) (data_base-IsTileBase build b) (omega arith) (omega arith) 32 0 lsb msb
          (omega arith)))

module _ (build : Build) (p : Ppu) (fits : (a : ℕ) → p.bus.memory a < 256) where
  abbrev background_line : ℕ
  background_line = p.bus.memory reg_ly + p.bus.memory reg_scy

  pub prepare_background_line_lem :
      (lsb msb : ℕ → ℕ) × (prepare_background_line build p
        ≡ ok (record p { background_lsb = lsb; background_msb = msb }))
      × ((x : ℕ) → x < 256 → line_color lsb msb x ≡ background_dot p.bus (p.bus.memory reg_ly) x)
  unfolding prepare_background_line
  prepare_background_line_lem =
      let base = map_base p.bus 3 in
      elim (Bool-cases (flag p.bus 0)) [
        | inl on ↦ (
          low_bytes p.bus base background_line p.background_lsb,
          high_bytes p.bus base background_line p.background_msb,
          rw (lcdc_lem build p.bus 0) (
              rw on (
                rw (scrolled_line_lem build p.bus) (
                  rw (
                    fill_tiles_lem build p.bus false background_line p.background_lsb
                      p.background_msb fits)))),
          λ x h. rw on (
              line_color-overwritten p.bus base background_line p.background_lsb p.background_msb x
                h),
        )
        | inr off ↦
            (λ i. 0, λ i. 0, rw (lcdc_lem build p.bus 0) (rw off), λ x h. rw off (zero_color x))
      ]

  abbrev top : ℕ
  top = p.bus.memory reg_ly - p.bus.memory reg_wy

  -- The window's buffers, as far as they are drawn.
  pub prepare_window_line_lem :
      (lsb msb : ℕ → ℕ) × (prepare_window_line build p
        ≡ ok (record p { window_lsb = lsb; window_msb = msb }))
      × ((x i : ℕ)
          → x < 160
          → inside_window p.bus x (p.bus.memory reg_ly) ≡ true
          → i < 256
          → line_color lsb msb i ≡ window_dot p.bus (p.bus.memory reg_ly) i)
  unfolding prepare_window_line
  prepare_window_line_lem =
      let base = map_base p.bus 6 in
      elim (Bool-cases (flag p.bus 0)) [
        | inr off ↦ (
          λ i. 0,
          λ i. 0,
          rw (lcdc_lem build p.bus 0) (rw off),
          λ x i h within k. rw off (zero_color i),
        )
        | inl on ↦ elim (Bool-cases (inside_window p.bus 159 (p.bus.memory reg_ly))) [
          | inr out ↦ (
            p.window_lsb,
            p.window_msb,
            rw (lcdc_lem build p.bus 0) (
                rw on (
                  rw (read-register build p.bus reg_ly (omega arith))
                    (rw (inside_lem build p.bus 159 (p.bus.memory reg_ly)) (rw out)))),
            λ x i h within k. absurd (ground arith),
          )
          | inl visible ↦ (
            low_bytes p.bus base top p.window_lsb,
            high_bytes p.bus base top p.window_msb,
            rw (lcdc_lem build p.bus 0) (
                rw on (
                  rw (read-register build p.bus reg_ly (omega arith)) (
                    rw (inside_lem build p.bus 159 (p.bus.memory reg_ly)) (
                      rw visible (
                        rw (window_line_lem build p.bus) (
                          rw (
                            fill_tiles_lem build p.bus true top p.window_lsb p.window_msb
                              fits))))))),
            λ x i h within k.
                rw on (line_color-overwritten p.bus base top p.window_lsb p.window_msb i k),
          )
        ]
      ]
