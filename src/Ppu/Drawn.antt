-- ===== src/Ppu/Drawn.antt =====
-- What the loops of src/PPU/ppu.cpp over the tiles and the pixels of a line leave in their buffers.
pub mod Line
pub mod Overlay
pub mod Screen
use mathlib.Core.Path.{fun_ext}
use gameboy_emulator.Base.{
  ℕ, zero, suc, ◌+◌, ◌-◌, ◌*◌, ◌/◌, ◌%◌, ◌^◌, ◌≤◌, ◌<◌, ◌≡◌, ◌≢◌, refl, sym, ap, ap₂, ◌∙◌, ◌⊎◌, inl,
  inr, Bool, ltb, leb, ◌==◌, if◌then◌else◌, ◌&&◌, Build, Outcome, ok, ◌>>=◌, arith,
}
use gameboy_emulator.Base.Bytes.{Binary, update, write_at, write_at-in_range}
use gameboy_emulator.Base.Words.{u16}
use gameboy_emulator.Bus.{Bus, read}
use gameboy_emulator.Bus.Hardware.{read-video, read-register}
use gameboy_emulator.Bus.Map.{reg_ly}
use gameboy_emulator.Ppu.{Ppu}
use gameboy_emulator.Ppu.Drawing.{
  tiledata_address, tile_loop, color_of, bit_loop, color_loop, pixel_value, set_pixel, flush_loop,
}

-- Where row `r` of a tile stands.
abbrev pub tile_row : ℕ → ℕ → ℕ → ℕ
tile_row base number r =
    (if base == 0x8000
      then 0x8000 + 16 * number
      else if ltb number 128
      then 0x9000 + 16 * number
      else 0x8000 + 16 * number)
    + 2 * r

-- The test that `i` is one of the `left` values from `x` on.
abbrev pub covered : ℕ → ℕ → ℕ → Bool
covered x left i = leb x i && ltb i (x + left)

abbrev pub IsTileBase : ℕ → Type 0
IsTileBase base = (base ≡ 0x8000) ⊎ (base ≡ 0x9000)

tiledata_address_lem :
    (base number r : ℕ)
    → IsTileBase base
    → number < 256
    → r < 8
    → (tiledata_address base number (2 * r) ≡ tile_row base number r)
      × (0x8000 ≤ tile_row base number r)
      × (tile_row base number r < 0x9FFF)
unfolding tiledata_address
tiledata_address_lem base number r choice small low = ground arith

read_wrapped :
    (build : Build) (b : Bus) (a : ℕ)
    → 0x8000 ≤ a
    → a < 0xA000
    → read build b (u16 a) ≡ ok (b.memory a)
read_wrapped build b a lo hi =
    let small : u16 a ≡ a = omega arith in rw small (read-video build b a lo hi)

-- The number that stands in column `x` of row `y` of a tile map.
abbrev pub map_number : Bus → ℕ → ℕ → ℕ → ℕ
map_number b map_base y x = b.memory (map_base + (x + y * 32))

-- A buffer that is overwritten from `x` on.
abbrev pub overwritten : ℕ → ℕ → (ℕ → ℕ) → (ℕ → ℕ) → ℕ → ℕ
overwritten x left new old i = if covered x left i then new i else old i

ℕ-cases : (i x : ℕ) → (i ≡ x) ⊎ (i ≢ x)
ℕ-cases i x = ground arith

overwritten_none : (x : ℕ) (new old : ℕ → ℕ) (i : ℕ) → old i ≡ overwritten x 0 new old i
overwritten_none x new old i = ground arith

overwritten_step :
    (x left : ℕ) (new old : ℕ → ℕ) (i : ℕ)
    → overwritten (x + 1) left new (update old x (new x)) i ≡ overwritten x (suc left) new old i
overwritten_step x left new old i = elim (ℕ-cases i x) [
  | inl e ↦ rw e (ground arith)
  | inr ne ↦ ground arith
]

module _ (build : Build) (b : Bus) (fits : (a : ℕ) → b.memory a < 256) (map_base data_base y r : ℕ)
    (map_low : 0x9800 ≤ map_base) (map_high : map_base ≤ 0x9C00) (choice : IsTileBase data_base)
    (y_low : y < 32) (r_low : r < 8) where
  abbrev pub row_of : ℕ → ℕ
  row_of x = tile_row data_base (map_number b map_base y x) r

  abbrev pub low_byte : ℕ → ℕ
  low_byte x = b.memory (row_of x)

  abbrev pub high_byte : ℕ → ℕ
  high_byte x = b.memory (row_of x + 1)

  tile_step :
      (left x : ℕ) (lsb msb : ℕ → ℕ)
      → x < 32
      → tile_loop build b (ok y) (ok (2 * r)) map_base data_base (suc left) x (lsb, msb)
        ≡ tile_loop build b
            (ok y)
            (ok (2 * r))
            map_base
            data_base
            left
            (x + 1)
            (update lsb x (low_byte x), update msb x (high_byte x))
  unfolding tile_loop
  tile_step left x lsb msb h =
      let (address, low, high) =
        tiledata_address_lem data_base (map_number b map_base y x) r choice (fits _) r_low in
      rw (read_wrapped build b (map_base + (x + y * 32)) (omega arith) (omega arith)) (
        rw address (
          rw (read-video build b (row_of x) low (omega arith))
            (rw (read_wrapped build b (row_of x + 1) (omega arith) (omega arith)))))

  pub tile_loop_lem :
      (left x : ℕ) (lsb msb : ℕ → ℕ)
      → x + left ≤ 32
      → tile_loop build b (ok y) (ok (2 * r)) map_base data_base left x (lsb, msb)
        ≡ ok (overwritten x left low_byte lsb, overwritten x left high_byte msb)
  unfolding tile_loop
  tile_loop_lem zero x lsb msb h =
      ap₂ (λ f g. ok (f, g)) (fun_ext (λ i. overwritten_none x low_byte lsb i))
        (fun_ext (λ i. overwritten_none x high_byte msb i))
  tile_loop_lem (suc left) x lsb msb h =
      tile_step left x lsb msb (omega arith)
      ∙ tile_loop_lem left (x + 1) _ _ (omega arith)
      ∙ ap₂ (λ f g. ok (f, g)) (fun_ext (λ i. overwritten_step x left low_byte lsb i))
          (fun_ext (λ i. overwritten_step x left high_byte msb i))

bit_loop_lem :
    (lsb msb pixel left bit : ℕ) (buffer : ℕ → ℕ) (i : ℕ)
    → bit + left ≤ 8
    → bit_loop lsb msb pixel left bit buffer i ≡ (
        if leb (pixel + 8) (i + (bit + left)) && ltb (i + bit) (pixel + 8)
        then color_of lsb msb (pixel + 7 - i)
        else buffer i)
unfolding bit_loop
bit_loop_lem lsb msb pixel zero bit buffer i h = ground arith
bit_loop_lem lsb msb pixel (suc left) bit buffer i h =
    bit_loop_lem lsb msb pixel left (bit + 1) _ i (omega arith)
    ∙ elim (ℕ-cases i (pixel + (7 - bit))) [
      | inl e ↦ let b : pixel + 7 - i ≡ bit = omega arith in rw b (ground arith)
      | inr ne ↦ ground arith
    ]

-- The colour of pixel `i` of a line whose tiles have these rows.
abbrev pub line_color : (lsb msb : ℕ → ℕ) → ℕ → ℕ
line_color lsb msb i = color_of (lsb (i / 8)) (msb (i / 8)) (7 - i % 8)

abbrev pub in_tiles : ℕ → ℕ → ℕ → Bool
in_tiles x left i = leb (x * 8) i && ltb i ((x + left) * 8)

pub color_loop_lem :
    (lsb msb : ℕ → ℕ) (left x : ℕ) (buffer : ℕ → ℕ) (i : ℕ)
    → color_loop lsb msb left x buffer i
      ≡ (if in_tiles x left i then line_color lsb msb i else buffer i)
unfolding color_loop
color_loop_lem lsb msb zero x buffer i = ground arith
color_loop_lem lsb msb (suc left) x buffer i =
    color_loop_lem lsb msb left (x + 1) _ i
    ∙ rw (bit_loop_lem (lsb x) (msb x) (x * 8) 8 0 buffer i (omega arith))
        (elim (ℕ-cases (i / 8) x) [
          | inl e ↦ let b : x * 8 + 7 - i ≡ 7 - i % 8 = omega arith in rw (b, e) (ground arith)
          | inr ne ↦ ground arith
        ])

-- The screen with `left` pixels of line `ly` overwritten from column `x` on.
abbrev pub with_pixels : ℕ → ℕ → ℕ → (ℕ → ℕ) → Binary → Binary
with_pixels ly x left value screen = record screen {
  cell = overwritten (x + ly * 160) left (λ j. value (j - ly * 160)) screen.cell;
}

module _ (build : Build) (p : Ppu) (ly : ℕ) (line : p.bus.memory reg_ly ≡ ly) (value : ℕ → ℕ)
    (known : (x : ℕ) → x < 160 → pixel_value build p x ≡ ok (value x)) where
  pixels_step :
      (left x : ℕ) (screen : Binary)
      → ok (
          with_pixels ly
            (x + 1)
            left
            value
            (record screen { cell = update screen.cell (x + ly * 160) (value x) }))
        ≡ ok (with_pixels ly x (suc left) value screen)
  pixels_step left x screen =
      let next : x + 1 + ly * 160 ≡ x + ly * 160 + 1 = omega arith in
      let column : x + ly * 160 - ly * 160 ≡ x = omega arith in
      let new : ℕ → ℕ = λ j. value (j - ly * 160) in
      rw next (
        ap (λ c. ok (record screen { cell = c }))
          (fun_ext (λ j.
            ap
              (λ v. overwritten (x + ly * 160 + 1) left new (update screen.cell (x + ly * 160) v) j)
              (ap value (sym column))
            ∙ overwritten_step (x + ly * 160) left new screen.cell j)))

  pub flush_loop_lem :
      (left x : ℕ) (screen : Binary)
      → x + left ≤ 160
      → 160 + ly * 160 ≤ screen.size
      → flush_loop build p left x screen ≡ ok (with_pixels ly x left value screen)
  unfolding flush_loop set_pixel
  flush_loop_lem zero x screen h room =
      ap (λ c. ok (record screen { cell = c })) (fun_ext (overwritten_none _ _ screen.cell))
  flush_loop_lem (suc left) x screen h room = rw (known x (omega arith)) (
      rw (read-register build p.bus reg_ly (omega arith)) (
        rw line (
          rw (write_at-in_range screen (x + ly * 160) (value x) (omega arith))
            (flush_loop_lem left (x + 1) _ (omega arith) room ∙ pixels_step left x screen))))
