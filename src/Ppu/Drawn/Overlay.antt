-- ===== src/Ppu/Drawn/Overlay.antt =====
-- The sprites of src/PPU/ppu.cpp over a line: drawing them returns, and keeps to the line.
use Prim.Native.Nat.{bit_and, bit_or}
use gameboy_emulator.Base.{
  ℕ, zero, suc, ◌+◌, ◌-◌, ◌*◌, ◌/◌, ◌%◌, ◌^◌, ◌≤◌, ◌<◌, ◌≡◌, refl, ◌∙◌, inl, inr, Bool, true, false,
  List, [], ◌∷◌, ltb, leb, ◌==◌, if◌then◌else◌, ◌&&◌, ◌||◌, not, Bool-cases, Build, Outcome, ok,
  assert-true, ◌>>=◌, arith,
}
use gameboy_emulator.Base.Bytes.{Binary, update, write_at-in_range}
use gameboy_emulator.Base.Words.{u8, all_below, all_below_sound}
use gameboy_emulator.Bus.{Bus}
use gameboy_emulator.Bus.Hardware.{read-register}
use gameboy_emulator.Bus.Map.{reg_ly}
use gameboy_emulator.Ppu.{Ppu, Sprite, bit_at, reg_obp0, reg_obp1, get_sprite_height, apply_palette}
use gameboy_emulator.Ppu.Drawing.{color_of, set_pixel}
use gameboy_emulator.Ppu.Sprites.{
  row_offset, sprite_tile, sprite_pixel, sprite_loop, draw_sprite, draw_sprites,
  compute_and_flush_sprites_to_screen_buffer,
}
use gameboy_emulator.Ppu.Drawn.{covered, read_wrapped}
use gameboy_emulator.Ppu.Drawn.Line.{flag, lcdc_lem}

pub apply_palette_lem :
    (build : Build) (b : Bus) (reg input : ℕ)
    → 0xFF01 ≤ reg
    → apply_palette build b reg input ≡ ok (b.memory reg / 2 ^ (input * 2) % 4)
unfolding apply_palette
apply_palette_lem build b reg input h = rw (read-register build b reg h)

-- Only line `ly` of the screen differs.
pub record KeepsOthers (ly : ℕ) (old new : Binary) : Type 0 where
  pub size : new.size ≡ old.size
  pub others : (j : ℕ) → covered (ly * 160) 160 j ≡ false → new.cell j ≡ old.cell j

pub KeepsOthers-refl : (ly : ℕ) (s : Binary) → KeepsOthers ly s s
KeepsOthers-refl ly s = record { size = refl; others = λ j h. refl }

pub KeepsOthers-trans :
    (ly : ℕ) (s t u : Binary) → KeepsOthers ly s t → KeepsOthers ly t u → KeepsOthers ly s u
KeepsOthers-trans ly s t u k l = record {
  size = l.size ∙ k.size;
  others = λ j h. l.others j h ∙ k.others j h;
}

-- A sprite that is to be drawn on line `ly`.
pub record IsOnLine (ly : ℕ) (s : Sprite) : Type 0 where
  pub begun : ly < s.y_pos
  pub not_past : s.y_pos ≤ ly + 16
  pub tile_fits : s.tile_number < 256

abbrev pub All {ℓ κ} : {A : Type ℓ} → (A → Type κ) → List A → Type κ
All P [] = Unit
All P (x ∷ xs) = P x × All P xs

-- A step of the drawing returns, and keeps to line `ly`.
pub record Draws (ly : ℕ) (screen : Binary) (m : Outcome Binary) : Type 0 where
  pub final : Binary
  pub ran : m ≡ ok final
  pub keeps : KeepsOthers ly screen final

module _ (ly : ℕ) (screen : Binary) where
  pub Draws-ok : Draws ly screen (ok screen)
  Draws-ok = record { final = screen; ran = refl; keeps = KeepsOthers-refl ly screen }

  Draws-if :
      (t : Bool) (m n : Outcome Binary)
      → (t ≡ true → Draws ly screen m)
      → (t ≡ false → Draws ly screen n)
      → Draws ly screen (if t then m else n)
  Draws-if true m n k l = k refl
  Draws-if false m n k l = l refl

  Draws-bind :
      (m : Outcome Binary) (f : Binary → Outcome Binary)
      → Draws ly screen m
      → ((s : Binary) → s.size ≡ screen.size → Draws ly s (f s))
      → Draws ly screen (m >>= f)
  Draws-bind m f d k =
      let e = k d.final d.keeps.size in
      record {
        final = e.final;
        ran = rw d.ran e.ran;
        keeps = KeepsOthers-trans ly screen d.final e.final d.keeps e.keeps;
      }

abbrev tile_bits : ℕ → Bool
tile_bits x = ltb (bit_or x 1) 256 && ltb (bit_and x 254) 256

tile_bits_table : all_below 256 tile_bits ≡ true
unfolding all_below
tile_bits_table = refl

sprite_tile-lt :
    (s : Sprite) (height sprite_line : ℕ)
    → s.tile_number < 256
    → sprite_tile height sprite_line s < 256
unfolding sprite_tile
sprite_tile-lt s height sprite_line h =
    let t : tile_bits s.tile_number ≡ true =
      all_below_sound 256 tile_bits s.tile_number tile_bits_table h in
    ground arith

row_offset-le : (flip : Bool) (ly y : ℕ) → y ≤ ly + 16 → row_offset flip ly y ≤ 16
unfolding row_offset
row_offset-le flip ly y h = ground arith

module _ (build : Build) (p : Ppu) (ly : ℕ) (line : p.bus.memory reg_ly ≡ ly)
    (fits : (a : ℕ) → p.bus.memory a < 256) where
  set_pixel_lem :
      (x value : ℕ) (screen : Binary)
      → x < 160
      → 160 + ly * 160 ≤ screen.size
      → Draws ly screen (set_pixel build p.bus x value screen)
  unfolding set_pixel
  set_pixel_lem x value screen h room = record {
    final = record screen { cell = update screen.cell (x + ly * 160) value };
    ran =
        rw (read-register build p.bus reg_ly (omega arith))
          (rw line (write_at-in_range screen (x + ly * 160) value (omega arith)));
    keeps = record { size = refl; others = λ j k. ground arith };
  }

  sprite_pixel_lem :
      (s : Sprite) (value x : ℕ) (screen : Binary)
      → x < 160
      → 160 + ly * 160 ≤ screen.size
      → Draws ly screen (sprite_pixel build p s value x screen)
  unfolding sprite_pixel
  sprite_pixel_lem s value x screen h room =
      let reg = if bit_at s.flags 4 then reg_obp1 else reg_obp0 in
      let color = p.bus.memory reg / 2 ^ (value * 2) % 4 in
      let known : apply_palette build p.bus reg value ≡ ok color =
        apply_palette_lem build p.bus reg value (ground arith) in
      Draws-if ly screen (value == 0 || (bit_at s.flags 7 && not (p.background x == 0))) (ok screen)
        (apply_palette build p.bus reg value >>= λ c. set_pixel build p.bus x c screen)
        (λ clear. Draws-ok ly screen) (λ colored. rw known (set_pixel_lem x color screen h room))

  sprite_loop_lem :
      (s : Sprite) (lsb msb left x : ℕ) (screen : Binary)
      → 160 + ly * 160 ≤ screen.size
      → Draws ly screen (sprite_loop build p s lsb msb left x screen)
  unfolding sprite_loop
  sprite_loop_lem s lsb msb zero x screen room = Draws-ok ly screen
  sprite_loop_lem s lsb msb (suc left) x screen room =
      let value = color_of lsb msb (if bit_at s.flags 5 then x else 7 - x) in
      let pixel = sprite_pixel build p s value (x + s.x_pos - 8) screen in
      let rest = sprite_loop build p s lsb msb left (x + 1) in
      Draws-if ly screen (leb 168 (x + s.x_pos) || ltb (x + s.x_pos) 8) (ok screen) (pixel >>= rest)
        (λ out. Draws-ok ly screen)
        (λ visible.
          Draws-bind ly screen pixel rest
            (sprite_pixel_lem s value (x + s.x_pos - 8) screen (ground arith) room)
            (λ screen' same. sprite_loop_lem s lsb msb left (x + 1) screen' (omega arith)))

  height_lem : get_sprite_height build p.bus ≡ ok (if flag p.bus 2 then 16 else 8)
  unfolding get_sprite_height
  height_lem = rw (lcdc_lem build p.bus 2)

  draw_sprite_lem :
      (s : Sprite) (screen : Binary)
      → IsOnLine ly s
      → 160 + ly * 160 ≤ screen.size
      → Draws ly screen (draw_sprite build p s screen)
  unfolding draw_sprite
  draw_sprite_lem s screen on room =
      let height : ℕ = if flag p.bus 2 then 16 else 8 in
      let sprite_line = u8 (ly + 16 + 2 ^ 8 - s.y_pos) in
      let tile = sprite_tile height sprite_line s in
      let offset = row_offset (bit_at s.flags 6) ly s.y_pos in
      let address = 0x8000 + tile * 16 + offset in
      let tile_low : tile < 256 = sprite_tile-lt s height sprite_line on.tile_fits in
      let offset_low : offset ≤ 16 = row_offset-le (bit_at s.flags 6) ly s.y_pos on.not_past in
      let visible : ltb sprite_line 16 ≡ true = ground arith in
      let seen : (not (s.y_pos == 0)) ≡ true = ground arith in
      rw (read-register build p.bus reg_ly (omega arith)) (
        rw line (
          rw (assert-true build (ltb sprite_line 16) visible) (
            rw height_lem (
              rw (assert-true build (not (s.y_pos == 0)) seen) (
                rw (read_wrapped build p.bus address (omega arith) (omega arith)) (
                  rw (read_wrapped build p.bus (address + 1) (omega arith) (omega arith)) (
                    sprite_loop_lem s (p.bus.memory address) (p.bus.memory (address + 1)) 8 0 screen
                      room)))))))

  draw_sprites_lem :
      (sprites : List Sprite) (screen : Binary)
      → All (IsOnLine ly) sprites
      → 160 + ly * 160 ≤ screen.size
      → Draws ly screen (draw_sprites build p sprites screen)
  unfolding draw_sprites
  draw_sprites_lem [] screen on room = Draws-ok ly screen
  draw_sprites_lem (s ∷ others) screen on room =
      Draws-bind ly screen (draw_sprite build p s screen) (draw_sprites build p others)
        (draw_sprite_lem s screen on.0 room)
        (λ screen' same. draw_sprites_lem others screen' on.1 (omega arith))

-- Drawing the sprites of the line returns, and changes the screen alone, on that line.
pub sprites_drawn :
    (build : Build) (p : Ppu)
    → let ly = p.bus.memory reg_ly in
      ((a : ℕ) → p.bus.memory a < 256)
      → 160 + ly * 160 ≤ p.screen.size
      → All (IsOnLine ly) p.oam_line
      → (screen : Binary) × (compute_and_flush_sprites_to_screen_buffer build p
          ≡ ok (record p { screen = screen }))
        × KeepsOthers ly p.screen screen
        × (flag p.bus 1 ≡ false → screen ≡ p.screen)
unfolding compute_and_flush_sprites_to_screen_buffer
sprites_drawn build p fits room on = elim (Bool-cases (flag p.bus 1)) [
  | inl enabled ↦
      let d =
        draw_sprites_lem build p (p.bus.memory reg_ly) refl fits p.oam_line p.screen on room in
      (d.final, rw (lcdc_lem build p.bus 1) (rw enabled (rw d.ran)), d.keeps, λ off. cc)
  | inr off ↦ (
    p.screen,
    rw (lcdc_lem build p.bus 1) (rw off),
    KeepsOthers-refl (p.bus.memory reg_ly) p.screen,
    λ _. refl,
  )
]
