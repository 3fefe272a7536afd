-- ===== src/Ppu/Scan.antt =====
-- addSpriteToBufferIfNeeded of src/PPU/ppu.cpp: the buffer holds sprites of the line alone.
use gameboy_emulator.Base.{
  ℕ, ◌+◌, ◌*◌, ◌<◌, ◌≡◌, inl, inr, true, List, [], ◌∷◌, ◌++◌, length, ltb, leb, ◌==◌, if◌then◌else◌,
  ◌||◌, Bool-cases, Build, ok, assert-true, arith,
}
use gameboy_emulator.Bus.{Bus}
use gameboy_emulator.Bus.Hardware.{read-oam, read-register}
use gameboy_emulator.Bus.Map.{reg_ly}
use gameboy_emulator.Ppu.{Ppu, Sprite, get_sprite_height}
use gameboy_emulator.Ppu.Drawn.Line.{flag, lcdc_lem}
use gameboy_emulator.Ppu.Drawn.Overlay.{All, IsOnLine}
use gameboy_emulator.Ppu.Sprites.{read_sprite, add_sprite_to_buffer_if_needed}

-- The sprite with this number.
abbrev sprite_at : Bus → ℕ → Sprite
sprite_at b n = record {
  y_pos = b.memory (0xFE00 + 4 * n);
  x_pos = b.memory (0xFE00 + 4 * n + 1);
  tile_number = b.memory (0xFE00 + 4 * n + 2);
  flags = b.memory (0xFE00 + 4 * n + 3);
}

read_sprite_lem :
    (build : Build) (b : Bus) (n : ℕ) → n < 40 → read_sprite build b n ≡ ok (sprite_at b n)
unfolding read_sprite
read_sprite_lem build b n h = rw (read-oam build b (0xFE00 + 4 * n) (omega arith) (omega arith)) (
    rw (read-oam build b (0xFE00 + 4 * n + 1) (omega arith) (omega arith)) (
      rw (read-oam build b (0xFE00 + 4 * n + 2) (omega arith) (omega arith))
        (rw (read-oam build b (0xFE00 + 4 * n + 3) (omega arith) (omega arith)))))

All-snoc {ℓ κ} :
    {A : Type ℓ} (P : A → Type κ) (xs : List A) (x : A) → All P xs → P x → All P (xs ++ x ∷ [])
All-snoc P [] x h k = (k, tt)
All-snoc P (y ∷ ys) x h k = (h.0, All-snoc P ys x h.1 k)

-- A call with a sprite that is there returns, changes the buffer alone, and keeps it to the line.
pub add_sprite_lem :
    (build : Build) (p : Ppu) (n : ℕ)
    → n < 40
    → ((a : ℕ) → p.bus.memory a < 256)
    → All (IsOnLine (p.bus.memory reg_ly)) p.oam_line
    → (sprites : List Sprite) × (add_sprite_to_buffer_if_needed build n p
        ≡ ok (record p { oam_line = sprites }))
      × All (IsOnLine (p.bus.memory reg_ly)) sprites
unfolding add_sprite_to_buffer_if_needed get_sprite_height
add_sprite_lem build p n h fits on =
    let s = sprite_at p.bus n in
    let ly = p.bus.memory reg_ly in
    let height : ℕ = if flag p.bus 2 then 16 else 8 in
    let skipped =
      length p.oam_line == 10
      || (s.x_pos == 0 || (ltb (ly + 16) s.y_pos || leb (s.y_pos + height) (ly + 16))) in
    rw (read_sprite_lem build p.bus n h) (
      rw (read-register build p.bus reg_ly (omega arith)) (
        rw (lcdc_lem build p.bus 2) (elim (Bool-cases skipped) [
          | inl out ↦ (p.oam_line, rw out, on)
          | inr needed ↦
              let begun : ltb 0 s.y_pos ≡ true = ground arith in
              (
                p.oam_line ++ s ∷ [],
                rw needed (rw (assert-true build (ltb 0 s.y_pos) begun)),
                All-snoc (IsOnLine ly) p.oam_line s on (record {
                  begun = ground arith;
                  not_past = ground arith;
                  tile_fits = fits (0xFE00 + 4 * n + 2);
                }),
              )
        ])))
