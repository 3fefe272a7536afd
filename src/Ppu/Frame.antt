-- ===== src/Ppu/Frame.antt =====
-- The cycles of a frame in src/PPU/ppu.cpp: machineClock from one position to the next, and the run
-- of the graphics unit beside the other components, which write to the bus between its cycles.
use gameboy_emulator.Base.{
  ℕ, zero, suc, ◌+◌, ◌-◌, ◌/◌, ◌%◌, ◌^◌, ◌<◌, ◌≡◌, ◌≢◌, refl, ◌∙◌, Bool, ◌==◌, if◌then◌else◌, ◌&&◌,
  Build, Outcome, ok, ◌>>=◌, arith,
}
use gameboy_emulator.Bus.{Bus}
use gameboy_emulator.Bus.Map.{reg_ly, reg_stat, reg_if}
use gameboy_emulator.Ppu.{Ppu}
use gameboy_emulator.Ppu.Clock.{machine_clock, with_bus}
use gameboy_emulator.Ppu.Position.{frame_length, StandsAt}
use gameboy_emulator.Ppu.Cycle.{cycle_lem}
use gameboy_emulator.Ppu.Lines.{line_behind, frames_behind}

-- The graphics unit stands at a position of the frame, which has `frame_length` of them.
abbrev pub IsAt : ℕ → Ppu → Type 0
IsAt pos p = StandsAt (pos / 114) (pos % 114) p

abbrev pub next_position : ℕ → ℕ
next_position pos = (pos + 1) % frame_length

abbrev pub vblank_begins : ℕ → Bool
vblank_begins pos = next_position pos == 16416

abbrev pub frames_after : ℕ → ℕ → ℕ
frames_after pos n = if next_position pos == 0 then (n + 1) % 2 ^ 64 else n

-- A machine cycle from any position of the frame, with all cells of the memory.
pub clock_advances :
    (build : Build) (p : Ppu) (pos : ℕ)
    → pos < frame_length
    → IsAt pos p
    → (q : Ppu) × (machine_clock build p ≡ ok q)
      × IsAt (next_position pos) q
      × (q.bus.memory reg_if % 2 ≡ (if vblank_begins pos then 1 else p.bus.memory reg_if % 2))
      × (q.frame_count ≡ frames_after pos p.frame_count)
      × ((a : ℕ) → a ≢ reg_ly → a ≢ reg_stat → a ≢ reg_if → q.bus.memory a ≡ p.bus.memory a)
clock_advances build p pos h at =
    let a = cycle_lem build p (pos / 114) (pos % 114) at (omega arith) (omega arith) in
    let last = pos % 114 == 113 in
    let line : next_position pos / 114 ≡ (if last then line_behind (pos / 114) else pos / 114) =
      ground arith in
    let clock : next_position pos % 114 ≡ (if last then 0 else pos % 114 + 1) = ground arith in
    let begins : vblank_begins pos ≡ last && (pos / 114 == 143) = ground arith in
    let counts : frames_after pos p.frame_count
        ≡ (if last then frames_behind (pos / 114) p.frame_count else p.frame_count) =
      ground arith in
    (a.final, a.ran, rw (line, clock) a.at, rw begins a.request, rw counts a.frames, a.others)

-- At every position of the frame, in either build, a machine cycle returns: the graphics unit goes on to the next position, the last one being followed by the first; the V-blank interrupt is requested exactly on reaching line 144, and otherwise its flag stays; the frame is counted, modulo 2^64, exactly on reaching line 0; and a cell of the memory other than LY, STAT and the interrupt flags stays.
pub machine_clock-position :
    (build : Build) (p : Ppu) (pos a : ℕ)
    → pos < frame_length
    → IsAt pos p
    → a ≢ reg_ly
    → a ≢ reg_stat
    → a ≢ reg_if
    → (q : Ppu) × (machine_clock build p ≡ ok q)
      × IsAt (next_position pos) q
      × (q.bus.memory reg_if % 2 ≡ (if vblank_begins pos then 1 else p.bus.memory reg_if % 2))
      × (q.frame_count ≡ frames_after pos p.frame_count)
      × (q.bus.memory a ≡ p.bus.memory a)
machine_clock-position build p pos a h at n1 n2 n3 =
    let (q, ran, at', request, frames, others) = clock_advances build p pos h at in
    (q, ran, at', request, frames, others a n1 n2 n3)

-- The other components, between two cycles of the graphics unit: what the bus becomes.
abbrev pub Environment : Type 0
Environment = ℕ → Bus → Bus

-- They store bytes, and change neither LY nor the mode in STAT, which the bus keeps from them.
abbrev pub KeepsVideo : Environment → Type 0
KeepsVideo env =
    (n : ℕ) (b : Bus)
    → ((a : ℕ) → b.memory a < 256)
    → ((a : ℕ) → (env n b).memory a < 256)
      × ((env n b).memory reg_ly ≡ b.memory reg_ly)
      × ((env n b).memory reg_stat % 4 ≡ b.memory reg_stat % 4)

-- `n` cycles of the graphics unit, each followed by what the others do, in the round counted down.
unfoldable pub run : Build → Environment → ℕ → Ppu → Outcome Ppu
run build env zero p = ok p
run build env (suc n) p = do q ← machine_clock build p; run build env n (with_bus (env n q.bus) q)

environment-IsAt :
    (env : Environment) (n pos : ℕ) (q : Ppu)
    → KeepsVideo env
    → IsAt pos q
    → IsAt pos (with_bus (env n q.bus) q)
environment-IsAt env n pos q keeps at =
    let (fits, line, mode) = keeps n q.bus at.fits in
    record {
      line_register = line ∙ at.line_register;
      mode_bits = mode ∙ at.mode_bits;
      fits = fits;
      counter = at.counter;
      screen = at.screen;
      on_line = at.on_line;
      cleared = at.cleared;
    }

-- Whatever the other components do between the cycles, as long as they keep LY and the mode, `n`
-- cycles return, leave the graphics unit `n` positions further on, frames being passed, and have
-- counted these frames.
pub run-position :
    (build : Build) (env : Environment) (n pos : ℕ) (p : Ppu)
    → KeepsVideo env
    → pos < frame_length
    → p.frame_count < 2 ^ 64
    → IsAt pos p
    → (q : Ppu) × (run build env n p ≡ ok q)
      × IsAt ((pos + n) % frame_length) q
      × (q.frame_count ≡ (p.frame_count + (pos + n) / frame_length) % 2 ^ 64)
unfolding run
run-position build env zero pos p keeps h small at =
    let same : (pos + 0) % frame_length ≡ pos = omega arith in (p, refl, rw same at, omega arith)
run-position build env (suc n) pos p keeps h small at =
    let (q, ran, at', request, frames, others) = clock_advances build p pos h at in
    let q' = with_bus (env n q.bus) q in
    let next = next_position pos in
    let (r, ran', at'', frames') =
      run-position build env n next q' keeps (omega arith) (ground (arith, frames))
        (environment-IsAt env n next q keeps at') in
    let position : (pos + suc n) % frame_length ≡ (next + n) % frame_length = omega arith in
    (r, rw ran ran', rw position at'', ground (arith, frames, frames'))

-- The V-blank interrupt comes within a frame: from every position of the frame, with a frame count below 2^64, there is a number of cycles below the length of a frame after which the next cycle enters line 144 and requests the interrupt, whatever the other components do between the cycles, as long as they keep the cells of the memory bytes and change neither LY nor the mode.
pub vblank_within_frame :
    (build : Build) (env : Environment) (pos : ℕ) (p : Ppu)
    → KeepsVideo env
    → pos < frame_length
    → p.frame_count < 2 ^ 64
    → IsAt pos p
    → (n : ℕ) × (q r : Ppu) × (n < frame_length)
      × (run build env n p ≡ ok q)
      × (machine_clock build q ≡ ok r)
      × (r.bus.memory reg_if % 2 ≡ 1)
      × StandsAt 144 0 r
vblank_within_frame build env pos p keeps h small at =
    let n = (16415 + frame_length - pos) % frame_length in
    let (q, ran, at', frames) = run-position build env n pos p keeps h small at in
    let there : (pos + n) % frame_length ≡ 16415 = omega arith in
    let (r, ran', at'', request, frames', others) =
      clock_advances build q 16415 (omega arith) (rw there at at') in
    (n, q, r, omega arith, ran, ran', request, at'')
