-- ===== src/Ppu/Modes/Entering.antt =====
-- Entering a mode in src/PPU/ppu.cpp: the calls that end with the bus that `Makes` describes.
use gameboy_emulator.Base.{
  ℕ, ◌+◌, ◌*◌, ◌%◌, ◌<◌, ◌≡◌, refl, ap, ◌∙◌, inl, inr, Bool, true, false, ◌==◌, ◌||◌, Bool-cases,
  Build, Outcome, ok, ◌>>=◌, assert-true, arith,
}
use gameboy_emulator.Base.Words.{bit}
use gameboy_emulator.Bus.{Bus}
use gameboy_emulator.Bus.Hardware.{read-register}
use gameboy_emulator.Bus.Map.{reg_stat}
use gameboy_emulator.Ppu.{Ppu, bit_at, stat}
use gameboy_emulator.Ppu.Clock.{
  PpuMode, h_blank, v_blank, oam_scan, drawing, mode_of, same_mode, get_ppu_mode,
  try_request_stat_interrupt, request_if_enabled, enter_mode, set_ppu_mode,
}
use gameboy_emulator.Ppu.Modes.{
  Makes, request_stat-Makes, request_vblank-Makes, set_mode-Makes, get_ppu_mode_lem,
}

-- A call on the graphics unit `p` returns; of the fields only these differ.
pub record Ends (origin : Bus) (ly mode : ℕ) (vblank : Bool) (frames : ℕ) (p : Ppu)
    (m : Outcome Ppu) : Type 0 where
  pub bus : Bus
  pub requested : Bool
  pub ran : m ≡ ok (record p { bus = bus; stat_requested = requested; frame_count = frames })
  pub made : Makes origin bus ly mode vblank

-- `PPU_MODE`, by its number.
abbrev pub mode_number : PpuMode → ℕ
mode_number h_blank = 0
mode_number v_blank = 1
mode_number oam_scan = 2
mode_number drawing = 3

mode_number_of :
    (s : ℕ) (m : PpuMode) → s % 4 ≡ mode_number m → mode_of (bit_at s 1) (bit_at s 0) ≡ m
mode_number_of s h_blank h = ground arith
mode_number_of s v_blank h = ground arith
mode_number_of s oam_scan h = ground arith
mode_number_of s drawing h = ground arith

pub mode_known :
    (build : Build) (b : Bus) (m : PpuMode)
    → b.memory reg_stat % 4 ≡ mode_number m
    → get_ppu_mode build b ≡ ok m
mode_known build b m h =
    rw (get_ppu_mode_lem build b) (ap ok (mode_number_of (b.memory reg_stat) m h))

module _ (build : Build) (origin : Bus) (p : Ppu) (ly : ℕ) (mode : ℕ) (vblank : Bool)
    (made : Makes origin p.bus ly mode vblank) where
  pub try_request-Ends :
      Ends origin ly mode vblank p.frame_count p (try_request_stat_interrupt build p)
  unfolding try_request_stat_interrupt
  try_request-Ends = elim (Bool-cases p.stat_requested) [
    | inl already ↦ rw already (record { bus = p.bus; requested = true; ran = refl; made = made })
    | inr new ↦
        let (b', ran, made') = request_stat-Makes build origin p.bus ly mode vblank made in
        rw new (record { bus = b'; requested = true; ran = rw ran; made = made' })
  ]

  request_if_enabled-Ends :
      (enable : ℕ)
      → 2 < enable
      → Ends origin ly mode vblank p.frame_count p (request_if_enabled build enable p)
  unfolding request_if_enabled stat
  request_if_enabled-Ends enable h =
      let stored : (enable == 2) ≡ false = ground arith in
      let same : Ends origin ly mode vblank p.frame_count p (ok p) = record {
        bus = p.bus;
        requested = p.stat_requested;
        ran = refl;
        made = made;
      } in
      rw stored (
        rw (read-register build p.bus reg_stat (omega arith))
          (elim (Bool-cases (bit_at (p.bus.memory reg_stat) enable)) [
            | inr off ↦ rw off same
            | inl on ↦ rw on try_request-Ends
          ]))

  enter_mode-Ends :
      (from to : PpuMode) (msb lsb : Bool)
      → mode ≡ mode_number from
      → same_mode from to ≡ false
      → Ends origin ly
          (2 * bit msb + bit lsb)
          vblank
          p.frame_count
          p
          (enter_mode build to msb lsb p)
  unfolding enter_mode
  enter_mode-Ends from to msb lsb now differs =
      let (b₁, b₂, ran₁, ran₂, made') =
        set_mode-Makes build origin p.bus ly mode vblank made msb lsb in
      rw (mode_known build p.bus from (made.mode_bits ∙ now)) (
        rw differs (
          rw (assert-true build true refl) (record {
            bus = b₂;
            requested = p.stat_requested;
            ran = rw ran₁ (rw ran₂);
            made = made';
          })))

abbrev pub is_v_blank : PpuMode → Bool
is_v_blank v_blank = true
is_v_blank _ = false

-- One call behind another.
pub after :
    {origin : Bus} {ly ly' mode mode' : ℕ} {vblank vblank' : Bool} {frames frames' : ℕ} (p : Ppu)
    (m : Outcome Ppu) (f : Ppu → Outcome Ppu) (e : Ends origin ly mode vblank frames p m)
    → (let q = record p { bus = e.bus; stat_requested = e.requested; frame_count = frames } in
        Ends origin ly' mode' vblank' frames' q (f q))
    → Ends origin ly' mode' vblank' frames' p (m >>= f)
after p m f e r = record {
  bus = r.bus;
  requested = r.requested;
  ran = rw e.ran r.ran;
  made = r.made;
}

abbrev pub state_of :
    {origin : Bus} {ly mode : ℕ} {vblank : Bool} {frames : ℕ} {p : Ppu} {m : Outcome Ppu}
    → Ends origin ly mode vblank frames p m
    → Ppu
state_of {frames} {p} e = record p {
  bus = e.bus;
  stat_requested = e.requested;
  frame_count = frames;
}

-- Entering a mode from another one: the mode is set, and the V-blank interrupt is requested exactly
-- on entering V-blank.
pub set_ppu_mode-Ends :
    (build : Build) (origin : Bus) (p : Ppu) (ly : ℕ) (from to : PpuMode) (vblank : Bool)
    → Makes origin p.bus ly (mode_number from) vblank
    → same_mode from to ≡ false
    → Ends origin ly
        (mode_number to)
        (is_v_blank to || vblank)
        p.frame_count
        p
        (set_ppu_mode build to p)
unfolding set_ppu_mode
set_ppu_mode-Ends build origin p ly from h_blank vblank made differs =
    let e =
      enter_mode-Ends build origin p ly (mode_number from) vblank made from h_blank false false refl
        differs in
    after p _ _ e
      (request_if_enabled-Ends build origin (state_of e) ly 0 vblank e.made 3 (omega arith))
set_ppu_mode-Ends build origin p ly from oam_scan vblank made differs =
    let e =
      enter_mode-Ends build origin p ly (mode_number from) vblank made from oam_scan true false refl
        differs in
    after p _ _ e
      (request_if_enabled-Ends build origin (state_of e) ly 2 vblank e.made 5 (omega arith))
set_ppu_mode-Ends build origin p ly from drawing vblank made differs =
    enter_mode-Ends build origin p ly (mode_number from) vblank made from drawing true true refl
      differs
set_ppu_mode-Ends build origin p ly from v_blank vblank made differs =
    let e =
      enter_mode-Ends build origin p ly (mode_number from) vblank made from v_blank false true refl
        differs in
    let r = request_if_enabled-Ends build origin (state_of e) ly 1 vblank e.made 4 (omega arith) in
    let (b', ran, made') = request_vblank-Makes build origin r.bus ly 1 vblank r.made in
    after p _ _ e (
      after (state_of e) _ _ r
        (record { bus = b'; requested = r.requested; ran = rw ran; made = made' }))
