-- ===== src/Lint/Nesting/Depth.antt =====
-- The token loop of `NestingState.Update` of scripts/cpplint.py against a counter of braces.
use gameboy_emulator.Base.{
  ℕ, suc, ◌-◌, ◌≡◌, inl, inr, refl, Bool, true, List, [], ◌∷◌, length, Bool-cases, arith, ◌==◌,
  if◌then◌else◌, ◌&&◌, ◌||◌,
}
use gameboy_emulator.Base.Text.{Str}
use gameboy_emulator.Lint.Blocks.{BlockInfo, block_info, extern_c_info, matches, block_asm}
use gameboy_emulator.Lint.Blocks.Ends.{check_end}
use gameboy_emulator.Lint.Nesting.{seen_open_brace}
use gameboy_emulator.Lint.Nesting.Declarations.{asm_pattern}
use gameboy_emulator.Lint.Nesting.Tokens.{extern_pattern, open_brace, pop, take_token, token_loop}
use gameboy_emulator.Lint.Strings.{CleansedLines}

-- Every block of the stack has its brace.
unfoldable pub all_seen : List BlockInfo → Bool
all_seen [] = true
all_seen (b ∷ bs) = b.seen_open_brace && all_seen bs

-- The abstract machine: a number of open braces, which a closing brace too many leaves at 0.
unfoldable pub depth : Str → ℕ → ℕ
depth [] n = n
depth (x ∷ xs) n = depth xs (if x == b'{' then suc n else if x == b'}' then n - 1 else n)

-- A brace on a stack whose top has its own opens a block that has one, and that ends in silence.
pub open_brace-new :
    (linenum : ℕ) (line : Str) (stack : List BlockInfo)
    → seen_open_brace stack ≡ true
    → (b : BlockInfo) × (open_brace linenum line stack ≡ b ∷ stack)
      × (b.seen_open_brace ≡ true)
      × ((c : CleansedLines) (last : ℕ) → check_end c last b ≡ [])
unfolding open_brace check_end block_info extern_c_info
open_brace-new linenum line stack seen = elim (Bool-cases (matches extern_pattern line)) [
  | inl e ↦ (extern_c_info linenum, ground arith, refl, λ c last. refl)
  | inr c_plus ↦ elim (Bool-cases (matches asm_pattern line)) [
    | inl e ↦ (
      record (block_info linenum true) { inline_asm = block_asm },
      ground arith,
      refl,
      λ c last. refl,
    )
    | inr plain ↦ (block_info linenum true, ground arith, refl, λ c last. refl)
  ]
]

all_seen-top : (stack : List BlockInfo) → all_seen stack ≡ true → seen_open_brace stack ≡ true
unfolding all_seen seen_open_brace
all_seen-top [] h = refl
all_seen-top (b ∷ bs) h = ground arith

pop-depth :
    (c : CleansedLines) (linenum : ℕ) (line : Str) (x : ℕ) (stack : List BlockInfo)
    → (x == b'}') ≡ true
    → all_seen stack ≡ true
    → (length (take_token c linenum line x stack).0 ≡ (
        if x == b'{'
        then suc (length stack)
        else if x == b'}'
        then length stack - 1
        else length stack))
      × (all_seen (take_token c linenum line x stack).0 ≡ true)
unfolding take_token pop all_seen
pop-depth c linenum line x [] closing h = (ground arith, ground arith)
pop-depth c linenum line x (b ∷ bs) closing h = (ground arith, ground arith)

take_token-depth :
    (c : CleansedLines) (linenum : ℕ) (line : Str) (x : ℕ) (stack : List BlockInfo)
    → (x == b'{' || x == b';' || x == b')' || x == b'}') ≡ true
    → all_seen stack ≡ true
    → (length (take_token c linenum line x stack).0 ≡ (
        if x == b'{'
        then suc (length stack)
        else if x == b'}'
        then length stack - 1
        else length stack))
      × (all_seen (take_token c linenum line x stack).0 ≡ true)
unfolding take_token pop all_seen
take_token-depth c linenum line x stack token h = elim (Bool-cases (x == b'{')) [
  | inl opening ↦
      let (b, e, seen, quiet) = open_brace-new linenum line stack (all_seen-top stack h) in
      (ground arith, ground arith)
  | inr other ↦ elim (Bool-cases (x == b'}')) [
    | inl closing ↦ pop-depth c linenum line x stack closing h
    | inr end ↦ (ground (arith, all_seen-top stack h), ground (arith, all_seen-top stack h))
  ]
]

-- On a stack of blocks that all have their brace, the loop over the tokens of a line keeps that
-- property and counts: the blocks behind the line are as many as the counter of braces says.
pub token_loop-depth :
    (c : CleansedLines) (linenum : ℕ) (line w : Str) (stack : List BlockInfo)
    → all_seen stack ≡ true
    → (length (token_loop c linenum line w stack).0 ≡ depth w (length stack))
      × (all_seen (token_loop c linenum line w stack).0 ≡ true)
unfolding token_loop depth
token_loop-depth c linenum line [] stack h = (refl, h)
token_loop-depth c linenum line (x ∷ xs) stack h =
    elim (Bool-cases (x == b'{' || x == b';' || x == b')' || x == b'}')) [
      | inl token ↦
          let (one, seen) = take_token-depth c linenum line x stack token h in
          let (long, last) =
            token_loop-depth c linenum xs xs (take_token c linenum line x stack).0 seen in
          (ground arith, ground arith)
      | inr text ↦
          let (long, last) = token_loop-depth c linenum line xs stack h in
          (ground arith, ground arith)
    ]
