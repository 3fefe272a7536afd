-- ===== src/Lint/Nesting/Balanced.antt =====
-- The token loop of `NestingState.Update` of scripts/cpplint.py on balanced text.
use mathlib.Core.List.{append_assoc, append-nil}
use gameboy_emulator.Base.{
  ℕ, ◌≡◌, ◌∙◌, refl, ap, inl, inr, true, false, List, [], ◌∷◌, ◌++◌, Bool-cases, arith, ◌==◌, ◌||◌,
}
use gameboy_emulator.Base.Text.{Str}
use gameboy_emulator.Lint.Blocks.{BlockInfo}
use gameboy_emulator.Lint.Blocks.Ends.{check_end}
use gameboy_emulator.Lint.Nesting.{seen_open_brace}
use gameboy_emulator.Lint.Nesting.Depth.{open_brace-new}
use gameboy_emulator.Lint.Nesting.Tokens.{open_brace, pop, take_token, token_loop}
use gameboy_emulator.Lint.Strings.{CleansedLines}

-- Text whose braces are balanced.
pub data Balanced : Str → Type 0 where
  done : Balanced []
  plain_text : {w : Str} (x : ℕ) → (x == b'{' || x == b'}') ≡ false → Balanced w → Balanced (x ∷ w)
  braces : {v w : Str} → Balanced v → Balanced w → Balanced (b'{' ∷ v ++ b'}' ∷ w)

token-plain :
    (c : CleansedLines) (linenum : ℕ) (line : Str) (x : ℕ) (stack : List BlockInfo)
    → (x == b'{' || x == b'}') ≡ false
    → seen_open_brace stack ≡ true
    → (x == b'{' || x == b';' || x == b')' || x == b'}') ≡ true
    → take_token c linenum line x stack ≡ (stack, [])
unfolding take_token
token-plain c linenum line x stack brace seen token = ground arith

-- A token without a report.
loop-token :
    (c : CleansedLines) (linenum : ℕ) (line : Str) (x : ℕ) (xs : Str) (stack : List BlockInfo)
    {stack' : List BlockInfo}
    → (x == b'{' || x == b';' || x == b')' || x == b'}') ≡ true
    → take_token c linenum line x stack ≡ (stack', [])
    → token_loop c linenum line (x ∷ xs) stack ≡ token_loop c linenum xs xs stack'
unfolding token_loop
loop-token c linenum line x xs stack token e = rw (token, e) refl

loop-text :
    (c : CleansedLines) (linenum : ℕ) (line : Str) (x : ℕ) (xs : Str) (stack : List BlockInfo)
    → (x == b'{' || x == b';' || x == b')' || x == b'}') ≡ false
    → token_loop c linenum line (x ∷ xs) stack ≡ token_loop c linenum line xs stack
unfolding token_loop
loop-text c linenum line x xs stack other = rw other refl

take-opening :
    (c : CleansedLines) (linenum : ℕ) (line : Str) (stack : List BlockInfo)
    → take_token c linenum line b'{' stack ≡ (open_brace linenum line stack, [])
unfolding take_token
take-opening c linenum line stack = refl

take-closing :
    (c : CleansedLines) (linenum : ℕ) (line : Str) (b : BlockInfo) (bs : List BlockInfo)
    → take_token c linenum line b'}' (b ∷ bs) ≡ (bs, check_end c linenum b)
unfolding take_token pop
take-closing c linenum line b bs = refl

-- The rest of the loop behind a balanced text has the stack that was there before it.
loop-behind :
    {v : Str} (bal : Balanced v) (c : CleansedLines) (linenum : ℕ) (line rest : Str)
    (stack : List BlockInfo)
    → seen_open_brace stack ≡ true
    → (line' : Str) × (token_loop c linenum line (v ++ rest) stack
        ≡ token_loop c linenum line' rest stack)
unfolding seen_open_brace
loop-behind done c linenum line rest stack seen = (line, refl)
loop-behind (plain_text {w} x brace bal) c linenum line rest stack seen =
    elim (Bool-cases (x == b'{' || x == b';' || x == b')' || x == b'}')) [
      | inl token ↦
          let (line', e) = loop-behind bal c linenum (w ++ rest) rest stack seen in
          (
            line',
            loop-token c linenum line x (w ++ rest) stack token
                  (token-plain c linenum line x stack brace seen token)
                ∙ e,
          )
      | inr other ↦
          let (line', e) = loop-behind bal c linenum line rest stack seen in
          (line', loop-text c linenum line x (w ++ rest) stack other ∙ e)
    ]
loop-behind (braces {v} {w} inner bal) c linenum line rest stack seen =
    let (b, e, own, quiet) = open_brace-new linenum line stack seen in
    let text = v ++ b'}' ∷ (w ++ rest) in
    let (line₁, first) = loop-behind inner c linenum text (b'}' ∷ (w ++ rest)) (b ∷ stack) own in
    let (line₂, second) = loop-behind bal c linenum (w ++ rest) rest stack seen in
    (
      line₂,
      ap (λ s. token_loop c linenum line (b'{' ∷ s) stack) (append_assoc v (b'}' ∷ w) rest)
          ∙ loop-token c linenum line b'{' text stack refl
              (take-opening c linenum line stack ∙ ap (λ bs. (bs, [])) e)
          ∙ first
          ∙ loop-token c linenum line₁ b'}' (w ++ rest) (b ∷ stack) refl
              (take-closing c linenum line₁ b stack ∙ ap (λ r. (stack, r)) (quiet c linenum))
          ∙ second,
    )

open_own :
    (linenum : ℕ) (line : Str) (b : BlockInfo) (bs : List BlockInfo)
    → b.seen_open_brace ≡ false
    → open_brace linenum line (b ∷ bs) ≡ record b { seen_open_brace = true } ∷ bs
unfolding open_brace seen_open_brace
open_own linenum line b bs unseen = rw unseen refl

close-last :
    (c : CleansedLines) (linenum : ℕ) (line : Str) (b : BlockInfo) (bs : List BlockInfo)
    → token_loop c linenum line (b'}' ∷ []) (b ∷ bs) ≡ (bs, check_end c linenum b)
unfolding token_loop take_token pop
close-last c linenum line b bs = ap (λ r. (bs, r)) (append-nil (check_end c linenum b))

-- A block whose brace is still to come, a namespace or a class at its declaration, takes the first
-- brace for its own: a balanced text in braces ends that block and no other, and the reports are
-- those of the check at its end.
pub token_loop-body :
    (c : CleansedLines) (linenum : ℕ) (line : Str) {w : Str} (bal : Balanced w) (b : BlockInfo)
    (bs : List BlockInfo)
    → b.seen_open_brace ≡ false
    → token_loop c linenum line (b'{' ∷ w ++ b'}' ∷ []) (b ∷ bs) ≡ (bs, check_end c linenum b)
unfolding check_end seen_open_brace
token_loop-body c linenum line {w} bal b bs unseen =
    let begun = record b { seen_open_brace = true } in
    let text = w ++ b'}' ∷ [] in
    let (line', inside) = loop-behind bal c linenum text (b'}' ∷ []) (begun ∷ bs) refl in
    loop-token c linenum line b'{' text (b ∷ bs) refl (
      take-opening c linenum line (b ∷ bs)
      ∙ ap (λ st. (st, [])) (open_own linenum line b bs unseen))
    ∙ inside
    ∙ close-last c linenum line' begun bs
