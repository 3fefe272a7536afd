-- ===== src/Lint/Nesting/Tokens.antt =====
-- The last loop of `NestingState.Update` of scripts/cpplint.py: the braces and semicolons of a line.
use gameboy_emulator.Base.{ℕ, true, List, [], ◌∷◌, ◌++◌, ◌==◌, if◌then◌else◌, not, ◌||◌}
use gameboy_emulator.Base.Text.{Str, codes}
use gameboy_emulator.Lint.Blocks.{block_asm, BlockInfo, block_info, extern_c_info, matches}
use gameboy_emulator.Lint.Blocks.Ends.{check_end}
use gameboy_emulator.Lint.Regex.{Regex, line_start, set, seq, star, char, space, literal}
use gameboy_emulator.Lint.Strings.{CleansedLines}
use gameboy_emulator.Lint.Suppress.{Report}
use gameboy_emulator.Lint.Nesting.{seen_open_brace, on_top}
use gameboy_emulator.Lint.Nesting.Declarations.{asm_pattern}

-- ^extern\s*"[^"]*"\s*\{
unfoldable pub extern_pattern : Regex
unfolding literal
extern_pattern = seq line_start (
    seq (literal (codes "extern")) (
      seq (star space) (
        seq (char b'"') (
          seq (star (set (λ x. not (x == b'"'))))
            (seq (char b'"') (seq (star space) (char b'{')))))))

-- An opening brace at line `line`, the text from the token before it on.
unfoldable pub open_brace : ℕ → Str → List BlockInfo → List BlockInfo
unfolding extern_pattern asm_pattern
open_brace linenum line stack =
    if not (seen_open_brace stack)
    then on_top (λ b. record b { seen_open_brace = true }) stack
    else if matches extern_pattern line
    then extern_c_info linenum ∷ stack
    else (if matches asm_pattern line
        then record (block_info linenum true) { inline_asm = block_asm }
        else block_info linenum true)
      ∷ stack

unfoldable pub pop : List BlockInfo → List BlockInfo
pop [] = []
pop (b ∷ bs) = bs

-- What one token does to the stack, and the reports of a block that it ends.
unfoldable pub take_token :
    CleansedLines → ℕ → Str → ℕ → List BlockInfo → List BlockInfo × List Report
unfolding open_brace pop seen_open_brace
take_token c linenum line token stack =
    if token == b'{'
    then (open_brace linenum line stack, [])
    else if token == b';' || token == b')'
    then (if seen_open_brace stack then stack else pop stack, [])
    else (pop stack, elim stack [ [] ↦ [] | b ∷ bs ↦ check_end c linenum b ])

-- The loop over the braces and semicolons of a line; every round takes a character. The first
-- text is the one that `line` holds, the second what of it is still to be searched for a token.
unfoldable pub token_loop :
    CleansedLines → ℕ → Str → Str → List BlockInfo → List BlockInfo × List Report
unfolding take_token
token_loop c linenum line [] stack = (stack, [])
token_loop c linenum line (x ∷ xs) stack =
    if x == b'{' || x == b';' || x == b')' || x == b'}'
    then (let (stack', reports) = take_token c linenum line x stack in
        let (last, others) = token_loop c linenum xs xs stack' in (last, reports ++ others))
    else token_loop c linenum line xs stack
