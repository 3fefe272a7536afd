-- ===== src/Examples/Nesting.antt =====
-- The style checker's nesting state on sample lines.
use gameboy_emulator.Base.{
  ◌≡◌, List, [], ◌∷◌, Option, none, some, refl, length, ℕ, zero, suc, ◌++◌, true,
}
use gameboy_emulator.Base.Text.{Str, codes, is_space, lstrip}
use gameboy_emulator.Lint.Blocks.{BlockInfo, make_namespace, class_info, class_parent, make_class}
use gameboy_emulator.Lint.Blocks.Ends.{check_end}
use gameboy_emulator.Lint.Nesting.{NestingState, init, enter_if, enter_else, leave_if}
use gameboy_emulator.Lint.Regex.{group_of, search_re}
use gameboy_emulator.Lint.Templates.{in_template_argument_list, template_loop, template_round}
use gameboy_emulator.Lint.Nesting.Balanced.{Balanced, done, plain_text, braces, token_loop-body}
use gameboy_emulator.Lint.Nesting.Conditional.{
  Passes, passes, if_line, else_line, endif_line, no_directive, directive_of, nothing, code, branch,
  conditional-stack, resumed,
}
use gameboy_emulator.Lint.Nesting.Depth.{token_loop-depth, depth, all_seen}
use gameboy_emulator.Lint.Nesting.Tokens.{token_loop}
use gameboy_emulator.Lint.Nesting.Declarations.{namespace_loop, push_class}
use gameboy_emulator.Lint.Nesting.Total.{update_total}
use gameboy_emulator.Lint.Nesting.Update.{update}
use gameboy_emulator.Lint.Strings.{CleansedLines}
use gameboy_emulator.Lint.Suppress.{Report}

abbrev sample_lines : List Str
sample_lines =
    codes "#if LARGE"
    ∷ codes "class Mapper {"
    ∷ codes "#elif SMALL"
    ∷ codes "struct Mapper {"
    ∷ codes "#else"
    ∷ codes "class Mapper {"
    ∷ codes "#endif"
    ∷ codes "  int bank;"
    ∷ codes "};"
    ∷ []

abbrev sample : CleansedLines
sample = record {
  elided = sample_lines;
  lines = sample_lines;
  raw_lines = sample_lines;
  lines_without_raw_strings = sample_lines;
}

abbrev after : Option (NestingState × List Report) → NestingState
after none = init
after (some (s, reports)) = s

depth_test : depth (codes "{ if (x) { y; } else {") 0 ≡ 2
unfolding depth
depth_test = refl

abbrev open_blocks : List BlockInfo
open_blocks = record (make_namespace (some (codes "gb")) 0) { seen_open_brace = true } ∷ []

token_loop-depth_example :
    (length (token_loop sample 3 [] (codes "{ x; } }") open_blocks).0
      ≡ depth (codes "{ x; } }") (length open_blocks))
    × (all_seen (token_loop sample 3 [] (codes "{ x; } }") open_blocks).0 ≡ true)
unfolding all_seen make_namespace
token_loop-depth_example = token_loop-depth sample 3 [] (codes "{ x; } }") open_blocks refl

abbrev body : List ℕ
body = codes "{;}"

body-Balanced : Balanced body
body-Balanced = braces (plain_text b';' refl done) done

token_loop-body_example :
    token_loop sample 3 [] (b'{' ∷ body ++ b'}' ∷ []) (make_namespace none 3 ∷ [])
    ≡ ([], check_end sample 3 (make_namespace none 3))
unfolding make_namespace
token_loop-body_example = token_loop-body sample 3 [] body-Balanced (make_namespace none 3) [] refl

abbrev state : ℕ → NestingState
state zero = init
state (suc n) = after (update sample n (state n))

abbrev reports_at : ℕ → List Report
reports_at n = elim (update sample n (state n)) [ none ↦ [] | some (s, reports) ↦ reports ]

line_0 : Passes sample if_line 0 (state 0) (state 1)
unfolding update directive_of is_space namespace_loop lstrip push_class
line_0 = passes {reports = reports_at 0} refl refl refl

line_1 : Passes sample no_directive 1 (state 1) (state 2)
unfolding update directive_of is_space namespace_loop lstrip push_class enter_if enter_else
    in_template_argument_list template_loop template_round group_of make_class
line_1 = passes {reports = reports_at 1} refl refl refl

line_2 : Passes sample else_line 2 (state 2) (state 3)
unfolding update directive_of is_space namespace_loop lstrip push_class
line_2 = passes {reports = reports_at 2} refl refl refl

line_3 : Passes sample no_directive 3 (state 3) (state 4)
unfolding update directive_of is_space namespace_loop lstrip push_class enter_if enter_else
    in_template_argument_list template_loop template_round group_of make_class
line_3 = passes {reports = reports_at 3} refl refl refl

line_4 : Passes sample else_line 4 (state 4) (state 5)
unfolding update directive_of is_space namespace_loop lstrip push_class
line_4 = passes {reports = reports_at 4} refl refl refl

line_5 : Passes sample no_directive 5 (state 5) (state 6)
unfolding update directive_of is_space namespace_loop lstrip push_class enter_if enter_else
    in_template_argument_list template_loop template_round group_of make_class
line_5 = passes {reports = reports_at 5} refl refl refl

line_6 : Passes sample endif_line 6 (state 6) (state 7)
unfolding update directive_of is_space namespace_loop lstrip push_class
line_6 = passes {reports = reports_at 6} refl refl refl

-- The second #else or #elif of the sample, with the first one before it.
conditional-stack_example :
    ((resumed sample 4 (state 4) ≡ []) × (resumed sample 6 (state 6) ≡ (state 2).stack))
    × ((state 7).pp_stack ≡ [])
conditional-stack_example =
    conditional-stack line_0 (code line_1 nothing) (branch line_2 (code line_3 nothing) nothing)
      line_4 (code line_5 nothing) nothing line_6

abbrev class_names : List BlockInfo → List Str
class_names [] = []
class_names (b ∷ bs) = elim b.kind [
  | class_info info ↦ (class_parent info) ∷ class_names bs
  | _ ↦ class_names bs
]

first_branch_kept : class_names (state 7).stack ≡ codes "class Mapper" ∷ []
unfolding update is_space namespace_loop lstrip push_class enter_if enter_else leave_if
    in_template_argument_list template_loop template_round group_of make_class search_re
first_branch_kept = refl

update_total_example : (r : NestingState × List Report) × (update sample 3 (state 3) ≡ some r)
update_total_example = update_total sample 3 (state 3) refl
