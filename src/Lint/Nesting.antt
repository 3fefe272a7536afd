-- ===== src/Lint/Nesting.antt =====
-- `_PreprocessorInfo` and `NestingState` of scripts/cpplint.py: the stack of the blocks around a
-- line, its top first. The objects on it are values, so `copy.deepcopy` is the value itself: an
-- object is changed in place only while it is on the top, and the stacks that are saved hold deep
-- copies. `previous_stack_top`, `none` where the code has `[]` or `None`, is the object as it was
-- before the line; its readers look at the class of the object, which no operation changes, and
-- one of them at which object it is, which a value does not say.
pub mod Declarations
pub mod Tokens
pub mod Update
pub mod Depth
pub mod Balanced
pub mod Conditional
pub mod Total
use gameboy_emulator.Base.{Bool, true, false, List, [], ◌∷◌, Option, none, if◌then◌else◌}
use gameboy_emulator.Base.Text.{Str, codes}
use gameboy_emulator.Lint.Blocks.{no_asm, extern_c, class_info, namespace_info, BlockInfo, matches}
use gameboy_emulator.Lint.Regex.{
  Regex, boundary, line_start, seq, alt, star, group, char, space, literal,
}

pub record PreprocessorInfo : Type 0 where
  pub stack_before_if : List BlockInfo
  pub stack_before_else : List BlockInfo
  pub seen_else : Bool

pub record NestingState : Type 0 where
  pub stack : List BlockInfo
  pub previous_stack_top : Option BlockInfo
  pub pp_stack : List PreprocessorInfo

abbrev pub init : NestingState
init = record { stack = []; previous_stack_top = none; pp_stack = [] }

unfoldable pub seen_open_brace : List BlockInfo → Bool
seen_open_brace [] = true
seen_open_brace (b ∷ bs) = b.seen_open_brace

-- What an operation on the innermost block does to the stack.
abbrev pub on_top : (BlockInfo → BlockInfo) → List BlockInfo → List BlockInfo
on_top f [] = []
on_top f (b ∷ bs) = f b ∷ bs

unfoldable pub in_namespace_body : NestingState → Bool
in_namespace_body s = elim s.stack [
  | [] ↦ false
  | b ∷ bs ↦ elim b.kind [ namespace_info n ↦ true | _ ↦ false ]
]

unfoldable pub in_extern_c : NestingState → Bool
in_extern_c s = elim s.stack [ [] ↦ false | b ∷ bs ↦ elim b.kind [ extern_c ↦ true | _ ↦ false ] ]

unfoldable pub in_class_declaration : NestingState → Bool
in_class_declaration s = elim s.stack [
  | [] ↦ false
  | b ∷ bs ↦ elim b.kind [ class_info i ↦ true | _ ↦ false ]
]

unfoldable pub in_asm_block : NestingState → Bool
in_asm_block s = elim s.stack [
  | [] ↦ false
  | b ∷ bs ↦ elim b.inline_asm [ no_asm ↦ false | _ ↦ true ]
]

-- ^\s*#\s*, and what follows it in a pattern.
pub directive : Regex → Regex
directive rest =
    seq line_start (seq (star space) (seq (char b'#') (seq (star space) (seq rest boundary))))

-- ^\s*#\s*(if|ifdef|ifndef)\b
unfoldable pub if_pattern : Regex
unfolding directive literal
if_pattern = directive (
    group 1 (alt (literal (codes "if")) (alt (literal (codes "ifdef")) (literal (codes "ifndef")))))

-- ^\s*#\s*(else|elif)\b
unfoldable pub else_pattern : Regex
unfolding directive literal
else_pattern = directive (group 1 (alt (literal (codes "else")) (literal (codes "elif"))))

-- ^\s*#\s*endif\b
unfoldable pub endif_pattern : Regex
unfolding directive literal
endif_pattern = directive (literal (codes "endif"))

-- The branch of #else and #elif.
unfoldable pub enter_else : NestingState → NestingState
enter_else s = elim s.pp_stack [
  | [] ↦ s
  | info ∷ infos ↦
      let info' =
        if info.seen_else
        then info
        else record info { seen_else = true; stack_before_else = s.stack } in
      record s { stack = info'.stack_before_if; pp_stack = info' ∷ infos }
]

-- The branch of #endif.
unfoldable pub leave_if : NestingState → NestingState
leave_if s = elim s.pp_stack [
  | [] ↦ s
  | info ∷ infos ↦ record s {
    stack = if info.seen_else then info.stack_before_else else s.stack;
    pp_stack = infos;
  }
]

-- The branch of #if.
unfoldable pub enter_if : NestingState → NestingState
enter_if s = record s {
  pp_stack =
      record { stack_before_if = s.stack; stack_before_else = []; seen_else = false } ∷ s.pp_stack;
}

unfoldable pub update_preprocessor : Str → NestingState → NestingState
unfolding if_pattern else_pattern endif_pattern
update_preprocessor line s =
    if matches if_pattern line
    then enter_if s
    else if matches else_pattern line
    then enter_else s
    else if matches endif_pattern line
    then leave_if s
    else s
