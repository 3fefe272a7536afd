-- ===== src/Lint/Nesting/Update.antt =====
-- `Update`, `InnermostClass` and `CheckCompletedBlocks` of `NestingState` of scripts/cpplint.py.
use gameboy_emulator.Base.{
  ℕ, suc, List, [], ◌∷◌, ◌++◌, Option, none, some, length, get_elem?, if◌then◌else◌,
}
use gameboy_emulator.Base.Text.{Str, codes}
use gameboy_emulator.Lint.Blocks.{
  ClassInfo, plain_block, extern_c, class_info, namespace_info, BlockInfo, check_begin,
}
use gameboy_emulator.Lint.Strings.{CleansedLines}
use gameboy_emulator.Lint.Suppress.{Report}
use gameboy_emulator.Lint.Nesting.{NestingState, seen_open_brace, on_top}
use gameboy_emulator.Lint.Nesting.Declarations.{
  update_parentheses, namespace_loop, push_class, update_access,
}
use gameboy_emulator.Lint.Nesting.Tokens.{token_loop}
use gameboy_emulator.Lint.Nesting.{update_preprocessor}

-- What is left of `Update` behind the class declaration: the check at the beginning of a block, the
-- access control, and the loop over the tokens.
unfoldable pub finish_line :
    CleansedLines → ℕ → NestingState → Str → List BlockInfo → NestingState × List Report
unfolding check_begin update_access token_loop seen_open_brace
finish_line c linenum s line stack =
    let begun = if seen_open_brace stack then stack else on_top (check_begin c linenum) stack in
    elim begun [
      | [] ↦
          (let (last, reports) = token_loop c linenum line line [] in
            (record s { stack = last }, reports))
      | b ∷ bs ↦
          (let (b', indents) = update_access linenum line b in
            let (last, reports) = token_loop c linenum line line (b' ∷ bs) in
            (record s { stack = last }, indents ++ reports))
    ]

-- `self.previous_stack_top = self.stack[-1]`, or `None`.
unfoldable pub remember_top : NestingState → NestingState
remember_top s = record s { previous_stack_top = elim s.stack [ [] ↦ none | b ∷ bs ↦ some b ] }

-- `Update`. `none` is the `IndexError` of a line that is not there, or a loop out of fuel.
unfoldable pub update : CleansedLines → ℕ → NestingState → Option (NestingState × List Report)
unfolding update_preprocessor update_parentheses finish_line remember_top
update c linenum s = elim (get_elem? c.elided linenum) [
  | none ↦ none
  | some line ↦
      let s₁ = update_preprocessor line (remember_top s) in
      let stack₁ = on_top (update_parentheses line) s₁.stack in
      elim (namespace_loop (suc (length line)) linenum line stack₁) [
        | none ↦ none
        | some (line₂, stack₂) ↦ elim (push_class c linenum line₂ stack₂) [
          | none ↦ none
          | some (line₃, stack₃) ↦ some (finish_line c linenum s₁ line₃ stack₃)
        ]
      ]
]

-- `InnermostClass`: the object, and the fields that it has as a class.
unfoldable pub innermost_class : List BlockInfo → Option (BlockInfo × ClassInfo)
innermost_class [] = none
innermost_class (b ∷ bs) = elim b.kind [ class_info info ↦ some (b, info) | _ ↦ innermost_class bs ]

incomplete : ℕ → Str → Str → Str → Report
incomplete linenum category what name = record {
  line = linenum;
  category = category;
  confidence = 5;
  message = codes "Failed to find complete declaration of " ++ (what ++ name);
}

-- The reports of `CheckCompletedBlocks` for one object.
unfoldable pub check_completed : BlockInfo → List Report
unfolding incomplete
check_completed b = elim b.kind [
  | class_info info ↦
      incomplete b.starting_linenum (codes "build/class") (codes "class ") info.name ∷ []
  | namespace_info name ↦
      incomplete b.starting_linenum (codes "build/namespaces") (codes "namespace ") name ∷ []
  | plain_block ↦ []
  | extern_c ↦ []
]

-- `CheckCompletedBlocks`, which goes from the bottom of the stack to its top.
unfoldable pub check_completed_blocks : List BlockInfo → List Report
unfolding check_completed
check_completed_blocks [] = []
check_completed_blocks (b ∷ bs) = check_completed_blocks bs ++ check_completed b
