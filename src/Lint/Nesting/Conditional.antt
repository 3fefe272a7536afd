-- ===== src/Lint/Nesting/Conditional.antt =====
-- `NestingState.Update` of scripts/cpplint.py over the lines of preprocessor conditionals.
use gameboy_emulator.Base.{
  ℕ, suc, ◌≡◌, ◌∙◌, refl, ap, true, false, List, [], ◌∷◌, some, get_elem?, arith, if◌then◌else◌,
}
use gameboy_emulator.Base.Text.{Str}
use gameboy_emulator.Lint.Blocks.{BlockInfo, matches, line_at}
use gameboy_emulator.Lint.Nesting.{
  PreprocessorInfo, NestingState, enter_if, enter_else, leave_if, update_preprocessor, if_pattern,
  else_pattern, endif_pattern,
}
use gameboy_emulator.Lint.Nesting.Update.{finish_line, remember_top, update}
use gameboy_emulator.Lint.Strings.{CleansedLines}
use gameboy_emulator.Lint.Suppress.{Report}

pub data Directive : Type 0 where
  if_line else_line endif_line no_directive : Directive

unfoldable pub directive_of : Str → Directive
directive_of line =
    if matches if_pattern line
    then if_line
    else if matches else_pattern line
    then else_line
    else if matches endif_pattern line
    then endif_line
    else no_directive

-- Line `n`, with its directive, takes one nesting state to another.
pub data Passes (c : CleansedLines) (d : Directive) (n : ℕ) (s s' : NestingState) : Type 0 where
  passes :
      {line : Str} {reports : List Report}
      → get_elem? c.elided n ≡ some line
      → directive_of line ≡ d
      → update c n s ≡ some (s', reports)
      → Passes c d n s s'

-- A text is whole where its conditionals are, and the branches of a conditional are what stands
-- between its first #else or #elif and its #endif.
pub data Part : Type 0 where
  whole branches : Part

-- Lines `n` to `m`, without the latter, take one nesting state to another.
pub data Lines (c : CleansedLines) : Part → ℕ → NestingState → ℕ → NestingState → Type 0 where
  nothing : {p : Part} {n : ℕ} {s : NestingState} → Lines c p n s n s
  code :
      {n m : ℕ} {s t s' : NestingState}
      → Passes c no_directive n s t
      → Lines c whole (suc n) t m s'
      → Lines c whole n s m s'
  conditional :
      {n k e m : ℕ} {s t u v w s' : NestingState}
      → Passes c if_line n s t
      → Lines c whole (suc n) t k u
      → Lines c branches k u e v
      → Passes c endif_line e v w
      → Lines c whole (suc e) w m s'
      → Lines c whole n s m s'
  branch :
      {n k m : ℕ} {s t u s' : NestingState}
      → Passes c else_line n s t
      → Lines c whole (suc n) t k u
      → Lines c branches k u m s'
      → Lines c branches n s m s'

finish_line-pp_stack :
    (c : CleansedLines) (n : ℕ) (s : NestingState) (line : Str) (stack : List BlockInfo)
    → (finish_line c n s line stack).0.pp_stack ≡ s.pp_stack
unfolding finish_line
finish_line-pp_stack c n s line stack = ground arith

-- Of a line, only the directive touches the stack of conditionals.
update-pp_stack :
    (c : CleansedLines) (n : ℕ) (s : NestingState) {s' : NestingState} {line : Str}
    {reports : List Report}
    → get_elem? c.elided n ≡ some line
    → update c n s ≡ some (s', reports)
    → s'.pp_stack ≡ (update_preprocessor line (remember_top s)).pp_stack
unfolding update remember_top
update-pp_stack c n s there e = grind (arith, finish_line-pp_stack)

-- What #if puts on the stack of conditionals, and what #else makes of the entry on the top.
opened : NestingState → PreprocessorInfo
opened s = record { stack_before_if = s.stack; stack_before_else = []; seen_else = false }

turned : List BlockInfo → PreprocessorInfo → PreprocessorInfo
turned stack info =
    if info.seen_else then info else record info { seen_else = true; stack_before_else = stack }

module _ {c : CleansedLines} {n : ℕ} {s s' : NestingState} where
  code-pp_stack : Passes c no_directive n s s' → s'.pp_stack ≡ s.pp_stack
  unfolding directive_of update_preprocessor remember_top
  code-pp_stack (passes {line} there plain e) = ground (arith, update-pp_stack c n s there e)

  if-pp_stack : Passes c if_line n s s' → s'.pp_stack ≡ opened s ∷ s.pp_stack
  unfolding directive_of update_preprocessor enter_if remember_top opened
  if-pp_stack (passes {line} there starts e) = ground (arith, update-pp_stack c n s there e)

  else-pp_stack :
      {info : PreprocessorInfo} {infos : List PreprocessorInfo}
      → s.pp_stack ≡ info ∷ infos
      → Passes c else_line n s s'
      → s'.pp_stack ≡ turned s.stack info ∷ infos
  unfolding directive_of update_preprocessor enter_else remember_top turned
  else-pp_stack top (passes {line} there turns e) = ground (arith, update-pp_stack c n s there e)

  endif-pp_stack :
      {info : PreprocessorInfo} {infos : List PreprocessorInfo}
      → s.pp_stack ≡ info ∷ infos
      → Passes c endif_line n s s'
      → s'.pp_stack ≡ infos
  unfolding directive_of update_preprocessor leave_if remember_top
  endif-pp_stack top (passes {line} there ends e) = ground (arith, update-pp_stack c n s there e)

-- What lines keep of the stack of conditionals: all of it, or all but the entry on the top, which
-- an #else sets once and for all.
Kept : Part → NestingState → NestingState → Type 0
Kept whole s s' = s'.pp_stack ≡ s.pp_stack
Kept branches s s' =
    (info : PreprocessorInfo) (infos : List PreprocessorInfo)
    → s.pp_stack ≡ info ∷ infos
    → (info' : PreprocessorInfo) × (s'.pp_stack ≡ info' ∷ infos)
      × (info'.stack_before_if ≡ info.stack_before_if)
      × (info.seen_else ≡ true → info' ≡ info)

nothing-Kept : (p : Part) (s : NestingState) → Kept p s s
unfolding Kept
nothing-Kept whole s = refl
nothing-Kept branches s = λ info infos e. (info, e, refl, λ seen. refl)

turned-lem :
    (stack : List BlockInfo) (info : PreprocessorInfo)
    → (((turned stack info).stack_before_if ≡ info.stack_before_if)
        × ((turned stack info).seen_else ≡ true))
      × (info.seen_else ≡ true → turned stack info ≡ info)
unfolding turned
turned-lem stack info = ((ground arith, ground arith), λ seen. ground arith)

Lines-Kept :
    {c : CleansedLines} {p : Part} {n m : ℕ} {s s' : NestingState}
    → Lines c p n s m s'
    → Kept p s s'
unfolding Kept opened
Lines-Kept (nothing {p} {n} {s}) = nothing-Kept p s
Lines-Kept (code now rest) = Lines-Kept rest ∙ code-pp_stack now
Lines-Kept (conditional {s = s} {t = t} starts first others ends rest) =
    let on = Lines-Kept first ∙ if-pp_stack starts in
    let (info, top, before_if, seen) = Lines-Kept others (opened s) s.pp_stack on in
    Lines-Kept rest ∙ endif-pp_stack top ends
Lines-Kept (branch {s = s} turns first others) = λ info infos e.
    let ((same_before, marked), same) = turned-lem s.stack info in
    let on = Lines-Kept first ∙ else-pp_stack e turns in
    let (info', top, before_if, seen) = Lines-Kept others (turned s.stack info) infos on in
    (info', top, before_if ∙ same_before, λ was. seen marked ∙ same was)

Lines-pp_stack :
    {c : CleansedLines} {n m : ℕ} {s s' : NestingState}
    → Lines c whole n s m s'
    → s'.pp_stack ≡ s.pp_stack
unfolding Kept
Lines-pp_stack run = Lines-Kept run

-- The blocks with which the rest of line `n` goes on behind its directive.
unfoldable pub resumed : CleansedLines → ℕ → NestingState → List BlockInfo
resumed c n s = (update_preprocessor (line_at c.elided n) s).stack

else-resumed :
    {c : CleansedLines} {n : ℕ} {s s' : NestingState} {info : PreprocessorInfo}
    {infos : List PreprocessorInfo}
    → s.pp_stack ≡ info ∷ infos
    → Passes c else_line n s s'
    → resumed c n s ≡ info.stack_before_if
unfolding resumed directive_of update_preprocessor enter_else
else-resumed top (passes there turns e) = ground arith

endif-resumed :
    {c : CleansedLines} {n : ℕ} {s s' : NestingState} {info : PreprocessorInfo}
    {infos : List PreprocessorInfo}
    → s.pp_stack ≡ info ∷ infos
    → Passes c endif_line n s s'
    → resumed c n s ≡ (if info.seen_else then info.stack_before_else else s.stack)
unfolding resumed directive_of update_preprocessor leave_if
endif-resumed top (passes there ends e) = ground arith

-- Some of the branches: an #else behind them makes of the entry on the top what it would have made
-- of it in front of them.
branches-turned :
    {c : CleansedLines} {n m : ℕ} {s s' : NestingState}
    → Lines c branches n s m s'
    → (info : PreprocessorInfo) (infos : List PreprocessorInfo) → s.pp_stack ≡ info ∷ infos
    → (info' : PreprocessorInfo) × (s'.pp_stack ≡ info' ∷ infos)
      × (info'.stack_before_if ≡ info.stack_before_if)
      × (turned s'.stack info' ≡ turned s.stack info)
unfolding Kept
branches-turned nothing info infos e = (info, e, refl, refl)
branches-turned (branch {s = s} {s' = s'} turns first others) info infos e =
    let ((same_before, marked), same) = turned-lem s.stack info in
    let on = Lines-Kept first ∙ else-pp_stack e turns in
    let (info', top, before_if, seen) = Lines-Kept others (turned s.stack info) infos on in
    (
      info',
      top,
      before_if ∙ same_before,
      ap (λ i. turned s'.stack i) (seen marked)
          ∙ (turned-lem s'.stack (turned s.stack info)).1 marked,
    )

-- A conditional, its own conditionals whole, and any #else or #elif of it, with any number of others before and behind it: the blocks there are those before the #if, at the #endif they are those that the first branch has left, and the conditional is off the stack.
pub conditional-stack :
    {c : CleansedLines} {n k j l e : ℕ} {s t u v w x y z : NestingState}
    → Passes c if_line n s t
    → Lines c whole (suc n) t k u
    → Lines c branches k u j v
    → Passes c else_line j v w
    → Lines c whole (suc j) w l x
    → Lines c branches l x e y
    → Passes c endif_line e y z
    → ((resumed c j v ≡ s.stack) × (resumed c e y ≡ u.stack)) × (z.pp_stack ≡ s.pp_stack)
unfolding Kept opened turned
conditional-stack {s = s} {u = u} {v = v} {y = y} starts first before turns own others ends =
    let on = Lines-pp_stack first ∙ if-pp_stack starts in
    let (now, on_top, before_if, same_turn) = branches-turned before (opened s) s.pp_stack on in
    let turned_top =
      Lines-pp_stack own
      ∙ else-pp_stack on_top turns
      ∙ ap (λ (i : PreprocessorInfo). i ∷ s.pp_stack) same_turn in
    let (info', top, if_stack, same) =
      Lines-Kept others (turned u.stack (opened s)) s.pp_stack turned_top in
    (
      (
        else-resumed on_top turns ∙ before_if,
        endif-resumed top ends
            ∙ ap (λ i. if i.seen_else then i.stack_before_else else y.stack) (same refl),
      ),
      endif-pp_stack top ends,
    )
