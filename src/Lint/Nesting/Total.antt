-- ===== src/Lint/Nesting/Total.antt =====
-- `NestingState.Update` of scripts/cpplint.py returns: its loops over a line go forward.
use gameboy_emulator.Base.{
  ℕ, zero, suc, ◌+◌, ◌<◌, ◌≤◌, ◌≡◌, inl, inr, refl, true, List, [], ◌∷◌, Option, none, some,
  get_elem?, length, length-drop, drop, Bool-cases, Option-cases, arith,
}
use gameboy_emulator.Base.Text.{Str, codes, lstrip, starts_with, find}
use gameboy_emulator.Lint.Blocks.{BlockInfo, make_namespace, group_or_empty}
use gameboy_emulator.Lint.Nesting.{NestingState, on_top, update_preprocessor}
use gameboy_emulator.Lint.Nesting.Declarations.{
  take_name, namespace_decl, namespace_loop, class_pattern, push_class, update_parentheses,
}
use gameboy_emulator.Lint.Nesting.Update.{finish_line, remember_top, update}
use gameboy_emulator.Lint.Regex.{match_re}
use gameboy_emulator.Lint.Strings.{CleansedLines}
use gameboy_emulator.Lint.Suppress.{Report}
use gameboy_emulator.Lint.Templates.Progress.{in_template_argument_list_total}

take_name-le : (s : Str) → length (take_name s).1 ≤ length s
unfolding take_name
take_name-le [] = omega arith
take_name-le (c ∷ cs) = ground (arith, take_name-le cs)

lstrip-le : (s : Str) → length (lstrip s) ≤ length s
unfolding lstrip
lstrip-le [] = omega arith
lstrip-le (x ∷ xs) = ground (arith, lstrip-le xs)

no_namespace : namespace_decl [] ≡ none
unfolding namespace_decl lstrip
no_namespace = refl

nonempty : (s : Str) → starts_with s (codes "namespace") ≡ true → 0 < length s
nonempty [] e = absurd (ground arith)
nonempty (x ∷ xs) e = omega arith

-- What follows a namespace declaration is shorter than the line.
namespace_decl-shorter :
    (line : Str) (name : Option Str) (rest : Str)
    → namespace_decl line ≡ some (name, rest)
    → length rest < length line
unfolding namespace_decl
namespace_decl-shorter line name rest e =
    elim (Bool-cases (starts_with (lstrip line) (codes "namespace"))) [
      | inr other ↦ absurd (ground arith)
      | inl begins ↦ ground (
        arith,
        nonempty (lstrip line) begins,
        lstrip-le line,
        length-drop 9 (lstrip line),
        lstrip-le (drop 9 (lstrip line)),
        take_name-le (lstrip (drop 9 (lstrip line))),
      )
    ]

namespace_loop_total :
    (fuel linenum : ℕ) (line : Str) (stack : List BlockInfo)
    → length line < fuel
    → (r : Str × List BlockInfo) × (namespace_loop fuel linenum line stack ≡ some r)
unfolding namespace_loop
namespace_loop_total zero linenum line stack h = absurd (omega arith)
namespace_loop_total (suc fuel) linenum line stack h = elim (Option-cases (namespace_decl line)) [
  | inl none_left ↦ ((line, stack), ground arith)
  | inr ((name, rest), there) ↦
      let shorter = namespace_decl-shorter line name rest there in
      elim (Option-cases (find rest (codes "{"))) [
        | inl absent ↦
            let (r, e) =
              namespace_loop_total fuel linenum rest (make_namespace name linenum ∷ stack)
                (omega arith) in
            (r, ground arith)
        | inr (i, found) ↦
            let (r, e) =
              namespace_loop_total fuel linenum (drop (i + 1) rest)
                (record (make_namespace name linenum) { seen_open_brace = true } ∷ stack)
                (omega (arith, length-drop (i + 1) rest)) in
            (r, ground arith)
      ]
]

push_class_total :
    (c : CleansedLines) (linenum : ℕ) (line : Str) (stack : List BlockInfo)
    → (r : Str × List BlockInfo) × (push_class c linenum line stack ≡ some r)
unfolding push_class
push_class_total c linenum line stack = elim (Option-cases (push_class c linenum line stack)) [
  | inr (r, e) ↦ (r, e)
  | inl out ↦ elim (Option-cases (match_re class_pattern line)) [
    | inl other ↦ absurd (ground arith)
    | inr (m, matched) ↦
        let (b, ends) =
          in_template_argument_list_total c.elided linenum (length (group_or_empty 1 m)) in
        absurd (ground arith)
  ]
]

-- `Update` returns at every line that is there, in every state: its loops have enough fuel.
pub update_total :
    (c : CleansedLines) (linenum : ℕ) (s : NestingState) {line : Str}
    → get_elem? c.elided linenum ≡ some line
    → (r : NestingState × List Report) × (update c linenum s ≡ some r)
unfolding update remember_top
update_total c linenum s {line} there =
    let s₁ = update_preprocessor line (remember_top s) in
    let ((line₂, stack₂), names) =
      namespace_loop_total (suc (length line)) linenum line
        (on_top (update_parentheses line) s₁.stack) (omega arith) in
    let ((line₃, stack₃), pushed) = push_class_total c linenum line₂ stack₂ in
    (finish_line c linenum s₁ line₃ stack₃, ground arith)
