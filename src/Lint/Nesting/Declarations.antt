-- ===== src/Lint/Nesting/Declarations.antt =====
-- What `NestingState.Update` of scripts/cpplint.py reads of a line before its braces: parentheses,
-- inline assembly, namespaces, a class declaration and an access control keyword.
use gameboy_emulator.Base.{
  ℕ, zero, suc, ◌+◌, Bool, true, false, List, [], ◌∷◌, ◌++◌, Option, none, some, length, drop, leb,
  ◌==◌, if◌then◌else◌, not, ◌&&◌, ◌||◌,
}
use gameboy_emulator.Base.Int.{sub_ℕ, ◌+ℤ◌, is_ℕ}
use gameboy_emulator.Base.Text.{Str, codes, starts_with, count, find, lstrip}
use gameboy_emulator.Lint.Blocks.{
  no_asm, inside_asm, end_asm, block_asm, class_info, BlockInfo, make_namespace, make_class,
  matches, group_or_empty, class_parent, blank_pattern,
}
use gameboy_emulator.Lint.Regex.{
  Regex, is_word, boundary, line_start, line_end, set, seq, alt, star, group, char, any_char, space,
  plus, opt, literal, match_re,
}
use gameboy_emulator.Lint.Strings.{CleansedLines}
use gameboy_emulator.Lint.Suppress.{Report}
use gameboy_emulator.Lint.Templates.{in_template_argument_list}

-- ^\s*(?:asm|_asm|__asm|__asm__)(?:\s+(volatile|__volatile__))?\s*[{(]
unfoldable pub asm_pattern : Regex
unfolding literal
asm_pattern = seq line_start (
    seq (star space) (
      seq
        (alt (literal (codes "asm")) (
          alt (literal (codes "_asm")) (alt (literal (codes "__asm")) (literal (codes "__asm__")))))
        (seq
          (opt (
            seq (plus space)
              (group 1 (alt (literal (codes "volatile")) (literal (codes "__volatile__"))))))
          (seq (star space) (set (λ x. x == b'{' || x == b'('))))))

-- The parentheses of a line, and the inline assembly, on the innermost block.
unfoldable pub update_parentheses : Str → BlockInfo → BlockInfo
unfolding count asm_pattern
update_parentheses line b =
    let opened = count line (codes "(") in
    let closed = count line (codes ")") in
    let open_now = b.open_parentheses +ℤ sub_ℕ opened closed in
    let entering =
      if not (opened == closed) && (is_ℕ open_now 1 && matches asm_pattern line)
      then inside_asm
      else no_asm in
    record b {
      open_parentheses = open_now;
      inline_asm = elim b.inline_asm [
        | no_asm ↦ entering
        | end_asm ↦ entering
        | inside_asm ↦ if is_ℕ open_now 0 then end_asm else inside_asm
        | block_asm ↦ block_asm
      ];
    }

-- [:\w]+, as much as there is, and the rest.
unfoldable pub take_name : Str → Str × Str
take_name [] = ([], [])
take_name (c ∷ cs) =
    let (name, rest) = take_name cs in
    if c == b':' || is_word c then (c ∷ name, rest) else ([], c ∷ cs)

-- ^\s*namespace\b\s*([:\w]+)?(.*)$, with its groups.
unfoldable pub namespace_decl : Str → Option (Option Str × Str)
unfolding take_name
namespace_decl line =
    let text = lstrip line in
    let behind = drop 9 text in
    if not (starts_with text (codes "namespace"))
    then none
    else if (elim behind [ [] ↦ false | c ∷ cs ↦ is_word c ])
    then none
    else (let (name, rest) = take_name (lstrip behind) in
        some (if length name == 0 then none else some name, rest))

-- The loop over the namespaces at the beginning of a line: the stack and the rest of the line.
-- `none` is a loop that has run out of its fuel.
unfoldable pub namespace_loop : ℕ → ℕ → Str → List BlockInfo → Option (Str × List BlockInfo)
unfolding namespace_decl
namespace_loop zero linenum line stack = none
namespace_loop (suc fuel) linenum line stack = elim (namespace_decl line) [
  | none ↦ some (line, stack)
  | some (name, rest) ↦ elim (find rest (codes "{")) [
    | none ↦ namespace_loop fuel linenum rest (make_namespace name linenum ∷ stack)
    | some i ↦
        namespace_loop fuel linenum (drop (i + 1) rest)
          (record (make_namespace name linenum) { seen_open_brace = true } ∷ stack)
  ]
]

-- ^(\s*(?:template\s*<[\w\s<>,:]*>\s*)?(class|struct)\s+(?:[A-Z_]+\s+)*(\w+(?:::\w+)*))(.*)$
unfoldable pub class_pattern : Regex
unfolding literal
class_pattern = seq line_start (
    seq
      (group 1 (
        seq (star space) (
          seq
            (opt (
              seq (literal (codes "template")) (
                seq (star space) (
                  seq (char b'<') (
                    seq
                      (star (
                        alt
                          (set (λ x. is_word x || x == b'<' || x == b'>' || x == b',' || x == b':'))
                          space))
                      (seq (char b'>') (star space)))))))
            (seq (group 2 (alt (literal (codes "class")) (literal (codes "struct")))) (
              seq (plus space) (
                seq
                  (star
                    (seq (plus (set (λ x. leb b'A' x && leb x b'Z' || x == b'_'))) (plus space)))
                  (group 3 (
                    seq (plus (set is_word))
                      (star (seq (literal (codes "::")) (plus (set is_word))))))))))))
      (seq (group 4 (star any_char)) line_end))

no_parentheses : List BlockInfo → Bool
no_parentheses [] = true
no_parentheses (b ∷ bs) = is_ℕ b.open_parentheses 0

-- The class declaration in what is left of the line. `none` is a loop out of fuel.
unfoldable pub push_class : CleansedLines → ℕ → Str → List BlockInfo → Option (Str × List BlockInfo)
unfolding match_re class_pattern no_parentheses
push_class c linenum line stack = elim (match_re class_pattern line) [
  | none ↦ some (line, stack)
  | some m ↦
      if not (no_parentheses stack)
      then some (line, stack)
      else elim (in_template_argument_list c.elided linenum (length (group_or_empty 1 m))) [
        | none ↦ none
        | some true ↦ some (line, stack)
        | some false ↦ some (
          group_or_empty 4 m,
          make_class (group_or_empty 3 m) (group_or_empty 2 m) c linenum ∷ stack,
        )
      ]
]

-- ^(.*)\b(public|private|protected|signals)(\s+(?:slots\s*)?)?:(?:[^:]|$)
unfoldable pub access_pattern : Regex
unfolding literal
access_pattern = seq line_start (
    seq (group 1 (star any_char)) (
      seq boundary (
        seq
          (group 2 (
            alt (literal (codes "public")) (
              alt (literal (codes "private"))
                (alt (literal (codes "protected")) (literal (codes "signals"))))))
          (seq (opt (group 3 (seq (plus space) (opt (seq (literal (codes "slots")) (star space))))))
            (seq (char b':') (alt (set (λ x. not (x == b':'))) line_end))))))

-- The access control of the innermost block, if that is a class.
unfoldable pub update_access : ℕ → Str → BlockInfo → BlockInfo × List Report
unfolding match_re access_pattern blank_pattern class_parent
update_access linenum line b = elim b.kind [
  | class_info info ↦ elim (match_re access_pattern line) [
    | none ↦ (b, [])
    | some m ↦
        let indent = group_or_empty 1 m in
        (
          record b { kind = class_info (record info { access = group_or_empty 2 m }) },
          (if not (length indent == info.class_indent + 1) && matches blank_pattern indent
              then record {
                line = linenum;
                category = codes "whitespace/indent";
                confidence = 3;
                message =
                    group_or_empty 2 m
                    ++ (group_or_empty 3 m
                        ++ (codes ": should be indented +1 space inside " ++ class_parent info));
              }
                ∷ []
              else []),
        )
  ]
  | _ ↦ (b, [])
]
