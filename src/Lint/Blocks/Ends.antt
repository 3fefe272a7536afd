-- ===== src/Lint/Blocks/Ends.antt =====
-- The checks at the end of a block, `CheckEnd` of `_ClassInfo` and `_NamespaceInfo` in
-- scripts/cpplint.py.
use gameboy_emulator.Base.{
  ℕ, zero, suc, ◌+◌, ◌-◌, Bool, true, false, List, [], ◌∷◌, ◌++◌, none, some, length, ltb, ◌==◌,
  if◌then◌else◌, not, ◌&&◌, ◌||◌,
}
use gameboy_emulator.Base.Text.{Str, codes, str_eq}
use gameboy_emulator.Lint.Regex.{
  Regex, boundary, line_start, line_end, set, seq, alt, star, group, char, any_char, space, plus,
  literal, match_re, search_re,
}
use gameboy_emulator.Lint.Strings.{CleansedLines}
use gameboy_emulator.Lint.Suppress.{Report}
use gameboy_emulator.Lint.Blocks.{
  ClassInfo, plain_block, extern_c, class_info, namespace_info, BlockInfo, line_at, matches,
  group_or_empty, blank_pattern, class_parent,
}

-- \b(DISALLOW_COPY_AND_ASSIGN|DISALLOW_IMPLICIT_CONSTRUCTORS)\(name\)
unfoldable pub disallow_pattern : Str → Regex
unfolding literal
disallow_pattern name = seq boundary (
    seq
      (group 1 (
        alt (literal (codes "DISALLOW_COPY_AND_ASSIGN"))
          (literal (codes "DISALLOW_IMPLICIT_CONSTRUCTORS"))))
      (seq (char b'(') (seq (literal name) (char b')'))))

-- The loop over the lines of the class from its end, `start + left` being the next one.
unfoldable pub check_disallow : List Str → Str → ℕ → ℕ → Bool → List Report
unfolding disallow_pattern blank_pattern
check_disallow elided name start zero seen_last = []
check_disallow elided name start (suc left) seen_last =
    let i = start + suc left in
    let line = line_at elided i in
    let rest =
      check_disallow elided name start left
        (if matches blank_pattern line then seen_last else true) in
    elim (search_re (disallow_pattern name) line) [
      | none ↦ rest
      | some (before, m) ↦
          if seen_last
          then record {
            line = i;
            category = codes "readability/constructors";
            confidence = 3;
            message = group_or_empty 1 m ++ codes " should be the last thing in the class";
          }
            ∷ []
          else []
    ]

-- ^( *)\}
unfoldable pub closing_brace_pattern : Regex
closing_brace_pattern = seq line_start (seq (group 1 (star (char 32))) (char b'}'))

-- `_ClassInfo.CheckEnd`.
unfoldable pub check_class_end : CleansedLines → ℕ → ℕ → ClassInfo → List Report
unfolding check_disallow closing_brace_pattern class_parent
check_class_end c linenum start info =
    let constructors = check_disallow c.elided info.name start (linenum - 1 - start) false in
    elim (match_re closing_brace_pattern (line_at c.elided linenum)) [
      | none ↦ constructors
      | some m ↦
          if length (group_or_empty 1 m) == info.class_indent
          then constructors
          else constructors
            ++ record {
              line = linenum;
              category = codes "whitespace/indent";
              confidence = 3;
              message =
                  codes "Closing brace should be aligned with beginning of " ++ class_parent info;
            }
              ∷ []
    ]

-- ^\s*};*\s*(//|/\*).*\bnamespace, and what follows it in a pattern.
unfoldable pub namespace_comment : Regex → Regex
unfolding literal
namespace_comment rest = seq line_start (
    seq (star space) (
      seq (char b'}') (
        seq (star (char b';')) (
          seq (star space) (
            seq (group 1 (alt (literal (codes "//")) (literal (codes "/*"))))
              (seq (star any_char) (seq boundary (seq (literal (codes "namespace")) rest))))))))

-- [\*/\.\\\s]*$
unfoldable pub comment_end : Regex
comment_end =
    seq (star (alt (set (λ x. x == b'*' || x == b'/' || x == b'.' || x == 92)) space)) line_end

-- ^\s*}.*\b(namespace anonymous|anonymous namespace)\b
unfoldable pub anonymous_comment : Regex
unfolding literal
anonymous_comment = seq line_start (
    seq (star space) (
      seq (char b'}') (
        seq (star any_char) (
          seq boundary (
            seq
              (group 1 (
                alt (literal (codes "namespace anonymous"))
                  (literal (codes "anonymous namespace"))))
              boundary)))))

namespace_report : ℕ → Str → Report
namespace_report linenum message = record {
  line = linenum;
  category = codes "readability/namespace";
  confidence = 5;
  message = message;
}

-- `_NamespaceInfo.CheckEnd`.
unfoldable pub check_namespace_end : CleansedLines → ℕ → ℕ → Str → List Report
unfolding namespace_comment comment_end anonymous_comment namespace_report literal
check_namespace_end c linenum start name =
    let line = line_at c.raw_lines linenum in
    if ltb linenum (start + 10) && not (matches (namespace_comment boundary) line)
    then []
    else if not (str_eq name [])
    then (if matches (namespace_comment (seq (plus space) (seq (literal name) comment_end))) line
        then []
        else namespace_report linenum
            (codes "Namespace should be terminated with \"// namespace " ++ (name ++ codes "\""))
          ∷ [])
    else if matches (namespace_comment comment_end) line
    then []
    else if matches anonymous_comment line
    then namespace_report linenum (
        codes "Anonymous namespace should be terminated with \"// namespace\""
        ++ codes " or \"// anonymous namespace\"")
      ∷ []
    else namespace_report linenum
        (codes "Anonymous namespace should be terminated with \"// namespace\"")
      ∷ []

-- `CheckEnd`, by the class of the block.
unfoldable pub check_end : CleansedLines → ℕ → BlockInfo → List Report
unfolding check_class_end check_namespace_end
check_end c linenum b = elim b.kind [
  | class_info info ↦ check_class_end c linenum b.starting_linenum info
  | namespace_info name ↦ check_namespace_end c linenum b.starting_linenum name
  | plain_block ↦ []
  | extern_c ↦ []
]
