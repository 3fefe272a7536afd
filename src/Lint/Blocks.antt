-- ===== src/Lint/Blocks.antt =====
-- `_BlockInfo` of scripts/cpplint.py and its subclasses: a block of code on the nesting stack, and
-- the check at its beginning; those at its end are in Blocks/Ends.
pub mod Ends
use gameboy_emulator.Base.{
  ℕ, ◌+◌, Bool, true, false, List, [], ◌∷◌, ◌++◌, Option, none, some, drop, get_elem?, ◌==◌,
  if◌then◌else◌, not,
}
use gameboy_emulator.Base.Int.{ℤ, pos}
use gameboy_emulator.Base.Text.{Str, codes, str_eq, count}
use gameboy_emulator.Lint.Regex.{
  Regex, Matched, line_start, line_end, set, seq, alt, star, group, char, space, match_re,
  search_re, group_of,
}
use gameboy_emulator.Lint.FileChecks.{get_indent_level}
use gameboy_emulator.Lint.Strings.{CleansedLines}

-- `_NO_ASM` to `_BLOCK_ASM`.
pub data AsmState : Type 0 where
  no_asm inside_asm end_asm block_asm : AsmState

-- The fields that `_ClassInfo` adds.
pub record ClassInfo : Type 0 where
  pub name : Str
  pub is_derived : Bool
  pub access : Str
  pub is_struct : Bool
  pub class_indent : ℕ
  pub last_line : ℕ

-- The class of an object, with the fields of a subclass.
pub data BlockKind : Type 0 where
  plain_block extern_c : BlockKind
  class_info : ClassInfo → BlockKind
  namespace_info : Str → BlockKind

pub record BlockInfo : Type 0 where
  pub kind : BlockKind
  pub starting_linenum : ℕ
  pub seen_open_brace : Bool
  pub open_parentheses : ℤ
  pub inline_asm : AsmState
  pub check_namespace_indentation : Bool

-- `_BlockInfo.__init__`.
unfoldable pub block_info : ℕ → Bool → BlockInfo
block_info linenum seen_open_brace = record {
  kind = plain_block;
  starting_linenum = linenum;
  seen_open_brace = seen_open_brace;
  open_parentheses = pos 0;
  inline_asm = no_asm;
  check_namespace_indentation = false;
}

unfoldable pub extern_c_info : ℕ → BlockInfo
unfolding block_info
extern_c_info linenum = record (block_info linenum true) { kind = extern_c }

-- `IsBlockInfo`.
unfoldable pub is_block_info : BlockInfo → Bool
is_block_info b = elim b.kind [ plain_block ↦ true | _ ↦ false ]

-- `name or ''`.
unfoldable pub make_namespace : Option Str → ℕ → BlockInfo
unfolding block_info
make_namespace name linenum = record (block_info linenum false) {
  kind = namespace_info (elim name [ some n ↦ n | none ↦ [] ]);
  check_namespace_indentation = true;
}

abbrev pub line_at : List Str → ℕ → Str
line_at lines i = elim (get_elem? lines i) [ some line ↦ line | none ↦ [] ]

-- The loop for the end of the class, over the lines from `i` on: `opened - closed` is the depth.
unfoldable pub find_last_line : List Str → ℕ → ℕ → ℕ → ℕ
unfolding count
find_last_line [] i opened closed = 0
find_last_line (line ∷ lines) i opened closed =
    let opened' = opened + count line (codes "{") in
    let closed' = closed + count line (codes "}") in
    let rest = find_last_line lines (i + 1) opened' closed' in
    if opened' == closed' then i else rest

-- `_ClassInfo.__init__`. The caller has read line `linenum`, so it is there.
unfoldable pub make_class : Str → Str → CleansedLines → ℕ → BlockInfo
unfolding block_info find_last_line get_indent_level
make_class name class_or_struct c linenum =
    let is_struct = str_eq class_or_struct (codes "struct") in
    record (block_info linenum false) {
      kind = class_info (record {
        name = name;
        is_derived = false;
        access = if is_struct then codes "public" else codes "private";
        is_struct = is_struct;
        class_indent = get_indent_level (line_at c.raw_lines linenum);
        last_line = find_last_line (drop linenum c.elided) linenum 0 0;
      });
      check_namespace_indentation = true;
    }

abbrev pub matches : Regex → Str → Bool
matches r line = elim (match_re r line) [ none ↦ false | some m ↦ true ]

abbrev pub searches : Regex → Str → Bool
searches r line = elim (search_re r line) [ none ↦ false | some m ↦ true ]

abbrev pub group_or_empty : ℕ → Matched → Str
group_or_empty n m = elim (group_of n m.groups) [ some s ↦ s | none ↦ [] ]

-- (^|[^:]):($|[^:])
unfoldable pub bare_colon_pattern : Regex
bare_colon_pattern =
    seq (group 1 (alt line_start (set (λ x. not (x == b':')))))
      (seq (char b':') (group 2 (alt line_end (set (λ x. not (x == b':'))))))

-- `CheckBegin` of the innermost block; only a class looks at the line.
unfoldable pub check_begin : CleansedLines → ℕ → BlockInfo → BlockInfo
unfolding bare_colon_pattern
check_begin c linenum b = elim b.kind [
  | class_info info ↦
      if searches bare_colon_pattern (line_at c.elided linenum)
      then record b { kind = class_info (record info { is_derived = true }) }
      else b
  | _ ↦ b
]

-- ^\s*$
unfoldable pub blank_pattern : Regex
blank_pattern = seq line_start (seq (star space) line_end)

unfoldable pub class_parent : ClassInfo → Str
class_parent info = (if info.is_struct then codes "struct " else codes "class ") ++ info.name
