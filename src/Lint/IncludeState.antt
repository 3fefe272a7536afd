-- ===== src/Lint/IncludeState.antt =====
-- `_IncludeState` of scripts/cpplint.py: the includes seen so far and the order of their kinds.
pub mod Order
use gameboy_emulator.Base.{
  ℕ, Bool, true, false, List, [], ◌∷◌, ◌++◌, Option, none, some, if◌then◌else◌, not, ◌==◌, leb,
  ◌||◌, ◌&&◌,
}
use gameboy_emulator.Base.Text.{Str, codes, str_eq, elem, replace, lower}
use gameboy_emulator.Lint.Regex.{
  Regex, boundary, line_start, seq, star, char, space, literal, match_re,
}

-- `_C_SYS_HEADER` to `_OTHER_HEADER`.
pub data HeaderType : Type 0 where
  c_sys_header cpp_sys_header likely_my_header possible_my_header other_header : HeaderType

abbrev pub initial_section : ℕ
initial_section = 0

abbrev pub my_h_section : ℕ
my_h_section = 1

abbrev pub c_section : ℕ
c_section = 2

abbrev pub cpp_section : ℕ
cpp_section = 3

abbrev pub other_h_section : ℕ
other_h_section = 4

pub record IncludeState : Type 0 where
  pub include_list : List (List (Str × ℕ))
  pub section : ℕ
  pub last_header : Str

unfoldable pub type_name : HeaderType → Str
type_name c_sys_header = codes "C system header"
type_name cpp_sys_header = codes "C++ system header"
type_name likely_my_header = codes "header this file implements"
type_name possible_my_header = codes "header this file may implement"
type_name other_header = codes "other header"

unfoldable pub section_name : ℕ → Str
section_name s =
    if s == initial_section
    then codes "... nothing. (This can't be an error.)"
    else if s == my_h_section
    then codes "a header this file implements"
    else if s == c_section
    then codes "C system header"
    else if s == cpp_section
    then codes "C++ system header"
    else codes "other header"

-- `list[-1] = []`; `none` is the `IndexError` on an empty list.
empty_last : List (List (Str × ℕ)) → Option (List (List (Str × ℕ)))
empty_last [] = none
empty_last (x ∷ []) = some ([] ∷ [])
empty_last (x ∷ y ∷ rest) = elim (empty_last (y ∷ rest)) [ none ↦ none | some l ↦ some (x ∷ l) ]

unfoldable pub reset_section : Str → IncludeState → Option IncludeState
unfolding elem empty_last
reset_section directive s =
    let s' = record s { section = initial_section; last_header = [] } in
    if elem directive (codes "if" ∷ codes "ifdef" ∷ codes "ifndef" ∷ [])
    then some (record s' { include_list = s.include_list ++ [] ∷ [] })
    else if elem directive (codes "else" ∷ codes "elif" ∷ [])
    then elim (empty_last s.include_list) [
      | none ↦ none
      | some l ↦ some (record s' { include_list = l })
    ]
    else some s'

-- `__init__`, after which `ResetSection('')` changes nothing more.
abbrev pub init : IncludeState
init = record { include_list = [] ∷ []; section = initial_section; last_header = [] }

find_in : Str → List (Str × ℕ) → Option ℕ
find_in header [] = none
find_in header ((f, line) ∷ rest) = if str_eq f header then some line else find_in header rest

find_in_lists : Str → List (List (Str × ℕ)) → Option ℕ
unfolding find_in
find_in_lists header [] = none
find_in_lists header (section_list ∷ rest) = elim (find_in header section_list) [
  | some line ↦ some line
  | none ↦ find_in_lists header rest
]

-- `FindHeader`; `none` is the -1.
unfoldable pub find_header : Str → IncludeState → Option ℕ
unfolding find_in_lists
find_header header s = find_in_lists header s.include_list

unfoldable pub set_last_header : Str → IncludeState → IncludeState
set_last_header header_path s = record s { last_header = header_path }

unfoldable pub canonicalize_alphabetical_order : Str → Str
unfolding replace lower
canonicalize_alphabetical_order header_path =
    lower (replace (replace header_path (codes "-inl.h") (codes ".h")) (codes "-") (codes "_"))

-- Python's `a > b` on strings: the order of the characters, a prefix being smaller.
unfoldable pub str_gt : Str → Str → Bool
str_gt [] b = false
str_gt (x ∷ xs) [] = true
str_gt (x ∷ xs) (y ∷ ys) = if x == y then str_gt xs ys else not (leb x y)

-- ^\s*#\s*include\b
unfoldable pub include_directive : Regex
unfolding literal
include_directive = seq line_start (
    seq (star space)
      (seq (char b'#') (seq (star space) (seq (literal (codes "include")) boundary))))

abbrev matches : Regex → Str → Bool
matches r line = elim (match_re r line) [ none ↦ false | some m ↦ true ]

-- The parameter is `clean_lines.elided[linenum - 1]`.
unfoldable pub is_in_alphabetical_order : Str → Str → IncludeState → Bool
unfolding str_gt include_directive
is_in_alphabetical_order previous_line header_path s =
    if str_gt s.last_header header_path && matches include_directive previous_line
    then false
    else true

order_error : HeaderType → ℕ → Str
unfolding type_name section_name
order_error header_type section =
    codes "Found " ++ (type_name header_type ++ (codes " after " ++ section_name section))

-- The tail of the method: a new section forgets the last header.
enter : ℕ → IncludeState → IncludeState
enter section s =
    if s.section == section then s else record s { section = section; last_header = [] }

-- The message is empty when the header is in order.
unfoldable pub check_next_include_order : HeaderType → IncludeState → Str × IncludeState
unfolding order_error enter
check_next_include_order c_sys_header s =
    if leb s.section c_section
    then ([], enter c_section s)
    else (order_error c_sys_header s.section, record s { last_header = [] })
check_next_include_order cpp_sys_header s =
    if leb s.section cpp_section
    then ([], enter cpp_section s)
    else (order_error cpp_sys_header s.section, record s { last_header = [] })
check_next_include_order likely_my_header s =
    if leb s.section my_h_section then ([], enter my_h_section s) else ([], enter other_h_section s)
check_next_include_order possible_my_header s =
    if leb s.section my_h_section then ([], enter my_h_section s) else ([], enter other_h_section s)
check_next_include_order other_header s = ([], enter other_h_section s)
