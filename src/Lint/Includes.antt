-- ===== src/Lint/Includes.antt =====
-- `_DropCommonSuffixes` and `_ClassifyInclude` of scripts/cpplint.py, with what they use of
-- `os.path` on a system with slashes.
pub mod Own
use gameboy_emulator.Base.{
  ℕ, ◌-◌, Bool, true, false, List, [], ◌∷◌, ◌++◌, Option, none, some, reverse, length, take,
  get_elem?, ltb, ◌==◌, if◌then◌else◌, not, ◌&&◌, ◌||◌,
}
use gameboy_emulator.Base.Text.{Str, codes, str_eq, elem, ends_with, starts_with, split_on}
use gameboy_emulator.Lint.Headers.{cpp_headers}
use gameboy_emulator.Lint.Regex.{Regex, line_start, seq, group, set, plus, match_re, group_of}
use gameboy_emulator.Lint.IncludeState.{
  HeaderType, c_sys_header, cpp_sys_header, likely_my_header, possible_my_header, other_header,
}

-- The parts before and behind the last `c`, given the reversed text.
cut_last : ℕ → Str → Str → Option (Str × Str)
cut_last c behind [] = none
cut_last c behind (x ∷ xs) =
    let rest = cut_last c (x ∷ behind) xs in if x == c then some (reverse xs, behind) else rest

only : ℕ → Str → Bool
only c [] = true
only c (x ∷ xs) = x == c && only c xs

drop_first : ℕ → Str → Str
drop_first c [] = []
drop_first c (x ∷ xs) = if x == c then drop_first c xs else x ∷ xs

has : ℕ → Str → Bool
has c [] = false
has c (x ∷ xs) = x == c || has c xs

-- `os.path.split`: the directory loses its final slashes unless it has nothing else.
unfoldable pub path_split : Str → Str × Str
unfolding cut_last only drop_first
path_split p = elim (cut_last b'/' [] (reverse p)) [
  | none ↦ ([], p)
  | some (directory, base) ↦ (
    if only b'/' directory
        then directory ++ b'/' ∷ []
        else reverse (drop_first b'/' (reverse directory)),
    base,
  )
]

base_name : Str → Str
unfolding cut_last
base_name p = elim (cut_last b'/' [] (reverse p)) [ none ↦ p | some (directory, base) ↦ base ]

-- `os.path.splitext(p)[0]`: dots that a name begins with start no extension.
unfoldable pub path_root : Str → Str
unfolding cut_last has only base_name
path_root p = elim (cut_last b'.' [] (reverse p)) [
  | none ↦ p
  | some (root, extension) ↦
      if has b'/' extension then p else if only b'.' (base_name root) then p else root
]

-- `os.path.normpath`: the components that are kept, last one first.
normal_parts : Bool → List Str → List Str → List Str
normal_parts absolute kept [] = kept
normal_parts absolute kept (part ∷ parts) =
    let same = normal_parts absolute kept parts in
    let longer = normal_parts absolute (part ∷ kept) parts in
    if str_eq part [] || str_eq part (codes ".")
    then same
    else if not (str_eq part (codes ".."))
    then longer
    else elim kept [
      | [] ↦ if absolute then same else longer
      | last ∷ before ↦
          if str_eq last (codes "..") then longer else normal_parts absolute before parts
    ]

join_parts : List Str → Str
join_parts [] = []
join_parts (part ∷ []) = part
join_parts (part ∷ next ∷ parts) = part ++ b'/' ∷ join_parts (next ∷ parts)

leading_slashes : Str → Str
leading_slashes p =
    if not (starts_with p (codes "/"))
    then []
    else if starts_with p (codes "//") && not (starts_with p (codes "///"))
    then codes "//"
    else codes "/"

unfoldable pub path_normal : Str → Str
unfolding split_on normal_parts join_parts leading_slashes
path_normal p =
    let (part, parts) = split_on b'/' p in
    let path =
      leading_slashes p
      ++ join_parts (reverse (normal_parts (starts_with p (codes "/")) [] (part ∷ parts))) in
    if str_eq path [] then codes "." else path

abbrev common_suffixes : List Str
common_suffixes =
    codes "test.cc"
    ∷ codes "regtest.cc"
    ∷ codes "unittest.cc"
    ∷ codes "inl.h"
    ∷ codes "impl.h"
    ∷ codes "internal.h"
    ∷ []

is_joiner : Option ℕ → Bool
is_joiner none = false
is_joiner (some c) = c == b'-' || c == b'_'

-- The loop over the suffixes.
drop_suffix : List Str → Str → Str
unfolding ends_with is_joiner path_root
drop_suffix [] filename = path_root filename
drop_suffix (suffix ∷ suffixes) filename =
    let rest = drop_suffix suffixes filename in
    let stem = length filename - length suffix - 1 in
    if ends_with filename suffix
      && ltb (length suffix) (length filename)
      && is_joiner (get_elem? filename stem)
    then take stem filename
    else rest

unfoldable pub drop_common_suffixes : Str → Str
unfolding drop_suffix
drop_common_suffixes filename = drop_suffix common_suffixes filename

-- ^[^-_.]+, the whole match being group 0.
first_component : Regex
first_component =
    seq line_start (group 0 (plus (set (λ x. not (x == b'-' || x == b'_' || x == b'.')))))

component_of : Str → Option Str
unfolding match_re group_of first_component
component_of base = elim (match_re first_component base) [
  | none ↦ none
  | some m ↦ group_of 0 m.groups
]

same_component : Option Str → Option Str → Bool
same_component (some a) (some b) = str_eq a b
same_component _ _ = false

-- `repository_name` is `fileinfo.RepositoryName()`, which asks the file system.
unfoldable pub classify_include : Str → Str → Bool → HeaderType
unfolding elem cpp_headers path_split component_of same_component path_normal
classify_include repository_name include is_system =
    let (target_dir, target_base) = path_split (drop_common_suffixes repository_name) in
    let (include_dir, include_base) = path_split (drop_common_suffixes include) in
    if is_system
    then (if elem include cpp_headers then cpp_sys_header else c_sys_header)
    else if str_eq target_base include_base
        && (str_eq include_dir target_dir
            || str_eq include_dir (path_normal (target_dir ++ codes "/../public")))
    then likely_my_header
    else if same_component (component_of target_base) (component_of include_base)
    then possible_my_header
    else other_header
