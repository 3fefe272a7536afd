-- ===== src/Lint/Modules.antt =====
-- `FileInfo` and `FilesBelongToSameModule` of scripts/cpplint.py.
pub mod Prefix
use gameboy_emulator.Base.{
  ℕ, ◌-◌, Bool, true, false, List, [], ◌∷◌, ◌++◌, Option, none, some, length, take, drop,
  if◌then◌else◌, not, ◌==◌,
}
use gameboy_emulator.Base.Text.{Str, codes, elem, ends_with, replace}
use gameboy_emulator.Lint.Includes.{path_split, path_root}
use gameboy_emulator.Lint.Regex.{Regex, seq, alt, group, literal, line_end, search_re, group_of}

-- `_IsSourceExtension`.
unfoldable pub is_source_extension : Str → Bool
unfolding elem
is_source_extension s = elem s (codes "c" ∷ codes "cc" ∷ codes "cpp" ∷ codes "cxx" ∷ [])

-- `Split`, of a name that `RepositoryName` gives: directory, base name, extension.
unfoldable pub file_split : Str → Str × Str × Str
unfolding path_split path_root
file_split repository_name =
    let (project, rest) = path_split repository_name in
    let root = path_root rest in (project, root, drop (length root) rest)

unfoldable pub file_base_name : Str → Str
file_base_name repository_name = (file_split repository_name).1

unfoldable pub extension : Str → Str
extension repository_name = (file_split repository_name).2

unfoldable pub is_source : Str → Bool
unfolding is_source_extension
is_source repository_name = is_source_extension (drop 1 (extension repository_name))

-- `s[:-n]`, which is empty for 0.
unfoldable pub drop_last : ℕ → Str → Str
drop_last n s = if n == 0 then [] else take (length s - n) s

-- (_test|_unittest|_regtest)$
test_file_suffix : Regex
unfolding literal
test_file_suffix =
    seq
      (group 1 (
        alt (literal (codes "_test"))
          (alt (literal (codes "_unittest")) (literal (codes "_regtest")))))
      line_end

plain_path : Str → Str
unfolding replace
plain_path s = replace (replace s (codes "/public/") (codes "/")) (codes "/internal/") (codes "/")

-- The name of the source file that is compared, without its extension and a test's suffix.
unfoldable pub source_stem : Str → Str → Str
unfolding search_re group_of test_file_suffix plain_path
source_stem repository_name filename_cc =
    let stem = drop_last (length (extension repository_name)) filename_cc in
    plain_path (elim (search_re test_file_suffix (file_base_name repository_name)) [
      | none ↦ stem
      | some (before, m) ↦ elim (group_of 1 m.groups) [
        | none ↦ stem
        | some suffix ↦ drop_last (length suffix) stem
      ]
    ])

-- The name of the header that is compared, once it has been seen to end in `.h`.
unfoldable pub header_stem : Str → Str
unfolding ends_with plain_path
header_stem filename_h =
    let stem = drop_last 2 filename_h in
    plain_path (if ends_with stem (codes "-inl") then drop_last 4 stem else stem)

-- `repository_name` is `FileInfo(filename_cc).RepositoryName()`.
unfoldable pub files_belong_to_same_module : Str → Str → Str → Bool × Str
files_belong_to_same_module repository_name filename_cc filename_h =
    let cc = source_stem repository_name filename_cc in
    let h = header_stem filename_h in
    if not (is_source repository_name)
    then (false, [])
    else if not (ends_with filename_h (codes ".h"))
    then (false, [])
    else if ends_with cc h
    then (true, drop_last (length h) cc)
    else (false, [])
