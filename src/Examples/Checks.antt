-- ===== src/Examples/Checks.antt =====
-- The style checker's checks of lines and of header guards on samples.
use gameboy_emulator.Base.{◌≡◌, refl, true, List, [], ◌∷◌, none}
use gameboy_emulator.Base.Text.{Str, codes, is_space}
use gameboy_emulator.Lint.Constructs.Explicit.{constructor_args}
use gameboy_emulator.Lint.HeaderGuard.{
  get_header_guard_cpp_variable, parse_nolint, check_for_header_guard, guard_report,
}
use gameboy_emulator.Lint.LineChecks.{
  check_posix_threading, check_vlog_arguments, check_invalid_increment,
  is_forward_class_declaration, line_report, unsafe_func_prefix,
}
use gameboy_emulator.Lint.Regex.{match_re, search_re, group_of}
use gameboy_emulator.Lint.Strings.{CleansedLines}

abbrev of_lines : List Str → CleansedLines
of_lines lines = record {
  elided = lines;
  lines = lines;
  raw_lines = lines;
  lines_without_raw_strings = lines;
}

abbrev cpu_guard : Str
cpu_guard = codes "SRC_CPU_H_"

variable_test : get_header_guard_cpp_variable (codes "src/cpu.h") ≡ cpu_guard
unfolding get_header_guard_cpp_variable
variable_test = refl

guard_accepted :
    check_for_header_guard
      (of_lines (
        codes "#ifndef SRC_CPU_H_"
        ∷ codes "#define SRC_CPU_H_"
        ∷ codes "#endif  // SRC_CPU_H_"
        ∷ []))
      cpu_guard
    ≡ parse_nolint (codes "#endif  // SRC_CPU_H_") 2 ∷ []
unfolding check_for_header_guard search_re group_of
guard_accepted = refl

guard_comment_missing :
    check_for_header_guard
      (of_lines (codes "#ifndef SRC_CPU_H_" ∷ codes "#define SRC_CPU_H_" ∷ codes "#endif" ∷ []))
      cpu_guard
    ≡ parse_nolint (codes "#endif") 2
      ∷ guard_report 2 5 (codes "#endif line should be \"#endif  // SRC_CPU_H_\"")
      ∷ []
unfolding check_for_header_guard guard_report search_re
guard_comment_missing = refl

thread_unsafe :
    check_posix_threading (of_lines (codes "int x = rand();" ∷ [])) 0
    ≡ line_report 0
        (codes "runtime/threadsafe_fn")
        2
        (codes "Consider using rand_r(...) instead of rand(...) for improved thread safety.")
unfolding check_posix_threading line_report search_re unsafe_func_prefix is_space
thread_unsafe = refl

increment_of_pointer :
    check_invalid_increment (of_lines (codes "  *count++;" ∷ [])) 0
    ≡ line_report 0
        (codes "runtime/invalid_increment")
        5
        (codes "Changing pointer instead of value (or unused value of operator*).")
unfolding check_invalid_increment line_report match_re is_space
increment_of_pointer = refl

vlog_severity : check_vlog_arguments (of_lines (codes "VLOG(2) << x;" ∷ [])) 0 ≡ []
unfolding check_vlog_arguments search_re
vlog_severity = refl

forward_class : is_forward_class_declaration (codes "  template <T> class Bus;" ∷ []) 0 ≡ true
unfolding is_forward_class_declaration match_re is_space
forward_class = refl

-- An argument list that the loop leaves by an `IndexError`.
args_out_of_range : constructor_args (codes "bool b = 1 < 2") ≡ none
unfolding constructor_args
args_out_of_range = refl
