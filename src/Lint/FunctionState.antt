-- ===== src/Lint/FunctionState.antt =====
-- `_FunctionState` of scripts/cpplint.py: the length of the function being read.
pub mod Length
use gameboy_emulator.Base.{
  ℕ, zero, suc, ◌+◌, ◌*◌, ◌/◌, ◌%◌, ◌^◌, Bool, true, false, List, [], ◌∷◌, ◌++◌, Option, none, some,
  if◌then◌else◌, ltb, not,
}
use gameboy_emulator.Base.Text.{Str, codes}
use gameboy_emulator.Lint.Regex.{Regex, Matched, seq, alt, group, char, literal, match_re}
use gameboy_emulator.Lint.Suppress.{Report}

abbrev pub normal_trigger : ℕ
normal_trigger = 250

abbrev pub test_trigger : ℕ
test_trigger = 400

pub record FunctionState : Type 0 where
  pub in_a_function : Bool
  pub lines_in_function : ℕ
  pub current_function : Str

abbrev pub init : FunctionState
init = record { in_a_function = false; lines_in_function = 0; current_function = [] }

-- `Begin`, `Count` and `End`.
unfoldable pub begin : Str → FunctionState → FunctionState
begin function_name s = record {
  in_a_function = true;
  lines_in_function = 0;
  current_function = function_name;
}

unfoldable pub count_line : FunctionState → FunctionState
count_line s =
    if s.in_a_function then record s { lines_in_function = s.lines_in_function + 1 } else s

unfoldable pub finish : FunctionState → FunctionState
finish s = record s { in_a_function = false }

-- T(EST|est)
unfoldable pub test_pattern : Regex
unfolding literal
test_pattern = seq (char b'T') (group 1 (alt (literal (codes "EST")) (literal (codes "est"))))

unfoldable pub base_trigger : Str → ℕ
unfolding match_re test_pattern
base_trigger name = elim (match_re test_pattern name) [
  | some m ↦ test_trigger
  | none ↦ normal_trigger
]

-- `int(math.log(n, 2))` for `n` from 1 on: how often it can be halved. The logarithm of `n` is at
-- most `n`, so `n` is enough fuel.
log_2_fuel : ℕ → ℕ → ℕ
log_2_fuel zero n = 0
log_2_fuel (suc fuel) n = let rest = log_2_fuel fuel (n / 2) in if ltb n 2 then 0 else suc rest

unfoldable pub log_2 : ℕ → ℕ
unfolding log_2_fuel
log_2 n = log_2_fuel n n

-- `'%d' % n`, the last digit first; a number has at most as many digits as its value and one.
digits_fuel : ℕ → ℕ → Str
digits_fuel zero n = []
digits_fuel (suc fuel) n =
    let rest = digits_fuel fuel (n / 10) in
    if ltb n 10 then (b'0' + n) ∷ [] else rest ++ (b'0' + n % 10) ∷ []

unfoldable pub decimal : ℕ → Str
unfolding digits_fuel
decimal n = digits_fuel (suc n) n

too_long : FunctionState → ℕ → Str
unfolding decimal
too_long s trigger =
    codes "Small and focused functions are preferred: "
    ++ (s.current_function
        ++ (codes " has "
            ++ (decimal s.lines_in_function
                ++ (codes " non-comment lines (error triggered by exceeding "
                    ++ (decimal trigger ++ codes " lines).")))))

-- `Check` at a verbosity level: the report that it makes, if any.
unfoldable pub check : ℕ → ℕ → FunctionState → List Report
unfolding too_long
check verbose_level linenum s =
    let base = base_trigger s.current_function in
    let trigger = base * 2 ^ verbose_level in
    let error_level = log_2 (s.lines_in_function / base) in
    if not s.in_a_function
    then []
    else if ltb trigger s.lines_in_function
    then record {
      line = linenum;
      category = codes "readability/fn_size";
      confidence = if ltb 5 error_level then 5 else error_level;
      message = too_long s trigger;
    }
      ∷ []
    else []
