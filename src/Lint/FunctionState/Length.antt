-- ===== src/Lint/FunctionState/Length.antt =====
-- When scripts/cpplint.py reports the length of a function, and at which level.
use native.Mathlib.Nat.{pow-suc, one-le-pow}
use gameboy_emulator.Base.{
  ℕ, zero, suc, ◌+◌, ◌*◌, ◌/◌, ◌^◌, ◌≤◌, ◌<◌, ◌≡◌, ◌≢◌, ◌↔◌, refl, true, List, [], ◌∷◌, arith,
}
use gameboy_emulator.Base.Text.{Str}
use gameboy_emulator.Lint.FunctionState.{
  FunctionState, begin, count_line, finish, base_trigger, log_2, log_2_fuel, check,
}
use gameboy_emulator.Lint.Suppress.{Report}

log_2_fuel-ge : (v fuel n : ℕ) → 2 ^ v ≤ n → n ≤ fuel → v ≤ log_2_fuel fuel n
unfolding log_2_fuel
log_2_fuel-ge zero fuel n h k = omega arith
log_2_fuel-ge (suc v) zero n h k = absurd (omega (arith, one-le-pow (suc v) 2))
log_2_fuel-ge (suc v) (suc fuel) n h k =
    let half : 2 ^ v ≤ n / 2 = omega (arith, pow-suc 2 v) in
    ground (arith, log_2_fuel-ge v fuel (n / 2), one-le-pow v 2, pow-suc 2 v)

base_trigger-pos : (name : Str) → 0 < base_trigger name
unfolding base_trigger
base_trigger-pos name = ground arith

quotient_bound : (base power lines : ℕ) → 0 < base → base * power < lines → power ≤ lines / base
quotient_bound base power lines pos h = grind arith

-- The states that reading `n` more lines leads to.
unfoldable pub count_lines : ℕ → FunctionState → FunctionState
count_lines zero s = s
count_lines (suc n) s = count_lines n (count_line s)

count_lines_lem :
    (n : ℕ) (s : FunctionState)
    → s.in_a_function ≡ true
    → count_lines n s ≡ record s { lines_in_function = s.lines_in_function + n }
unfolding count_lines count_line
count_lines_lem zero s h = ground arith
count_lines_lem (suc n) s h =
    let step : count_line s ≡ record s { lines_in_function = s.lines_in_function + 1 } =
      ground arith in
    let later = count_lines_lem n (record s { lines_in_function = s.lines_in_function + 1 }) h in
    rw (step, later) (ground arith)

abbrev pub IsConfident : ℕ → List Report → Type 0
IsConfident v [] = ⊥
IsConfident v (r ∷ rs) = (v ≤ r.confidence) × (r.confidence ≤ 5)

-- While a function is read that was begun at a name and has `n` lines so far, the check reports it exactly when `n` is above the trigger of the name doubled once for each verbosity level; behind its end it reports nothing.
pub check-begin :
    (name : Str) (n verbose linenum : ℕ) (s : FunctionState)
    → ((check verbose linenum (count_lines n (begin name s)) ≢ [])
        ↔ (base_trigger name * 2 ^ verbose < n))
      × (check verbose linenum (finish (count_lines n (begin name s))) ≡ [])
unfolding check begin finish
check-begin name n verbose linenum s =
    let counted = count_lines_lem n (begin name s) refl in rw (counted) (ground arith)

-- A report on a function's length at a verbosity level up to 5 has at least that confidence, and at most 5, so that the error function does not drop it for its confidence.
pub check-IsConfident :
    (s : FunctionState) (verbose linenum : ℕ)
    → verbose ≤ 5
    → s.in_a_function ≡ true
    → base_trigger s.current_function * 2 ^ verbose < s.lines_in_function
    → IsConfident verbose (check verbose linenum s)
unfolding check log_2
check-IsConfident s verbose linenum low inside long =
    let base = base_trigger s.current_function in
    let q = s.lines_in_function / base in
    let enough = log_2_fuel-ge verbose q q (
      quotient_bound base (2 ^ verbose) s.lines_in_function (base_trigger-pos s.current_function)
        long) in
    ground arith
