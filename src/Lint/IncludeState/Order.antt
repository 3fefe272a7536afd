-- ===== src/Lint/IncludeState/Order.antt =====
-- What `CheckNextIncludeOrder` of scripts/cpplint.py accepts.
use gameboy_emulator.Base.{ℕ, ◌≡◌, ◌≢◌, ◌≤◌, ◌<◌, ◌⊎◌, List, [], ◌∷◌, arith}
use gameboy_emulator.Lint.IncludeState.{
  HeaderType, c_sys_header, cpp_sys_header, likely_my_header, possible_my_header, other_header,
  IncludeState, check_next_include_order, order_error,
}

-- The section that a kind of header belongs to.
abbrev pub rank : HeaderType → ℕ
rank c_sys_header = 2
rank cpp_sys_header = 3
rank likely_my_header = 1
rank possible_my_header = 1
rank other_header = 4

unfoldable pub check_all : List HeaderType → IncludeState → IncludeState
check_all [] s = s
check_all (t ∷ ts) s = check_all ts (check_next_include_order t s).1

-- The sections that there are.
abbrev pub IsValid : IncludeState → Type 0
IsValid s = s.section ≤ 4

step_section :
    (t : HeaderType) (s : IncludeState)
    → IsValid s
    → let after = (check_next_include_order t s).1 in
      (s.section ≤ after.section) × (rank t ≤ after.section) × IsValid after
unfolding check_next_include_order
step_section c_sys_header s h = ground arith
step_section _ s h = ground arith

all_section :
    (ts : List HeaderType) (s : IncludeState)
    → IsValid s
    → (s.section ≤ (check_all ts s).section) × IsValid (check_all ts s)
unfolding check_all
all_section [] s h = omega arith
all_section (t ∷ ts) s h =
    let (more, ranked, valid) = step_section t s h in
    let rest = all_section ts (check_next_include_order t s).1 valid in
    omega (arith, more, rest.0, rest.1)

system_error :
    (t : HeaderType) (s : IncludeState)
    → (t ≡ c_sys_header) ⊎ (t ≡ cpp_sys_header)
    → rank t < s.section
    → (check_next_include_order t s ≡ (order_error t s.section, record s { last_header = [] }))
      × (order_error t s.section ≢ [])
unfolding check_next_include_order
system_error c_sys_header s kind h = (ground arith, λ e. cc)
system_error cpp_sys_header s kind h = (ground arith, λ e. cc)
system_error _ s kind h = absurd (ground arith)

-- A C or C++ system header is reported whenever a header of a later section was seen before it, however many headers stand between the two; the section and the list of includes are then left as they are.
pub check_next-out_of_order :
    (earlier later : HeaderType) (between : List HeaderType) (s : IncludeState)
    → IsValid s
    → (later ≡ c_sys_header) ⊎ (later ≡ cpp_sys_header)
    → rank later < rank earlier
    → let before = check_all (earlier ∷ between) s in
      ((check_next_include_order later before).0 ≢ [])
      × ((check_next_include_order later before).1 ≡ record before { last_header = [] })
unfolding check_all
check_next-out_of_order earlier later between s valid kind h =
    let (more, ranked, still_valid) = step_section earlier s valid in
    let reached = all_section between (check_next_include_order earlier s).1 still_valid in
    let before = check_all between (check_next_include_order earlier s).1 in
    let (result, message) = system_error later before kind (omega (arith, ranked, reached)) in
    (λ e. message (cc (result, e)), cc (result))

-- A header whose section has not been passed is accepted without a message, and its section becomes the current one.
pub check_next-in_order :
    (t : HeaderType) (s : IncludeState)
    → s.section ≤ rank t
    → ((check_next_include_order t s).0 ≡ []) × ((check_next_include_order t s).1.section ≡ rank t)
unfolding check_next_include_order
check_next-in_order c_sys_header s h = ground arith
check_next-in_order _ s h = ground arith
