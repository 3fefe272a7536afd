-- ===== src/Lint/State/Filters.antt =====
-- The filter list of scripts/cpplint.py.
use gameboy_emulator.Base.{
  ℕ, ◌≡◌, ◌⊎◌, ap, inl, inr, refl, Bool, true, false, List, [], ◌∷◌, ◌++◌, ◌&&◌, ◌||◌, ◌==◌, not,
  Bool-cases, arith,
}
use gameboy_emulator.Base.Text.{Str, strip, split_on}
use gameboy_emulator.Lint.Categories.{default_filters}
use gameboy_emulator.Lint.State.{
  State, returned, value_error, is_signed, all_signed, clean_filters, parsed_filters, add_filters,
  set_filters,
}

-- The first character of a filter is its sign.
unfoldable pub has_sign : Str → Bool
has_sign [] = false
has_sign (c ∷ name) = c == b'+' || c == b'-'

unfoldable pub all_have_signs : List Str → Bool
all_have_signs [] = true
all_have_signs (f ∷ fs) = has_sign f && all_have_signs fs

unfoldable pub comma_free : Str → Bool
comma_free [] = true
comma_free (c ∷ name) = not (c == b',') && comma_free name

-- Filters as one writes them: not empty, without a comma and without white space at their ends.
pub data AreFilters : List Str → Type 0 where
  no_filters : AreFilters []
  a_filter :
      {c : ℕ} {name : Str} {fs : List Str}
      → comma_free (c ∷ name) ≡ true
      → strip (c ∷ name) ≡ c ∷ name
      → AreFilters fs
      → AreFilters ((c ∷ name) ∷ fs)

-- A filter and those behind it, with a comma between each two.
unfoldable pub listed_from : Str → List Str → Str
listed_from f [] = f
listed_from f (g ∷ fs) = f ++ b',' ∷ listed_from g fs

unfoldable pub listed : List Str → Str
unfolding listed_from
listed [] = []
listed (f ∷ fs) = listed_from f fs

split_on-comma_free : (f : Str) → comma_free f ≡ true → split_on b',' f ≡ (f, [])
unfolding comma_free split_on
split_on-comma_free [] h = refl
split_on-comma_free (c ∷ name) h =
    let other : (c == b',') ≡ false = ground arith in
    rw (other, split_on-comma_free name (ground arith)) refl

split_on-comma :
    (f rest : Str)
    → comma_free f ≡ true
    → split_on b',' (f ++ b',' ∷ rest) ≡ (f, (split_on b',' rest).0 ∷ (split_on b',' rest).1)
unfolding comma_free split_on
split_on-comma [] rest h = refl
split_on-comma (c ∷ name) rest h =
    let other : (c == b',') ≡ false = ground arith in
    rw (other, split_on-comma name rest (ground arith)) refl

parsed_filters-listed : {fs : List Str} → AreFilters fs → parsed_filters (listed fs) ≡ fs
unfolding parsed_filters listed listed_from clean_filters split_on strip
parsed_filters-listed no_filters = refl
parsed_filters-listed (a_filter {c} {name} free whole no_filters) =
    rw (split_on-comma_free (c ∷ name) free, whole) refl
parsed_filters-listed
      (a_filter {c = c} {name = name} free whole
        (a_filter {c = d} {name = next} {fs = fs} free' whole' others)) =
    rw (split_on-comma (c ∷ name) (listed_from (d ∷ next) fs) free, whole)
      (ap (λ (w : List Str). (c ∷ name) ∷ w) (parsed_filters-listed (a_filter free' whole' others)))

is_signed-has_sign : (f : Str) → is_signed f ≡ has_sign f
unfolding has_sign
is_signed-has_sign [] = refl
is_signed-has_sign (c ∷ name) = ground arith

all_signed-append :
    (xs ys : List Str) → all_signed (xs ++ ys) ≡ (all_signed xs && all_have_signs ys)
unfolding all_signed all_have_signs
all_signed-append [] [] = refl
all_signed-append [] (y ∷ ys) = ground (arith, all_signed-append [] ys, is_signed-has_sign y)
all_signed-append (x ∷ xs) ys = ground (arith, all_signed-append xs ys)

default_filters-signed : all_signed default_filters ≡ true
unfolding all_signed default_filters
default_filters-signed = refl

-- On a list of filters with commas between them, each not empty, without a comma and without white space at its ends, `SetFilters` makes the filters of the state the default ones followed by just these; it returns where the first character of each of them is a plus or a minus, and raises `ValueError` otherwise.
pub set_filters-listed :
    (fs : List Str) (s : State)
    → AreFilters fs
    → let s' = record s { filters = default_filters ++ fs } in
      ((all_have_signs fs ≡ true) × (set_filters (listed fs) s ≡ returned s'))
      ⊎ ((all_have_signs fs ≡ false) × (set_filters (listed fs) s ≡ value_error s'))
unfolding set_filters add_filters
set_filters-listed fs s h =
    let parsed = parsed_filters-listed h in
    let signs = all_signed-append default_filters fs in
    elim (Bool-cases (all_have_signs fs)) [
      | inl all ↦ inl (all, rw (parsed, signs, default_filters-signed, all) refl)
      | inr some_not ↦ inr (some_not, rw (parsed, signs, default_filters-signed, some_not) refl)
    ]
