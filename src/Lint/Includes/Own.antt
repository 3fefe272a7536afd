-- ===== src/Lint/Includes/Own.antt =====
-- Which headers `_ClassifyInclude` of scripts/cpplint.py takes for a file's own.
use gameboy_emulator.Base.{◌≡◌, [], false, arith}
use gameboy_emulator.Base.Text.{Str, str_eq_refl}
use gameboy_emulator.Lint.IncludeState.{IncludeState, likely_my_header, check_next_include_order}
use gameboy_emulator.Lint.Includes.{path_split, drop_common_suffixes, classify_include}

-- A quoted include whose path agrees with the file's once the common suffixes are dropped from both is taken for the header that the file implements, and a file that includes it first gets no message about the order.
pub classify_include-own :
    (file include : Str) (s : IncludeState)
    → drop_common_suffixes file ≡ drop_common_suffixes include
    → let kind = classify_include file include false in
      (kind ≡ likely_my_header) × ((check_next_include_order kind s).0 ≡ [])
classify_include-own file include s same =
    (own, unfold check_next_include_order in rw (own) (ground arith))
  where
    parts : Str × Str
    parts = path_split (drop_common_suffixes include)

    own : classify_include file include false ≡ likely_my_header
    own = unfold classify_include in rw (same, str_eq_refl parts.1, str_eq_refl parts.0)
