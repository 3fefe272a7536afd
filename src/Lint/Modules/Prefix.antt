-- ===== src/Lint/Modules/Prefix.antt =====
-- The prefix that `FilesBelongToSameModule` of scripts/cpplint.py returns.
use mathlib.Core.List.{reverse-append, reverse-reverse}
use gameboy_emulator.Base.{
  ◌≡◌, ◌≢◌, ◌∙◌, ◌-◌, refl, sym, ap, true, false, [], ◌∷◌, ◌++◌, length, reverse, arith,
  length-append, ◌==◌,
}
use gameboy_emulator.Base.Text.{Str, starts_with, ends_with}
use gameboy_emulator.Lint.Expression.Brackets.{take-prefix}
use gameboy_emulator.Lint.Modules.{drop_last, source_stem, header_stem, files_belong_to_same_module}

starts_with-split : (s p : Str) → starts_with s p ≡ true → (d : Str) × (s ≡ p ++ d)
starts_with-split s [] h = (s, refl)
starts_with-split [] (x ∷ p) h = cc
starts_with-split (y ∷ s) (x ∷ p) h =
    let (d, same) = starts_with-split s p (ground arith) in (d, ground (arith, same))

ends_with-split : (s suffix : Str) → ends_with s suffix ≡ true → (d : Str) × (s ≡ d ++ suffix)
unfolding ends_with
ends_with-split s suffix h =
    let (d, same) = starts_with-split (reverse s) (reverse suffix) h in
    (
      reverse d,
      sym (reverse-reverse s)
          ∙ ap (λ (x : Str). reverse x) same
          ∙ reverse-append (reverse suffix) d
          ∙ ap (λ (x : Str). reverse d ++ x) (reverse-reverse suffix),
    )

drop_last-append : (d suffix : Str) → suffix ≢ [] → drop_last (length suffix) (d ++ suffix) ≡ d
unfolding drop_last
drop_last-append d [] h = absurd (h refl)
drop_last-append d (x ∷ suffix) h =
    let long : length (d ++ x ∷ suffix) - length (x ∷ suffix) ≡ length d =
      omega (arith, length-append d (x ∷ suffix)) in
    let some_left : (length (x ∷ suffix) == 0) ≡ false = ground arith in
    rw (some_left, long) (take-prefix d (x ∷ suffix))

-- When the two files are found to belong to the same module and the header's name is not empty, the prefix returned followed by the header's name is the source file's name, both as they are compared.
pub files_belong_to_same_module-prefix :
    (repository_name filename_cc filename_h path : Str)
    → files_belong_to_same_module repository_name filename_cc filename_h ≡ (true, path)
    → header_stem filename_h ≢ []
    → path ++ header_stem filename_h ≡ source_stem repository_name filename_cc
unfolding files_belong_to_same_module
files_belong_to_same_module-prefix repository_name filename_cc filename_h path e nonempty =
    let cc_stem = source_stem repository_name filename_cc in
    let h_stem = header_stem filename_h in
    let belongs : ends_with cc_stem h_stem ≡ true = ground arith in
    let returned : drop_last (length h_stem) cc_stem ≡ path = ground arith in
    let (d, same) = ends_with-split cc_stem h_stem belongs in
    let short : drop_last (length h_stem) (d ++ h_stem) ≡ d = drop_last-append d h_stem nonempty in
    ap (λ (x : Str). x ++ h_stem)
      (sym returned ∙ ap (λ (x : Str). drop_last (length h_stem) x) same ∙ short)
    ∙ sym same
