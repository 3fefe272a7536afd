-- ===== src/Examples/Modules.antt =====
-- Which files of a sample module the style checker takes to belong together.
use gameboy_emulator.Base.{◌≡◌, true, refl}
use gameboy_emulator.Base.Text.{Str, codes, ends_with}
use gameboy_emulator.Lint.Includes.{path_split, path_root}
use gameboy_emulator.Lint.Modules.{
  is_source_extension, file_split, file_base_name, extension, is_source, drop_last, source_stem,
  header_stem, files_belong_to_same_module,
}

abbrev source_file : Str
source_file = codes "src/public/ppu_test.cpp"

abbrev header_file : Str
header_file = codes "ppu.h"

header_name : header_stem header_file ≡ codes "ppu"
unfolding header_stem drop_last
header_name = refl

found_together :
    files_belong_to_same_module source_file source_file header_file ≡ (true, codes "src/")
unfolding files_belong_to_same_module source_stem header_stem is_source is_source_extension
    extension file_base_name file_split path_split path_root drop_last ends_with
found_together = refl
