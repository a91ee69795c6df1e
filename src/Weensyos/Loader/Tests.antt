-- ===== src/Weensyos/Loader/Tests.antt =====
-- An executable with two loadable segments among three.
use c_proj.Base.{◌≡◌, refl, some, ◌==◌, if◌then◌else◌}
use c_proj.Weensyos.Loader.{Elf, elf_magic, ProgramLoader, reset, visited, no_program}
use c_proj.Weensyos.Loader.Segments.{load_segments, reset-visited}

abbrev program : Elf
program = record {
  begin = 0x50000;
  e_magic = elf_magic;
  e_entry = 0x100000;
  e_phnum = 3;
  header = λ i. record no_program { p_type = if i == 1 then 2 else 1; p_va = i };
}

abbrev unset : ProgramLoader
unset = record { elf = some program; ph = 7; endph = 7 }

reset-visited_example :
    (l1 : ProgramLoader) × (reset unset ≡ some l1)
    × (visited 4 l1 ≡ some (load_segments program 3 0))
reset-visited_example = reset-visited unset program refl refl
