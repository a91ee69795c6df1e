-- ===== src/Weensyos/Loader.antt =====
-- program_loader of weensyos/k-hardware.cc, the iterator over the segments of an executable, and the
-- table of executables.
pub mod Segments
mod Tests
use Prim.Native.Nat.{bit_and}
use c_proj.Base.{
  ℕ, zero, suc, ◌+◌, ◌-◌, Bool, true, false, not, ◌&&◌, Option, none, some, List, [], ◌∷◌, ltb,
  ◌==◌, if◌then◌else◌, length,
}

-- struct elf_program of weensyos/elf.h, less the fields that nothing reads.
pub record ElfProgram : Type 0 where
  pub p_type : ℕ
  pub p_flags : ℕ
  pub p_offset : ℕ
  pub p_va : ℕ
  pub p_filesz : ℕ
  pub p_memsz : ℕ

-- An executable in memory: where it begins, the fields of its struct elf_header that are read, and its
-- program headers, by their distance from e_phoff.
pub record Elf : Type 0 where
  pub begin : ℕ
  pub e_magic : ℕ
  pub e_entry : ℕ
  pub e_phnum : ℕ
  pub header : ℕ → ElfProgram

abbrev pub elf_magic : ℕ
elf_magic = 0x464C457F

abbrev pub elf_ptype_load : ℕ
elf_ptype_load = 1

abbrev pub elf_pflag_write : ℕ
elf_pflag_write = 2

-- `ph_` and `endph_` count headers, and are 0 where `elf_` is nullptr.
pub record ProgramLoader : Type 0 where
  pub elf : Option Elf
  pub ph : ℕ
  pub endph : ℕ

abbrev pub is_load : Elf → ℕ → Bool
is_load e i = (e.header i).p_type == elf_ptype_load

-- The loop of fix with `left` headers to go.
unfoldable pub fix_loop : Elf → (left ph : ℕ) → ℕ
fix_loop e zero ph = ph
fix_loop e (suc left) ph = elim (is_load e ph) [ true ↦ ph | false ↦ fix_loop e left (ph + 1) ]

unfoldable pub fix : ProgramLoader → ProgramLoader
fix l = elim l.elf [ none ↦ l | some e ↦ record l { ph = fix_loop e (l.endph - l.ph) l.ph } ]

-- `none` is a failed assertion.
unfoldable pub reset : ProgramLoader → Option ProgramLoader
reset l = elim l.elf [
  | none ↦ some (record { elf = none; ph = 0; endph = 0 })
  | some e ↦
      if e.e_magic == elf_magic
      then some (fix (record { elf = some e; ph = 0; endph = e.e_phnum }))
      else none
]

unfoldable pub present : ProgramLoader → Bool
present l = not (l.ph == l.endph)

-- operator++
unfoldable pub next : ProgramLoader → ProgramLoader
next l = if present l then fix (record l { ph = l.ph + 1 }) else l

abbrev pub no_program : ElfProgram
no_program = record { p_type = 0; p_flags = 0; p_offset = 0; p_va = 0; p_filesz = 0; p_memsz = 0 }

-- `*ph_` where there is one, and zeros at the end.
abbrev pub segment : ProgramLoader → ElfProgram
segment l =
    if present l then (elim l.elf [ none ↦ no_program | some e ↦ e.header l.ph ]) else no_program

unfoldable pub va : ProgramLoader → ℕ
va l = (segment l).p_va

unfoldable pub size : ProgramLoader → ℕ
size l = (segment l).p_memsz

unfoldable pub data_size : ProgramLoader → ℕ
data_size l = (segment l).p_filesz

unfoldable pub writable : ProgramLoader → Bool
writable l = present l && not (bit_and (segment l).p_flags elf_pflag_write == 0)

-- The address `data()`; 0 is nullptr.
unfoldable pub data_address : ProgramLoader → ℕ
data_address l = elim l.elf [
  | none ↦ 0
  | some e ↦ if present l then e.begin + (segment l).p_offset else 0
]

unfoldable pub entry : ProgramLoader → ℕ
entry l = elim l.elf [ none ↦ 0 | some e ↦ e.e_entry ]

-- A row of `ramimages`: the name, and the executable that the build puts there.
abbrev pub RamImage : Type 0
RamImage = List ℕ × Elf

-- strcmp() == 0, on the bytes before the NUL.
unfoldable pub same_name : List ℕ → List ℕ → Bool
same_name [] [] = true
same_name [] (d ∷ ds) = false
same_name (c ∷ cs) [] = false
same_name (c ∷ cs) (d ∷ ds) = c == d && same_name cs ds

-- program_number from row `i` on; `none` is -1.
unfoldable pub program_number_from : (i : ℕ) → List RamImage → List ℕ → Option ℕ
program_number_from i [] name = none
program_number_from i ((n, e) ∷ rows) name = elim (same_name name n) [
  | true ↦ some i
  | false ↦ program_number_from (i + 1) rows name
]

unfoldable pub program_number : List RamImage → List ℕ → Option ℕ
program_number = program_number_from 0

abbrev pub image_at : List RamImage → ℕ → Option Elf
image_at [] i = none
image_at ((n, e) ∷ rows) zero = some e
image_at ((n, e) ∷ rows) (suc i) = image_at rows i

abbrev pub image_of : List RamImage → Option ℕ → Option Elf
image_of images none = none
image_of images (some i) = image_at images i

-- The two constructors.
unfoldable pub program_loader : List RamImage → Option ℕ → Option ProgramLoader
program_loader images number = reset (record { elf = image_of images number; ph = 0; endph = 0 })

unfoldable pub program_loader_named : List RamImage → List ℕ → Option ProgramLoader
program_loader_named images name = program_loader images (program_number images name)

-- The segments that a loop `for (; loader.present(); ++loader)` sees, for `fuel` rounds at most.
unfoldable pub visited : (fuel : ℕ) → ProgramLoader → Option (List ElfProgram)
visited zero l = none
visited (suc fuel) l =
    let rest : Option (List ElfProgram) = visited fuel (next l) in
    if present l
    then (elim rest [ none ↦ none | some segments ↦ some (segment l ∷ segments) ])
    else some []
