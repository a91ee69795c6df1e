-- ===== src/Weensyos/Loader/Segments.antt =====
-- What a loop over program_loader of weensyos/k-hardware.cc visits.
use c_proj.Base.{
  ℕ, zero, suc, ◌+◌, ◌-◌, ◌<◌, ◌≡◌, refl, ap, ◌∙◌, true, false, some, List, [], ◌∷◌, arith, ◌==◌,
  if◌then◌else◌, Bool-cases, inl, inr, eq-true, eq-false,
}
use c_proj.Weensyos.Loader.{
  ElfProgram, Elf, elf_magic, ProgramLoader, is_load, fix_loop, fix, reset, present, next, segment,
  visited,
}

-- The headers of loadable segments among the `n` from number `i` on.
abbrev pub load_segments : Elf → (n i : ℕ) → List ElfProgram
load_segments e zero i = []
load_segments e (suc n) i =
    if is_load e i then e.header i ∷ load_segments e n (i + 1) else load_segments e n (i + 1)

abbrev at_header : Elf → (ph endph : ℕ) → ProgramLoader
at_header e ph endph = record { elf = some e; ph = ph; endph = endph }

next_header :
    (e : Elf) (i n endph : ℕ)
    → endph ≡ i + suc n
    → next (at_header e i endph) ≡ at_header e (fix_loop e n (i + 1)) endph
unfolding next present fix
next_header e i n endph h =
    let here : (i == endph) ≡ false = eq-false i endph (omega (arith, h)) in
    let left : endph - (i + 1) ≡ n = omega (arith, h) in rw (here, left, next, present, fix) refl

visited_header :
    (e : Elf) (fuel n i endph : ℕ) (rest : List ElfProgram)
    → endph ≡ i + suc n
    → visited fuel (at_header e (fix_loop e n (i + 1)) endph) ≡ some rest
    → visited (suc fuel) (at_header e i endph) ≡ some (e.header i ∷ rest)
unfolding visited present
visited_header e fuel n i endph rest h behind =
    let here : (i == endph) ≡ false = eq-false i endph (omega (arith, h)) in
    let at : segment (at_header e i endph) ≡ e.header i = rw (here, present) refl in
    rw (here, next_header e i n endph h, behind, visited, present) (ap (λ s. some (s ∷ rest)) at)

visited_from :
    (e : Elf) (fuel n i endph : ℕ)
    → endph ≡ i + n
    → n < fuel
    → visited fuel (at_header e (fix_loop e n i) endph) ≡ some (load_segments e n i)
unfolding visited present fix_loop
visited_from e zero n i endph h k = absurd (omega (arith, k))
visited_from e (suc fuel) zero i endph h k =
    let end : (i == endph) ≡ true = eq-true i endph (omega (arith, h)) in
    rw (end, visited, present) refl
visited_from e (suc fuel) (suc n) i endph h k = elim (Bool-cases (is_load e i)) [
  | inl load ↦
      let at : fix_loop e (suc n) i ≡ i = rw (load, fix_loop) refl in
      let rest = visited_from e fuel n (i + 1) endph (omega (arith, h)) (omega (arith, k)) in
      ap (λ j. visited (suc fuel) (at_header e j endph)) at
      ∙ visited_header e fuel n i endph (load_segments e n (i + 1)) h rest
      ∙ rw load refl
  | inr other ↦
      let at : fix_loop e (suc n) i ≡ fix_loop e n (i + 1) = rw (other, fix_loop) refl in
      ap (λ j. visited (suc fuel) (at_header e j endph)) at
      ∙ visited_from e (suc fuel) n (i + 1) endph (omega (arith, h)) (omega (arith, k))
      ∙ rw other refl
]

-- A loader of an executable with the ELF magic number passes its assert, and a loop from reset to the
-- end visits the headers of type ELF_PTYPE_LOAD, each once and in their order, in at most one
-- round for each header and one to end.
pub reset-visited :
    (l : ProgramLoader) (e : Elf)
    → l.elf ≡ some e
    → e.e_magic ≡ elf_magic
    → (l1 : ProgramLoader) × (reset l ≡ some l1)
      × (visited (suc e.e_phnum) l1 ≡ some (load_segments e e.e_phnum 0))
unfolding reset fix
reset-visited l e has_elf magic =
    let ok : (e.e_magic == elf_magic) ≡ true = eq-true e.e_magic elf_magic magic in
    let whole : e.e_phnum - 0 ≡ e.e_phnum = omega arith in
    (
      at_header e (fix_loop e e.e_phnum 0) e.e_phnum,
      rw (has_elf, ok, whole, reset, fix) refl,
      visited_from e (suc e.e_phnum) e.e_phnum 0 e.e_phnum (omega arith) (omega arith),
    )
