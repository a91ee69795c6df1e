-- ===== src/Weensyos/PageTable/Tests.antt =====
-- Runs of vmiter on a page table with one page.

use c_proj.Base.{◌+◌, ◌*◌, ◌/◌, ◌<◌, ◌≡◌, refl, some, Memory, arith, ◌==◌, if◌then◌else◌}
use c_proj.Weensyos.PageTable.Bare.{bare, low_address, bare-PageTables, root_entry, root_run}
use c_proj.Weensyos.PageTable.Map.{Maps, try_map_lem}
use c_proj.Weensyos.PageTable.{
  try_map, VmIter, vmiter, real_find, pa, perm, skip_level, page_span, down, down_loop,
}
use c_proj.Weensyos.PageTable.Walk.{real_find-eq-vmiter}

-- Tables at 0x1000, 0x2000, 0x3000 and 0x4000, and the page 0x20000 mapped at 0x10000.
abbrev tables : Memory
tables i =
    if i == 512
    then 0x2007
    else if i == 1024
    then 0x3007
    else if i == 1536
    then 0x4007
    else if i == 2064
    then 0x20007
    else 0

abbrev mapped : VmIter
mapped = record { pt = 0x1000; pep = some 2064; level = 0; perm = 7; va = 0x10123 }

mapped_run : vmiter tables 0x1000 0x10123 ≡ some mapped
unfolding vmiter real_find down down_loop
mapped_run = refl

mapped_pa : pa tables mapped ≡ some 0x20123
unfolding pa
mapped_pa = refl

-- Two megabytes without a table.
abbrev gap : VmIter
gap = record { pt = 0x1000; pep = some 1537; level = 1; perm = 7; va = 0x200000 }

gap_run : vmiter tables 0x1000 0x200000 ≡ some gap
unfolding vmiter real_find down down_loop
gap_run = refl

gap_level : skip_level tables gap ≡ 1
unfolding perm
gap_level = refl

real_find-eq-vmiter_example : real_find tables 0x11000 mapped ≡ vmiter tables 0x1000 0x11000
real_find-eq-vmiter_example = real_find-eq-vmiter tables 0x1000 0x10123 0x11000 mapped mapped_run

in_gap :
    0x2FF000
    < (0x200000 / page_span (skip_level tables gap) + 1) * page_span (skip_level tables gap)
unfolding perm
in_gap = omega arith

try_map_lem_example :
    Maps 0x50000 0x1000 0x100000 0x20000 7 low_address bare
      (try_map 0x50000 (some 0x20000) 7 bare root_entry)
try_map_lem_example =
    try_map_lem 0x50000 0x1000 0x100000 0x20000 7 bare root_entry low_address bare-PageTables
      root_run refl (ground arith) (λ _. refl)
