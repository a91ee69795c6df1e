-- ===== src/Weensyos/Syscall/Tests.antt =====
-- A run of syscall_page_alloc.
use c_proj.Base.{◌≡◌, refl, false}
use c_proj.Weensyos.PageTable.Bare.{bare, bare-PageTables, root_entry, root_run}
use c_proj.Weensyos.Syscall.{syscall_page_alloc, result}
use c_proj.Weensyos.Syscall.PageAlloc.{Allocates, OffLimits, syscall_page_alloc_lem}

syscall_page_alloc_lem_example :
    Allocates 0x50000 0x1000 0x100000 bare (syscall_page_alloc 0x50000 0x1000 0x100000 bare)
    × (OffLimits 0x100000 → syscall_page_alloc 0x50000 0x1000 0x100000 bare ≡ result false bare)
syscall_page_alloc_lem_example =
    syscall_page_alloc_lem 0x50000 0x1000 0x100000 bare root_entry bare-PageTables root_run refl
      (λ _. refl)
