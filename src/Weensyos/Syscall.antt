-- ===== src/Weensyos/Syscall.antt =====
-- syscall_page_alloc of weensyos/kernel.cc.
pub mod PageAlloc
mod Tests
use c_proj.Base.{ℕ, ◌+◌, ◌%◌, Bool, true, false, ◌||◌, Option, none, some, ltb, leb, ◌==◌, not}
use c_proj.Weensyos.Layout.{page_size, proc_start_addr, memsize_virtual}
use c_proj.Weensyos.Alloc.{Frames, kalloc, kfree, fill_page}
use c_proj.Weensyos.PageTable.{
  VmIter, vmiter, Mapped, returned, assertion_failed, panicked, out_of_fuel, try_map,
}

-- The result of syscall_page_alloc: 0 (`true`) or -1 (`false`) with the pages, or an assert, a panic or
-- an access to `pages` out of bounds.
pub data PageAllocated : Type 0 where
  result : Bool → Frames → PageAllocated
  kernel_fault : PageAllocated

-- `addr % PAGESIZE != 0 || addr < PROC_START_ADDR || addr >= MEMSIZE_VIRTUAL`
abbrev pub invalid_addr : ℕ → Bool
invalid_addr addr =
    not (addr % page_size == 0) || ltb addr proc_start_addr || leb memsize_virtual addr

abbrev pub zero_page : Frames → ℕ → Frames
zero_page k pa = record k { word = fill_page k pa 0 }

abbrev pub freed : Option Frames → PageAllocated
freed none = kernel_fault
freed (some k) = result false k

-- What follows the call of try_map.
unfoldable pub page_mapped : (pa : ℕ) → Mapped → PageAllocated
page_mapped pa (returned true k it) = result true k
page_mapped pa (returned false k it) = freed (kfree pa k)
page_mapped pa _ = kernel_fault

module _ (kernel_end : ℕ) where
  -- From the iterator on, with the page at `pa` in hand.
  unfoldable pub map_page : (pt addr pa : ℕ) → Frames → PageAllocated
  map_page pt addr pa k = elim (vmiter k.word pt addr) [
    | none ↦ kernel_fault
    | some it ↦ page_mapped pa (try_map kernel_end (some pa) 7 k it)
  ]

  -- `pt` is `current->pagetable`.
  unfoldable pub syscall_page_alloc : (pt addr : ℕ) → Frames → PageAllocated
  syscall_page_alloc pt addr k = elim (invalid_addr addr) [
    | true ↦ result false k
    | false ↦ elim ((kalloc kernel_end page_size k).0 == 0) [
      | true ↦ result false (kalloc kernel_end page_size k).1
      | false ↦
          map_page pt addr (kalloc kernel_end page_size k).0
            (zero_page (kalloc kernel_end page_size k).1 (kalloc kernel_end page_size k).0)
    ]
  ]
