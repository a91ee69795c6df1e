-- ===== src/Weensyos/Kernel/Free.antt =====
-- pfree and syscall_exit of weensyos/kernel.cc.
pub mod Ends
use c_proj.Base.{
  ℕ, zero, suc, ◌+◌, ◌-◌, ◌*◌, ◌/◌, Bool, true, false, not, ◌&&◌, Option, none, some, ltb, ◌==◌,
  if◌then◌else◌, Memory,
}
use c_proj.Weensyos.Layout.{page_size, proc_start_addr, memsize_virtual}
use c_proj.Weensyos.Alloc.{Frames, kfree}
use c_proj.Weensyos.PageTable.{VmIter, vmiter, advance, user, pa, address_or}
use c_proj.Weensyos.Kernel.PtIter
use c_proj.Weensyos.Kernel.PtIter.{PtIter, ptiter, active}
use c_proj.Weensyos.Process.{Proc, free}
use c_proj.Weensyos.Kernel.{Kernel, current_proc, put_current}

abbrev pub console_addr : ℕ
console_addr = 0xB8000

-- What freeing comes to: the pages, an access to `pages` out of bounds or a panic of the walk, or no
-- end within the fuel.
pub data Freed : Type 0 where
  freed : Frames → Freed
  free_fault : Freed
  no_fuel : Freed

-- The body of the first loop of pfree.
abbrev pub free_user : VmIter → Frames → Option Frames
free_user it k =
    let address : ℕ = address_or (pa k.word it) in
    if user k.word it && not (address == console_addr) then kfree address k else some k

-- The first loop with `left` rounds to go: `it` starts at PROC_START_ADDR and each round adds PAGESIZE.
-- kfree leaves memory alone, so the entries stay what they are.
unfoldable pub free_users : (left : ℕ) → VmIter → Frames → Option Frames
free_users zero it k = some k
free_users (suc left) it k = elim (free_user it k) [
  | none ↦ none
  | some k1 ↦ elim (advance k1.word page_size it) [
    | none ↦ none
    | some it1 ↦ free_users left it1 k1
  ]
]

-- The body of the second loop.
abbrev pub free_table : PtIter → Frames → Option Frames
free_table it k = if PtIter.va it == console_addr then some k else kfree (PtIter.pa k.word it) k

-- The second loop.
unfoldable pub free_tables : (fuel : ℕ) → PtIter → Frames → Freed
free_tables zero it k = no_fuel
free_tables (suc fuel) it k = elim (active it) [
  | false ↦ freed k
  | true ↦ elim (free_table it k) [
    | none ↦ free_fault
    | some k1 ↦ elim (PtIter.next k1.word it) [
      | none ↦ no_fuel
      | some it1 ↦ free_tables fuel it1 k1
    ]
  ]
]

-- More rounds than there are addresses of 48 bits, times 4.
abbrev pub free_fuel : ℕ
free_fuel = 0x4000000000010

-- The last kfree.
abbrev pub free_root : (pt : ℕ) → Freed → Freed
free_root pt (freed k) = elim (kfree pt k) [ none ↦ free_fault | some k1 ↦ freed k1 ]
free_root pt r = r

unfoldable pub pfree : (pt : ℕ) → Frames → Freed
pfree pt k = elim (vmiter k.word pt proc_start_addr) [
  | none ↦ free_fault
  | some it ↦ elim (free_users ((memsize_virtual - proc_start_addr) / page_size) it k) [
    | none ↦ free_fault
    | some k1 ↦ elim (ptiter k1.word pt 0) [
      | none ↦ no_fuel
      | some it1 ↦ free_root pt (free_tables free_fuel it1 k1)
    ]
  ]
]

-- What syscall_exit comes to.
pub data Exited : Type 0 where
  exited : Kernel → Exited
  exit_fault : Exited
  exit_no_fuel : Exited

unfoldable pub syscall_exit : Kernel → Exited
syscall_exit s = elim (pfree (current_proc s).pagetable s.frames) [
  | free_fault ↦ exit_fault
  | no_fuel ↦ exit_no_fuel
  | freed k ↦
      exited (put_current (record (current_proc s) { state = free }) (record s { frames = k }))
]
