-- ===== src/Weensyos/Kernel/Fork.antt =====
-- syscall_fork of weensyos/kernel.cc.
pub mod Ends
pub mod Child
use c_proj.Base.{
  ℕ, zero, suc, ◌+◌, ◌-◌, ◌*◌, ◌/◌, ◌%◌, Bool, true, false, not, ◌&&◌, Option, none, some, ltb, leb,
  ◌==◌, if◌then◌else◌, Memory, within,
}
use c_proj.Weensyos.Layout.{page_size, npages, memsize_virtual}
use c_proj.Weensyos.Alloc.{Frames, kalloc, kfree, fill_page, set_refcount}
use c_proj.Weensyos.PageTable.{
  VmIter, vmiter, real_find, advance, user, writable, pa, perm, address_or, Mapped, returned,
  assertion_failed, panicked, out_of_fuel, try_map,
}
use c_proj.Weensyos.Process.{Procs, Proc, Regs, nproc, is_free, put_slot}
use c_proj.Weensyos.Kernel.{Kernel, current_proc}
use c_proj.Weensyos.Kernel.Free.{console_addr, Freed, freed, free_fault, no_fuel, pfree}

-- The search for a free slot with `left` slots to go; the result is NPROC where there is none.
unfoldable pub find_child : (left child : ℕ) → Procs → ℕ
find_child zero child t = child
find_child (suc left) child t = elim (is_free (t.slot child).state) [
  | true ↦ child
  | false ↦ find_child left (child + 1) t
]

-- How a part of syscall_fork ends: it goes on, it has returned -1, it has failed in an assert, a panic
-- or out of bounds, or pfree has not ended within its fuel.
pub data Copied : Type 0 where
  copied : Frames → Copied
  gives_up : Frames → Copied
  fork_fault : Copied
  fork_no_fuel : Copied

abbrev pub given_up : Freed → Copied
given_up (freed k) = gives_up k
given_up free_fault = fork_fault
given_up no_fuel = fork_no_fuel

-- `kfree(pa); return -1` after pfree.
abbrev pub given_up_page : (page : ℕ) → Freed → Copied
given_up_page page (freed k) = elim (kfree page k) [ none ↦ fork_fault | some k1 ↦ gives_up k1 ]
given_up_page page free_fault = fork_fault
given_up_page page no_fuel = fork_no_fuel

-- memcpy of the page at `src` to the page at `dst`, by words.
abbrev pub copy_page : (dst src : ℕ) → Frames → Frames
copy_page dst src k = record k {
  word = λ i.
      if within (dst / 8) (page_size / 8) i then k.word (src / 8 + (i - dst / 8)) else k.word i;
}

-- `pages[pa / PAGESIZE].refcount++` on a uint8_t; `none` is out of bounds.
abbrev pub share : (address : ℕ) → Frames → Option Frames
share address k =
    let i : ℕ = address / page_size in
    if ltb i npages
    then some (record k { refcount = set_refcount k i ((k.refcount i + 1) % 256) })
    else none

abbrev pub shared : Option Frames → Copied
shared none = fork_fault
shared (some k) = copied k

module _ (kernel_end : ℕ) where
  -- `vmiter(child_pt).find(va).try_map(pa, perm)`
  unfoldable pub map_child : (child_pt va : ℕ) (address : Option ℕ) (flags : ℕ) → Frames → Mapped
  map_child child_pt va address flags k = elim (vmiter k.word child_pt 0) [
    | none ↦ panicked
    | some it ↦ elim (real_find k.word va it) [
      | none ↦ panicked
      | some it1 ↦ try_map kernel_end address flags k it1
    ]
  ]

  -- After try_map of a copy.
  abbrev pub copy_mapped : (child_pt page : ℕ) → Mapped → Copied
  copy_mapped child_pt page (returned true k it) = copied k
  copy_mapped child_pt page (returned false k it) = given_up_page page (pfree child_pt k)
  copy_mapped child_pt page _ = fork_fault

  -- A page that the process can write is copied.
  unfoldable pub copy_to_child : (child_pt : ℕ) → VmIter → Frames → Copied
  copy_to_child child_pt it k =
      let r : ℕ × Frames = kalloc kernel_end page_size k in
      if r.0 == 0
      then given_up (pfree child_pt r.1)
      else let k1 : Frames = copy_page r.0 (address_or (pa r.1.word it)) r.1 in
        copy_mapped child_pt r.0 (map_child child_pt it.va (some r.0) (perm k1.word it) k1)

  -- After try_map of a page that is shared. `it` belongs to the parent.
  abbrev pub share_mapped : (child_pt : ℕ) → VmIter → Mapped → Copied
  share_mapped child_pt it (returned true k it1) =
      if user k.word it && not (writable k.word it)
      then shared (share (address_or (pa k.word it)) k)
      else copied k
  share_mapped child_pt it (returned false k it1) = given_up (pfree child_pt k)
  share_mapped child_pt it _ = fork_fault

  unfoldable pub share_with_child : (child_pt : ℕ) → VmIter → Frames → Copied
  share_with_child child_pt it k =
      share_mapped child_pt it (map_child child_pt it.va (pa k.word it) (perm k.word it) k)

  -- The body of the loop.
  unfoldable pub fork_page : (child_pt : ℕ) → VmIter → Frames → Copied
  fork_page child_pt it k =
      if user k.word it && not (it.va == console_addr) && writable k.word it
      then copy_to_child child_pt it k
      else share_with_child child_pt it k

  -- The loop with `left` rounds to go: `it` starts at 0 and each round adds PAGESIZE.
  unfoldable pub fork_pages : (left child_pt : ℕ) → VmIter → Frames → Copied
  fork_pages zero child_pt it k = copied k
  fork_pages (suc left) child_pt it k = elim (fork_page child_pt it k) [
    | gives_up k1 ↦ gives_up k1
    | fork_fault ↦ fork_fault
    | fork_no_fuel ↦ fork_no_fuel
    | copied k1 ↦ elim (advance k1.word page_size it) [
      | none ↦ fork_fault
      | some it1 ↦ fork_pages left child_pt it1 k1
    ]
  ]

  unfoldable pub fork_memory : (parent_pt child_pt : ℕ) → Frames → Copied
  fork_memory parent_pt child_pt k = elim (vmiter k.word parent_pt 0) [
    | none ↦ fork_fault
    | some it ↦ fork_pages (memsize_virtual / page_size) child_pt it k
  ]

-- What syscall_fork comes to: a process id, -1, or no return.
pub data Forked : Type 0 where
  forked : ℕ → Kernel → Forked
  not_forked : Kernel → Forked
  forked_fault : Forked
  forked_no_fuel : Forked

abbrev pub put_proc : ℕ → Proc → Kernel → Kernel
put_proc i p s = record s { procs = record s.procs { slot = put_slot s.procs i p } }

-- The child's slot at the end. `parent` is `*current`.
abbrev pub child_proc : (child : ℕ) → Proc → (parent : Proc) → Proc
child_proc child p parent = record p {
  pid = child;
  regs = record parent.regs { rax = 0 };
  state = parent.state;
}

abbrev pub fork_end : (child : ℕ) → Kernel → Copied → Forked
fork_end child s (copied k) = forked child (
    put_proc child (child_proc child (s.procs.slot child) (current_proc s))
      (record s { frames = k }))
fork_end child s (gives_up k) = not_forked (record s { frames = k })
fork_end child s fork_fault = forked_fault
fork_end child s fork_no_fuel = forked_no_fuel

module _ (kernel_end : ℕ) where
  -- From the kalloc of the child's page table on.
  unfoldable pub fork_to : (child : ℕ) → Kernel → Forked
  fork_to child s =
      let r : ℕ × Frames = kalloc kernel_end page_size s.frames in
      if r.0 == 0
      then not_forked (record s { frames = r.1 })
      else let k : Frames = record r.1 { word = fill_page r.1 r.0 0 } in
        let p : Proc = record (s.procs.slot child) { pagetable = r.0 } in
        let s1 : Kernel = put_proc child p (record s { frames = k }) in
        fork_end child s1 (fork_memory kernel_end (current_proc s1).pagetable r.0 k)

  unfoldable pub syscall_fork : Kernel → Forked
  syscall_fork s =
      let child : ℕ = find_child (nproc - 1) 1 s.procs in
      if child == nproc then not_forked s else fork_to child s
