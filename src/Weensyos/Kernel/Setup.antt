-- ===== src/Weensyos/Kernel/Setup.antt =====
-- process_setup and kernel() of weensyos/kernel.cc. The initialisation of the hardware, the timer and the
-- console at the start of kernel() is left out.
pub mod Started
use c_proj.Base.{
  ℕ, zero, suc, ◌+◌, ◌-◌, ◌*◌, ◌/◌, ◌%◌, ◌^◌, Bool, true, false, not, ◌&&◌, Option, none, some,
  List, [], ◌∷◌, ◌++◌, ltb, ◌==◌, if◌then◌else◌, Memory, within,
}
use c_proj.Weensyos.Layout.{
  page_size, round_down, proc_start_addr, memsize_physical, memsize_virtual,
}
use c_proj.Weensyos.Alloc.{Frames, kalloc, fill_page}
use c_proj.Weensyos.PageTable.{
  VmIter, vmiter, real_find, advance, pa, perm, address_or, Mapped, returned, try_map,
}
use c_proj.Weensyos.Process.{
  Proc, Procs, Resumed, free, runnable, init_process, nproc, put_slot, run,
}
use c_proj.Weensyos.Loader.{
  ElfProgram, ProgramLoader, RamImage, elf_pflag_write, visited, reset, present, entry,
  program_loader_named,
}
use c_proj.Weensyos.Loader
use c_proj.Weensyos.Kernel.{Kernel}
use c_proj.Weensyos.Kernel.Free.{console_addr}
use Prim.Native.Nat.{bit_and}

-- The byte at address `a` of memory by words.
abbrev pub byte_of : Memory → ℕ → ℕ
byte_of word a = word (a / 8) / 256 ^ (a % 8) % 256

-- Memory by words from memory by bytes, the low byte first.
abbrev pub words_of : Memory → Memory
words_of byte j =
    byte (8 * j)
    + 256 * byte (8 * j + 1)
    + 256 ^ 2 * byte (8 * j + 2)
    + 256 ^ 3 * byte (8 * j + 3)
    + 256 ^ 4 * byte (8 * j + 4)
    + 256 ^ 5 * byte (8 * j + 5)
    + 256 ^ 6 * byte (8 * j + 6)
    + 256 ^ 7 * byte (8 * j + 7)

-- The `n` bytes at `dst` become those that `value` gives.
abbrev pub put_bytes : (dst n : ℕ) (value : Memory) → Frames → Frames
put_bytes dst n value k = record k {
  word = words_of (λ a. if within dst n a then value a else byte_of k.word a);
}

-- Pages and an iterator; `none` is an assert, a panic, or an access that faults.
abbrev pub Setting : Type 0
Setting = Option (Frames × VmIter)

abbrev pub moved_on : (delta : ℕ) → Frames → VmIter → Setting
moved_on delta k it = elim (advance k.word delta it) [ none ↦ none | some it1 ↦ some (k, it1) ]

-- vmiter::map: the assert that try_map returns 0.
abbrev pub must_map : Mapped → Setting
must_map (returned true k it) = some (k, it)
must_map _ = none

-- The flags that a segment's pages get: PTE_P, PTE_W where it can be written, and PTE_U.
abbrev pub segment_flags : ElfProgram → ℕ
segment_flags seg = if not (bit_and seg.p_flags elf_pflag_write == 0) then 7 else 5

-- How many pages `a` passes, from the round address down to the end of the segment.
abbrev pub segment_pages : ElfProgram → ℕ
segment_pages seg =
    (seg.p_va + seg.p_memsz - round_down seg.p_va page_size + page_size - 1) / page_size

-- memset and memcpy of a segment. The second walk of the loader.
unfoldable pub fill_segments : (begin : ℕ) → List ElfProgram → Frames → VmIter → Setting
fill_segments begin [] k it = some (k, it)
fill_segments begin (seg ∷ segs) k it = elim (real_find k.word seg.p_va it) [
  | none ↦ none
  | some it1 ↦
      let a : ℕ = address_or (pa k.word it1) in
      let k1 : Frames = put_bytes a seg.p_memsz (λ i. 0) k in
      let source : Memory = λ i. byte_of k1.word (begin + seg.p_offset + (i - a)) in
      fill_segments begin segs (put_bytes a seg.p_filesz source k1) it1
]

-- What process_setup comes to.
pub data SetUp : Type 0 where
  set_up : Kernel → SetUp
  setup_fault : SetUp

-- The process at the end: the registers of init_process with %rip and %rsp, and P_RUNNABLE.
abbrev pub started_proc : (pt rip : ℕ) → Proc → Proc
started_proc pt rip p =
    let q : Proc = init_process false false p in
    record q {
      pagetable = pt;
      regs = record q.regs { rip = rip; rsp = memsize_virtual };
      state = runnable;
    }

abbrev pub put_pid : ℕ → Proc → Kernel → Kernel
put_pid pid p s = record s { procs = record s.procs { slot = put_slot s.procs pid p } }

abbrev pub setup_end : (pid : ℕ) → Proc → Kernel → Setting → SetUp
setup_end pid p s none = setup_fault
setup_end pid p s (some (k, it)) = set_up (put_pid pid p (record s { frames = k }))

abbrev pub begin_of : ProgramLoader → ℕ
begin_of l = elim l.elf [ none ↦ 0 | some e ↦ e.begin ]

-- The segments that both walks of the loader visit.
abbrev pub segments_of : ProgramLoader → Option (List ElfProgram)
segments_of l = visited (suc l.endph) l

-- The flags of a page in kernel().
abbrev pub boot_flags : ℕ → ℕ
boot_flags va =
    if ltb va proc_start_addr && not (va == console_addr) then 3 else if not (va == 0) then 7 else 0

module _ (kernel_end : ℕ) where
  -- The loop over the kernel's pages below PROC_START_ADDR with `left` rounds to go: `from` is the
  -- kernel's iterator and `it` that of the process.
  unfoldable pub copy_kernel : (left : ℕ) → (from : VmIter) → Frames → VmIter → Setting
  copy_kernel zero from k it = some (k, it)
  copy_kernel (suc left) from k it =
      elim (must_map (try_map kernel_end (pa k.word from) (perm k.word from) k it)) [
        | none ↦ none
        | some (k1, it1) ↦ elim (moved_on page_size k1 it1) [
          | none ↦ none
          | some (k2, it2) ↦ elim (advance k2.word page_size from) [
            | none ↦ none
            | some from1 ↦ copy_kernel left from1 k2 it2
          ]
        ]
      ]

  -- kalloc, find and map for the page `a`. That kalloc may fail is not tested.
  unfoldable pub map_fresh : (a flags : ℕ) → Frames → VmIter → Setting
  map_fresh a flags k it =
      let r : ℕ × Frames = kalloc kernel_end page_size k in
      elim (real_find r.1.word a it) [
        | none ↦ none
        | some it1 ↦ must_map (try_map kernel_end (some r.0) flags r.1 it1)
      ]

  -- The loop over the pages of a segment with `left` rounds to go.
  unfoldable pub map_pages : (left a flags : ℕ) → Frames → VmIter → Setting
  map_pages zero a flags k it = some (k, it)
  map_pages (suc left) a flags k it = elim (map_fresh a flags k it) [
    | none ↦ none
    | some (k1, it1) ↦ map_pages left (a + page_size) flags k1 it1
  ]

  -- The first walk of the loader.
  unfoldable pub map_segments : List ElfProgram → Frames → VmIter → Setting
  map_segments [] k it = some (k, it)
  map_segments (seg ∷ segs) k it =
      elim (map_pages (segment_pages seg) (round_down seg.p_va page_size) (segment_flags seg) k
        it) [ none ↦ none | some (k1, it1) ↦ map_segments segs k1 it1 ]

  -- The iterators, the kernel's pages, the segments and the stack.
  unfoldable pub setup_memory : (kernel_pt pt begin : ℕ) → List ElfProgram → Frames → Setting
  setup_memory kernel_pt pt begin segs k = elim (vmiter k.word pt 0) [
    | none ↦ none
    | some it ↦ elim (vmiter k.word kernel_pt 0) [
      | none ↦ none
      | some from ↦ elim (copy_kernel (proc_start_addr / page_size) from k it) [
        | none ↦ none
        | some (k1, it1) ↦ elim (map_segments segs k1 it1) [
          | none ↦ none
          | some (k2, it2) ↦ elim (fill_segments begin segs k2 it2) [
            | none ↦ none
            | some (k3, it3) ↦ map_fresh (memsize_virtual - page_size) 7 k3 it3
          ]
        ]
      ]
    ]
  ]

  -- From the page table on.
  abbrev pub setup_from : (kernel_pt pid : ℕ) → ProgramLoader → (pt : ℕ) → Frames → Kernel → SetUp
  setup_from kernel_pt pid l pt k s = elim (segments_of l) [
    | none ↦ setup_fault
    | some segs ↦
        setup_end pid (started_proc pt (Loader.entry l) (s.procs.slot pid)) s
          (setup_memory kernel_pt pt (begin_of l) segs k)
  ]

  unfoldable pub process_setup :
      List RamImage → (kernel_pt pid : ℕ) (program_name : List ℕ) → Kernel → SetUp
  process_setup images kernel_pt pid program_name s =
      let r : ℕ × Frames = kalloc kernel_end page_size s.frames in
      let k : Frames = if r.0 == 0 then r.1 else record r.1 { word = fill_page r.1 r.0 0 } in
      elim (program_loader_named images program_name) [
        | none ↦ setup_fault
        | some l ↦ setup_from kernel_pt pid l r.0 k s
      ]

  -- The loop of kernel() over the pages of memory with `left` rounds to go.
  unfoldable pub boot_pages : (left : ℕ) → Frames → VmIter → Setting
  boot_pages zero k it = some (k, it)
  boot_pages (suc left) k it =
      elim (must_map (try_map kernel_end (some it.va) (boot_flags it.va) k it)) [
        | none ↦ none
        | some (k1, it1) ↦ elim (moved_on page_size k1 it1) [
          | none ↦ none
          | some (k2, it2) ↦ boot_pages left k2 it2
        ]
      ]

  abbrev pub setup_list : List RamImage → (kernel_pt : ℕ) → List (ℕ × List ℕ) → SetUp → SetUp
  setup_list images kernel_pt [] r = r
  setup_list images kernel_pt ((pid, name) ∷ rest) setup_fault = setup_fault
  setup_list images kernel_pt ((pid, name) ∷ rest) (set_up s) =
      setup_list images kernel_pt rest (process_setup images kernel_pt pid name s)

-- ptable[i].pid = i, and P_FREE.
abbrev pub blank_procs : Procs → Procs
blank_procs t = record t { slot = λ i. record (t.slot i) { pid = i; state = free } }

-- "allocator", and with a digit behind it.
abbrev pub allocator : List ℕ
allocator = b'a' ∷ b'l' ∷ b'l' ∷ b'o' ∷ b'c' ∷ b'a' ∷ b't' ∷ b'o' ∷ b'r' ∷ []

abbrev pub later_allocators : List (ℕ × List ℕ)
later_allocators =
    (2, allocator ++ (b'2' ∷ []))
    ∷ (3, allocator ++ (b'3' ∷ []))
    ∷ (4, allocator ++ (b'4' ∷ []))
    ∷ []

abbrev pub allocators : List (ℕ × List ℕ)
allocators = (1, allocator) ∷ later_allocators

-- The programs to run: the command, where it names an executable with a segment, or the four allocators.
abbrev pub programs_of : List RamImage → (command : Option (List ℕ)) → Option (List (ℕ × List ℕ))
programs_of images none = some allocators
programs_of images (some command) = elim (program_loader_named images command) [
  | none ↦ none
  | some l ↦ some (if present l then (1, command) ∷ [] else allocators)
]

-- What kernel() comes to, from the page table on.
pub data Booted : Type 0 where
  booted : Frames → Resumed → Booted
  boot_fault : Booted

abbrev pub run_first : (mapped : Proc → Bool) → SetUp → Booted
run_first mapped (set_up s) = booted s.frames (run mapped 1 s.procs)
run_first mapped setup_fault = boot_fault

unfoldable pub kernel :
    (kernel_end : ℕ) (mapped : Proc → Bool)
    → List RamImage
    → (kernel_pt : ℕ) (command : Option (List ℕ)) → Kernel
    → Booted
kernel kernel_end mapped images kernel_pt command s = elim (vmiter s.frames.word kernel_pt 0) [
  | none ↦ boot_fault
  | some it ↦ elim (boot_pages kernel_end (memsize_physical / page_size) s.frames it) [
    | none ↦ boot_fault
    | some (k, it1) ↦ elim (programs_of images command) [
      | none ↦ boot_fault
      | some programs ↦ run_first mapped (
          setup_list kernel_end images kernel_pt programs
            (set_up (record { frames = k; procs = blank_procs s.procs })))
    ]
  ]
]
