-- ===== src/Weensyos/Kernel/Setup/Started.antt =====
-- What process_setup and kernel() of weensyos/kernel.cc leave in the process table.
use c_proj.Base.{
  ℕ, ◌≤◌, ◌≡◌, ◌≢◌, ◌⊎◌, inl, inr, refl, sym, ap, subst, ◌∙◌, Bool, true, Option, none, some, List,
  [], ◌∷◌, ◌==◌, if◌then◌else◌, Bool-cases, Option-cases, eq-true, eq-false, eq_eq, arith, ◌/◌,
}
use c_proj.Weensyos.Layout.{page_size, memsize_physical, memsize_virtual}
use c_proj.Weensyos.Alloc.{Frames, kalloc, fill_page}
use c_proj.Weensyos.PageTable.{vmiter}
use c_proj.Weensyos.Process.{Proc, free, runnable, init_process, run}
use c_proj.Weensyos.Loader.{ProgramLoader, RamImage, present, program_loader_named, entry}
use c_proj.Weensyos.Kernel.{Kernel}
use c_proj.Weensyos.Kernel.Setup.{
  Setting, SetUp, set_up, setup_fault, started_proc, put_pid, setup_end, begin_of, segments_of,
  setup_from, setup_memory, process_setup, boot_pages, setup_list, blank_procs, allocator,
  later_allocators, programs_of, booted, boot_fault, run_first, kernel,
}

-- Slot `pid` holds a process that has been set up, with its number kept, and no other slot has changed.
abbrev pub Started : (pid : ℕ) (s s1 : Kernel) → Type 0
Started pid s s1 =
    ((s1.procs.slot pid).state ≡ runnable)
    × ((s1.procs.slot pid).regs.rsp ≡ memsize_virtual)
    × ((s1.procs.slot pid).pid ≡ (s.procs.slot pid).pid)
    × ((i : ℕ) → i ≢ pid → s1.procs.slot i ≡ s.procs.slot i)

abbrev pub FaultOr : SetUp → (Kernel → Type 0) → Type 0
FaultOr r P = (r ≡ setup_fault) ⊎ ((s1 : Kernel) × (r ≡ set_up s1) × P s1)

put_pid-Started :
    (pid pt rip : ℕ) (s : Kernel) (k : Frames)
    → Started pid s (put_pid pid (started_proc pt rip (s.procs.slot pid)) (record s { frames = k }))
unfolding init_process
put_pid-Started pid pt rip s k =
    let here : (pid == pid) ≡ true = eq-true pid pid refl in
    (
      rw here refl,
      rw here refl,
      rw here refl,
      λ i ne. let other = eq-false i pid ne in rw other refl,
    )

setup_end-Started :
    (pid pt rip : ℕ) (s : Kernel) (r : Setting)
    → FaultOr (setup_end pid (started_proc pt rip (s.procs.slot pid)) s r) (Started pid s)
setup_end-Started pid pt rip s none = inl refl
setup_end-Started pid pt rip s (some (k, it)) = inr (
  put_pid pid (started_proc pt rip (s.procs.slot pid)) (record s { frames = k }),
  refl,
  put_pid-Started pid pt rip s k,
)

module _ (kernel_end : ℕ) (images : List RamImage) (kernel_pt : ℕ) where
  setup_from-Started :
      (pid : ℕ) (l : ProgramLoader) (pt : ℕ) (k : Frames) (s : Kernel)
      → FaultOr (setup_from kernel_end kernel_pt pid l pt k s) (Started pid s)
  setup_from-Started pid l pt k s = elim (Option-cases (segments_of l)) [
    | inl fails ↦ inl (rw (fails, setup_from) refl)
    | inr (segs, e) ↦
        rw (e, setup_from)
          (setup_end-Started pid pt (entry l) s
            (setup_memory kernel_end kernel_pt pt (begin_of l) segs k))
  ]

  process_setup-Started :
      (pid : ℕ) (name : List ℕ) (s : Kernel)
      → FaultOr (process_setup kernel_end images kernel_pt pid name s) (Started pid s)
  unfolding process_setup
  process_setup-Started pid name s =
      let r = kalloc kernel_end page_size s.frames in
      let k : Frames = if r.0 == 0 then r.1 else record r.1 { word = fill_page r.1 r.0 0 } in
      elim (Option-cases (program_loader_named images name)) [
        | inl fails ↦ inl (rw (fails, process_setup) refl)
        | inr (l, e) ↦ rw (e, process_setup) (setup_from-Started pid l r.0 k s)
      ]

-- Every process has the number of its slot, and slots 0 and 5 on are free.
abbrev pub Numbered : Kernel → Type 0
Numbered s =
    ((i : ℕ) → (s.procs.slot i).pid ≡ i)
    × ((i : ℕ) → (i ≡ 0) ⊎ (5 ≤ i) → (s.procs.slot i).state ≡ free)

-- The first process can run.
abbrev pub Ready : Kernel → Type 0
Ready s = ((s.procs.slot 1).state ≡ runnable) × ((s.procs.slot 1).regs.rsp ≡ memsize_virtual)

Started-Numbered :
    (pid : ℕ) (s s1 : Kernel) → 1 ≤ pid → pid ≤ 4 → Started pid s s1 → Numbered s → Numbered s1
Started-Numbered pid s s1 low high (state, rsp, number, others) (numbers, frees) = (
  (λ i. elim (Bool-cases (i == pid)) [
    | inl at ↦
        let e = eq_eq i pid at in ap (λ j. (s1.procs.slot j).pid) e ∙ number ∙ numbers pid ∙ sym e
    | inr other ↦
        ap (λ p. p.pid) (others i (λ e. absurd (cc (sym other ∙ eq-true i pid e)))) ∙ numbers i
  ]),
  λ i far. ap (λ p. p.state) (others i (outside pid i low high far)) ∙ frees i far,
)
  where
    outside : (pid i : ℕ) → 1 ≤ pid → pid ≤ 4 → (i ≡ 0) ⊎ (5 ≤ i) → i ≢ pid
    outside pid i low high (inl e) at = absurd (omega arith)
    outside pid i low high (inr le) at = absurd (omega arith)

Started-Ready : (pid : ℕ) (s s1 : Kernel) → 2 ≤ pid → Started pid s s1 → Ready s → Ready s1
Started-Ready pid s s1 low (state, rsp, number, others) (run1, rsp1) =
    let same = others 1 (λ e. absurd (omega arith)) in
    (ap (λ p. p.state) same ∙ run1, ap (λ p. p.regs.rsp) same ∙ rsp1)

-- Programs for the slots 2 to 4.
abbrev Later : List (ℕ × List ℕ) → Type 0
Later [] = Unit
Later ((pid, name) ∷ rest) = (2 ≤ pid) × (pid ≤ 4) × Later rest

abbrev GoodKernel : Kernel → Type 0
GoodKernel s = Numbered s × Ready s

module _ (kernel_end : ℕ) (images : List RamImage) (kernel_pt : ℕ) where
  fault_stays :
      (list : List (ℕ × List ℕ))
      → setup_list kernel_end images kernel_pt list setup_fault ≡ setup_fault
  fault_stays [] = refl
  fault_stays ((pid, name) ∷ rest) = refl

  Later-programs :
      (list : List (ℕ × List ℕ)) (s : Kernel)
      → Later list
      → GoodKernel s
      → FaultOr (setup_list kernel_end images kernel_pt list (set_up s)) GoodKernel
  Later-programs [] s later good = inr (s, refl, good)
  Later-programs ((pid, name) ∷ rest) s (low, high, later) (numbered, ready) =
      elim (process_setup-Started kernel_end images kernel_pt pid name s) [
        | inl fails ↦
            inl (ap (setup_list kernel_end images kernel_pt rest) fails ∙ fault_stays rest)
        | inr (s1, e, started) ↦
            subst (λ x. FaultOr (setup_list kernel_end images kernel_pt rest x) GoodKernel) (sym e)
              (Later-programs rest s1 later (
                Started-Numbered pid s s1 (omega arith) high started numbered,
                Started-Ready pid s s1 low started ready,
              ))
      ]

  all_programs :
      (name : List ℕ) (rest : List (ℕ × List ℕ)) (s : Kernel)
      → Later rest
      → Numbered s
      → FaultOr (setup_list kernel_end images kernel_pt ((1, name) ∷ rest) (set_up s)) GoodKernel
  all_programs name rest s later numbered =
      elim (process_setup-Started kernel_end images kernel_pt 1 name s) [
        | inl fails ↦
            inl (ap (setup_list kernel_end images kernel_pt rest) fails ∙ fault_stays rest)
        | inr (s1, e, started) ↦
            subst (λ x. FaultOr (setup_list kernel_end images kernel_pt rest x) GoodKernel) (sym e)
              (Later-programs rest s1 later (
                Started-Numbered 1 s s1 (omega arith) (omega arith) started numbered,
                (started.0, started.1),
              ))
      ]

later_allocators-Later : Later later_allocators
later_allocators-Later =
    (omega arith, omega arith, (omega arith, omega arith, (omega arith, omega arith, tt)))

-- The programs chosen begin with one for slot 1.
programs_of-Later :
    (images : List RamImage) (command : Option (List ℕ))
    → (programs_of images command ≡ none)
      ⊎ ((name : List ℕ) × (rest : List (ℕ × List ℕ)) × (programs_of images command
            ≡ some ((1, name) ∷ rest))
          × Later rest)
programs_of-Later images none = inr (allocator, later_allocators, refl, later_allocators-Later)
programs_of-Later images (some command) =
    elim (Option-cases (program_loader_named images command)) [
      | inl fails ↦ inl (rw (fails, programs_of) refl)
      | inr (l, e) ↦ elim (Bool-cases (present l)) [
        | inl found ↦ inr (command, [], rw (e, found, programs_of) refl, tt)
        | inr missing ↦
            inr (
              allocator,
              later_allocators,
              rw (e, missing, programs_of) refl,
              later_allocators-Later,
            )
      ]
    ]

-- kernel() faults in a walk, an assert or a program loader, or it runs process 1, which is runnable with
-- its stack pointer at the end of virtual memory, with every process numbered by its slot and
-- slots 0 and 5 to 15 free, whatever the process table, the executables and the command are.
pub kernel_lem :
    (kernel_end : ℕ) (mapped : Proc → Bool) (images : List RamImage) (kernel_pt : ℕ)
    (command : Option (List ℕ)) (s : Kernel)
    → (kernel kernel_end mapped images kernel_pt command s ≡ boot_fault)
      ⊎ ((s1 : Kernel) × (kernel kernel_end mapped images kernel_pt command s
            ≡ booted s1.frames (run mapped 1 s1.procs))
          × Numbered s1
          × Ready s1)
unfolding kernel
kernel_lem kernel_end mapped images kernel_pt command s =
    elim (Option-cases (vmiter s.frames.word kernel_pt 0)) [
      | inl fails ↦ inl (rw (fails, kernel) refl)
      | inr (it, e) ↦
          elim (Option-cases (boot_pages kernel_end (memsize_physical / page_size) s.frames it)) [
            | inl fails ↦ inl (rw (e, fails, kernel) refl)
            | inr ((k, it1), f) ↦ elim (programs_of-Later images command) [
              | inl fails ↦ inl (rw (e, f, fails, kernel) refl)
              | inr (name, rest, g, later) ↦
                  let s0 : Kernel = record { frames = k; procs = blank_procs s.procs } in
                  elim (all_programs kernel_end images kernel_pt name rest s0 later
                    ((λ i. refl), λ i far. refl)) [
                      | inl fails ↦ inl (rw (e, f, g, kernel) (ap (run_first mapped) fails))
                      | inr (s1, h, (numbered, ready)) ↦
                          inr (s1, rw (e, f, g, kernel) (ap (run_first mapped) h), numbered, ready)
                    ]
            ]
          ]
    ]
