-- ===== src/Weensyos/Kernel/Fork/Child.antt =====
-- Which process syscall_fork of weensyos/kernel.cc makes, and what it leaves alone.
use c_proj.Base.{
  ℕ, zero, suc, ◌+◌, ◌≤◌, ◌<◌, ◌≡◌, ◌≢◌, ◌⊎◌, inl, inr, refl, sym, ap, subst, ◌∙◌, true, false,
  arith, ◌==◌, Bool-cases, eq-true, eq-false, eq_eq,
}
use c_proj.Weensyos.Layout.{page_size}
use c_proj.Weensyos.Alloc.{Frames, kalloc, fill_page}
use c_proj.Weensyos.Process.{
  Procs, Proc, ProcState, free, runnable, blocked, broken, nproc, is_free,
}
use c_proj.Weensyos.Kernel.{Kernel, current_proc}
use c_proj.Weensyos.Kernel.Fork.{
  find_child, Copied, fork_memory, Forked, forked, not_forked, forked_fault, put_proc, child_proc,
  fork_end, fork_to, syscall_fork,
}
use c_proj.Weensyos.Kernel.Fork.Ends.{Ends, Copied-cases, fork_memory-Ends}

-- No slot from 1 to below `c` is free.
abbrev pub Taken : Procs → ℕ → Type 0
Taken t c = (i : ℕ) → 1 ≤ i → i < c → is_free (t.slot i).state ≡ false

-- `c` is the free slot with the lowest number from 1 on.
abbrev pub Lowest : Procs → ℕ → Type 0
Lowest t c = (1 ≤ c) × (c < nproc) × ((t.slot c).state ≡ free) × Taken t c

is_free-free : (st : ProcState) → is_free st ≡ true → st ≡ free
is_free-free free e = refl
is_free-free runnable e = absurd (cc e)
is_free-free blocked e = absurd (cc e)
is_free-free broken e = absurd (cc e)

Taken-more : (t : Procs) (c : ℕ) → Taken t c → is_free (t.slot c).state ≡ false → Taken t (c + 1)
Taken-more t c h e i low k = elim (Bool-cases (i == c)) [
  | inl at ↦ ap (λ j. is_free (t.slot j).state) (eq_eq i c at) ∙ e
  | inr other ↦ h i low (ground arith)
]

find_child_lem :
    (left c : ℕ) (t : Procs)
    → c + left ≡ nproc
    → 1 ≤ c
    → Taken t c
    → ((find_child left c t ≡ nproc) × Taken t nproc)
      ⊎ ((child : ℕ) × (find_child left c t ≡ child) × Lowest t child)
unfolding find_child
find_child_lem zero c t e low h =
    let end : c ≡ nproc = omega arith in inl (end, subst (Taken t) end h)
find_child_lem (suc left) c t e low h = elim (Bool-cases (is_free (t.slot c).state)) [
  | inl is ↦
      inr (c, rw (is, find_child) refl, (low, omega arith, is_free-free (t.slot c).state is, h))
  | inr not_free ↦
      elim (find_child_lem left (c + 1) t (omega arith) (omega arith) (Taken-more t c h not_free)) [
        | inl (e1, taken) ↦ inl (rw (not_free, find_child) e1, taken)
        | inr (child, e1, lowest) ↦ inr (child, rw (not_free, find_child) e1, lowest)
      ]
]

-- Every process but that of slot `c` is as it was.
abbrev pub OthersKept : (c : ℕ) (s s1 : Kernel) → Type 0
OthersKept c s s1 =
    (s1.procs.current ≡ s.procs.current) × ((i : ℕ) → i ≢ c → s1.procs.slot i ≡ s.procs.slot i)

-- What syscall_fork has done when it returns `child`, where `s` is the state before.
abbrev pub Child : (s : Kernel) (child : ℕ) (s1 : Kernel) → Type 0
Child s child s1 =
    Lowest s.procs child
    × ((s1.procs.slot child).pid ≡ child)
    × ((s1.procs.slot child).state ≡ runnable)
    × ((s1.procs.slot child).regs ≡ record (current_proc s).regs { rax = 0 })
    × OthersKept child s s1

put_here : (c : ℕ) (p : Proc) (s : Kernel) → (put_proc c p s).procs.slot c ≡ p
put_here c p s = let here : (c == c) ≡ true = eq-true c c refl in rw here refl

put_other :
    (c i : ℕ) (p : Proc) (s : Kernel) → i ≢ c → (put_proc c p s).procs.slot i ≡ s.procs.slot i
put_other c i p s ne = let other = eq-false i c ne in rw other refl

-- What syscall_fork has done when it returns -1: no process has changed its state, and none that was not
-- free has changed at all.
abbrev pub NotForked : (s s1 : Kernel) → Type 0
NotForked s s1 =
    (s1.procs.current ≡ s.procs.current)
    × ((i : ℕ) → (s1.procs.slot i).state ≡ (s.procs.slot i).state)
    × ((i : ℕ) → (s.procs.slot i).state ≢ free → s1.procs.slot i ≡ s.procs.slot i)

-- The ways in which syscall_fork can end.
abbrev pub ForkEnds : (s : Kernel) → Forked → Type 0
ForkEnds s r =
    (r ≡ forked_fault)
    ⊎ (((s1 : Kernel) × (r ≡ not_forked s1) × NotForked s s1)
        ⊎ ((child : ℕ) × (s1 : Kernel) × (r ≡ forked child s1) × Child s child s1))

module _ (s : Kernel) (child : ℕ) (lowest : Lowest s.procs child)
    (running : (current_proc s).state ≡ runnable) where
  not_current : s.procs.current ≢ child
  not_current e = absurd (cc (sym running ∙ ap (λ i. (s.procs.slot i).state) e ∙ lowest.2))

  same_states :
      (k : Frames) (p : Proc)
      → p.state ≡ (s.procs.slot child).state
      → (i : ℕ)
      → ((put_proc child p (record s { frames = k })).procs.slot i).state ≡ (s.procs.slot i).state
  same_states k p same i = elim (Bool-cases (i == child)) [
    | inl at ↦ rw at (same ∙ ap (λ j. (s.procs.slot j).state) (sym (eq_eq i child at)))
    | inr other ↦ rw other refl
  ]

  -- Behind the assignment of the child's page table.
  end_lem :
      (k : Frames) (p : Proc) (c : Copied)
      → p.state ≡ (s.procs.slot child).state
      → Ends c
      → ForkEnds s (fork_end child (put_proc child p (record s { frames = k })) c)
  end_lem k p c same_state ends =
      let s1 = put_proc child p (record s { frames = k }) in
      let parent : current_proc s1 ≡ current_proc s =
        put_other child s.procs.current p (record s { frames = k }) not_current in
      let others : (i : ℕ) → i ≢ child → s1.procs.slot i ≡ s.procs.slot i =
        λ i ne. put_other child i p (record s { frames = k }) ne in
      elim (Copied-cases c) [
        | inl (k1, e) ↦
            let q = child_proc child (s1.procs.slot child) (current_proc s1) in
            let s2 = put_proc child q (record s1 { frames = k1 }) in
            let here : s2.procs.slot child ≡ q = put_here child q (record s1 { frames = k1 }) in
            inr (
              inr (
                child,
                s2,
                ap (fork_end child s1) e,
                (
                  lowest,
                  ap (λ x. x.pid) here,
                  ap (λ x. x.state) here ∙ ap (λ x. x.state) parent ∙ running,
                  ap (λ x. x.regs) here ∙ ap (λ x. record x.regs { rax = 0 }) parent,
                  (refl, λ i ne. put_other child i q (record s1 { frames = k1 }) ne ∙ others i ne),
                ),
              ))
        | inr (inl (k1, e)) ↦ inr (
            inl (
              record s1 { frames = k1 },
              ap (fork_end child s1) e,
              (
                refl,
                same_states k p same_state,
                λ i busy. others i (λ at. busy (ap (λ j. (s.procs.slot j).state) at ∙ lowest.2)),
              ),
            ))
        | inr (inr (inl e)) ↦ inl (ap (fork_end child s1) e)
        | inr (inr (inr e)) ↦ absurd (cc (rw e at ends))
      ]

  fork_to_lem : (kernel_end : ℕ) → ForkEnds s (fork_to kernel_end child s)
  unfolding fork_to
  fork_to_lem kernel_end =
      let r = kalloc kernel_end page_size s.frames in
      elim (Bool-cases (r.0 == 0)) [
        | inl full ↦ inr (
            inl (
              record s { frames = r.1 },
              rw (full, fork_to) refl,
              (refl, (λ i. refl), λ i busy. refl),
            ))
        | inr room ↦
            let k : Frames = record r.1 { word = fill_page r.1 r.0 0 } in
            let p : Proc = record (s.procs.slot child) { pagetable = r.0 } in
            let s1 = put_proc child p (record s { frames = k }) in
            rw (room, fork_to)
              (end_lem k p (fork_memory kernel_end (current_proc s1).pagetable r.0 k) refl
                (fork_memory-Ends kernel_end (current_proc s1).pagetable r.0 k))
      ]

-- Where the current process is runnable, syscall_fork ends in one of three ways: it faults in a walk,
-- an assert or an access to `pages` out of bounds; it returns -1, and no process has changed its
-- state and none that was not free has changed; or it returns the lowest id from 1 on whose process was
-- free, and that process has this id, is runnable, and has the registers of the current one with 0 in
-- %rax, and all other processes are as they were.
pub syscall_fork_lem :
    (kernel_end : ℕ) (s : Kernel)
    → (current_proc s).state ≡ runnable
    → ForkEnds s (syscall_fork kernel_end s)
unfolding syscall_fork
syscall_fork_lem kernel_end s running =
    elim (find_child_lem 15 1 s.procs (omega arith) (omega arith)
      (λ i low k. absurd (omega arith))) [
        | inl (e, taken) ↦
            inr (inl (s, rw (e, syscall_fork) refl, (refl, (λ i. refl), λ i busy. refl)))
        | inr (child, e, lowest) ↦
            let some_child : (child == nproc) ≡ false =
              eq-false child nproc (omega (arith, lowest)) in
            rw (e, some_child, syscall_fork) (fork_to_lem s child lowest running kernel_end)
      ]
