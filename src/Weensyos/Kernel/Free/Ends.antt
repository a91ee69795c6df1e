-- ===== src/Weensyos/Kernel/Free/Ends.antt =====
-- What pfree and syscall_exit of weensyos/kernel.cc leave, and that they end.

use c_proj.Base.{
  ℕ, zero, suc, ◌+◌, ◌-◌, ◌*◌, ◌/◌, ◌^◌, ◌≤◌, ◌<◌, ◌≡◌, ◌≢◌, ◌⊎◌, inl, inr, refl, ap, ◌∙◌, true,
  false, not, ◌&&◌, Option, none, some, arith, ltb, leb, ◌==◌, Bool-cases, Option-cases, eq_eq,
  leb-true, eq-true, eq-false,
}
use c_proj.Weensyos.Layout.{page_size, npages, proc_start_addr, memsize_virtual}
use c_proj.Weensyos.Alloc.{Frames, kfree, set_refcount}
use c_proj.Weensyos.PageTable.{VmIter, vmiter, advance, user, pa, address_or}
use c_proj.Weensyos.Process.{free}
use c_proj.Weensyos.Kernel.{Kernel, current_proc, put_current}
use c_proj.Weensyos.Kernel.PtIter
use c_proj.Weensyos.Kernel.PtIter.{PtIter, ptiter, active, va_noncanonmax}
use c_proj.Weensyos.Kernel.PtIter.Ends.{IsActive, After, next_total, ptiter_total}
use c_proj.Weensyos.Kernel.Free.{
  console_addr, Freed, freed, free_fault, free_user, free_users, free_table, free_tables, free_root,
  pfree, free_fuel, exited, exit_fault, syscall_exit,
}

-- No count is higher, and memory is the same.
abbrev pub Shrinks : Frames → Frames → Type 0
Shrinks k k1 = (k1.word ≡ k.word) × ((i : ℕ) → k1.refcount i ≤ k.refcount i)

Shrinks-refl : (k : Frames) → Shrinks k k
Shrinks-refl k = (refl, λ i. omega arith)

Shrinks-then : (k k1 k2 : Frames) → Shrinks k k1 → Shrinks k1 k2 → Shrinks k k2
Shrinks-then k k1 k2 (e, h) (e1, h1) = (e1 ∙ e, λ i. let a = h i in let b = h1 i in omega arith)

-- A call that fails, or shrinks.
abbrev FailsOrShrinks : Frames → Option Frames → Type 0
FailsOrShrinks k o = (o ≡ none) ⊎ ((k1 : Frames) × (o ≡ some k1) × Shrinks k k1)

lowered : (k : Frames) (a i : ℕ) → set_refcount k a (k.refcount a - 1) i ≤ k.refcount i
lowered k a i = elim (Bool-cases (i == a)) [
  | inl at ↦ let e : i ≡ a = eq_eq i a at in let f = ap k.refcount e in rw at (omega (arith, f))
  | inr other ↦ rw other (omega arith)
]

kfree-Shrinks : (kptr : ℕ) (k : Frames) → FailsOrShrinks k (kfree kptr k)
unfolding kfree
kfree-Shrinks kptr k = elim (Bool-cases (kptr == 0)) [
  | inl null ↦ inr (k, rw (null, kfree) refl, Shrinks-refl k)
  | inr non_null ↦ elim (Bool-cases (leb npages (kptr / page_size))) [
    | inl out ↦ inl (rw (non_null, out, kfree) refl)
    | inr inside ↦ elim (Bool-cases (ltb 0 (k.refcount (kptr / page_size)))) [
      | inl held ↦ inr (
        record k {
          refcount = set_refcount k (kptr / page_size) (k.refcount (kptr / page_size) - 1);
        },
        rw (non_null, inside, held, kfree) refl,
        (refl, lowered k (kptr / page_size)),
      )
      | inr unheld ↦ inr (k, rw (non_null, inside, unheld, kfree) refl, Shrinks-refl k)
    ]
  ]
]

free_user-Shrinks : (it : VmIter) (k : Frames) → FailsOrShrinks k (free_user it k)
free_user-Shrinks it k =
    elim (Bool-cases (user k.word it && not (address_or (pa k.word it) == console_addr))) [
      | inl owned ↦ rw owned (kfree-Shrinks (address_or (pa k.word it)) k)
      | inr other ↦ inr (k, rw other refl, Shrinks-refl k)
    ]

free_users-Shrinks : (left : ℕ) (it : VmIter) (k : Frames) → FailsOrShrinks k (free_users left it k)
unfolding free_users
free_users-Shrinks zero it k = inr (k, refl, Shrinks-refl k)
free_users-Shrinks (suc left) it k = elim (free_user-Shrinks it k) [
  | inl fails ↦ inl (rw (fails, free_users) refl)
  | inr (k1, e, s) ↦ elim (Option-cases (advance k1.word page_size it)) [
    | inl panics ↦ inl (rw (e, panics, free_users) refl)
    | inr (it1, f) ↦ elim (free_users-Shrinks left it1 k1) [
      | inl fails ↦ inl (rw (e, f, fails, free_users) refl)
      | inr (k2, g, t) ↦ inr (k2, rw (e, f, g, free_users) refl, Shrinks-then k k1 k2 s t)
    ]
  ]
]

free_table-Shrinks : (it : PtIter) (k : Frames) → FailsOrShrinks k (free_table it k)
free_table-Shrinks it k = elim (Bool-cases (PtIter.va it == console_addr)) [
  | inl console ↦ inr (k, rw console refl, Shrinks-refl k)
  | inr other ↦ rw other (kfree-Shrinks (PtIter.pa k.word it) k)
]

-- What is left of the walk over the tables.
abbrev todo : PtIter → ℕ
todo it = 4 * (2 ^ 48 - it.va) + (3 - it.level)

-- A walk that is at its end, or that is active and has `fuel` for what is left.
abbrev Fueled : (fuel : ℕ) → PtIter → Type 0
Fueled fuel it = (it.va ≡ va_noncanonmax + 1) ⊎ (IsActive it × (todo it < fuel))

After-Fueled :
    (fuel : ℕ) (it it1 : PtIter) → IsActive it → todo it < suc fuel → After it it1 → Fueled fuel it1
After-Fueled fuel it it1 live enough (inl end) = inl end
After-Fueled fuel it it1 live enough (inr (live1, inl lt)) = inr (live1, omega (arith, live, live1))
After-Fueled fuel it it1 live enough (inr (live1, inr (eq, up))) =
    inr (live1, omega (arith, live, live1))

-- A call that faults, or shrinks.
abbrev pub FaultsOrShrinks : Frames → Freed → Type 0
FaultsOrShrinks k r = (r ≡ free_fault) ⊎ ((k1 : Frames) × (r ≡ freed k1) × Shrinks k k1)

free_tables-ends :
    (fuel : ℕ) (it : PtIter) (k : Frames)
    → 0 < fuel
    → Fueled fuel it
    → FaultsOrShrinks k (free_tables fuel it k)
unfolding free_tables
free_tables-ends zero it k positive fueled = absurd (omega arith)
free_tables-ends (suc fuel) it k positive (inl end) =
    let over : active it ≡ false = ground arith in
    inr (k, rw (over, free_tables) refl, Shrinks-refl k)
free_tables-ends (suc fuel) it k positive (inr (live, enough)) =
    let on : active it ≡ true = leb-true it.va va_noncanonmax (omega (arith, live)) in
    elim (free_table-Shrinks it k) [
      | inl fails ↦ inl (rw (on, fails, free_tables) refl)
      | inr (k1, e, s) ↦
          let (it1, f, after) = next_total k1.word it live in
          let fueled1 = After-Fueled fuel it it1 live enough after in
          elim (free_tables-ends fuel it1 k1 (omega (arith, live, enough)) fueled1) [
            | inl faults ↦ inl (rw (on, e, f, faults, free_tables) refl)
            | inr (k2, g, t) ↦
                inr (k2, rw (on, e, f, g, free_tables) refl, Shrinks-then k k1 k2 s t)
          ]
    ]

free_root-Shrinks :
    (pt : ℕ) (k : Frames) (r : Freed) → FaultsOrShrinks k r → FaultsOrShrinks k (free_root pt r)
free_root-Shrinks pt k r (inl faults) = inl (ap (free_root pt) faults)
free_root-Shrinks pt k r (inr (k1, e, s)) = elim (kfree-Shrinks pt k1) [
  | inl fails ↦ inl (ap (free_root pt) e ∙ rw (fails, free_root) refl)
  | inr (k2, f, t) ↦
      inr (k2, ap (free_root pt) e ∙ rw (f, free_root) refl, Shrinks-then k k1 k2 s t)
]

starts-Fueled : (it : PtIter) → (it.va ≡ va_noncanonmax + 1) ⊎ IsActive it → Fueled free_fuel it
starts-Fueled it (inl end) = inl end
starts-Fueled it (inr live) = inr (live, omega (arith, live))

-- pfree ends, whatever is in the page table: it reads `pages` out of bounds or panics, or it returns
-- with memory as it was and with no reference count higher than before.
pub pfree_ends : (pt : ℕ) (k : Frames) → FaultsOrShrinks k (pfree pt k)
unfolding pfree
pfree_ends pt k = elim (Option-cases (vmiter k.word pt proc_start_addr)) [
  | inl panics ↦ inl (rw (panics, pfree) refl)
  | inr (it, e) ↦ elim (free_users-Shrinks ((memsize_virtual - proc_start_addr) / page_size) it k) [
    | inl fails ↦ inl (rw (e, fails, pfree) refl)
    | inr (k1, f, s) ↦
        let (it1, g, live) = ptiter_total k1.word pt 0 (omega arith) in
        elim (free_root-Shrinks pt k1 (free_tables free_fuel it1 k1)
          (free_tables-ends free_fuel it1 k1 (omega arith) (starts-Fueled it1 live))) [
            | inl faults ↦ inl (rw (e, f, g, pfree) faults)
            | inr (k2, h, t) ↦ inr (k2, rw (e, f, g, pfree) h, Shrinks-then k k1 k2 s t)
          ]
  ]
]

-- sys_exit ends: it faults in pfree, or it returns with the process free and every other process as it
-- was, with memory as it was and with no reference count higher than before.
pub syscall_exit_lem :
    (s : Kernel)
    → (syscall_exit s ≡ exit_fault)
      ⊎ ((s1 : Kernel) × (syscall_exit s ≡ exited s1)
          × Shrinks s.frames s1.frames
          × (s1.procs.current ≡ s.procs.current)
          × ((current_proc s1).state ≡ free)
          × ((i : ℕ) → i ≢ s.procs.current → s1.procs.slot i ≡ s.procs.slot i))
unfolding syscall_exit
syscall_exit_lem s = elim (pfree_ends (current_proc s).pagetable s.frames) [
  | inl faults ↦ inl (rw (faults, syscall_exit) refl)
  | inr (k, e, shrinks) ↦
      let here : (s.procs.current == s.procs.current) ≡ true = eq-true _ _ refl in
      inr (
        put_current (record (current_proc s) { state = free }) (record s { frames = k }),
        rw (e, syscall_exit) refl,
        shrinks,
        refl,
        rw here refl,
        λ i ne. let other = eq-false i s.procs.current ne in rw other refl,
      )
]
