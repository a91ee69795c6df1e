-- ===== src/Weensyos/Kernel/Dispatch/Broken.antt =====
-- A page fault of a process in exception of weensyos/kernel.cc.
use c_proj.Base.{
  ℕ, zero, suc, ◌+◌, ◌%◌, ◌≡◌, ◌≢◌, inl, inr, refl, sym, ap, subst, ◌∙◌, Bool, true, false, some,
  ◌==◌, Bool-cases, eq-true, eq-false, arith,
}
use c_proj.Weensyos.Process.{
  Proc, Regs, Procs, broken, nproc, is_runnable, in_process, run, Scheduled, resumed, schedule_loop,
  schedule,
}
use c_proj.Weensyos.Kernel.{Kernel, current_proc}
use c_proj.Weensyos.Kernel.Dispatch.{
  PageFault, switches, save_regs, break_current, errcode_has, pferr_user, fault_message, page_fault,
  return_or_schedule, exception,
}

-- The process that a pass of the scheduler resumes, if any, is runnable.
abbrev RunnableIn : Procs → Scheduled → Type 0
RunnableIn t (resumed (in_process t1)) =
    (is_runnable (t.slot t1.current).state ≡ true) × ((i : ℕ) → t1.slot i ≡ t.slot i)
RunnableIn t r = Unit

module _ (mapped : Proc → Bool) (keys : ℕ → Bool) where
  run-RunnableIn :
      (i : ℕ) (t : Procs)
      → is_runnable (t.slot i).state ≡ true
      → RunnableIn t (resumed (run mapped i t))
  unfolding run
  run-RunnableIn i t ready = elim (Bool-cases (mapped (t.slot i))) [
    | inl ok ↦ rw (ready, ok, run) (ready, λ j. refl)
    | inr bad ↦ rw (ready, bad, run) tt
  ]

  schedule_loop-RunnableIn :
      (fuel pid : ℕ) (t : Procs) → RunnableIn t (schedule_loop mapped keys fuel pid t)
  unfolding schedule_loop
  schedule_loop-RunnableIn zero pid t = tt
  schedule_loop-RunnableIn (suc fuel) pid t =
      elim (Bool-cases (is_runnable (t.slot ((pid + 1) % nproc)).state)) [
        | inl ready ↦ rw (ready, schedule_loop) (run-RunnableIn ((pid + 1) % nproc) t ready)
        | inr idle ↦ elim (Bool-cases (keys fuel)) [
          | inl key ↦ rw (idle, key, schedule_loop) tt
          | inr quiet ↦
              rw (idle, quiet, schedule_loop) (schedule_loop-RunnableIn fuel ((pid + 1) % nproc) t)
        ]
      ]

  -- A process whose state is broken is not resumed.
  never_resumed :
      (fuel : ℕ) (t t1 : Procs)
      → (t.slot t.current).state ≡ broken
      → schedule mapped keys fuel t ≡ resumed (in_process t1)
      → t1.current ≢ t.current
  unfolding schedule
  never_resumed fuel t t1 dead e at =
      let runs = subst (RunnableIn t) e (schedule_loop-RunnableIn fuel (t.slot t.current).pid t) in
      absurd (cc (sym (runs.0) ∙ ap (λ i. is_runnable (t.slot i).state) at ∙ ap is_runnable dead))

  -- Unless check_keyboard leaves the kernel first, a page fault in user mode is never a panic: the
  -- message names the process and the address, the process is broken and every other one is as it was,
  -- and the scheduler runs next, which does not resume the broken process.
  pub user_page_fault_lem :
      (fuel : ℕ) (regs : Regs) (cr2 : ℕ) (s : Kernel)
      → regs.intno ≡ 14
      → errcode_has regs.errcode pferr_user ≡ true
      → (message : PageFault) × (s1 : Kernel) × (exception mapped keys fuel false regs cr2 s
          ≡ switches (some message) 0 s.frames (schedule mapped keys fuel s1.procs))
        × (message.pid ≡ (current_proc s).pid)
        × (message.addr ≡ cr2)
        × (s1.procs.current ≡ s.procs.current)
        × ((current_proc s1).state ≡ broken)
        × ((i : ℕ) → i ≢ s.procs.current → s1.procs.slot i ≡ s.procs.slot i)
        × ((t : Procs)
            → schedule mapped keys fuel s1.procs ≡ resumed (in_process t)
            → t.current ≢ s.procs.current)
  unfolding exception
  user_page_fault_lem fuel regs cr2 s intno user =
      let s1 = break_current (save_regs regs s) in
      let here : (s.procs.current == s.procs.current) ≡ true = eq-true _ _ refl in
      let dead : (current_proc s1).state ≡ broken = rw here refl in
      let timer : (regs.intno == 32) ≡ false =
        eq-false regs.intno 32 (λ e. absurd (omega (arith, e, intno))) in
      let fault : (regs.intno == 14) ≡ true = eq-true regs.intno 14 intno in
      let stopped : is_runnable (current_proc s1).state ≡ false = ap is_runnable dead in
      (
        fault_message regs cr2 (save_regs regs s),
        s1,
        rw (timer, fault, user, exception, page_fault) (rw (stopped, return_or_schedule) refl),
        rw here refl,
        refl,
        refl,
        dead,
        (λ i ne. let other = eq-false i s.procs.current ne in rw other refl),
        λ t e. never_resumed fuel s1.procs t dead e,
      )
