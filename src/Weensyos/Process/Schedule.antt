-- ===== src/Weensyos/Process/Schedule.antt =====
-- The scheduler of weensyos/kernel.cc is round robin.

use c_proj.Base.{
  subst, ℕ, zero, suc, ◌+◌, ◌%◌, ◌≤◌, ◌<◌, ◌≡◌, refl, sym, ap, ◌∙◌, Bool, true, false, arith,
}
use c_proj.Weensyos.Process.{
  Proc, Procs, is_runnable, nproc, run, resumed, in_process, spinning, schedule_loop, schedule,
}

-- The slot `d` steps behind `pid`, going round.
abbrev pub after : (pid d : ℕ) → ℕ
after pid d = (pid + d) % nproc

abbrev pub Idle : Procs → ℕ → Type 0
Idle t i = is_runnable (t.slot i).state ≡ false

-- No key is typed that leaves the kernel.
abbrev pub stay : ℕ → Bool
stay n = false

after-after : (pid i : ℕ) → after ((pid + 1) % nproc) i ≡ after pid (suc i)
after-after pid i = omega arith

module _ (mapped : Proc → Bool) where
  -- A pass over an idle slot.
  pass :
      (fuel pid : ℕ) (t : Procs)
      → Idle t ((pid + 1) % nproc)
      → schedule_loop mapped stay (suc fuel) pid t
        ≡ schedule_loop mapped stay fuel ((pid + 1) % nproc) t
  unfolding schedule_loop
  pass fuel pid t idle = rw (idle, schedule_loop)

  -- The loop goes past `d` idle slots and runs the runnable one behind them.
  loop_reaches :
      (d fuel pid : ℕ) (t : Procs)
      → d < fuel
      → ((i : ℕ) → 0 < i → i ≤ d → Idle t (after pid i))
      → is_runnable (t.slot (after pid (suc d))).state ≡ true
      → schedule_loop mapped stay fuel pid t ≡ resumed (run mapped (after pid (suc d)) t)
  unfolding schedule_loop
  loop_reaches d zero pid t h idle found = absurd (omega arith)
  loop_reaches zero (suc fuel) pid t h idle found = rw (found, schedule_loop)
  loop_reaches (suc d) (suc fuel) pid t h idle found =
      let first : Idle t ((pid + 1) % nproc) = idle 1 (omega arith) (omega arith) in
      pass fuel pid t first
      ∙ loop_reaches d fuel ((pid + 1) % nproc) t (omega arith)
          (λ i lo hi.
            subst (λ j. Idle t j) (sym (after-after pid i))
              (idle (suc i) (omega arith) (omega arith)))
          (subst (λ j. is_runnable (t.slot j).state ≡ true) (sym (after-after pid (suc d))) found)
      ∙ ap (λ j. resumed (run mapped j t)) (after-after pid (suc d))

  loop_spins :
      (fuel pid : ℕ) (t : Procs)
      → ((i : ℕ) → i < nproc → Idle t i)
      → schedule_loop mapped stay fuel pid t ≡ spinning
  unfolding schedule_loop
  loop_spins zero pid t idle = refl
  loop_spins (suc fuel) pid t idle =
      pass fuel pid t (idle ((pid + 1) % nproc) (omega arith))
      ∙ loop_spins fuel ((pid + 1) % nproc) t idle

  -- schedule runs the first runnable process behind the current one, going round the table, and needs
  -- one pass more than the idle slots that it goes past, so at most sixteen, as long as no key leaves
  -- the kernel: with `d` idle slots behind the current one and a runnable one behind these whose page
  -- table passes check_pagetable, that process is current and running.
  pub schedule_round_robin :
      (d fuel : ℕ) (t : Procs)
      → d < fuel
      → ((i : ℕ) → 0 < i → i ≤ d → Idle t (after (t.slot t.current).pid i))
      → is_runnable (t.slot (after (t.slot t.current).pid (suc d))).state ≡ true
      → mapped (t.slot (after (t.slot t.current).pid (suc d))) ≡ true
      → schedule mapped stay fuel t
        ≡ resumed (in_process (record t { current = after (t.slot t.current).pid (suc d) }))
  unfolding schedule run
  schedule_round_robin d fuel t h idle found ok =
      loop_reaches d fuel (t.slot t.current).pid t h idle found ∙ ap resumed (rw (found, ok))

  -- With no runnable process schedule goes on for ever, whatever the number of passes.
  pub schedule_spins :
      (fuel : ℕ) (t : Procs)
      → ((i : ℕ) → i < nproc → Idle t i)
      → schedule mapped stay fuel t ≡ spinning
  unfolding schedule
  schedule_spins fuel t idle = loop_spins fuel (t.slot t.current).pid t idle
