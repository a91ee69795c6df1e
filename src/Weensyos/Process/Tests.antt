-- ===== src/Weensyos/Process/Tests.antt =====
-- The scheduler at a table with processes 1 and 3.

use c_proj.Base.{subst, ℕ, ◌≤◌, ◌<◌, ◌≡◌, refl, Bool, true, ◌||◌, ◌==◌, arith, if◌then◌else◌}
use c_proj.Weensyos.Process.{
  Proc, Procs, free, runnable, run, in_process, resumed, schedule_loop, schedule,
}
use c_proj.Weensyos.Process.Schedule.{after, stay, Idle, schedule_round_robin}

abbrev blank : Proc
blank = record {
  pagetable = 0;
  pid = 0;
  state = free;
  regs = record {
    rax = 0;
    rdi = 0;
    general = λ i. 0;
    fs = 0;
    gs = 0;
    intno = 0;
    errcode = 0;
    rip = 0;
    cs = 0;
    rflags = 0;
    rsp = 0;
    ss = 0;
  };
}

abbrev table : Procs
table = record {
  slot = λ i. record blank { pid = i; state = if i == 1 || i == 3 then runnable else free };
  current = 1;
}

abbrev empty_table : Procs
empty_table = record { slot = λ i. blank; current = 1 }

abbrev all_mapped : Proc → Bool
all_mapped p = true

one_then_three :
    schedule all_mapped stay 16 table ≡ resumed (in_process (record table { current = 3 }))
unfolding schedule schedule_loop run
one_then_three = refl

only_two : (i : ℕ) → 0 < i → i ≤ 1 → Idle table (after 1 i)
only_two i lo hi = subst (λ j. Idle table (after 1 j)) one refl
  where
    one : 1 ≡ i
    one = omega arith

schedule_round_robin_example :
    schedule all_mapped stay 2 table ≡ resumed (in_process (record table { current = 3 }))
schedule_round_robin_example =
    schedule_round_robin all_mapped 1 2 table (omega arith) only_two refl refl
