-- ===== src/Weensyos/Process.antt =====
-- The process table of weensyos/kernel.hh and kernel.cc, init_process of k-hardware.cc, and the
-- scheduler.
pub mod Schedule
mod Tests
use c_proj.Base.{
  ℕ, zero, suc, ◌+◌, ◌%◌, ◌/◌, ◌*◌, Bool, true, false, Option, none, some, ◌==◌, if◌then◌else◌,
}

-- P_FREE, P_RUNNABLE, P_BLOCKED, P_BROKEN
pub data ProcState : Type 0 where
  free runnable blocked broken : ProcState

abbrev pub is_runnable : ProcState → Bool
is_runnable runnable = true
is_runnable _ = false

abbrev pub is_free : ProcState → Bool
is_free free = true
is_free _ = false

-- struct regstate, less the registers that the kernel only copies: those are the one field `general`.
pub record Regs : Type 0 where
  pub rax : ℕ
  pub rdi : ℕ
  pub general : ℕ → ℕ
  pub fs : ℕ
  pub gs : ℕ
  pub intno : ℕ
  pub errcode : ℕ
  pub rip : ℕ
  pub cs : ℕ
  pub rflags : ℕ
  pub rsp : ℕ
  pub ss : ℕ

-- struct proc; a null page table is 0.
pub record Proc : Type 0 where
  pub pagetable : ℕ
  pub pid : ℕ
  pub state : ProcState
  pub regs : Regs

abbrev pub nproc : ℕ
nproc = 16

-- The process table, and the slot that `current` points to.
pub record Procs : Type 0 where
  pub slot : ℕ → Proc
  pub current : ℕ

abbrev pub put_slot : Procs → ℕ → Proc → ℕ → Proc
put_slot t i p j = if j == i then p else t.slot j

-- What run(p) comes to: the assert fails, or the processor goes on in user mode as that process.
pub data Resumed : Type 0 where
  in_process : Procs → Resumed
  run_failed : Resumed

-- run(p), for the slot of `p`. That the page table maps what exception_return needs is checked by
-- check_pagetable, whose outcome is the argument `mapped`.
unfoldable pub run : (mapped : Proc → Bool) → ℕ → Procs → Resumed
run mapped i t =
    if is_runnable (t.slot i).state
    then (if mapped (t.slot i) then in_process (record t { current = i }) else run_failed)
    else run_failed

-- What a pass of the loop of schedule comes to.
pub data Scheduled : Type 0 where
  resumed : Resumed → Scheduled
  -- check_keyboard leaves the kernel.
  left_by_keyboard : Scheduled
  -- The number of passes is used up.
  spinning : Scheduled

-- The loop of schedule for `fuel` passes, where `pid` is the slot looked at last. `leaves n` says
-- whether check_keyboard leaves the kernel when `n` passes are left. Showing memory is left out.
unfoldable pub schedule_loop :
    (mapped : Proc → Bool) (leaves : ℕ → Bool) (fuel pid : ℕ) → Procs → Scheduled
schedule_loop mapped leaves zero pid t = spinning
schedule_loop mapped leaves (suc fuel) pid t =
    elim (is_runnable (t.slot ((pid + 1) % nproc)).state) [
      | true ↦ resumed (run mapped ((pid + 1) % nproc) t)
      | false ↦ elim (leaves fuel) [
        | true ↦ left_by_keyboard
        | false ↦ schedule_loop mapped leaves fuel ((pid + 1) % nproc) t
      ]
    ]

unfoldable pub schedule : (mapped : Proc → Bool) (leaves : ℕ → Bool) (fuel : ℕ) → Procs → Scheduled
schedule mapped leaves fuel t = schedule_loop mapped leaves fuel (t.slot t.current).pid t

abbrev pub eflags_if : ℕ
eflags_if = 0x200

abbrev pub eflags_iopl_3 : ℕ
eflags_iopl_3 = 0x3000

-- init_process. The flags are PROCINIT_ALLOW_PROGRAMMED_IO (1) and PROCINIT_DISABLE_INTERRUPTS (2).
unfoldable pub init_process : (allow_io disable_interrupts : Bool) → Proc → Proc
init_process allow_io disable_interrupts p = record p {
  regs = record {
    rax = 0;
    rdi = 0;
    general = λ i. 0;
    fs = 0x23;
    gs = 0x23;
    intno = 0;
    errcode = 0;
    rip = 0;
    cs = 0x1B;
    rflags =
        (if disable_interrupts then 0 else eflags_if) + (if allow_io then eflags_iopl_3 else 0);
    rsp = 0;
    ss = 0x23;
  };
}
