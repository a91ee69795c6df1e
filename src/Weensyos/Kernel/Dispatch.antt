-- ===== src/Weensyos/Kernel/Dispatch.antt =====
-- syscall and exception of weensyos/kernel.cc. Showing the cursor and memory is left out. Whether
-- check_keyboard leaves the kernel at the start is the argument `leaves_now`.
pub mod Broken
use Prim.Native.Nat.{bit_and}
use c_proj.Base.{
  ℕ, ◌+◌, ◌-◌, ◌^◌, Bool, true, false, not, Option, none, some, List, [], ◌∷◌, ◌==◌, if◌then◌else◌,
}
use c_proj.Weensyos.Alloc.{Frames}
use c_proj.Weensyos.Process.{
  Proc, Regs, Resumed, Scheduled, resumed, broken, is_runnable, run, schedule,
}
use c_proj.Weensyos.Syscall.{PageAllocated, result, kernel_fault, syscall_page_alloc}
use c_proj.Weensyos.Printer.{Arg, int_arg, long_arg, text_arg}
use c_proj.Weensyos.Kernel.{Kernel, current_proc, put_current}
use c_proj.Weensyos.Kernel.Free.{Exited, exited, exit_fault, exit_no_fuel, syscall_exit}
use c_proj.Weensyos.Kernel.Fork.{
  Forked, forked, not_forked, forked_fault, forked_no_fuel, syscall_fork,
}

-- What exception has console_printf print at CPOS(24, 0): the process, the address, and whether the
-- access was a write and the page present, and %rip.
pub record PageFault : Type 0 where
  pub pid : ℕ
  pub addr : ℕ
  pub is_write : Bool
  pub is_present : Bool
  pub rip : ℕ

-- What an entry into the kernel comes to.
pub data Outcome : Type 0 where
  -- A system call returns with this %rax.
  returns : (rax : ℕ) → Kernel → Outcome
  -- A process is run: its message, the ticks added, the pages, and what run or schedule came to.
  switches : Option PageFault → (ticks : ℕ) → Frames → Scheduled → Outcome
  -- check_keyboard left the kernel.
  leaves : Outcome
  panics : Outcome
  -- An assert, a panic or an access out of bounds on the way.
  faults : Outcome
  lacks_fuel : Outcome

abbrev pub int_irq_timer : ℕ
int_irq_timer = 32

abbrev pub int_pf : ℕ
int_pf = 14

abbrev pub pferr_present : ℕ
pferr_present = 1

abbrev pub pferr_write : ℕ
pferr_write = 2

abbrev pub pferr_user : ℕ
pferr_user = 4

-- `errcode & mask`, as a condition.
abbrev pub errcode_has : (errcode mask : ℕ) → Bool
errcode_has errcode mask = not (bit_and errcode mask == 0)

-- `current->regs = *regs`
abbrev pub save_regs : Regs → Kernel → Kernel
save_regs regs s = put_current (record (current_proc s) { regs = regs }) s

abbrev pub break_current : Kernel → Kernel
break_current s = put_current (record (current_proc s) { state = broken }) s

abbrev pub fault_message : Regs → (cr2 : ℕ) → Kernel → PageFault
fault_message regs cr2 s = record {
  pid = (current_proc s).pid;
  addr = cr2;
  is_write = errcode_has regs.errcode pferr_write;
  is_present = errcode_has regs.errcode pferr_present;
  rip = regs.rip;
}

-- -1 as a pid_t or an int that is returned as a uintptr_t.
abbrev pub minus_one : ℕ
minus_one = 2 ^ 64 - 1

abbrev pub page_alloc_outcome : Kernel → PageAllocated → Outcome
page_alloc_outcome s (result true k) = returns 0 (record s { frames = k })
page_alloc_outcome s (result false k) = returns minus_one (record s { frames = k })
page_alloc_outcome s kernel_fault = faults

abbrev pub fork_outcome : Forked → Outcome
fork_outcome (forked pid s) = returns pid s
fork_outcome (not_forked s) = returns minus_one s
fork_outcome forked_fault = faults
fork_outcome forked_no_fuel = lacks_fuel

-- `mapped`, `keys` and `fuel` are the arguments of schedule.
module _ (mapped : Proc → Bool) (keys : ℕ → Bool) (fuel : ℕ) where
  abbrev pub scheduled : Option PageFault → (ticks : ℕ) → Kernel → Outcome
  scheduled message ticks s = switches message ticks s.frames (schedule mapped keys fuel s.procs)

  abbrev pub exit_outcome : Exited → Outcome
  exit_outcome (exited s) = scheduled none 0 s
  exit_outcome exit_fault = faults
  exit_outcome exit_no_fuel = lacks_fuel

  -- The end of exception.
  abbrev pub return_or_schedule : Option PageFault → Kernel → Outcome
  return_or_schedule message s =
      if is_runnable (current_proc s).state
      then switches message 0 s.frames (resumed (run mapped s.procs.current s.procs))
      else scheduled message 0 s

  abbrev pub page_fault : Regs → (cr2 : ℕ) → Kernel → Outcome
  page_fault regs cr2 s =
      if errcode_has regs.errcode pferr_user
      then return_or_schedule (some (fault_message regs cr2 s)) (break_current s)
      else panics

  unfoldable pub exception : (leaves_now : Bool) → Regs → (cr2 : ℕ) → Kernel → Outcome
  exception leaves_now regs cr2 s =
      if leaves_now
      then leaves
      else if regs.intno == int_irq_timer
      then scheduled none 1 (save_regs regs s)
      else if regs.intno == int_pf
      then page_fault regs cr2 (save_regs regs s)
      else panics

  -- SYSCALL_YIELD
  abbrev pub yield : Kernel → Outcome
  yield s =
      scheduled none 0 (
        put_current (record (current_proc s) { regs = record (current_proc s).regs { rax = 0 } }) s)

  -- The switch of syscall on the number in %rax.
  abbrev pub dispatch : (kernel_end : ℕ) → Regs → Kernel → Outcome
  dispatch kernel_end regs s =
      if regs.rax == 1
      then returns (current_proc s).pid s
      else if regs.rax == 2
      then yield s
      else if regs.rax == 4
      then page_alloc_outcome s
          (syscall_page_alloc kernel_end (current_proc s).pagetable regs.rdi s.frames)
      else if regs.rax == 5
      then fork_outcome (syscall_fork kernel_end s)
      else if regs.rax == 6
      then exit_outcome (syscall_exit s)
      else panics

  unfoldable pub syscall : (kernel_end : ℕ) (leaves_now : Bool) → Regs → Kernel → Outcome
  syscall kernel_end leaves_now regs s =
      if leaves_now then leaves else dispatch kernel_end regs (save_regs regs s)
