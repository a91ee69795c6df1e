-- ===== src/Weensyos/Kernel/Tests.antt =====
-- A kernel with one process, whose page table has no entry.
use c_proj.Base.{
  [], ◌<◌, none, true, false, ℕ, ◌≡◌, ◌≢◌, ◌⊎◌, refl, some, ◌==◌, if◌then◌else◌, arith,
}
use c_proj.Weensyos.Process.{
  Procs, Regs, free, runnable, broken, run, schedule, resumed, in_process,
}
use c_proj.Weensyos.PageTable.Bare.{bare}
use c_proj.Weensyos.Kernel.{Kernel, current_proc}
use c_proj.Weensyos.Kernel.Dispatch.{PageFault, exception, switches}
use c_proj.Weensyos.Kernel.Dispatch.Broken.{user_page_fault_lem}
use c_proj.Weensyos.Kernel.PtIter.{PtIter}
use c_proj.Weensyos.Kernel.Shown.{drawable, memshow, memshow_lem}
use c_proj.Weensyos.Kernel.Setup.{kernel, booted, boot_fault}
use c_proj.Weensyos.Kernel.Setup.Started.{Numbered, Ready, kernel_lem}
use c_proj.Weensyos.Kernel.Free.{syscall_exit, exited, exit_fault}
use c_proj.Weensyos.Kernel.Free.Ends.{Shrinks, syscall_exit_lem}
use c_proj.Weensyos.Kernel.Fork.{syscall_fork}
use c_proj.Weensyos.Kernel.Fork.Child.{ForkEnds, syscall_fork_lem}

abbrev one_process : Kernel
one_process = record {
  frames = bare;
  procs = record {
    slot = λ i. record {
      pagetable = 0x1000;
      pid = i;
      state = if i == 1 then runnable else free;
      regs = record {
        rax = 5;
        rdi = 0;
        general = λ i. i;
        fs = 0;
        gs = 0;
        intno = 0;
        errcode = 0;
        rip = 0x100000;
        cs = 0;
        rflags = 0;
        rsp = 0;
        ss = 0;
      };
    };
    current = 1;
  };
}

abbrev first_table : PtIter
first_table = record { pt = 0x1000; pep = 512; level = 3; va = 0 }

syscall_exit_lem_example :
    (syscall_exit one_process ≡ exit_fault)
    ⊎ ((s1 : Kernel) × (syscall_exit one_process ≡ exited s1)
        × Shrinks one_process.frames s1.frames
        × (s1.procs.current ≡ one_process.procs.current)
        × ((current_proc s1).state ≡ free)
        × ((i : ℕ) → i ≢ one_process.procs.current → s1.procs.slot i ≡ one_process.procs.slot i))
syscall_exit_lem_example = syscall_exit_lem one_process

syscall_fork_lem_example : ForkEnds one_process (syscall_fork 0x50000 one_process)
syscall_fork_lem_example = syscall_fork_lem 0x50000 one_process refl

-- A write in user mode to a page that is not there.
abbrev fault_regs : Regs
fault_regs = record (current_proc one_process).regs { intno = 14; errcode = 6 }

user_page_fault_lem_example :
    (message : PageFault) × (s1 : Kernel) × (exception
        (λ p. true)
        (λ i. false)
        16
        false
        fault_regs
        0x2FF000
        one_process
      ≡ switches
          (some message)
          0
          one_process.frames
          (schedule (λ p. true) (λ i. false) 16 s1.procs))
    × (message.pid ≡ (current_proc one_process).pid)
    × (message.addr ≡ 0x2FF000)
    × (s1.procs.current ≡ one_process.procs.current)
    × ((current_proc s1).state ≡ broken)
    × ((i : ℕ) → i ≢ one_process.procs.current → s1.procs.slot i ≡ one_process.procs.slot i)
    × ((t : Procs)
        → schedule (λ p. true) (λ i. false) 16 s1.procs ≡ resumed (in_process t)
        → t.current ≢ one_process.procs.current)
user_page_fault_lem_example =
    user_page_fault_lem (λ p. true) (λ i. false) 16 fault_regs 0x2FF000 one_process refl refl

memshow_lem_example :
    ((memshow 60 one_process.procs (record { last_ticks = 3; showing = 15 })).1.showing < 16)
    × (((i : ℕ) × ((memshow 60 one_process.procs (record { last_ticks = 3; showing = 15 })).0
            ≡ some i)
          × (i < 16)
          × (drawable one_process.procs i ≡ true))
        ⊎ (((memshow 60 one_process.procs (record { last_ticks = 3; showing = 15 })).0 ≡ none)
            × ((i : ℕ) → i < 16 → drawable one_process.procs i ≡ false)))
memshow_lem_example =
    memshow_lem 60 one_process.procs (record { last_ticks = 3; showing = 15 }) (omega arith)

kernel_lem_example :
    (kernel 0x50000 (λ p. true) [] 0x1000 none one_process ≡ boot_fault)
    ⊎ ((s1 : Kernel) × (kernel 0x50000 (λ p. true) [] 0x1000 none one_process
          ≡ booted s1.frames (run (λ p. true) 1 s1.procs))
        × Numbered s1
        × Ready s1)
kernel_lem_example = kernel_lem 0x50000 (λ p. true) [] 0x1000 none one_process
