-- ===== src/Weensyos/Kernel.antt =====
-- The operations of weensyos/kernel.cc on processes and their page tables.
pub mod PtIter
pub mod Free
pub mod Fork
pub mod Dispatch
pub mod Shown
pub mod Setup
mod Tests
use c_proj.Base.{ℕ}
use c_proj.Weensyos.Alloc.{Frames}
use c_proj.Weensyos.Process.{Procs, Proc, put_slot}

-- What the kernel keeps.
pub record Kernel : Type 0 where
  pub frames : Frames
  pub procs : Procs

abbrev pub current_proc : Kernel → Proc
current_proc s = s.procs.slot s.procs.current

abbrev pub put_current : Proc → Kernel → Kernel
put_current p s = record s { procs = record s.procs { slot = put_slot s.procs s.procs.current p } }
