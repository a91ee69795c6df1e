-- ===== src/Weensyos.antt =====
-- WeensyOS: the physical memory, the processes and the library of weensyos/.
pub mod Layout
pub mod Alloc
pub mod PageTable
pub mod Process
pub mod Syscall
pub mod Strings
pub mod Numbers
pub mod Printer
pub mod Console
pub mod Keyboard
pub mod Loader
pub mod Kernel
pub mod Reboot
pub mod Symbols
pub mod Guard
