-- ===== src/Lib.antt =====
-- Verification of the two programs of this repository: the cached file library of fileio/ and the
-- teaching kernel of weensyos/.
--
-- The parts and their files:
--
--   Base              Shared names, Boolean tests on numbers, lists with native indices, and memory
--                     as a function from addresses to bytes or words (patch, slice).
--   Fileio.Posix      The system calls that fileio/impl/student.c makes: the record Os of operations
--                     on a state of the system, a parameter of everything in Fileio.Student, and
--                     RegularFile, the laws of a regular file that the calls obey.
--   Fileio.Disk       A system in which the only file is a list of bytes. It obeys the laws, so they
--                     can hold, and the examples run on it.
--   Fileio.Student    fileio/impl/student.c. Io300File is struct io300_file; each function of
--                     fileio/io300.h and the helpers check_invariants, io300_flush and io300_fetch are
--                     commands with the name that they have in the code. A command takes the struct
--                     and the state of the system and comes to a result with the new states, or to a
--                     failed assert, an access out of the cache, or the end of the fuel.
--                     Invariant says what a valid state is and what file its user sees; Flush,
--                     Reads, Writes and Seek are about the operations, Session about open and about a
--                     whole session, Faults about what goes wrong.
--   Fileio.Naive      fileio/impl/naive.c over the same system calls; a function naive_x for io300_x.
--                     Agreement compares student.c with it.
--   Weensyos.Layout   Constants of weensyos/kernel.hh and x86-64.h, round_down and round_up of lib.hh,
--                     and reserved_physical_address and allocatable_physical_address of k-hardware.cc.
--   Weensyos.Alloc    kalloc and kfree of weensyos/kernel.cc. Frames holds pages[].refcount and memory
--                     by words of eight bytes. Laws has the theorems.
--   Weensyos.PageTable
--                     vmiter of weensyos/k-vmiter.hh and k-vmiter.cc over the tables in memory. Walk
--                     is about find and next; Visits, Grow, Tree, Put and Map lead to try_map: the
--                     entries that a walk reads, one new table, tables that share no entry, the
--                     write of the entry, and the whole call.
--   Weensyos.Process  proc, ptable, run and schedule of weensyos/kernel.cc, init_process of
--                     k-hardware.cc. Schedule has the theorems.
--   Weensyos.Syscall  syscall_page_alloc of weensyos/kernel.cc, on top of Alloc and PageTable.
--   Weensyos.Strings  memcpy to strchr of weensyos/lib.cc. Copy, Scan and Compare have the theorems;
--                     Cases has the character traits of lib.hh, strcasecmp and strncasecmp.
--   Weensyos.Numbers  strtoul, strtol, fill_numbuf, srand, rand and rand(min, max) of weensyos/lib.cc. Digits,
--                     Signed, Parse, Texts and Random have the theorems.
--
--   Weensyos.Printer  printer::vprintf of weensyos/lib.cc. The parent reads a directive and its
--                     argument, Fields prints the field and has the loop, and Buffer is string_printer
--                     with vsnprintf. Fields.Total, Fields.Widths and Fields.Signed have theorems.
--   Weensyos.Console  console_clear to console_printf of weensyos/lib.cc over cells of 16 bits, and
--                     console_show_cursor of k-hardware.cc. Page and Inside have the theorems.
--   Weensyos.Keyboard keyboard_readc of weensyos/k-hardware.cc as a function from a byte and the two
--                     static variables. Valid and Chords have the theorems.
--   Weensyos.Loader   program_loader of weensyos/k-hardware.cc, and the table of executables. Segments
--                     is about a loop over it.
--   Weensyos.Kernel   What weensyos/kernel.cc does to processes: the pages and the process table
--                     together. PtIter is ptiter of k-vmiter.cc, Free is pfree and syscall_exit,
--                     Fork is syscall_fork, Dispatch is syscall and exception, Shown is memshow, and
--                     Setup is process_setup and kernel(); the files below them have the theorems.
--   Weensyos.Reboot   check_keyboard and stash_kernel_data of weensyos/k-hardware.cc over memory by
--                     bytes. Restores has the theorem.
--   Weensyos.Symbols  lookup_symbol of weensyos/k-hardware.cc. Search has the theorem.
--   Weensyos.Guard    __cxa_guard_acquire and __cxa_guard_release of weensyos/k-hardware.cc as steps
--                     of processors. Once has the theorem.
--
-- Numbers are natural numbers, with the wrap of the machine's types written out where it can happen.
-- A refcount counts modulo 256, and an int or a long that may be negative is given by its bit pattern.
-- Where vprintf overflows a signed number, and where try_map writes to the const entry zero_pe, the model
-- has a result of its own for undefined behaviour. File offsets and addresses do not wrap in the files of
-- this size. Bytes are numbers below 256 where the code stores a char. Test bits of page table entries are written with division and remainder.
--
-- Fuel: io300_read and io300_write take a round for each byte at most, so their loops have as much
-- fuel as there are bytes, and the theorems about them say that a result comes. strlen, strcpy, strcmp
-- and strchr take fuel, and any fuel above the length of the string is enough. fill_numbuf has 64 rounds,
-- one for each bit. map_loop of try_map has the level as its fuel, and the theorem about try_map says
-- that it returns. vprintf has a round for each byte of the format, console_printer::putc one for each
-- cell in front of the cursor, ptiter::down and pfree more than there are addresses of 48 bits; the
-- theorems about them say that this is enough. schedule takes the number of passes, since it may spin for ever.
--
-- Parameters: the system calls (Os), the address of the linker's symbol _kernel_end, whether a page
-- table maps what check_pagetable asks for, the executables that the build links into the kernel, and whether check_keyboard leaves the kernel.
--
-- Not modelled: the initialisation of the hardware and its drivers, the log, the memory viewer, the boot
-- loader, the user programs, the build tools, and the stdio implementation and test programs of fileio/.
-- Assembly, scripts and build files are left out.
pub mod Base
pub mod Fileio
pub mod Weensyos
