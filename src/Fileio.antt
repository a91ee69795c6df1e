-- ===== src/Fileio.antt =====
-- The cached file of fileio: the operating system that it calls, and impl/student.c.
pub mod Posix
pub mod Disk
pub mod Student
pub mod Naive
