-- ===== src/Weensyos/Layout.antt =====
-- The constants of weensyos/kernel.hh, x86-64.h and k-hardware.cc that the kernel's code uses, and
-- which physical addresses may be handed out.
use c_proj.Base.{ℕ, ◌+◌, ◌-◌, ◌%◌, Bool, not, ◌&&◌, ◌||◌, ltb, leb}

abbrev pub page_size : ℕ
page_size = 0x1000

abbrev pub kernel_start_addr : ℕ
kernel_start_addr = 0x40000

abbrev pub kernel_stack_top : ℕ
kernel_stack_top = 0x80000

abbrev pub proc_start_addr : ℕ
proc_start_addr = 0x100000

abbrev pub memsize_physical : ℕ
memsize_physical = 0x200000

abbrev pub memsize_virtual : ℕ
memsize_virtual = 0x300000

abbrev pub npages : ℕ
npages = 512

abbrev pub iophysmem : ℕ
iophysmem = 0xA0000

abbrev pub extphysmem : ℕ
extphysmem = 0x100000

-- round_down and round_up of lib.hh. The addition of round_up does not wrap below 2 ^ 64 - 4096,
-- where every address of this machine lies.
abbrev pub round_down : (x multiple : ℕ) → ℕ
round_down x multiple = x - x % multiple

abbrev pub round_up : (x multiple : ℕ) → ℕ
round_up x multiple = round_down (x + multiple - 1) multiple

unfoldable pub reserved_physical_address : ℕ → Bool
reserved_physical_address pa = ltb pa page_size || (leb iophysmem pa && ltb pa extphysmem)

-- `kernel_end` is the address of the linker's symbol `_kernel_end`.
unfoldable pub allocatable_physical_address : (kernel_end pa : ℕ) → Bool
allocatable_physical_address kernel_end pa =
    not (reserved_physical_address pa)
    && (ltb pa kernel_start_addr || leb (round_up kernel_end page_size) pa)
    && (ltb pa (kernel_stack_top - page_size) || leb kernel_stack_top pa)
    && ltb pa memsize_physical
