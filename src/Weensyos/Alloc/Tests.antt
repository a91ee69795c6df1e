-- ===== src/Weensyos/Alloc/Tests.antt =====
-- kalloc and kfree in an empty memory under a kernel that ends at 0x50000.
use c_proj.Base.{◌-◌, ◌≡◌, ◌≢◌, refl, arith}
use c_proj.Weensyos.Layout.{reserved_physical_address, allocatable_physical_address}
use c_proj.Weensyos.Alloc.{Frames, is_free, kalloc_loop, kalloc}
use c_proj.Weensyos.Alloc.Laws.{TakesFirst, kalloc_first_free}

abbrev empty : Frames
empty = record { refcount = λ i. 0; word = λ i. 0 }

-- The first page that is neither the null page nor in use.
first_page : (kalloc 0x50000 4096 empty).0 ≡ 0x1000
unfolding kalloc kalloc_loop is_free allocatable_physical_address reserved_physical_address
first_page = refl

-- After the pages below the kernel the next is the first behind its image.
abbrev low_used : Frames
low_used = record { refcount = λ i. 0x40 - i; word = λ i. i }

behind_kernel : (kalloc 0x50001 100 low_used).0 ≡ 0x51000
unfolding first_page
behind_kernel = refl

first_ne_null : (kalloc 0x50000 4096 empty).0 ≢ 0
unfolding first_page
first_ne_null = omega arith

second_ne_null : (kalloc 0x50000 4096 (kalloc 0x50000 4096 empty).1).0 ≢ 0
unfolding first_page
second_ne_null = omega arith

low_used_ne_null : (kalloc 0x50001 100 low_used).0 ≢ 0
unfolding first_page
low_used_ne_null = omega arith

kalloc_first_free_example : TakesFirst 0x50000 empty (kalloc 0x50000 4096 empty)
kalloc_first_free_example = kalloc_first_free 0x50000 4096 empty (omega arith)
