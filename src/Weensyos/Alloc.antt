-- ===== src/Weensyos/Alloc.antt =====
-- kalloc and kfree of weensyos/kernel.cc: reference counts of the physical pages, and the contents of
-- memory by words of eight bytes.
pub mod Laws
mod Tests
use c_proj.Base.{
  ℕ, zero, suc, ◌+◌, ◌-◌, ◌*◌, ◌/◌, ◌^◌, Bool, true, false, not, ◌&&◌, Option, none, some, Memory,
  ltb, leb, ◌==◌, if◌then◌else◌, within,
}
use c_proj.Weensyos.Layout.{page_size, memsize_physical, npages, allocatable_physical_address}

-- `pages[i].refcount` for `i < NPAGES`, a uint8_t and so a number below 256, and memory: word `i` holds the bytes from address `8 * i` on.
pub record Frames : Type 0 where
  pub refcount : ℕ → ℕ
  pub word : Memory

-- pageinfo::used
abbrev pub used : Frames → ℕ → Bool
used k i = not (k.refcount i == 0)

abbrev pub set_refcount : Frames → (i n : ℕ) → ℕ → ℕ
set_refcount k i n j = if j == i then n else k.refcount j

-- memset of the page at `pa` with eight bytes at a time.
abbrev pub fill_page : Frames → (pa v : ℕ) → Memory
fill_page k pa v i = if within (pa / 8) (page_size / 8) i then v else k.word i

-- Eight bytes 0xCC.
abbrev pub int3_word : ℕ
int3_word = 0xCCCCCCCCCCCCCCCC

abbrev pub claim : Frames → ℕ → Frames
claim k pa = record k {
  refcount = set_refcount k (pa / page_size) 1;
  word = fill_page k pa int3_word;
}

module _ (kernel_end : ℕ) where
  -- The test of the loop of kalloc.
  unfoldable pub is_free : Frames → ℕ → Bool
  is_free k pa = allocatable_physical_address kernel_end pa && not (used k (pa / page_size))

  -- The loop of kalloc from `pa` on, with `left` pages to go. The result 0 is nullptr.
  unfoldable pub kalloc_loop : (left pa : ℕ) → Frames → ℕ × Frames
  kalloc_loop zero pa k = (0, k)
  kalloc_loop (suc left) pa k = elim (is_free k pa) [
    | true ↦ (pa, claim k pa)
    | false ↦ kalloc_loop left (pa + page_size) k
  ]

  unfoldable pub kalloc : (sz : ℕ) → Frames → ℕ × Frames
  kalloc sz k = if ltb page_size sz then (0, k) else kalloc_loop npages 0 k

-- `none` is an access to `pages` out of bounds.
unfoldable pub kfree : (kptr : ℕ) → Frames → Option Frames
kfree kptr k =
    if kptr == 0
    then some k
    else if leb npages (kptr / page_size)
    then none
    else if ltb 0 (k.refcount (kptr / page_size))
    then some (record k {
      refcount = set_refcount k (kptr / page_size) (k.refcount (kptr / page_size) - 1);
    })
    else some k
