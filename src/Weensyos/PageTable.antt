-- ===== src/Weensyos/PageTable.antt =====
-- The iterator vmiter of weensyos/k-vmiter.hh and k-vmiter.cc over the page tables in memory, with the
-- address arithmetic of x86-64.h. The tests and masks of single bits are written with `/` and `%`.
pub mod Walk
pub mod Visits
pub mod Grow
pub mod Tree
pub mod Put
pub mod Map
pub mod Bare
mod Tests
use Prim.Native.Nat.{bit_and, bit_or}
use c_proj.Base.{
  ℕ, zero, suc, ◌+◌, ◌-◌, ◌*◌, ◌/◌, ◌%◌, ◌^◌, Bool, true, false, not, ◌&&◌, ◌||◌, Option, none,
  some, Memory, ltb, leb, ◌==◌, if◌then◌else◌,
}
use c_proj.Weensyos.Layout.{page_size}
use c_proj.Weensyos.Alloc.{Frames, kalloc, fill_page}

-- `addr >> (PAGEOFFBITS + level * PAGEINDEXBITS)`: 12 bits, and 9 bits for each level.
abbrev pub above : (addr level : ℕ) → ℕ
above addr zero = addr / page_size
above addr (suc level) = above addr level / 512

abbrev pub pageindex : (addr level : ℕ) → ℕ
pageindex addr level = above addr level % 512

-- `pageoffmask(level) + 1`
abbrev pub page_span : ℕ → ℕ
page_span zero = page_size
page_span (suc level) = page_span level * 512

abbrev pub va_is_canonical : ℕ → Bool
va_is_canonical va = leb va 0x00007FFFFFFFFFFF || leb 0xFFFF800000000000 va

-- `e & PTE_P`, `e & PTE_PS`, and `e & PTE_PAMASK`.
abbrev pub pte_p : ℕ → Bool
pte_p e = e % 2 == 1

abbrev pub pte_ps : ℕ → Bool
pte_ps e = e / 128 % 2 == 1

abbrev pub pte_pa : ℕ → ℕ
pte_pa e = e / page_size % 2 ^ 40 * page_size

-- The test of the loops that go down: `(e & (PTE_P | PTE_PS)) == PTE_P`.
abbrev pub links : ℕ → Bool
links e = pte_p e && not (pte_ps e)

-- An iterator. `pep` is the index of the word of the entry, or `none` for the entry zero_pe.
pub record VmIter : Type 0 where
  pub pt : ℕ
  pub pep : Option ℕ
  pub level : ℕ
  pub perm : ℕ
  pub va : ℕ

-- `*pep_`
abbrev pub entry_at : Memory → Option ℕ → ℕ
entry_at word none = 0
entry_at word (some a) = word a

abbrev pub entry : Memory → VmIter → ℕ
entry word it = entry_at word it.pep

abbrev pub initial_perm : ℕ
initial_perm = 0xFFF

-- The word of entry `i` of the table at `table`.
abbrev pub entry_word : (table i : ℕ) → Option ℕ
entry_word table i = some (table / 8 + i)

-- The loop of vmiter::down.
unfoldable pub down_loop : Memory → (pt : ℕ) (pep : Option ℕ) (level perm va : ℕ) → VmIter
down_loop word pt pep zero perm va = record { pt = pt; pep = pep; level = 0; perm = perm; va = va }
down_loop word pt pep (suc level) perm va = elim (links (entry_at word pep)) [
  | true ↦
      down_loop word pt (entry_word (pte_pa (entry_at word pep)) (pageindex va level)) level
        (bit_and perm (entry_at word pep)) va
  | false ↦ record { pt = pt; pep = pep; level = suc level; perm = perm; va = va }
]

-- vmiter::down; `none` is the panic about an address of 4 GB or more.
unfoldable pub down : Memory → VmIter → Option VmIter
down word it =
    let it1 : VmIter = down_loop word it.pt it.pep it.level it.perm it.va in
    if leb 0x100000000 (pte_pa (entry word it1)) then none else some it1

-- Where the walk for an address begins: at the table of level 3.
abbrev pub root : (pt va : ℕ) → VmIter
root pt va =
    if va_is_canonical va
    then record {
      pt = pt;
      pep = entry_word pt (pageindex va 3);
      level = 3;
      perm = initial_perm;
      va = va;
    }
    else record { pt = pt; pep = none; level = 3; perm = 0; va = va }

-- The entry with the index of `va` in the table in which the iterator stands.
abbrev pub same_table : VmIter → ℕ → Option ℕ
same_table it va = elim it.pep [ none ↦ none | some a ↦ some (a - a % 512 + pageindex va it.level) ]

-- Does `va` lie outside the table in which the iterator stands?
abbrev pub leaves_table : VmIter → ℕ → Bool
leaves_table it va = it.level == 3 || not (above it.va (suc it.level) == above va (suc it.level))

unfoldable pub real_find : Memory → (va : ℕ) → VmIter → Option VmIter
real_find word va it =
    if leaves_table it va
    then down word (root it.pt va)
    else down word (record it { pep = same_table it va; va = va })

-- The constructor.
unfoldable pub vmiter : Memory → (pt va : ℕ) → Option VmIter
vmiter word pt va =
    real_find word va
      (record { pt = pt; pep = entry_word pt 0; level = 3; perm = initial_perm; va = 0 })

-- `it += delta`
unfoldable pub advance : Memory → (delta : ℕ) → VmIter → Option VmIter
advance word delta it = real_find word ((it.va + delta) % 2 ^ 64) it

-- `(va_ | pageoffmask(level)) + 1`
abbrev pub end_of : (va level : ℕ) → ℕ
end_of va level = (va / page_span level + 1) * page_span level % 2 ^ 64

abbrev pub last_va : VmIter → ℕ
last_va it = end_of it.va it.level

-- vmiter::pa; `none` is -1.
unfoldable pub pa : Memory → VmIter → Option ℕ
pa word it =
    let e : ℕ = entry word it in
    if pte_p e
    then some (
        (if ltb 0 it.level then pte_pa e - pte_pa e / 0x1000 % 2 * 0x1000 else pte_pa e)
        + it.va % page_span it.level)
    else none

unfoldable pub perm : Memory → VmIter → ℕ
perm word it = if pte_p (entry word it) then bit_and (entry word it) it.perm else 0

-- perm(p)
unfoldable pub has_perm : Memory → (p : ℕ) → VmIter → Bool
has_perm word p it = bit_and (bit_and (entry word it) it.perm) p == p

abbrev pub writable : Memory → VmIter → Bool
writable word it = has_perm word 3 it

abbrev pub user : Memory → VmIter → Bool
user word it = has_perm word 5 it

-- The level whose region next() leaves.
abbrev pub skip_level : Memory → VmIter → ℕ
skip_level word it = if ltb 0 it.level && perm word it == 0 then it.level else 0

unfoldable pub next : Memory → VmIter → Option VmIter
next word it = real_find word (end_of it.va (skip_level word it)) it

unfoldable pub next_range : Memory → VmIter → Option VmIter
next_range word it = real_find word (last_va it) it

-- What try_map comes to.
pub data Mapped : Type 0 where
  -- It returns 0 (`true`) or -1 (`false`).
  returned : Bool → Frames → VmIter → Mapped
  assertion_failed : Mapped
  -- It writes to zero_pe. That is undefined behaviour, since zero_pe is const, though its memory is
  -- mapped writable.
  undefined_behaviour : Mapped
  panicked : Mapped
  out_of_fuel : Mapped

-- `memset(pt, 0, PAGESIZE)` on a page that kalloc has returned, and the entry that points to it.
abbrev pub link_table : Frames → (a table : ℕ) → Frames
link_table k a table = record k { word = λ i. if i == a then table + 7 else fill_page k table 0 i }

-- The asserts of try_map on the flags and the address; `none` is the address -1.
abbrev pub map_asserts : (p : Option ℕ) (flags : ℕ) → VmIter → Bool
map_asserts p flags it =
    let aligned : Bool = it.va % page_size == 0 in
    let address : Bool = elim p [
      | none ↦ false
      | some a ↦ if pte_p flags then pte_pa a == a else not (pte_p a)
    ] in
    let allowed : Bool = bit_and (bit_and flags it.perm) 7 == bit_and flags 7 in
    aligned && address && allowed

-- `pa = 0` for -1 without flags.
abbrev pub map_address : Option ℕ → ℕ → Option ℕ
map_address none flags = if flags == 0 then some 0 else none
map_address (some a) flags = some a

abbrev pub address_or : Option ℕ → ℕ
address_or none = 2 ^ 64 - 1
address_or (some a) = a

-- `*pep_ = pa | perm` at level 0.
abbrev pub put_entry : (p flags : ℕ) → Frames → VmIter → Frames
put_entry p flags k it = elim it.pep [
  | none ↦ k
  | some a ↦ record k { word = λ i. if i == a then bit_or p flags else k.word i }
]

-- The end of try_map.
abbrev pub map_end : (p flags : ℕ) → Mapped → Mapped
map_end p flags (returned true k it) =
    returned true (if it.level == 0 then put_entry p flags k it else k) it
map_end p flags r = r

-- A round of the loop of try_map, once kalloc has returned `table`: what the write of the entry and
-- the way down come to before the loop goes on.
pub data Grown : Type 0 where
  grown : Frames → VmIter → Grown
  writes_zero_pe : Grown
  down_panics : Grown

unfoldable pub map_step : (table : ℕ) → Frames → VmIter → Grown
map_step table k it = elim it.pep [
  | none ↦ writes_zero_pe
  | some a ↦ elim (down (link_table k a table).word it) [
    | none ↦ down_panics
    | some it1 ↦ grown (link_table k a table) it1
  ]
]

module _ (kernel_end : ℕ) where
  -- The loop of try_map.
  unfoldable pub map_loop : (fuel flags : ℕ) → Frames → VmIter → Mapped
  map_loop zero flags k it = if it.level == 0 || flags == 0 then returned true k it else out_of_fuel
  map_loop (suc fuel) flags k it = elim (it.level == 0 || flags == 0) [
    | true ↦ returned true k it
    | false ↦ elim (pte_p (entry k.word it)) [
      | true ↦ assertion_failed
      | false ↦ elim ((kalloc kernel_end page_size k).0 == 0) [
        | true ↦ returned false (kalloc kernel_end page_size k).1 it
        | false ↦
            elim (map_step (kalloc kernel_end page_size k).0 (kalloc kernel_end page_size k).1 it) [
              | writes_zero_pe ↦ undefined_behaviour
              | down_panics ↦ panicked
              | grown k1 it1 ↦ map_loop fuel flags k1 it1
            ]
      ]
    ]
  ]

  -- A level takes one round.
  unfoldable pub try_map : (p : Option ℕ) (flags : ℕ) → Frames → VmIter → Mapped
  try_map p flags k it =
      if map_asserts (map_address p flags) flags it
      then map_end (address_or (map_address p flags)) flags (map_loop it.level flags k it)
      else assertion_failed
