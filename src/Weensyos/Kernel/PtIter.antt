-- ===== src/Weensyos/Kernel/PtIter.antt =====
-- The iterator ptiter of weensyos/k-vmiter.hh and k-vmiter.cc over the pages of a page table.
pub mod Ends
use c_proj.Base.{
  ℕ, zero, suc, ◌+◌, ◌-◌, ◌*◌, ◌/◌, ◌%◌, Bool, true, false, not, ◌&&◌, Option, none, some, Memory,
  leb, ◌==◌,
}
use c_proj.Weensyos.PageTable.{above, pageindex, page_span, pte_pa, links, end_of}

-- `pep` is the index of the word of the entry. `level` is `level_`.
pub record PtIter : Type 0 where
  pub pt : ℕ
  pub pep : ℕ
  pub level : ℕ
  pub va : ℕ

abbrev pub va_noncanonmax : ℕ
va_noncanonmax = 0xFFFFFFFFFFFF

-- `(va ^ va_) & ~pageoffmask(level_ + 1)`, as a condition.
abbrev pub crosses : PtIter → Bool
crosses it = not (above (end_of it.va it.level) (suc it.level) == above it.va (suc it.level))

abbrev pub go_down : Memory → PtIter → PtIter
go_down word it = record it {
  level = it.level - 1;
  pep = pte_pa (word it.pep) / 8 + pageindex it.va (it.level - 1);
}

abbrev pub to_root : PtIter → PtIter
to_root it = record it { level = 3; pep = it.pt / 8 + pageindex it.va 3 }

abbrev pub past : PtIter → PtIter
past it = record it { pep = it.pep + 1; va = end_of it.va it.level }

-- ptiter::down from the loop on; `none` if the fuel runs out.
unfoldable pub down_loop :
    (word : Memory) (fuel : ℕ) (skip : Bool) (stop_level : ℕ) → PtIter → Option PtIter
down_loop word zero skip stop_level it = none
down_loop word (suc fuel) skip stop_level it = elim (links (word it.pep) && not skip) [
  | true ↦ elim (it.level == stop_level) [
    | true ↦ some it
    | false ↦ down_loop word fuel skip stop_level (go_down word it)
  ]
  | false ↦ elim (crosses it) [
    | false ↦ down_loop word fuel false stop_level (past it)
    | true ↦ elim (it.level == 3) [
      | true ↦ some (record it { va = va_noncanonmax + 1 })
      | false ↦ down_loop word fuel false (it.level + 1) (to_root it)
    ]
  ]
]

-- More rounds than there are addresses of 48 bits, times 16.
abbrev pub down_fuel : ℕ
down_fuel = 0x10000000000020

unfoldable pub down : Memory → (skip : Bool) → PtIter → Option PtIter
down word skip it = down_loop word down_fuel skip 1 it

-- The constructor with `go`.
unfoldable pub ptiter : Memory → (pt va : ℕ) → Option PtIter
ptiter word pt va =
    down word false (record { pt = pt; pep = pt / 8 + pageindex va 3; level = 3; va = va })

unfoldable pub next : Memory → PtIter → Option PtIter
next word it = down word true it

abbrev pub active : PtIter → Bool
active it = leb it.va va_noncanonmax

abbrev pub va : PtIter → ℕ
va it = it.va - it.va % page_span it.level

-- The level of the page of the page table.
abbrev pub table_level : PtIter → ℕ
table_level it = it.level - 1

abbrev pub pa : Memory → PtIter → ℕ
pa word it = pte_pa (word it.pep)
