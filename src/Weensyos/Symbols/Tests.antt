-- ===== src/Weensyos/Symbols/Tests.antt =====
-- A symbol table with functions of 16 bytes.
use c_proj.Base.{ℕ, ◌+◌, ◌*◌, ◌<◌, ◌≡◌, ◌⊎◌, true, false, none, some, arith}
use c_proj.Weensyos.Symbols.{SymTab, value_at, covers, lookup_symbol}
use c_proj.Weensyos.Symbols.Search.{Sorted, lookup_symbol_lem}

abbrev table : SymTab
table = record {
  sym = λ i. record { st_name = i; st_value = 0x40000 + 16 * i; st_size = 16 };
  nsym = 5;
  strtab = 0x1001000;
}

table-Sorted : Sorted table
table-Sorted = record {
  increasing = λ i j h k. omega arith;
  disjoint = λ i j h k. omega arith;
  bounded = λ i h. omega arith;
}

lookup_symbol_lem_example :
    ((k : ℕ) × (lookup_symbol table 0x40025
        ≡ some (table.strtab + (table.sym k).st_name, value_at table k))
      × (k < table.nsym)
      × (covers table 0x40025 k ≡ true))
    ⊎ ((lookup_symbol table 0x40025 ≡ none)
        × ((k : ℕ) → k < table.nsym → covers table 0x40025 k ≡ false))
lookup_symbol_lem_example = lookup_symbol_lem table 0x40025 table-Sorted
