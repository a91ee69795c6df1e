-- ===== src/Weensyos/Symbols.antt =====
-- lookup_symbol of weensyos/k-hardware.cc: a binary search in the kernel's symbol table.
pub mod Search
mod Tests
use c_proj.Base.{
  ℕ, zero, suc, ◌+◌, ◌-◌, ◌/◌, ◌%◌, ◌^◌, Bool, true, false, not, ◌&&◌, ◌||◌, Option, none, some,
  ltb, leb, ◌==◌, if◌then◌else◌,
}

-- The fields of struct elf_symbol that are read.
pub record ElfSymbol : Type 0 where
  pub st_name : ℕ
  pub st_value : ℕ
  pub st_size : ℕ

-- struct elf_symtabref.
pub record SymTab : Type 0 where
  pub sym : ℕ → ElfSymbol
  pub nsym : ℕ
  pub strtab : ℕ

abbrev pub value_at : SymTab → ℕ → ℕ
value_at t m = (t.sym m).st_value

abbrev pub size_at : SymTab → ℕ → ℕ
size_at t m = (t.sym m).st_size

-- The first test of the loop.
abbrev pub covers : SymTab → (addr m : ℕ) → Bool
covers t addr m =
    leb (value_at t m) addr
    && (if not (size_at t m == 0)
        then ltb addr ((value_at t m + size_at t m) % 2 ^ 64)
        else m + 1 == t.nsym || ltb addr (value_at t (m + 1)))

-- The loop from `l` to `r`; `none` also where the fuel runs out.
unfoldable pub search_loop : SymTab → (addr fuel l r : ℕ) → Option ℕ
search_loop t addr zero l r = none
search_loop t addr (suc fuel) l r = elim (ltb l r) [
  | false ↦ none
  | true ↦ elim (covers t addr (l + (r - l) / 2)) [
    | true ↦ some (l + (r - l) / 2)
    | false ↦ elim (ltb (value_at t (l + (r - l) / 2)) addr) [
      | true ↦ search_loop t addr fuel (l + (r - l) / 2 + 1) r
      | false ↦ search_loop t addr fuel l (l + (r - l) / 2)
    ]
  ]
]

-- The address of the name and the first address of the symbol.
unfoldable pub lookup_symbol : SymTab → (addr : ℕ) → Option (ℕ × ℕ)
lookup_symbol t addr = elim (search_loop t addr (t.nsym + 1) 0 t.nsym) [
  | none ↦ none
  | some m ↦ some (t.strtab + (t.sym m).st_name, value_at t m)
]
