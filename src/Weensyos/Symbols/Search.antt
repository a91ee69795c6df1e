-- ===== src/Weensyos/Symbols/Search.antt =====
-- The binary search of lookup_symbol of weensyos/k-hardware.cc finds the symbol that covers an address.
use native.Mathlib.Decide.{dec_lt, ℕ_discrete}
use c_proj.Base.{
  ℕ, zero, suc, ◌+◌, ◌-◌, ◌/◌, ◌%◌, ◌^◌, ◌≤◌, ◌<◌, ◌≡◌, ◌⊎◌, inl, inr, refl, ap, ◌∙◌, Bool, true,
  false, not, ◌&&◌, ◌||◌, Option, none, some, ltb, leb, ◌==◌, if◌then◌else◌, arith, ltb-false,
  ltb_lt, Bool-cases,
}
use c_proj.Weensyos.Symbols.{SymTab, value_at, size_at, covers, search_loop, lookup_symbol}

-- Each symbol begins and ends in front of the next ones, and ends below 2 ^ 64.
pub record Sorted (t : SymTab) : Type 0 where
  pub increasing : (i j : ℕ) → i < j → j < t.nsym → value_at t i < value_at t j
  pub disjoint : (i j : ℕ) → i < j → j < t.nsym → value_at t i + size_at t i ≤ value_at t j
  pub bounded : (i : ℕ) → i < t.nsym → value_at t i + size_at t i < 2 ^ 64

ltb_ge : (a b : ℕ) → ltb a b ≡ false → b ≤ a
ltb_ge a b e = ground arith

and_false : (a b : Bool) → (a && (if b then false else (false || false))) ≡ false
and_false true true = refl
and_false true false = refl
and_false false b = refl

module _ (t : SymTab) (addr : ℕ) (sorted : Sorted t) where
  next_below : (k m : ℕ) → k < m → m < t.nsym → value_at t m < addr → value_at t (k + 1) < addr
  next_below k m h inside below = elim (ℕ_discrete (k + 1) m) [
    | yes next ↦ let same = ap (value_at t) next in omega (arith, same, below)
    | no far ↦
        let step = sorted.increasing (k + 1) m (omega arith) inside in omega (arith, step, below)
  ]

  -- A symbol in front of one that begins below the address does not cover it.
  before_not : (k m : ℕ) → k < m → m < t.nsym → value_at t m < addr → covers t addr k ≡ false
  before_not k m h inside below =
      let ends = sorted.disjoint k m h inside in
      let low = sorted.bounded k (omega arith) in
      let next : value_at t (k + 1) < addr = next_below k m h inside below in
      let not_last : (k + 1 == t.nsym) ≡ false = ground arith in
      let not_end : ltb addr ((value_at t k + size_at t k) % 2 ^ 64) ≡ false =
        ltb-false _ _ (omega arith) in
      let not_next : ltb addr (value_at t (k + 1)) ≡ false = ground arith in
      rw (not_last, not_end, not_next, covers)
        (and_false (leb (value_at t k) addr) (not (size_at t k == 0)))

  -- A symbol behind one that begins at the address or above does not cover it.
  behind_not : (k m : ℕ) → m < k → k < t.nsym → addr ≤ value_at t m → covers t addr k ≡ false
  behind_not k m h inside above =
      let later = sorted.increasing m k h inside in
      let not_yet : leb (value_at t k) addr ≡ false = ground arith in rw not_yet refl

  -- What a search from `l` to `r` comes to.
  abbrev Searched : (l r : ℕ) → Option ℕ → Type 0
  Searched l r o =
      ((k : ℕ) × (o ≡ some k) × (k < r) × (covers t addr k ≡ true))
      ⊎ ((o ≡ none) × ((k : ℕ) → l ≤ k → k < r → covers t addr k ≡ false))

  search_loop_lem :
      (fuel l r : ℕ) → r ≤ t.nsym → r - l < fuel → Searched l r (search_loop t addr fuel l r)
  unfolding search_loop
  search_loop_lem zero l r inside enough = absurd (omega arith)
  search_loop_lem (suc fuel) l r inside enough = elim (Bool-cases (ltb l r)) [
    | inr empty ↦ inr (rw (empty, search_loop) refl, λ k h h1. absurd (ground arith))
    | inl more ↦
        let m = l + (r - l) / 2 in
        let range : l < r = ltb_lt l r more in
        let mid : (l ≤ m) × (m < r) = (omega arith, omega arith) in
        elim (Bool-cases (covers t addr m)) [
          | inl hit ↦ inl (m, rw (more, hit, search_loop) refl, mid.1, hit)
          | inr miss ↦ elim (Bool-cases (ltb (value_at t m) addr)) [
            | inl below ↦ elim (search_loop_lem fuel (m + 1) r inside (omega arith)) [
              | inl (k, e, h, c) ↦ inl (k, rw (more, miss, below, search_loop) e, h, c)
              | inr (e, none_there) ↦ inr (
                rw (more, miss, below, search_loop) e,
                λ k h h1. elim (dec_lt k m) [
                  | yes front ↦
                      before_not k m front (omega (arith, mid, inside))
                        (ltb_lt (value_at t m) addr below)
                  | no behind ↦ elim (ℕ_discrete k m) [
                    | yes at ↦ ap (covers t addr) at ∙ miss
                    | no other ↦ none_there k (omega arith) h1
                  ]
                ],
              )
            ]
            | inr above ↦
                elim (search_loop_lem fuel l m (omega (arith, mid, inside)) (omega arith)) [
                  | inl (k, e, h, c) ↦
                      inl (k, rw (more, miss, above, search_loop) e, omega (arith, h, mid), c)
                  | inr (e, none_there) ↦ inr (
                    rw (more, miss, above, search_loop) e,
                    λ k h h1. elim (dec_lt k m) [
                      | yes front ↦ none_there k h front
                      | no behind ↦ elim (ℕ_discrete k m) [
                        | yes at ↦ ap (covers t addr) at ∙ miss
                        | no other ↦
                            behind_not k m (omega arith) (omega (arith, h1, inside))
                              (ltb_ge (value_at t m) addr above)
                      ]
                    ],
                  )
                ]
          ]
        ]
  ]

  -- Where the first addresses of the symbols strictly increase and each symbol ends, below 2 ^ 64, in
  -- front of the next ones, lookup_symbol returns the name and the start of a symbol that covers the
  -- address, with its size or, where the size is 0, up to the next symbol, and it returns nothing only
  -- where no symbol of the table does.
  pub lookup_symbol_lem :
      ((k : ℕ) × (lookup_symbol t addr ≡ some (t.strtab + (t.sym k).st_name, value_at t k))
        × (k < t.nsym)
        × (covers t addr k ≡ true))
      ⊎ ((lookup_symbol t addr ≡ none) × ((k : ℕ) → k < t.nsym → covers t addr k ≡ false))
  unfolding lookup_symbol
  lookup_symbol_lem = elim (search_loop_lem (t.nsym + 1) 0 t.nsym (omega arith) (omega arith)) [
    | inl (k, e, h, c) ↦ inl (k, rw (e, lookup_symbol) refl, h, c)
    | inr (e, none_there) ↦ inr (rw (e, lookup_symbol) refl, λ k h. none_there k (omega arith) h)
  ]
