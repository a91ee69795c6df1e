-- ===== src/Weensyos/PageTable/Tree.antt =====
-- Page tables that share no entry and lie in pages that are in use, and what a round of try_map of
-- weensyos/k-vmiter.cc does to them.

use mathlib.Core.Option.{some-injective}
use c_proj.Base.{
  ℕ, suc, ◌+◌, ◌*◌, ◌/◌, ◌%◌, ◌^◌, ◌<◌, ◌≡◌, ◌≢◌, ◌⊎◌, refl, sym, ap, ◌∙◌, true, false, some,
  Memory, arith, ◌==◌, Bool-cases, inl, inr,
}
use c_proj.Weensyos.Layout.{page_size}
use c_proj.Weensyos.Alloc.{Frames, claim, is_free}
use c_proj.Weensyos.PageTable.{
  above, pageindex, pte_p, VmIter, entry_at, entry, down_loop, initial_perm, link_table,
  va_is_canonical,
}
use c_proj.Weensyos.PageTable.Visits.{Visits, down_loop-Visits, down_loop-some}
use c_proj.Weensyos.PageTable.Grow.{
  Linked, Apart, walk_elsewhere, walk-Through, through_down, Grown, Visits-Grown,
}

-- The entry of the root table for an address.
abbrev pub top : (pt va : ℕ) → ℕ
top pt va = pt / 8 + pageindex va 3

-- The walk for a canonical address.
abbrev pub walk_of : Memory → (pt va : ℕ) → VmIter
walk_of word pt va = down_loop word pt (some (top pt va)) 3 initial_perm va

-- The page of a word.
abbrev pub page_of : ℕ → ℕ
page_of b = b / 512 * page_size

-- A canonical address of 64 bits.
pub record Address (va : ℕ) : Type 0 where
  pub canonical : va_is_canonical va ≡ true
  pub bounded : va < 2 ^ 64

-- No page with an entry that a walk reads can be handed out, and an entry is read on one level only,
-- for addresses that agree above it.
pub record PageTables (kernel_end pt : ℕ) (k : Frames) : Type 0 where
  pub taken :
      (va b n : ℕ)
      → Address va
      → Visits k.word va (top pt va) 3 b n
      → is_free kernel_end k (page_of b) ≡ false
  pub unshared :
      (va va1 b n n1 : ℕ)
      → Address va
      → Address va1
      → Visits k.word va (top pt va) 3 b n
      → Visits k.word va1 (top pt va1) 3 b n1
      → (n ≡ n1) × (above va n ≡ above va1 n1)

-- Two walks for an address, before and after: the same entry with the same contents, or none that is
-- present.
abbrev pub Alike : (word word1 : Memory) (x y : VmIter) → Type 0
Alike word word1 x y =
    ((y ≡ x) × (entry word1 y ≡ entry word x))
    ⊎ ((pte_p (entry word x) ≡ false) × (entry word1 y ≡ 0))

-- The memory after kalloc has returned `table` and try_map has linked it to the entry `a`.
abbrev pub grown_frames : (k : Frames) (a table : ℕ) → Frames
grown_frames k a table = link_table (claim k table) a table

module _ (kernel_end pt : ℕ) (k : Frames) (tables : PageTables kernel_end pt k) (va0 a m table : ℕ)
    (address0 : Address va0) (reads : Visits k.word va0 (top pt va0) 3 a (suc m))
    (absent : pte_p (k.word a) ≡ false) (free : is_free kernel_end k table ≡ true)
    (aligned : table % page_size ≡ 0) (small : table < 0x200000) where
  word1 : Memory
  word1 = (grown_frames k a table).word

  free-ne : (b : ℕ) → is_free kernel_end k (page_of b) ≡ false → b / 512 ≢ table / 4096
  free-ne b h e =
      let same : page_of b ≡ table = omega arith in
      let z : true ≡ false = sym free ∙ ap (is_free kernel_end k) (sym same) ∙ h in cc

  grown-Linked : Linked k.word word1 a table
  unfolding word1
  grown-Linked = record {
    absent = absent;
    links_there = ground arith;
    aligned = aligned;
    small = small;
    zeros = λ i h. let off = free-ne a (tables.taken va0 a (suc m) address0 reads) in ground arith;
    others = λ b ne off. ground arith;
  }

  walk-Apart : (va : ℕ) → Address va → Apart k.word word1 a table m grown-Linked va (top pt va) 3
  walk-Apart va ok = record {
    off_table = λ b n v. free-ne b (tables.taken va b n ok v);
    on_level = λ n v. (tables.unshared va va0 a n (suc m) ok address0 v reads).0;
  }

  -- A page that could not be handed out still cannot.
  still_taken :
      (p : ℕ)
      → is_free kernel_end k p ≡ false
      → is_free kernel_end (grown_frames k a table) p ≡ false
  unfolding is_free
  still_taken p h = ground arith

  table_taken :
      (p : ℕ)
      → p / page_size ≡ table / page_size
      → is_free kernel_end (grown_frames k a table) p ≡ false
  unfolding is_free
  table_taken p e = ground arith

  abbrev ReadsAfter : (va b n : ℕ) → Type 0
  ReadsAfter va b n = Grown k.word word1 a table m grown-Linked va (top pt va) 3 b n

  after : (va b n : ℕ) → Address va → Visits word1 va (top pt va) 3 b n → ReadsAfter va b n
  after va b n ok v =
      Visits-Grown k.word word1 a table m grown-Linked 3 va (top pt va) b n (walk-Apart va ok) v

  -- The entry of the new table is none that was read before.
  new-ne :
      (va va1 b n : ℕ)
      → Address va
      → Visits k.word va (top pt va) 3 b n
      → b ≢ table / 8 + pageindex va1 m
  new-ne va va1 b n ok v e = free-ne b (tables.taken va b n ok v) (omega (arith, e))

  unshared_after :
      (va va1 b n n1 : ℕ)
      → Address va
      → Address va1
      → ReadsAfter va b n
      → ReadsAfter va1 b n1
      → (n ≡ n1) × (above va n ≡ above va1 n1)
  unshared_after va va1 b n n1 ok ok1 (inl v) (inl v1) = tables.unshared va va1 b n n1 ok ok1 v v1
  unshared_after va va1 b n n1 ok ok1 (inl v) (inr (e1, h1, v1)) =
      absurd (new-ne va va1 b n ok v e1)
  unshared_after va va1 b n n1 ok ok1 (inr (e, h, v)) (inl v1) =
      absurd (new-ne va1 va b n1 ok1 v1 e)
  unshared_after va va1 b n n1 ok ok1 (inr (e, h, v)) (inr (e1, h1, v1)) =
      let (_, upper) = tables.unshared va va1 a (suc m) (suc m) ok ok1 v v1 in
      let same : above va m ≡ above va1 m = omega (arith, e, e1, upper) in
      (h ∙ sym h1, ap (above va) h ∙ same ∙ ap (above va1) (sym h1))

  taken_after :
      (va b n : ℕ)
      → Address va
      → ReadsAfter va b n
      → is_free kernel_end (grown_frames k a table) (page_of b) ≡ false
  taken_after va b n ok (inl v) = still_taken (page_of b) (tables.taken va b n ok v)
  taken_after va b n ok (inr (e, h, v)) = table_taken (page_of b) (omega (arith, e))

  -- The page tables are in order again.
  pub grown-PageTables : PageTables kernel_end pt (grown_frames k a table)
  unfolding word1
  grown-PageTables = record {
    taken = λ va b n ok v. taken_after va b n ok (after va b n ok v);
    unshared = λ va va1 b n n1 ok ok1 v v1.
        unshared_after va va1 b n n1 ok ok1 (after va b n ok v) (after va1 b n1 ok1 v1);
  }

  ends_in_table :
      (va n : ℕ)
      → Address va
      → Visits k.word va (top pt va) 3 a n
      → Alike k.word word1 (walk_of k.word pt va) (walk_of word1 pt va)
  ends_in_table va n ok v =
      let (q, old, new) =
        walk-Through k.word word1 a table m grown-Linked pt va 3 initial_perm (top pt va) n v
          (walk-Apart va ok) in
      inr (
        ap (λ x. pte_p (entry k.word x)) old ∙ absent,
        ap (entry word1) new ∙ grown-Linked.zeros (pageindex va m) (omega arith),
      )

  ends_elsewhere :
      (va b : ℕ)
      → Address va
      → (walk_of k.word pt va).pep ≡ some b
      → b ≢ a
      → Alike k.word word1 (walk_of k.word pt va) (walk_of word1 pt va)
  ends_elsewhere va b ok e other =
      let misses : (n : ℕ) → Visits k.word va (top pt va) 3 a n → ⊥ = λ n v.
        let (q, old, new) =
          walk-Through k.word word1 a table m grown-Linked pt va 3 initial_perm (top pt va) n v
            (walk-Apart va ok) in
        other (some-injective _ _ (sym e ∙ ap (λ x. x.pep) old)) in
      let same =
        walk_elsewhere k.word word1 a table m grown-Linked pt initial_perm va (top pt va) 3
          (walk-Apart va ok) misses in
      let read =
        down_loop-Visits 3 k.word pt initial_perm va (top pt va) b (walk_of k.word pt va) refl e in
      let kept =
        grown-Linked.others b other
          (free-ne b (tables.taken va b (walk_of k.word pt va).level ok read)) in
      inl
        (same, ap (entry word1) same ∙ ap (entry_at word1) e ∙ kept ∙ sym (ap (entry_at k.word) e))

  -- Every walk is as it was, or ended before and after in an entry that is not present.
  pub grown-Alike :
      (va : ℕ)
      → Address va
      → Alike k.word
          (grown_frames k a table).word
          (walk_of k.word pt va)
          (walk_of (grown_frames k a table).word pt va)
  unfolding word1
  grown-Alike va ok =
      let (b, e) = down_loop-some 3 k.word pt initial_perm va (top pt va) in
      elim (Bool-cases (b == a)) [
        | inl same ↦
            let at : b ≡ a = ground arith in
            ends_in_table va (walk_of k.word pt va).level ok (
              down_loop-Visits 3 k.word pt initial_perm va (top pt va) a (walk_of k.word pt va) refl
                (e ∙ ap some at))
        | inr other ↦ ends_elsewhere va b ok e (ground arith)
      ]

  -- Going down from `a` ends in the new table, where the walk from the root now ends too.
  pub grown-walk :
      (it : VmIter)
      → walk_of k.word pt va0 ≡ it
      → it.pep ≡ some a
      → (down_loop (grown_frames k a table).word it.pt it.pep it.level it.perm it.va
          ≡ walk_of (grown_frames k a table).word pt va0)
        × ((walk_of (grown_frames k a table).word pt va0).level ≡ m)
        × (entry (grown_frames k a table).word (walk_of (grown_frames k a table).word pt va0) ≡ 0)
  unfolding word1
  grown-walk it at e =
      let (q, old, new) =
        walk-Through k.word word1 a table m grown-Linked pt va0 3 initial_perm (top pt va0) (suc m)
          reads (walk-Apart va0 address0) in
      let down = through_down k.word word1 a table m grown-Linked pt q va0 in
      let walk = λ (x : VmIter). down_loop word1 x.pt x.pep x.level x.perm x.va in
      (
        ap walk (sym at ∙ old) ∙ down ∙ sym new,
        ap (λ x. x.level) new,
        ap (entry word1) new ∙ grown-Linked.zeros (pageindex va0 m) (omega arith),
      )
