-- ===== src/Weensyos/PageTable/Grow.antt =====
-- A round of the loop of try_map of weensyos/k-vmiter.cc: an entry that was not present leads to a new
-- table of zeros, and no walk changes but those that ended in that entry.
use Prim.Native.Nat.{bit_and}
use c_proj.Base.{
  ℕ, zero, suc, ◌+◌, ◌/◌, ◌%◌, ◌<◌, ◌≡◌, ◌≢◌, ◌⊎◌, refl, sym, ap, ap₂, ◌∙◌, true, false, some,
  Memory, arith, ◌==◌, Bool-cases, inl, inr, subst,
}
use c_proj.Weensyos.PageTable.{pageindex, pte_pa, pte_p, links, down_loop}
use c_proj.Weensyos.PageTable.Visits.{
  below, Visits, here, deeper, here-at, down_loop-linked, down_loop-last, down_loop-same,
}

-- The memory `word1` differs from `word` in the entry `a`, which now leads to the table at `table`, and
-- in that table, which is zero.
pub record Linked (word word1 : Memory) (a table : ℕ) : Type 0 where
  pub absent : pte_p (word a) ≡ false
  pub links_there : word1 a ≡ table + 7
  pub aligned : table % 4096 ≡ 0
  pub small : table < 0x200000
  pub zeros : (i : ℕ) → i < 512 → word1 (table / 8 + i) ≡ 0
  pub others : (b : ℕ) → b ≢ a → b / 512 ≢ table / 4096 → word1 b ≡ word b

links_new : (table : ℕ) → table % 4096 ≡ 0 → table < 0x200000 → links (table + 7) ≡ true
links_new table h k = ground arith

pte_pa_new : (table : ℕ) → table % 4096 ≡ 0 → table < 0x200000 → pte_pa (table + 7) ≡ table
pte_pa_new table h k = omega arith

links_zero : (e : ℕ) → e ≡ 0 → links e ≡ false
links_zero e h = ground arith

absent-links : (e : ℕ) → pte_p e ≡ false → links e ≡ false
absent-links e h = ground arith

pub Visits-stop :
    (word : Memory) (va p level b n : ℕ)
    → links (word p) ≡ false
    → Visits word va p level b n
    → (b ≡ p) × (n ≡ level)
Visits-stop word va p level _ _ stop here = (refl, refl)
Visits-stop word va p (suc level) b n stop (deeper linked v) =
    let true_false : true ≡ false = sym linked ∙ stop in cc

module _ (word word1 : Memory) (a table m : ℕ) (grown : Linked word word1 a table) where
  -- What is asked of a walk: it reads no entry of the new table, and `a` only on its level.
  pub record Apart (va p level : ℕ) : Type 0 where
    pub off_table : (b n : ℕ) → Visits word va p level b n → b / 512 ≢ table / 4096
    pub on_level : (n : ℕ) → Visits word va p level a n → n ≡ suc m

  Apart-below :
      (va p level : ℕ)
      → links (word p) ≡ true
      → Apart va p (suc level)
      → Apart va (below word p level va) level
  Apart-below va p level linked apart = record {
    off_table = λ b n v. apart.off_table b n (deeper linked v);
    on_level = λ n v. apart.on_level n (deeper linked v);
  }

  same_entry : (va p level : ℕ) → Apart va p level → p ≢ a → word1 p ≡ word p
  same_entry va p level apart ne = grown.others p ne (apart.off_table p level here)

  -- The entry of the new table for an address.
  abbrev new_entry : ℕ → ℕ
  new_entry va = table / 8 + pageindex va m

  new_links : links (word1 a) ≡ true
  new_links = ap links grown.links_there ∙ links_new table grown.aligned grown.small

  new_below : (va : ℕ) → below word1 a m va ≡ new_entry va
  new_below va =
      ap (λ e. pte_pa e / 8 + pageindex va m) grown.links_there
      ∙ ap (λ t. t / 8 + pageindex va m) (pte_pa_new table grown.aligned grown.small)

  new_stops : (va : ℕ) → links (word1 (new_entry va)) ≡ false
  new_stops va = links_zero (word1 (new_entry va)) (grown.zeros (pageindex va m) (omega arith))

  -- A walk that did not end in `a` is as it was.
  pub walk_elsewhere :
      (pt perm va p level : ℕ)
      → Apart va p level
      → ((n : ℕ) → Visits word va p level a n → ⊥)
      → down_loop word1 pt (some p) level perm va ≡ down_loop word pt (some p) level perm va
  walk_elsewhere pt perm va p level apart misses =
      down_loop-same level word word1 pt perm va p (λ b n v _. elim (Bool-cases (b == a)) [
        | inl same ↦
            let e : b ≡ a = ground arith in
            absurd (misses n (subst (λ x. Visits word va p level x n) e v))
        | inr other ↦ grown.others b (ground arith) (apart.off_table b n v)
      ])

  -- What becomes of a walk that ended in `a`: it ends one level lower, in an entry of zero.
  abbrev pub Through : (pt perm va p level : ℕ) → Type 0
  Through pt perm va p level =
      (q : ℕ) × (down_loop word pt (some p) level perm va
        ≡ record { pt = pt; pep = some a; level = suc m; perm = q; va = va })
      × (down_loop word1 pt (some p) level perm va ≡ record {
        pt = pt;
        pep = some (new_entry va);
        level = m;
        perm = bit_and q (table + 7);
        va = va;
      })

  -- Going down from `a`.
  pub through_down :
      (pt q va : ℕ)
      → down_loop word1 pt (some a) (suc m) q va ≡ record {
        pt = pt;
        pep = some (new_entry va);
        level = m;
        perm = bit_and q (table + 7);
        va = va;
      }
  through_down pt q va =
      down_loop-linked m word1 pt q va a new_links
      ∙ ap₂ (λ b e. down_loop word1 pt (some b) m (bit_and q e) va) (new_below va) grown.links_there
      ∙ down_loop-last m word1 pt (bit_and q (table + 7)) va (new_entry va) (new_stops va)

  Through-here : (pt perm va : ℕ) → Through pt perm va a (suc m)
  Through-here pt perm va = (
    perm,
    down_loop-last (suc m) word pt perm va a (absent-links (word a) grown.absent),
    through_down pt perm va,
  )

  linked-ne : (p : ℕ) → links (word p) ≡ true → p ≢ a
  linked-ne p linked e =
      let stops : links (word p) ≡ false =
        ap (λ x. links (word x)) e ∙ absent-links (word a) grown.absent in
      ground arith

  -- A round of a walk that both memories share.
  linked_alike :
      (pt perm va p level : ℕ)
      → Apart va p (suc level)
      → links (word p) ≡ true
      → down_loop word1 pt (some p) (suc level) perm va
        ≡ down_loop word1 pt (some (below word p level va)) level (bit_and perm (word p)) va
  linked_alike pt perm va p level apart linked =
      let e = same_entry va p (suc level) apart (linked-ne p linked) in
      down_loop-linked level word1 pt perm va p (ap links e ∙ linked)
      ∙ ap
          (λ x.
            down_loop word1 pt (some (pte_pa x / 8 + pageindex va level)) level (bit_and perm x) va)
          e

  pub walk-Through :
      (pt va level perm p n : ℕ)
      → Visits word va p level a n
      → Apart va p level
      → Through pt perm va p level
  walk-Through pt va level perm _ _ here apart =
      subst (λ l. Through pt perm va a l) (sym (apart.on_level level here))
        (Through-here pt perm va)
  walk-Through pt va (suc level) perm p n (deeper linked v) apart =
      let (q, old, new) =
        walk-Through pt va level (bit_and perm (word p)) (below word p level va) n v
          (Apart-below va p level linked apart) in
      (
        q,
        down_loop-linked level word pt perm va p linked ∙ old,
        linked_alike pt perm va p level apart linked ∙ new,
      )

  -- What a walk reads afterwards: what it read before, and behind `a` the entry of the new table.
  abbrev pub Grown : (va p level b n : ℕ) → Type 0
  Grown va p level b n =
      Visits word va p level b n ⊎ ((b ≡ new_entry va) × (n ≡ m) × Visits word va p level a (suc m))

  Grown-deeper :
      (va p level b n : ℕ)
      → links (word p) ≡ true
      → Grown va (below word p level va) level b n
      → Grown va p (suc level) b n
  Grown-deeper va p level b n linked (inl v) = inl (deeper linked v)
  Grown-deeper va p level b n linked (inr (e, h, v)) = inr (e, h, deeper linked v)

  Grown-new :
      (va p level b n : ℕ)
      → Apart va p (suc level)
      → p ≡ a
      → Visits word1 va (below word1 p level va) level b n
      → Grown va p (suc level) b n
  Grown-new va p level b n apart same v =
      let on_a = here-at word va p a (suc level) (suc level) same refl in
      let at_m : level ≡ m = omega (arith, apart.on_level (suc level) on_a) in
      let e : below word1 p level va ≡ new_entry va =
        ap₂ (λ x l. below word1 x l va) same at_m ∙ new_below va in
      let (f, h) =
        Visits-stop word1 va (below word1 p level va) level b n
          (ap (λ x. links (word1 x)) e ∙ new_stops va) v in
      inr (f ∙ e, h ∙ at_m, subst (λ l. Visits word va p (suc level) a (suc l)) at_m on_a)

  pub Visits-Grown :
      (level va p b n : ℕ) → Apart va p level → Visits word1 va p level b n → Grown va p level b n
  Visits-Grown zero va p _ _ apart here = inl here
  Visits-Grown (suc level) va p _ _ apart here = inl here
  Visits-Grown (suc level) va p b n apart (deeper linked v) = elim (Bool-cases (p == a)) [
    | inl same ↦ Grown-new va p level b n apart (ground arith) v
    | inr other ↦
        let e = same_entry va p (suc level) apart (ground arith) in
        let linked0 : links (word p) ≡ true = ap links (sym e) ∙ linked in
        Grown-deeper va p level b n linked0 (
          Visits-Grown level va (below word p level va) b n (Apart-below va p level linked0 apart)
            (subst (λ x. Visits word1 va (pte_pa x / 8 + pageindex va level) level b n) e v))
  ]
