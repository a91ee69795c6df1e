-- ===== src/Weensyos/Alloc/Laws.antt =====
-- What kalloc and kfree of weensyos/kernel.cc promise.

use native.Mathlib.Decide.{dec_lt, ℕ_discrete}
use c_proj.Base.{
  subst, ℕ, zero, suc, ◌+◌, ◌-◌, ◌*◌, ◌/◌, ◌%◌, ◌≤◌, ◌<◌, ◌≡◌, ◌≢◌, ◌⊎◌, inl, inr, refl, sym, ap,
  true, false, some, arith, Bool-cases, ltb,
}
use c_proj.Weensyos.Layout.{
  page_size, memsize_physical, npages, kernel_start_addr, kernel_stack_top, iophysmem, extphysmem,
  reserved_physical_address, allocatable_physical_address,
}
use c_proj.Weensyos.Alloc.{Frames, set_refcount, claim, is_free, kalloc_loop, kalloc, kfree}

module _ (kernel_end : ℕ) where
  -- No page from `lo` up to `hi` can be handed out.
  abbrev pub NoneFree : Frames → (lo hi : ℕ) → Type 0
  NoneFree k lo hi = (q : ℕ) → q % page_size ≡ 0 → lo ≤ q → q < hi → is_free kernel_end k q ≡ false

  -- The allocation of the page at `pa`, the first free one from `lo` on.
  pub record Found (k : Frames) (lo hi pa : ℕ) : Type 0 where
    pub aligned : pa % page_size ≡ 0
    pub at_least : lo ≤ pa
    pub below : pa < hi
    pub was_free : is_free kernel_end k pa ≡ true
    pub is_first : NoneFree k lo pa

  abbrev pub Allocates : Frames → (lo hi : ℕ) → ℕ × Frames → Type 0
  Allocates k lo hi r =
      ((r ≡ (0, k)) × NoneFree k lo hi) ⊎ ((pa : ℕ) × (r ≡ (pa, claim k pa)) × Found k lo hi pa)

  NoneFree-step :
      (k : Frames) (pa hi : ℕ)
      → pa % page_size ≡ 0
      → is_free kernel_end k pa ≡ false
      → NoneFree k (pa + page_size) hi
      → NoneFree k pa hi
  NoneFree-step k pa hi aligned busy rest q aq lo h = elim (ℕ_discrete q pa) [
    | yes e ↦ rw e busy
    | no e ↦ rest q aq (omega arith) h
  ]

  kalloc_loop_lem :
      (left pa : ℕ) (k : Frames)
      → pa % page_size ≡ 0
      → Allocates k pa (pa + left * page_size) (kalloc_loop kernel_end left pa k)
  unfolding kalloc_loop
  kalloc_loop_lem zero pa k aligned = inl (refl, λ q aq lo h. absurd (omega arith))
  kalloc_loop_lem (suc left) pa k aligned = elim (Bool-cases (is_free kernel_end k pa)) [
    | inl free ↦
        rw (free, kalloc_loop)
          (inr (
            pa,
            refl,
            record {
              aligned = aligned;
              at_least = omega arith;
              below = omega arith;
              was_free = free;
              is_first = λ q aq lo h. absurd (omega arith);
            },
          ))
    | inr busy ↦
        rw (busy, kalloc_loop)
          (skip (kalloc_loop kernel_end left (pa + page_size) k) busy
            (kalloc_loop_lem left (pa + page_size) k (omega arith)))
  ]
    where
      skip :
          (r : ℕ × Frames)
          → is_free kernel_end k pa ≡ false
          → Allocates k (pa + page_size) (pa + page_size + left * page_size) r
          → Allocates k pa (pa + suc left * page_size) r
      skip r busy (inl (e, none_free)) =
          inl (e, NoneFree-step k pa _ aligned busy (λ q aq lo h. none_free q aq lo (omega arith)))
      skip r busy (inr (p, e, f)) = inr (
        p,
        e,
        record {
          aligned = f.aligned;
          at_least = omega (arith, f.at_least);
          below = omega (arith, f.below);
          was_free = f.was_free;
          is_first = NoneFree-step k pa p aligned busy f.is_first;
        },
      )

  kalloc-Allocates :
      (sz : ℕ) (k : Frames)
      → sz ≤ page_size
      → Allocates k 0 memsize_physical (kalloc kernel_end sz k)
  unfolding kalloc
  kalloc-Allocates sz k h =
      let small : ltb page_size sz ≡ false = ground arith in
      rw small (kalloc_loop_lem npages 0 k (omega arith))

  -- One reference to the page at `pa`, each word of it 0xCC in all bytes, and all else as before.
  pub record Claimed (k : Frames) (pa : ℕ) (k1 : Frames) : Type 0 where
    pub counted : k1.refcount (pa / 4096) ≡ 1
    pub counts_kept : (i : ℕ) → i ≢ pa / 4096 → k1.refcount i ≡ k.refcount i
    pub filled : (i : ℕ) → i / 512 ≡ pa / 4096 → k1.word i ≡ 0xCCCCCCCCCCCCCCCC
    pub words_kept : (i : ℕ) → i / 512 ≢ pa / 4096 → k1.word i ≡ k.word i

  claim-Claimed : (k : Frames) (pa : ℕ) → pa % page_size ≡ 0 → Claimed k pa (claim k pa)
  claim-Claimed k pa aligned = record {
    counted = ground arith;
    counts_kept = λ i other. ground arith;
    filled = λ i inside. ground arith;
    words_kept = λ i other. ground arith;
  }

  -- What a call of kalloc for at most a page comes to.
  abbrev pub TakesFirst : Frames → ℕ × Frames → Type 0
  TakesFirst k r =
      ((r ≡ (0, k)) × NoneFree k 0 memsize_physical)
      ⊎ ((pa : ℕ) × (k1 : Frames) × (r ≡ (pa, k1))
          × Found k 0 memsize_physical pa
          × Claimed k pa k1)

  -- kalloc of at most a page takes the free allocatable page of the lowest address, counts one
  -- reference to it and fills it with 0xCC, and changes no other count and no other word; or it returns
  -- nullptr and changes nothing, and no allocatable page is free.
  pub kalloc_first_free :
      (sz : ℕ) (k : Frames) → sz ≤ page_size → TakesFirst k (kalloc kernel_end sz k)
  kalloc_first_free sz k h = elim (kalloc-Allocates sz k h) [
    | inl none_left ↦ inl none_left
    | inr (pa, e, found) ↦ inr (pa, claim k pa, e, found, claim-Claimed k pa found.aligned)
  ]

  -- kalloc of more than a page returns nullptr and changes nothing.
  kalloc_too_large : (sz : ℕ) (k : Frames) → page_size < sz → kalloc kernel_end sz k ≡ (0, k)
  unfolding kalloc
  kalloc_too_large sz k h = ground arith

  -- A page that can be handed out lies in no reserved range.
  pub record Outside (pa : ℕ) : Type 0 where
    pub not_null : page_size ≤ pa
    pub in_memory : pa < memsize_physical
    pub not_io : (pa < iophysmem) ⊎ (extphysmem ≤ pa)
    pub not_kernel : (pa < kernel_start_addr) ⊎ (kernel_end ≤ pa)
    pub not_stack : (pa < kernel_stack_top - page_size) ⊎ (kernel_stack_top ≤ pa)

  free-Outside : (k : Frames) (pa : ℕ) → is_free kernel_end k pa ≡ true → Outside pa
  unfolding is_free allocatable_physical_address reserved_physical_address
  free-Outside k pa h = ground arith

  free-unused :
      (k : Frames) (pa : ℕ) → is_free kernel_end k pa ≡ true → k.refcount (pa / page_size) ≡ 0
  unfolding is_free
  free-unused k pa h = ground arith

  -- A call of kalloc that succeeds, by its address.
  pub record Success (k : Frames) (pa : ℕ) (k1 : Frames) : Type 0 where
    pub claimed : k1 ≡ claim k pa
    pub aligned : pa % page_size ≡ 0
    pub was_free : is_free kernel_end k pa ≡ true

  Success-of_Allocates :
      (k : Frames) (hi : ℕ) (r : ℕ × Frames) → Allocates k 0 hi r → r.0 ≢ 0 → Success k r.0 r.1
  Success-of_Allocates k hi r (inl (e, none_free)) ne = absurd (ne (ap (λ t. t.0) e))
  Success-of_Allocates k hi r (inr (pa, e, f)) ne =
      rw e (record { claimed = refl; aligned = f.aligned; was_free = f.was_free })

  pub kalloc-Success :
      (sz : ℕ) (k : Frames)
      → (kalloc kernel_end sz k).0 ≢ 0
      → Success k (kalloc kernel_end sz k).0 (kalloc kernel_end sz k).1
  kalloc-Success sz k ne = elim (dec_lt page_size sz) [
    | yes large ↦ absurd (ne (ap (λ t. t.0) (kalloc_too_large sz k large)))
    | no small ↦
        Success-of_Allocates k memsize_physical (kalloc kernel_end sz k)
          (kalloc-Allocates sz k (omega arith)) ne
  ]

  -- The page that kalloc hands out is no part of the null page, of the I/O hole, of the kernel's image
  -- or of its stack, and lies in physical memory.
  pub kalloc-Outside :
      (sz : ℕ) (k : Frames) → (kalloc kernel_end sz k).0 ≢ 0 → Outside (kalloc kernel_end sz k).0
  kalloc-Outside sz k ne = free-Outside k _ (kalloc-Success sz k ne).was_free

  null-of_Allocates :
      (k : Frames) (hi : ℕ) (r : ℕ × Frames) → Allocates k 0 hi r → r.0 ≡ 0 → r.1 ≡ k
  null-of_Allocates k hi r (inl (e, none_free)) null = ap (λ t. t.1) e
  null-of_Allocates k hi r (inr (pa, e, f)) null =
      absurd
        (omega (arith, (free-Outside k pa f.was_free).not_null, ap (λ (t : ℕ × Frames). t.0) e))

  -- A call of kalloc that returns nullptr changes nothing.
  pub kalloc_null :
      (sz : ℕ) (k : Frames) → (kalloc kernel_end sz k).0 ≡ 0 → (kalloc kernel_end sz k).1 ≡ k
  kalloc_null sz k null = elim (dec_lt page_size sz) [
    | yes large ↦ ap (λ t. t.1) (kalloc_too_large sz k large)
    | no small ↦
        null-of_Allocates k memsize_physical (kalloc kernel_end sz k)
          (kalloc-Allocates sz k (omega arith)) null
  ]

  one_ne_zero : (k : Frames) (pa : ℕ) → (claim k pa).refcount (pa / page_size) ≢ 0
  one_ne_zero k pa e = ground arith

  kept_word :
      (k : Frames) (pa i : ℕ)
      → pa % page_size ≡ 0
      → pa / page_size ≢ i / 512
      → (claim k pa).word i ≡ k.word i
  kept_word k pa i aligned other = ground arith

  kept_count :
      (k : Frames) (pa i : ℕ)
      → pa / page_size ≢ i / 512
      → (claim k pa).refcount (i / 512) ≡ k.refcount (i / 512)
  kept_count k pa i other = ground arith

  kfree-claim :
      (k : Frames) (pa : ℕ)
      → Outside pa
      → k.refcount (pa / page_size) ≡ 0
      → (k2 : Frames) × (kfree pa (claim k pa) ≡ some k2) × ((i : ℕ) → k2.refcount i ≡ k.refcount i)
  unfolding kfree
  kfree-claim k pa out unused =
      let k1 = claim k pa in
      (
        record k1 {
          refcount = set_refcount k1 (pa / page_size) (k1.refcount (pa / page_size) - 1);
        },
        ground (arith, out.not_null, out.in_memory),
        λ i. ground arith,
      )

  -- kalloc leaves the words and the reference count of every page in use as they are.
  pub kalloc_keeps_used :
      (sz i : ℕ) (k : Frames)
      → k.refcount (i / 512) ≢ 0
      → ((kalloc kernel_end sz k).1.word i ≡ k.word i)
        × ((kalloc kernel_end sz k).1.refcount (i / 512) ≡ k.refcount (i / 512))
  kalloc_keeps_used sz i k in_use = elim (ℕ_discrete (kalloc kernel_end sz k).0 0) [
    | yes null ↦ rw (kalloc_null sz k null) (refl, refl)
    | no ne ↦
        let s = kalloc-Success sz k ne in
        let pa = (kalloc kernel_end sz k).0 in
        let other : pa / page_size ≢ i / 512 =
          λ e. in_use (subst (λ j. k.refcount j ≡ 0) e (free-unused k pa s.was_free)) in
        rw s.claimed (kept_word k pa i s.aligned other, kept_count k pa i other)
  ]

  -- Two pages that are handed out one after the other are different.
  pub kalloc_distinct :
      (sz sz' : ℕ) (k : Frames)
      → (kalloc kernel_end sz k).0 ≢ 0
      → (kalloc kernel_end sz' (kalloc kernel_end sz k).1).0 ≢ 0
      → (kalloc kernel_end sz k).0 ≢ (kalloc kernel_end sz' (kalloc kernel_end sz k).1).0
  kalloc_distinct sz sz' k ne ne' same =
      let s = kalloc-Success sz k ne in
      let s' = kalloc-Success sz' (kalloc kernel_end sz k).1 ne' in
      let pa = (kalloc kernel_end sz k).0 in
      let taken : (kalloc kernel_end sz k).1.refcount (pa / page_size) ≡ 0 =
        subst (λ q. (kalloc kernel_end sz k).1.refcount (q / page_size) ≡ 0) (sym same)
          (free-unused (kalloc kernel_end sz k).1 _ s'.was_free) in
      one_ne_zero k pa (subst (λ (f : Frames). f.refcount (pa / page_size) ≡ 0) s.claimed taken)

  -- kfree of the page that kalloc handed out gives every page its reference count back.
  pub kfree-kalloc :
      (sz : ℕ) (k : Frames)
      → (kalloc kernel_end sz k).0 ≢ 0
      → (k2 : Frames) × (kfree (kalloc kernel_end sz k).0 (kalloc kernel_end sz k).1 ≡ some k2)
        × ((i : ℕ) → k2.refcount i ≡ k.refcount i)
  kfree-kalloc sz k ne =
      let s = kalloc-Success sz k ne in
      let pa = (kalloc kernel_end sz k).0 in
      let (k2, run, same) =
        kfree-claim k pa (free-Outside k pa s.was_free) (free-unused k pa s.was_free) in
      (k2, rw s.claimed run, same)
