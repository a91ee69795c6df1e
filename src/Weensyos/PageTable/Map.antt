-- ===== src/Weensyos/PageTable/Map.antt =====
-- try_map of weensyos/k-vmiter.cc: it ends, maps the page it is asked to map, and no other address.
use Prim.Native.Nat.{bit_or}
use c_proj.Base.{
  ℕ, zero, suc, ◌<◌, ◌≡◌, ◌≢◌, refl, sym, ap, ◌∙◌, Bool, true, false, some, Memory, arith, leb,
  ◌==◌, Bool-cases, inl, inr, ◌||◌, subst, if◌then◌else◌,
}
use c_proj.Weensyos.Layout.{page_size}
use c_proj.Weensyos.Alloc.{Frames, kalloc, claim}
use c_proj.Weensyos.Alloc.Laws.{kalloc-Success, kalloc-Outside, kalloc_null}
use c_proj.Weensyos.PageTable.{
  above, pte_pa, pte_p, VmIter, entry_at, entry, down_loop, down, initial_perm, link_table, Mapped,
  returned, grown, map_step, map_loop, map_end, map_asserts, try_map, put_entry, va_is_canonical,
  vmiter,
}
use c_proj.Weensyos.PageTable.Walk.{checked, checked-some, vmiter-canonical}
use c_proj.Weensyos.PageTable.Put.{
  put_frames, put_entry-eq, put-walk, put-PageTables, put-other, put-page,
}
use c_proj.Weensyos.PageTable.Visits.{Visits, down_loop-Visits, down_loop-some}
use c_proj.Weensyos.PageTable.Tree.{
  top, walk_of, Address, PageTables, Alike, grown_frames, grown-PageTables, grown-Alike, grown-walk,
}

pub Alike-refl : (word : Memory) (x : VmIter) → Alike word word x x
Alike-refl word x = inl (refl, refl)

pub Alike-trans :
    (w0 w1 w2 : Memory) (x y z : VmIter) → Alike w0 w1 x y → Alike w1 w2 y z → Alike w0 w2 x z
Alike-trans w0 w1 w2 x y z (inl (e, f)) (inl (g, h)) = inl (g ∙ e, h ∙ f)
Alike-trans w0 w1 w2 x y z (inl (e, f)) (inr (g, h)) = inr (ap pte_p (sym f) ∙ g, h)
Alike-trans w0 w1 w2 x y z (inr (e, f)) (inl (g, h)) = inr (e, h ∙ f)
Alike-trans w0 w1 w2 x y z (inr (e, f)) (inr (g, h)) = inr (e, h)

checked_zero : (word : Memory) (x : VmIter) → entry word x ≡ 0 → checked word x ≡ some x
checked_zero word x e =
    let low : leb 0x100000000 (pte_pa (entry word x)) ≡ false =
      ap (λ n. leb 0x100000000 (pte_pa n)) e in
    rw low refl

module _ (kernel_end : ℕ) (flags : ℕ) where
  round_null :
      (fuel : ℕ) (k : Frames) (it : VmIter)
      → (it.level == 0 || flags == 0) ≡ false
      → pte_p (entry k.word it) ≡ false
      → ((kalloc kernel_end page_size k).0 == 0) ≡ true
      → map_loop kernel_end (suc fuel) flags k it
        ≡ returned false (kalloc kernel_end page_size k).1 it
  unfolding map_loop
  round_null fuel k it go absent null = rw (go, map_loop, absent, null) refl

  round_step :
      (fuel : ℕ) (k k2 : Frames) (it it1 : VmIter)
      → (it.level == 0 || flags == 0) ≡ false
      → pte_p (entry k.word it) ≡ false
      → ((kalloc kernel_end page_size k).0 == 0) ≡ false
      → map_step (kalloc kernel_end page_size k).0 (kalloc kernel_end page_size k).1 it
        ≡ grown k2 it1
      → map_loop kernel_end (suc fuel) flags k it ≡ map_loop kernel_end fuel flags k2 it1
  unfolding map_loop
  round_step fuel k k2 it it1 go absent got step = rw (go, map_loop, absent, got, step) refl

  -- A round whose new table holds no entry yet.
  map_step_lem :
      (table a : ℕ) (k1 : Frames) (it it1 : VmIter)
      → it.pep ≡ some a
      → down_loop (link_table k1 a table).word it.pt it.pep it.level it.perm it.va ≡ it1
      → entry (link_table k1 a table).word it1 ≡ 0
      → map_step table k1 it ≡ grown (link_table k1 a table) it1
  unfolding map_step down
  map_step_lem table a k1 it it1 e at zero_entry =
      let down_it1 : down (link_table k1 a table).word it ≡ some it1 =
        ap (checked (link_table k1 a table).word) at
        ∙ checked_zero (link_table k1 a table).word it1 zero_entry in
      rw (e, map_step, down_it1) refl

  module _ (pt va0 : ℕ) (address0 : Address va0) where
    -- What the loop leaves: page tables in order, every walk alike, and on success the walk for the
    -- address on level 0.
    pub record MapDone (k k1 : Frames) (ok : Bool) (it1 : VmIter) : Type 0 where
      pub tables : PageTables kernel_end pt k1
      pub alike :
          (va : ℕ)
          → Address va
          → Alike k.word k1.word (walk_of k.word pt va) (walk_of k1.word pt va)
      pub reached : ok ≡ true → (it1.level ≡ 0) × (walk_of k1.word pt va0 ≡ it1)

    abbrev pub Finishes : (k : Frames) → Mapped → Type 0
    Finishes k r =
        (ok : Bool) × (k1 : Frames) × (it1 : VmIter) × (r ≡ returned ok k1 it1)
        × MapDone k k1 ok it1

    no_page : (k : Frames) → PageTables kernel_end pt k → (it1 : VmIter) → MapDone k k false it1
    no_page k tables it1 = record {
      tables = tables;
      alike = λ va _. Alike-refl k.word (walk_of k.word pt va);
      reached = λ e. let z : false ≡ true = e in cc;
    }

    -- The rest of the loop, behind a round that linked a new table.
    after_round :
        (k k2 : Frames) (r : Mapped)
        → ((va : ℕ)
            → Address va
            → Alike k.word k2.word (walk_of k.word pt va) (walk_of k2.word pt va))
        → Finishes k2 r
        → Finishes k r
    after_round k k2 r alike (ok, k1, it1, e, done) = (
      ok,
      k1,
      it1,
      e,
      record {
        tables = done.tables;
        alike = λ va proper.
            Alike-trans k.word k2.word k1.word (walk_of k.word pt va) (walk_of k2.word pt va)
              (walk_of k1.word pt va) (alike va proper) (done.alike va proper);
        reached = done.reached;
      },
    )

    pub map_loop_lem :
        (n : ℕ) (k : Frames) (it : VmIter)
        → flags ≢ 0
        → PageTables kernel_end pt k
        → walk_of k.word pt va0 ≡ it
        → it.level ≡ n
        → (0 < it.level → pte_p (entry k.word it) ≡ false)
        → Finishes k (map_loop kernel_end n flags k it)
    unfolding map_loop
    map_loop_lem zero k it nz tables at level absent = (
      true,
      k,
      it,
      ground arith,
      record {
        tables = tables;
        alike = λ va _. Alike-refl k.word (walk_of k.word pt va);
        reached = λ _. (level, at);
      },
    )
    map_loop_lem (suc n) k it nz tables at level absent =
        let go : (it.level == 0 || flags == 0) ≡ false = ground arith in
        let gone = absent (omega arith) in
        let table = (kalloc kernel_end page_size k).0 in
        elim (Bool-cases (table == 0)) [
          | inl null ↦
              let same = kalloc_null kernel_end page_size k (ground arith) in
              (
                false,
                k,
                it,
                round_null n k it go gone null ∙ ap (λ x. returned false x it) same,
                no_page k tables it,
              )
          | inr got ↦
              let ne : table ≢ 0 = ground arith in
              let s = kalloc-Success kernel_end page_size k ne in
              let small = (kalloc-Outside kernel_end page_size k ne).in_memory in
              let (a, e0) = down_loop-some 3 k.word pt initial_perm va0 (top pt va0) in
              let e : it.pep ≡ some a = ap (λ x. x.pep) (sym at) ∙ e0 in
              let reads : Visits k.word va0 (top pt va0) 3 a (suc n) =
                subst (λ l. Visits k.word va0 (top pt va0) 3 a l) level
                  (down_loop-Visits 3 k.word pt initial_perm va0 (top pt va0) a it at e) in
              let absent_a : pte_p (k.word a) ≡ false =
                ap (λ p. pte_p (entry_at k.word p)) (sym e) ∙ gone in
              let k2 = grown_frames k a table in
              let it2 = walk_of k2.word pt va0 in
              let (down2, level2, zero2) =
                grown-walk kernel_end pt k tables va0 a n table address0 reads absent_a s.was_free
                  s.aligned small it at e in
              let step : map_step table (kalloc kernel_end page_size k).1 it ≡ grown k2 it2 =
                ap (λ x. map_step table x it) s.claimed
                ∙ map_step_lem table a (claim k table) it it2 e down2 zero2 in
              let rest =
                map_loop_lem n k2 it2 nz
                  (grown-PageTables kernel_end pt k tables va0 a n table address0 reads absent_a
                    s.was_free s.aligned small)
                  refl level2 (λ _. ap pte_p zero2) in
              subst (Finishes k) (sym (round_step n k k2 it it2 go gone got step)) (
                after_round k k2 (map_loop kernel_end n flags k2 it2)
                  (grown-Alike kernel_end pt k tables va0 a n table address0 reads absent_a
                    s.was_free s.aligned small)
                  rest)
        ]

pub walk-canonical :
    (word : Memory) (pt va : ℕ) (it : VmIter)
    → va_is_canonical va ≡ true
    → vmiter word pt va ≡ some it
    → walk_of word pt va ≡ it
walk-canonical word pt va it canonical e =
    checked-some word (walk_of word pt va) it (sym (vmiter-canonical word pt va canonical) ∙ e)

-- What try_map comes to for the page of `va0`: the page tables are in order again, every address on
-- another page is translated as before, and so is that page after a failure; after a success the page
-- has the new entry on level 0.
pub record Mapping (kernel_end pt va0 p flags : ℕ) (k k1 : Frames) (ok : Bool) : Type 0 where
  pub tables : PageTables kernel_end pt k1
  pub others :
      (va : ℕ)
      → Address va
      → above va 0 ≢ above va0 0
      → Alike k.word k1.word (walk_of k.word pt va) (walk_of k1.word pt va)
  pub failed :
      ok ≡ false
      → (va : ℕ) → Address va
      → Alike k.word k1.word (walk_of k.word pt va) (walk_of k1.word pt va)
  pub mapped :
      ok ≡ true
      → (va : ℕ) → Address va
      → above va 0 ≡ above va0 0
      → ((walk_of k1.word pt va).level ≡ 0)
        × (entry k1.word (walk_of k1.word pt va) ≡ bit_or p flags)

module _ (kernel_end pt va0 p flags : ℕ) (address0 : Address va0) (k : Frames) where
  abbrev pub Maps : Mapped → Type 0
  Maps r =
      (ok : Bool) × (k1 : Frames) × (it1 : VmIter) × (r ≡ returned ok k1 it1)
      × Mapping kernel_end pt va0 p flags k k1 ok

  map_end_lem :
      (r : Mapped) → Finishes kernel_end flags pt va0 address0 k r → Maps (map_end p flags r)
  map_end_lem r (false, k1, it1, e, done) = (
    false,
    k1,
    it1,
    ap (map_end p flags) e,
    record {
      tables = done.tables;
      others = λ va ok _. done.alike va ok;
      failed = λ _. done.alike;
      mapped = λ h. let z : false ≡ true = h in cc;
    },
  )
  map_end_lem r (true, k1, it1, e, done) =
      let (bottom, stands) = done.reached refl in
      let (a, e0) = down_loop-some 3 k1.word pt initial_perm va0 (top pt va0) in
      let at : it1.pep ≡ some a = ap (λ x. x.pep) (sym stands) ∙ e0 in
      let k2 =
        put_frames kernel_end pt k1 done.tables va0 p flags address0 it1 stands bottom a at in
      let same =
        put-walk kernel_end pt k1 done.tables va0 p flags address0 it1 stands bottom a at in
      (
        true,
        k2,
        it1,
        ap (map_end p flags) e
            ∙ ap (λ n. returned true (if n == 0 then put_entry p flags k1 it1 else k1) it1) bottom
            ∙ ap (λ x. returned true x it1)
                (put_entry-eq kernel_end pt k1 done.tables va0 p flags address0 it1 stands bottom a
                  at),
        record {
          tables =
              put-PageTables kernel_end pt k1 done.tables va0 p flags address0 it1 stands bottom a
                at;
          others = λ va ok ne.
              Alike-trans k.word k1.word k2.word (walk_of k.word pt va) (walk_of k1.word pt va)
                (walk_of k2.word pt va) (done.alike va ok)
                (inl (
                  same va ok,
                  ap (entry k2.word) (same va ok)
                      ∙ put-other kernel_end pt k1 done.tables va0 p flags address0 it1 stands
                          bottom a at va ok ne,
                ));
          failed = λ h. let z : true ≡ false = h in cc;
          mapped = λ _ va ok on.
              let (low, new) =
                put-page kernel_end pt k1 done.tables va0 p flags address0 it1 stands bottom a at va
                  on in
              (ap (λ x. x.level) (same va ok) ∙ low, ap (entry k2.word) (same va ok) ∙ new);
        },
      )

-- try_map, from the iterator for a canonical address, with flags, where its asserts on the arguments
-- hold and no large page is mapped: it returns, the page tables keep their order, and no address on
-- another page finds anything but what it found before; after a success every address on the page
-- finds the entry `pa | perm` on level 0, and after a failure what it found before.
pub try_map_lem :
    (kernel_end pt va0 p flags : ℕ) (k : Frames) (it : VmIter)
    → (address0 : Address va0) → PageTables kernel_end pt k
    → vmiter k.word pt va0 ≡ some it
    → map_asserts (some p) flags it ≡ true
    → flags ≢ 0
    → (0 < it.level → pte_p (entry k.word it) ≡ false)
    → Maps kernel_end pt va0 p flags address0 k (try_map kernel_end (some p) flags k it)
unfolding try_map
try_map_lem kernel_end pt va0 p flags k it address0 tables e asserts nz absent = rw asserts (
    map_end_lem kernel_end pt va0 p flags address0 k (map_loop kernel_end it.level flags k it) (
      map_loop_lem kernel_end flags pt va0 address0 it.level k it nz tables
        (walk-canonical k.word pt va0 it address0.canonical e) refl absent))
