-- ===== src/Weensyos/PageTable/Put.antt =====
-- The last step of try_map of weensyos/k-vmiter.cc: the write of the entry on level 0.
use Prim.Native.Nat.{bit_or}
use c_proj.Base.{
  ℕ, ◌+◌, ◌/◌, ◌%◌, ◌<◌, ◌≡◌, ◌≢◌, refl, sym, ap, ◌∙◌, some, arith, ◌==◌, subst, if◌then◌else◌,
}
use c_proj.Weensyos.Alloc.{Frames, is_free}
use c_proj.Weensyos.PageTable.{above, VmIter, entry_at, entry, down_loop, initial_perm, put_entry}
use c_proj.Weensyos.PageTable.Walk.{above_mono, down_loop-region, at_va}
use c_proj.Weensyos.PageTable.Visits.{
  Visits, down_loop-Visits, down_loop-some, down_loop-same, Visits-same,
}
use c_proj.Weensyos.PageTable.Tree.{top, walk_of, Address, PageTables}

module _ (kernel_end pt : ℕ) (k : Frames) (tables : PageTables kernel_end pt k) (va0 p flags : ℕ)
    (address0 : Address va0) (it : VmIter) (stands : walk_of k.word pt va0 ≡ it)
    (bottom : it.level ≡ 0) (a : ℕ) (at : it.pep ≡ some a) where
  abbrev pub put_frames : Frames
  put_frames = record k { word = λ i. if i == a then bit_or p flags else k.word i }

  pub put_entry-eq : put_entry p flags k it ≡ put_frames
  put_entry-eq = rw at refl

  reads : Visits k.word va0 (top pt va0) 3 a 0
  reads =
      subst (λ l. Visits k.word va0 (top pt va0) 3 a l) bottom
        (down_loop-Visits 3 k.word pt initial_perm va0 (top pt va0) a it stands at)

  kept : (b : ℕ) → b ≢ a → put_frames.word b ≡ k.word b
  kept b ne = ground arith

  -- The entry is read on level 0 only.
  kept_above :
      (va b l : ℕ)
      → Address va
      → Visits k.word va (top pt va) 3 b l
      → 0 < l
      → put_frames.word b ≡ k.word b
  kept_above va b l ok v pos = kept b (λ e.
      let low =
        (tables.unshared va va0 a l 0 ok address0
          (subst (λ x. Visits k.word va (top pt va) 3 x l) e v) reads).0 in
      absurd (omega (arith, low, pos)))

  pub put-walk : (va : ℕ) → Address va → walk_of put_frames.word pt va ≡ walk_of k.word pt va
  put-walk va ok =
      down_loop-same 3 k.word put_frames.word pt initial_perm va (top pt va)
        (λ b l. kept_above va b l ok)

  pub put-PageTables : PageTables kernel_end pt put_frames
  unfolding is_free
  put-PageTables =
      let back = λ (va b n : ℕ) (ok : Address va) (v : Visits put_frames.word va (top pt va) 3 b n).
        Visits-same 3 k.word put_frames.word va (top pt va) b n (λ b l. kept_above va b l ok) v in
      record {
        taken = λ va b n ok v. tables.taken va b n ok (back va b n ok v);
        unshared = λ va va1 b n n1 ok ok1 v v1.
            tables.unshared va va1 b n n1 ok ok1 (back va b n ok v) (back va1 b n1 ok1 v1);
      }

  -- An address on another page finds the entry that it found before.
  pub put-other :
      (va : ℕ)
      → Address va
      → above va 0 ≢ above va0 0
      → entry put_frames.word (walk_of k.word pt va) ≡ entry k.word (walk_of k.word pt va)
  put-other va ok ne =
      let (b, e) = down_loop-some 3 k.word pt initial_perm va (top pt va) in
      let read =
        down_loop-Visits 3 k.word pt initial_perm va (top pt va) b (walk_of k.word pt va) refl e in
      let other : b ≢ a = λ same.
        let (low, up) =
          tables.unshared va va0 a (walk_of k.word pt va).level 0 ok address0
            (subst (λ x. Visits k.word va (top pt va) 3 x (walk_of k.word pt va).level) same read)
            reads in
        ne (ap (above va) (sym low) ∙ up) in
      ap (entry_at put_frames.word) e ∙ kept b other ∙ sym (ap (entry_at k.word) e)

  -- An address on the page finds the new entry.
  pub put-page :
      (va : ℕ)
      → above va 0 ≡ above va0 0
      → ((walk_of k.word pt va).level ≡ 0)
        × (entry put_frames.word (walk_of k.word pt va) ≡ bit_or p flags)
  put-page va same =
      let upper = above_mono 0 3 va va0 (omega arith) same in
      let moved : walk_of k.word pt va ≡ at_va va it =
        ap (λ i. down_loop k.word pt (some (pt / 8 + i % 512)) 3 initial_perm va) upper
        ∙ down_loop-region 3 k.word pt initial_perm va va0 (some (top pt va0)) it stands
            (subst (λ l. above va l ≡ above va0 l) (sym bottom) same) in
      (
        ap (λ x. x.level) moved ∙ bottom,
        ap (entry put_frames.word) moved ∙ ap (entry_at put_frames.word) at ∙ ground arith,
      )
