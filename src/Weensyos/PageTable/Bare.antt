-- ===== src/Weensyos/PageTable/Bare.antt =====
-- A page table without an entry, on which the examples for try_map of weensyos/k-vmiter.cc and
-- syscall_page_alloc of kernel.cc run.
use c_proj.Base.{ℕ, ◌≡◌, refl, sym, subst, false, ap, ◌∙◌, some, arith, ◌==◌, if◌then◌else◌}
use c_proj.Weensyos.Alloc.{Frames, is_free}
use c_proj.Weensyos.Layout.{allocatable_physical_address, reserved_physical_address}
use c_proj.Weensyos.PageTable.Visits.{Visits}
use c_proj.Weensyos.PageTable.Grow.{Visits-stop}
use c_proj.Weensyos.PageTable.Tree.{Address, PageTables, top, page_of}
use c_proj.Weensyos.PageTable.{VmIter, vmiter, real_find, down, down_loop, above}

-- A root table at 0x1000 without an entry, in a page that is in use.
abbrev pub bare : Frames
bare = record { refcount = λ i. if i == 1 then 1 else 0; word = λ i. 0 }

pub low_address : Address 0x100000
low_address = record { canonical = refl; bounded = omega arith }

bare-top : (va b n : ℕ) → Visits bare.word va (top 0x1000 va) 3 b n → (b ≡ top 0x1000 va) × (n ≡ 3)
bare-top va b n v = Visits-stop bare.word va (top 0x1000 va) 3 b n refl v

same_root :
    (va va1 : ℕ)
    → Address va
    → Address va1
    → top 0x1000 va ≡ top 0x1000 va1
    → above va 3 ≡ above va1 3
same_root va va1 ok ok1 e = ground (arith, ok.canonical, ok.bounded, ok1.canonical, ok1.bounded)

pub bare-PageTables : PageTables 0x50000 0x1000 bare
unfolding is_free allocatable_physical_address reserved_physical_address
bare-PageTables = record {
  taken = λ va b n ok v.
      let (e, h) = bare-top va b n v in
      let one : 4096 ≡ page_of b = omega (arith, e) in
      subst (λ p. is_free 0x50000 bare p ≡ false) one refl;
  unshared = λ va va1 b n n1 ok ok1 v v1.
      let (e, h) = bare-top va b n v in
      let (e1, h1) = bare-top va1 b n1 v1 in
      (
        h ∙ sym h1,
        ap (above va) h ∙ same_root va va1 ok ok1 (sym e ∙ e1) ∙ ap (above va1) (sym h1),
      );
}

abbrev pub root_entry : VmIter
root_entry = record { pt = 0x1000; pep = some 512; level = 3; perm = 0xFFF; va = 0x100000 }

pub root_run : vmiter bare.word 0x1000 0x100000 ≡ some root_entry
unfolding vmiter real_find down down_loop
root_run = refl
