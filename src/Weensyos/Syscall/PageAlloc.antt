-- ===== src/Weensyos/Syscall/PageAlloc.antt =====
-- What syscall_page_alloc of weensyos/kernel.cc does to the address space of the process.
use Prim.Native.Nat.{bit_and, bit_or}
use c_proj.Base.{
  ℕ, ◌-◌, ◌/◌, ◌%◌, ◌<◌, ◌≡◌, ◌≢◌, ◌⊎◌, ◌≤◌, refl, sym, ap, ◌∙◌, Bool, true, false, none, some,
  arith, ltb, leb, ◌==◌, Bool-cases, inl, inr, subst, if◌then◌else◌,
}
use c_proj.Weensyos.Layout.{page_size}
use c_proj.Weensyos.Alloc.{Frames, kalloc, kfree, claim, is_free, set_refcount}
use c_proj.Weensyos.Alloc.Laws.{kalloc-Success, kalloc-Outside, kalloc_null}
use c_proj.Weensyos.PageTable.{
  above, pte_p, pte_pa, VmIter, entry, entry_at, initial_perm, vmiter, Mapped, try_map, map_asserts,
}
use c_proj.Weensyos.PageTable.Walk.{checked, vmiter-canonical, down_loop-va}
use c_proj.Weensyos.PageTable.Visits.{
  Visits, Visits-same, down_loop-same, down_loop-Visits, down_loop-some,
}
use c_proj.Weensyos.PageTable.Tree.{top, walk_of, Address, PageTables, page_of, Alike}
use c_proj.Weensyos.PageTable.Map.{Maps, try_map_lem, Alike-refl, Alike-trans, walk-canonical}
use c_proj.Weensyos.Syscall.{
  PageAllocated, result, invalid_addr, zero_page, page_mapped, map_page, syscall_page_alloc, freed,
}

kfree-word :
    (pa : ℕ) (k : Frames)
    → pa < 0x200000
    → (k1 : Frames) × (kfree pa k ≡ some k1) × (k1.word ≡ k.word)
unfolding kfree
kfree-word pa k small = elim (Bool-cases (pa == 0)) [
  | inl null ↦ (k, rw null refl, refl)
  | inr got ↦ elim (Bool-cases (ltb 0 (k.refcount (pa / page_size)))) [
    | inl counted ↦ (
      record k { refcount = set_refcount k (pa / page_size) (k.refcount (pa / page_size) - 1) },
      ground arith,
      refl,
    )
    | inr idle ↦ (k, ground arith, refl)
  ]
]

-- A page that kalloc has handed out and that is filled with zeros changes no walk.
module _ (kernel_end pt : ℕ) (k : Frames) (tables : PageTables kernel_end pt k) (pa : ℕ)
    (free : is_free kernel_end k pa ≡ true) (aligned : pa % page_size ≡ 0) where
  abbrev fresh_page : Frames
  fresh_page = zero_page (claim k pa) pa

  fresh-kept :
      (va b n : ℕ) → Address va → Visits k.word va (top pt va) 3 b n → fresh_page.word b ≡ k.word b
  fresh-kept va b n ok v =
      let taken = tables.taken va b n ok v in
      let off : b / 512 ≢ pa / 4096 = λ e.
        let same : page_of b ≡ pa = omega arith in
        let z : true ≡ false = sym free ∙ ap (is_free kernel_end k) (sym same) ∙ taken in cc in
      ground arith

  still_taken : (p : ℕ) → is_free kernel_end k p ≡ false → is_free kernel_end fresh_page p ≡ false
  unfolding is_free
  still_taken p h = ground arith

  fresh-walk : (va : ℕ) → Address va → walk_of fresh_page.word pt va ≡ walk_of k.word pt va
  fresh-walk va ok =
      down_loop-same 3 k.word fresh_page.word pt initial_perm va (top pt va)
        (λ b l v _. fresh-kept va b l ok v)

  fresh-entry :
      (va : ℕ)
      → Address va
      → entry fresh_page.word (walk_of k.word pt va) ≡ entry k.word (walk_of k.word pt va)
  fresh-entry va ok =
      let (b, e) = down_loop-some 3 k.word pt initial_perm va (top pt va) in
      let read =
        down_loop-Visits 3 k.word pt initial_perm va (top pt va) b (walk_of k.word pt va) refl e in
      ap (entry_at fresh_page.word) e
      ∙ fresh-kept va b (walk_of k.word pt va).level ok read
      ∙ sym (ap (entry_at k.word) e)

  fresh-PageTables : PageTables kernel_end pt fresh_page
  fresh-PageTables =
      let back = λ (va b n : ℕ) (ok : Address va) (v : Visits fresh_page.word va (top pt va) 3 b n).
        Visits-same 3 k.word fresh_page.word va (top pt va) b n (λ a l w _. fresh-kept va a l ok w)
          v in
      record {
        taken = λ va b n ok v. still_taken (page_of b) (tables.taken va b n ok (back va b n ok v));
        unshared = λ va va1 b n n1 ok ok1 v v1.
            tables.unshared va va1 b n n1 ok ok1 (back va b n ok v) (back va1 b n1 ok1 v1);
      }

  fresh-vmiter :
      (va : ℕ) (it : VmIter)
      → Address va
      → vmiter k.word pt va ≡ some it
      → vmiter fresh_page.word pt va ≡ some it
  fresh-vmiter va it ok e =
      vmiter-canonical fresh_page.word pt va ok.canonical
      ∙ ap (checked fresh_page.word) (fresh-walk va ok)
      ∙ ap (λ n. if leb 0x100000000 (pte_pa n) then none else some (walk_of k.word pt va))
          (fresh-entry va ok)
      ∙ sym (vmiter-canonical k.word pt va ok.canonical)
      ∙ e

-- What a call comes to, seen from the address space of the process with the page table `pt`.
pub record Allocation (kernel_end pt addr : ℕ) (k k1 : Frames) (ok : Bool) : Type 0 where
  -- No address on another page finds anything but what it found before.
  pub others :
      (va : ℕ)
      → Address va
      → above va 0 ≢ above addr 0
      → Alike k.word k1.word (walk_of k.word pt va) (walk_of k1.word pt va)
  -- After a failure no address does.
  pub unchanged :
      ok ≡ false
      → (va : ℕ) → Address va
      → Alike k.word k1.word (walk_of k.word pt va) (walk_of k1.word pt va)
  -- After a success the page is a page that was free, present, writable and open to the process.
  pub mapped :
      ok ≡ true
      → (pa : ℕ) × (is_free kernel_end k pa ≡ true)
        × ((va : ℕ)
            → Address va
            → above va 0 ≡ above addr 0
            → ((walk_of k1.word pt va).level ≡ 0)
              × (entry k1.word (walk_of k1.word pt va) ≡ bit_or pa 7))
  -- The page tables are in order again.
  pub in_order : ok ≡ true → PageTables kernel_end pt k1

abbrev pub Allocates : (kernel_end pt addr : ℕ) → Frames → PageAllocated → Type 0
Allocates kernel_end pt addr k r =
    (ok : Bool) × (k1 : Frames) × (r ≡ result ok k1) × Allocation kernel_end pt addr k k1 ok

nothing_done : (kernel_end pt addr : ℕ) (k : Frames) → Allocation kernel_end pt addr k k false
nothing_done kernel_end pt addr k = record {
  others = λ va ok ne. Alike-refl k.word (walk_of k.word pt va);
  unchanged = λ h va ok. Alike-refl k.word (walk_of k.word pt va);
  mapped = λ h. let z : false ≡ true = h in cc;
  in_order = λ h. let z : false ≡ true = h in cc;
}

module _ (kernel_end pt addr : ℕ) (k : Frames) (tables : PageTables kernel_end pt k)
    (address : Address addr) (pa : ℕ) (free : is_free kernel_end k pa ≡ true)
    (aligned : pa % page_size ≡ 0) (small : pa < 0x200000) where
  abbrev fresh : Frames
  fresh = fresh_page kernel_end pt k tables pa free aligned

  -- The walks before the call and after try_map.
  across :
      (k1 : Frames) (va : ℕ)
      → Address va
      → Alike fresh.word k1.word (walk_of fresh.word pt va) (walk_of k1.word pt va)
      → Alike k.word k1.word (walk_of k.word pt va) (walk_of k1.word pt va)
  across k1 va ok alike =
      let same = fresh-walk kernel_end pt k tables pa free aligned va ok in
      Alike-trans k.word fresh.word k1.word (walk_of k.word pt va) (walk_of fresh.word pt va)
        (walk_of k1.word pt va)
        (inl (
          same,
          ap (entry fresh.word) same ∙ fresh-entry kernel_end pt k tables pa free aligned va ok,
        ))
        alike

  mapped-Allocates :
      (r : Mapped)
      → Maps kernel_end pt addr pa 7 address fresh r
      → Allocates kernel_end pt addr k (page_mapped pa r)
  unfolding page_mapped
  mapped-Allocates r (true, k1, it1, e, done) = (
    true,
    k1,
    ap (page_mapped pa) e,
    record {
      others = λ va ok ne. across k1 va ok (done.others va ok ne);
      unchanged = λ h. let z : true ≡ false = h in cc;
      mapped = λ h. (pa, free, done.mapped refl);
      in_order = λ h. done.tables;
    },
  )
  mapped-Allocates r (false, k1, it1, e, done) =
      let (k2, back, same) = kfree-word pa k1 small in
      let alike = λ (va : ℕ) (ok : Address va).
        subst (λ w. Alike k.word w (walk_of k.word pt va) (walk_of w pt va)) (sym same)
          (across k1 va ok (done.failed refl va ok)) in
      (
        false,
        k2,
        ap (page_mapped pa) e ∙ ap freed back,
        record {
          others = λ va ok ne. alike va ok;
          unchanged = λ h. alike;
          mapped = λ h. let z : false ≡ true = h in cc;
          in_order = λ h. let z : false ≡ true = h in cc;
        },
      )

-- The call of try_map.
map_page_lem :
    (kernel_end pt addr : ℕ) (k : Frames) (it : VmIter) (pa : ℕ)
    → PageTables kernel_end pt k
    → Address addr
    → is_free kernel_end k pa ≡ true
    → pa % page_size ≡ 0
    → pa < 0x200000
    → addr % page_size ≡ 0
    → vmiter k.word pt addr ≡ some it
    → (bit_and (bit_and 7 it.perm) 7 == bit_and 7 7) ≡ true
    → (0 < it.level → pte_p (entry k.word it) ≡ false)
    → Allocates kernel_end pt addr k (map_page kernel_end pt addr pa (zero_page (claim k pa) pa))
unfolding map_page
map_page_lem kernel_end pt addr k it pa tables address free aligned small page e allowed absent =
    let stands = walk-canonical k.word pt addr it address.canonical e in
    let at : it.va ≡ addr =
      ap (λ x. x.va) (sym stands)
      ∙ down_loop-va 3 k.word pt initial_perm addr (some (top pt addr)) in
    let fresh = fresh_page kernel_end pt k tables pa free aligned in
    let same : entry fresh.word it ≡ entry k.word it =
      ap (entry fresh.word) (sym stands)
      ∙ fresh-entry kernel_end pt k tables pa free aligned addr address
      ∙ ap (entry k.word) stands in
    let there = fresh-vmiter kernel_end pt k tables pa free aligned addr it address e in
    let asserts : map_asserts (some pa) 7 it ≡ true =
      let page_start : (it.va % page_size == 0) ≡ true = ground arith in
      let own : (pte_pa pa == pa) ≡ true = ground arith in rw (page_start, own, allowed) refl in
    rw (map_page, there)
      (mapped-Allocates kernel_end pt addr k tables address pa free aligned small
        (try_map kernel_end (some pa) 7 fresh it)
        (try_map_lem kernel_end pt addr pa 7 fresh it address
          (fresh-PageTables kernel_end pt k tables pa free aligned) there asserts (omega arith)
          (λ pos. ap pte_p same ∙ absent pos)))

-- The addresses that are no start of a page from 0x100000 up to 0x300000.
abbrev pub OffLimits : ℕ → Type 0
OffLimits addr = (addr % 4096 ≢ 0) ⊎ ((addr < 0x100000) ⊎ (0x300000 ≤ addr))

OffLimits-invalid : (addr : ℕ) → OffLimits addr → invalid_addr addr ≡ true
OffLimits-invalid addr h = ground arith

-- syscall_page_alloc returns for every address. It returns -1 and changes nothing for an address that
-- is not the start of a page, or below 0x100000, or from 0x300000 on. It maps a page that was free, with the flags P, W and U, or fails; no
-- address on another page finds anything but what it found before, and after a failure none does. This
-- is for a page table in order whose tables on the way to the address are open to the process, with no
-- large page there.
pub syscall_page_alloc_lem :
    (kernel_end pt addr : ℕ) (k : Frames) (it : VmIter)
    → PageTables kernel_end pt k
    → vmiter k.word pt addr ≡ some it
    → (bit_and (bit_and 7 it.perm) 7 == bit_and 7 7) ≡ true
    → (0 < it.level → pte_p (entry k.word it) ≡ false)
    → Allocates kernel_end pt addr k (syscall_page_alloc kernel_end pt addr k)
      × (OffLimits addr → syscall_page_alloc kernel_end pt addr k ≡ result false k)
unfolding syscall_page_alloc map_page
syscall_page_alloc_lem kernel_end pt addr k it tables e allowed absent = (
  elim (Bool-cases (invalid_addr addr)) [
    | inl bad ↦ (false, k, rw (bad, syscall_page_alloc) refl, nothing_done kernel_end pt addr k)
    | inr good ↦
        let pa = (kalloc kernel_end page_size k).0 in
        elim (Bool-cases (pa == 0)) [
          | inl null ↦ (
            false,
            k,
            rw (good, syscall_page_alloc, null)
                (ap (result false) (kalloc_null kernel_end page_size k (ground arith))),
            nothing_done kernel_end pt addr k,
          )
          | inr got ↦
              let ne : pa ≢ 0 = ground arith in
              let s = kalloc-Success kernel_end page_size k ne in
              let address : Address addr = record {
                canonical = ground arith;
                bounded = ground arith;
              } in
              rw (good, syscall_page_alloc, got, s.claimed)
                (map_page_lem kernel_end pt addr k it pa tables address s.was_free s.aligned
                  (kalloc-Outside kernel_end page_size k ne).in_memory (ground arith) e allowed
                  absent)
        ]
  ],
  λ bad. rw (OffLimits-invalid addr bad, syscall_page_alloc) refl,
)
