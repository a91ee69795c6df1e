-- ===== src/Weensyos/Kernel/Fork/Ends.antt =====
-- The loop of syscall_fork of weensyos/kernel.cc never waits for pfree.
use c_proj.Base.{
  ℕ, zero, suc, ◌/◌, ◌≡◌, ◌⊎◌, inl, inr, refl, sym, subst, Bool, true, false, not, ◌&&◌, Option,
  none, some, ◌==◌, Bool-cases, Option-cases,
}
use c_proj.Weensyos.Layout.{page_size, memsize_virtual}
use c_proj.Weensyos.Alloc.{Frames, kalloc, kfree}
use c_proj.Weensyos.PageTable.{
  VmIter, vmiter, advance, user, writable, pa, perm, address_or, Mapped, returned, assertion_failed,
  panicked, out_of_fuel, undefined_behaviour,
}
use c_proj.Weensyos.Kernel.Free.{console_addr, Freed, freed, pfree}
use c_proj.Weensyos.Kernel.Free.Ends.{FaultsOrShrinks, pfree_ends}
use c_proj.Weensyos.Kernel.Fork.{
  Copied, copied, gives_up, fork_fault, fork_no_fuel, given_up, given_up_page, share, shared,
  map_child, copy_page, copy_mapped, copy_to_child, share_mapped, share_with_child, fork_page,
  fork_pages, fork_memory,
}

-- The part has ended within the fuel.
abbrev pub ends : Copied → Bool
ends fork_no_fuel = false
ends _ = true

abbrev pub Ends : Copied → Type 0
Ends r = ends r ≡ true

given_up-Ends : (k : Frames) (r : Freed) → FaultsOrShrinks k r → Ends (given_up r)
given_up-Ends k r (inl e) = subst (λ x. Ends (given_up x)) (sym e) refl
given_up-Ends k r (inr (k1, e, s)) = subst (λ x. Ends (given_up x)) (sym e) refl

given_page : (page : ℕ) (k : Frames) → Ends (given_up_page page (freed k))
given_page page k = elim (Option-cases (kfree page k)) [
  | inl fails ↦ rw (fails, given_up_page) refl
  | inr (k1, e) ↦ rw (e, given_up_page) refl
]

given_up_page-Ends :
    (page : ℕ) (k : Frames) (r : Freed) → FaultsOrShrinks k r → Ends (given_up_page page r)
given_up_page-Ends page k r (inl e) = subst (λ x. Ends (given_up_page page x)) (sym e) refl
given_up_page-Ends page k r (inr (k1, e, s)) =
    subst (λ x. Ends (given_up_page page x)) (sym e) (given_page page k1)

shared-Ends : (o : Option Frames) → Ends (shared o)
shared-Ends none = refl
shared-Ends (some k) = refl

pub Copied-cases :
    (r : Copied)
    → ((k : Frames) × (r ≡ copied k))
      ⊎ (((k : Frames) × (r ≡ gives_up k)) ⊎ ((r ≡ fork_fault) ⊎ (r ≡ fork_no_fuel)))
Copied-cases (copied k) = inl (k, refl)
Copied-cases (gives_up k) = inr (inl (k, refl))
Copied-cases fork_fault = inr (inr (inl refl))
Copied-cases fork_no_fuel = inr (inr (inr refl))

module _ (kernel_end : ℕ) where
  copy_mapped-Ends :
      (child_pt page : ℕ) (m : Mapped) → Ends (copy_mapped kernel_end child_pt page m)
  copy_mapped-Ends child_pt page (returned true k it) = refl
  copy_mapped-Ends child_pt page (returned false k it) =
      given_up_page-Ends page k (pfree child_pt k) (pfree_ends child_pt k)
  copy_mapped-Ends child_pt page assertion_failed = refl
  copy_mapped-Ends child_pt page panicked = refl
  copy_mapped-Ends child_pt page undefined_behaviour = refl
  copy_mapped-Ends child_pt page out_of_fuel = refl

  share_mapped-Ends :
      (child_pt : ℕ) (it : VmIter) (m : Mapped) → Ends (share_mapped kernel_end child_pt it m)
  share_mapped-Ends child_pt it (returned true k it1) =
      elim (Bool-cases (user k.word it && not (writable k.word it))) [
        | inl read_only ↦ rw read_only (shared-Ends (share (address_or (pa k.word it)) k))
        | inr other ↦ rw other refl
      ]
  share_mapped-Ends child_pt it (returned false k it1) =
      given_up-Ends k (pfree child_pt k) (pfree_ends child_pt k)
  share_mapped-Ends child_pt it assertion_failed = refl
  share_mapped-Ends child_pt it panicked = refl
  share_mapped-Ends child_pt it undefined_behaviour = refl
  share_mapped-Ends child_pt it out_of_fuel = refl

  fork_page-Ends :
      (child_pt : ℕ) (it : VmIter) (k : Frames) → Ends (fork_page kernel_end child_pt it k)
  unfolding fork_page copy_to_child share_with_child
  fork_page-Ends child_pt it k =
      elim (Bool-cases (user k.word it && not (it.va == console_addr) && writable k.word it)) [
        | inr other ↦
            rw (other, fork_page)
              (share_mapped-Ends child_pt it
                (map_child kernel_end child_pt it.va (pa k.word it) (perm k.word it) k))
        | inl own ↦
            let r = kalloc kernel_end page_size k in
            let k1 = copy_page r.0 (address_or (pa r.1.word it)) r.1 in
            elim (Bool-cases (r.0 == 0)) [
              | inl full ↦
                  rw (own, full, fork_page, copy_to_child)
                    (given_up-Ends r.1 (pfree child_pt r.1) (pfree_ends child_pt r.1))
              | inr room ↦
                  rw (own, room, fork_page, copy_to_child)
                    (copy_mapped-Ends child_pt r.0
                      (map_child kernel_end child_pt it.va (some r.0) (perm k1.word it) k1))
            ]
      ]

  fork_pages-Ends :
      (left child_pt : ℕ) (it : VmIter) (k : Frames)
      → Ends (fork_pages kernel_end left child_pt it k)
  unfolding fork_pages
  fork_pages-Ends zero child_pt it k = refl
  fork_pages-Ends (suc left) child_pt it k =
      let page = fork_page-Ends child_pt it k in
      elim (Copied-cases (fork_page kernel_end child_pt it k)) [
        | inl (k1, e) ↦ elim (Option-cases (advance k1.word page_size it)) [
          | inl panics ↦ rw (e, panics, fork_pages) refl
          | inr (it1, f) ↦ rw (e, f, fork_pages) (fork_pages-Ends left child_pt it1 k1)
        ]
        | inr (inl (k1, e)) ↦ rw (e, fork_pages) refl
        | inr (inr (inl e)) ↦ rw (e, fork_pages) refl
        | inr (inr (inr e)) ↦ absurd (cc (rw e at page))
      ]

  pub fork_memory-Ends :
      (parent_pt child_pt : ℕ) (k : Frames) → Ends (fork_memory kernel_end parent_pt child_pt k)
  unfolding fork_memory
  fork_memory-Ends parent_pt child_pt k = elim (Option-cases (vmiter k.word parent_pt 0)) [
    | inl panics ↦ rw (panics, fork_memory) refl
    | inr (it, e) ↦
        rw (e, fork_memory) (fork_pages-Ends (memsize_virtual / page_size) child_pt it k)
  ]
