-- ===== src/Weensyos/PageTable/Walk.antt =====
-- real_find of weensyos/k-vmiter.cc: the step inside a table is the walk from the root.
use Prim.Native.Nat.{bit_and}
use mathlib.Core.Option.{some-injective}
use c_proj.Base.{
  ℕ, zero, suc, ◌+◌, ◌-◌, ◌*◌, ◌/◌, ◌%◌, ◌≤◌, ◌<◌, ◌≡◌, ◌⊎◌, refl, sym, ap, ap₂, ◌∙◌, true, Option,
  none, some, Memory, arith, ltb, leb, ◌==◌, Bool-cases, inl, inr, if◌then◌else◌, ◌&&◌, subst,
}
use c_proj.Weensyos.PageTable.{
  above, pageindex, va_is_canonical, pte_pa, links, VmIter, entry_at, entry_word, initial_perm,
  down_loop, down, root, same_table, leaves_table, real_find, vmiter, perm, next, end_of, page_span,
  skip_level,
}

-- Addresses that agree above a level agree above each level over it.
above-add : (d l k va va0 : ℕ) → k ≡ d + l → above va l ≡ above va0 l → above va k ≡ above va0 k
above-add zero l k va va0 at e = subst (λ n. above va n ≡ above va0 n) (omega arith) e
above-add (suc d) l zero va va0 at e = absurd (omega arith)
above-add (suc d) l (suc k) va va0 at e = ap (λ x. x / 512) (above-add d l k va va0 (omega arith) e)

pub above_mono : (l k va va0 : ℕ) → l ≤ k → above va l ≡ above va0 l → above va k ≡ above va0 k
above_mono l k va va0 h e = above-add (k - l) l k va va0 (omega arith) e

pub down_loop-va :
    (level : ℕ) (word : Memory) (pt perm va : ℕ) (pep : Option ℕ)
    → (down_loop word pt pep level perm va).va ≡ va
unfolding down_loop
down_loop-va zero word pt perm va pep = refl
down_loop-va (suc level) word pt perm va pep = elim (Bool-cases (links (entry_at word pep))) [
  | inl linked ↦
      rw (linked, down_loop)
        (down_loop-va level word pt (bit_and perm (entry_at word pep)) va
          (entry_word (pte_pa (entry_at word pep)) (pageindex va level)))
  | inr last ↦ rw (last, down_loop) refl
]

down_loop-level-le :
    (level : ℕ) (word : Memory) (pt perm va : ℕ) (pep : Option ℕ)
    → (down_loop word pt pep level perm va).level ≤ level
unfolding down_loop
down_loop-level-le zero word pt perm va pep = omega arith
down_loop-level-le (suc level) word pt perm va pep = elim (Bool-cases (links (entry_at word pep))) [
  | inl linked ↦
      rw (linked, down_loop)
        (omega (
          arith,
          down_loop-level-le level word pt (bit_and perm (entry_at word pep)) va
              (entry_word (pte_pa (entry_at word pep)) (pageindex va level)),
        ))
  | inr last ↦ rw (last, down_loop) (omega arith)
]

-- A walk that ends on its first level has not moved.
down_loop-stays :
    (level : ℕ) (word : Memory) (pt perm va : ℕ) (pep : Option ℕ)
    → (down_loop word pt pep level perm va).level ≡ level
    → down_loop word pt pep level perm va
      ≡ record { pt = pt; pep = pep; level = level; perm = perm; va = va }
unfolding down_loop
down_loop-stays zero word pt perm va pep e = refl
down_loop-stays (suc level) word pt perm va pep e = elim (Bool-cases (links (entry_at word pep))) [
  | inl linked ↦
      let low =
        down_loop-level-le level word pt (bit_and perm (entry_at word pep)) va
          (entry_word (pte_pa (entry_at word pep)) (pageindex va level)) in
      let same = rw (linked, down_loop) at e in absurd (omega (arith, low, same))
  | inr last ↦ rw (last, down_loop) refl
]

same_index :
    (e i j : ℕ) → i < 512 → pte_pa e / 8 + i - (pte_pa e / 8 + i) % 512 + j ≡ pte_pa e / 8 + j
same_index e i j h = omega arith

-- A walk that has gone down shares its way with every address that agrees with its own above the
-- table in which it ends.
down_loop-shared :
    (level : ℕ) (word : Memory) (pt perm va va0 : ℕ) (pep : Option ℕ) (it : VmIter)
    → down_loop word pt pep level perm va0 ≡ it
    → it.level < level
    → above va (suc it.level) ≡ above va0 (suc it.level)
    → down_loop word pt pep level perm va ≡ down_loop word pt (same_table it va) it.level it.perm va
unfolding down_loop
down_loop-shared zero word pt perm va va0 pep it at h e = absurd (omega arith)
down_loop-shared (suc level) word pt perm va va0 pep it at h e =
    elim (Bool-cases (links (entry_at word pep))) [
      | inl linked ↦
          let perm1 = bit_and perm (entry_at word pep) in
          let pep1 = entry_word (pte_pa (entry_at word pep)) (pageindex va0 level) in
          let rest : down_loop word pt pep1 level perm1 va0 ≡ it = rw (linked, down_loop) at at in
          rw (linked, down_loop)
            (elim (Bool-cases (it.level == level)) [
              | inl here ↦
                  let level_here : it.level ≡ level = ground arith in
                  let stays =
                    down_loop-stays level word pt perm1 va0 pep1
                      (ap (λ x. x.level) rest ∙ level_here) in
                  subst
                    (λ x.
                      down_loop word pt
                        (entry_word (pte_pa (entry_at word pep)) (pageindex va level)) level perm1
                        va
                      ≡ down_loop word pt (same_table x va) x.level x.perm va)
                    (sym stays ∙ rest)
                    (ap (λ a. down_loop word pt (some a) level perm1 va)
                      (sym (
                        same_index (entry_at word pep) (pageindex va0 level) (pageindex va level)
                          (omega arith))))
              | inr deeper ↦
                  let same = above_mono (suc it.level) level va va0 (ground arith) e in
                  subst
                    (λ i.
                      down_loop word pt (entry_word (pte_pa (entry_at word pep)) i) level perm1 va
                      ≡ down_loop word pt (same_table it va) it.level it.perm va)
                    (ap (λ x. x % 512) (sym same))
                    (down_loop-shared level word pt perm1 va va0 pep1 it rest (ground arith) e)
            ])
      | inr last ↦
          let stop = rw (last, down_loop) at at in absurd (omega (arith, ap (λ x. x.level) stop))
    ]

-- An iterator as the walk from the root leaves it.
pub record Standing (word : Memory) (it : VmIter) : Type 0 where
  pub walked : down_loop word it.pt (root it.pt it.va).pep 3 (root it.pt it.va).perm it.va ≡ it

-- The walk from the root, whatever the iterator.
abbrev pub fresh : Memory → (pt va : ℕ) → Option VmIter
fresh word pt va = down word (root pt va)

canonical-same : (va va0 : ℕ) → above va 3 ≡ above va0 3 → va_is_canonical va ≡ va_is_canonical va0
canonical-same va va0 e = ground arith

root-pep : (pt va va0 : ℕ) → above va 3 ≡ above va0 3 → (root pt va).pep ≡ (root pt va0).pep
root-pep pt va va0 e = rw (canonical-same va va0 e, e) (ground arith)

root-perm : (pt va va0 : ℕ) → above va 3 ≡ above va0 3 → (root pt va).perm ≡ (root pt va0).perm
root-perm pt va va0 e = rw (canonical-same va va0 e) (ground arith)

root-fields :
    (pt va : ℕ)
    → root pt va
      ≡ record { pt = pt; pep = (root pt va).pep; level = 3; perm = (root pt va).perm; va = va }
root-fields pt va = elim (Bool-cases (va_is_canonical va)) [
  | inl canonical ↦ rw canonical refl
  | inr hole ↦ rw hole refl
]

abbrev walk : Memory → VmIter → VmIter
walk word r = down_loop word r.pt r.pep r.level r.perm r.va

-- The end of down, with its panic.
abbrev pub checked : Memory → VmIter → Option VmIter
checked word it = if leb 0x100000000 (pte_pa (entry_at word it.pep)) then none else some it

pub Standing-level-le : (word : Memory) (it : VmIter) → Standing word it → it.level ≤ 3
Standing-level-le word it stands =
    subst (λ x. x.level ≤ 3) stands.walked
      (down_loop-level-le 3 word it.pt (root it.pt it.va).perm it.va (root it.pt it.va).pep)

pub real_find-eq-fresh :
    (word : Memory) (va : ℕ) (it : VmIter)
    → Standing word it
    → real_find word va it ≡ fresh word it.pt va
unfolding real_find down
real_find-eq-fresh word va it stands = elim (Bool-cases (leaves_table it va)) [
  | inl away ↦ rw away refl
  | inr inside ↦
      let low = Standing-level-le word it stands in
      let below : it.level < 3 = ground arith in
      let e : above va (suc it.level) ≡ above it.va (suc it.level) = ground arith in
      let top = above_mono (suc it.level) 3 va it.va (ground arith) e in
      let shared =
        down_loop-shared 3 word it.pt (root it.pt it.va).perm va it.va (root it.pt it.va).pep it
          stands.walked below e in
      rw inside (
        ap (checked word) (
          sym shared
          ∙ ap₂ (λ p q. down_loop word it.pt p 3 q va) (sym (root-pep it.pt va it.va top))
              (sym (root-perm it.pt va it.va top))
          ∙ sym (ap (walk word) (root-fields it.pt va))))
]

down_loop-pt :
    (level : ℕ) (word : Memory) (pt perm va : ℕ) (pep : Option ℕ)
    → (down_loop word pt pep level perm va).pt ≡ pt
unfolding down_loop
down_loop-pt zero word pt perm va pep = refl
down_loop-pt (suc level) word pt perm va pep = elim (Bool-cases (links (entry_at word pep))) [
  | inl linked ↦
      rw (linked, down_loop)
        (down_loop-pt level word pt (bit_and perm (entry_at word pep)) va
          (entry_word (pte_pa (entry_at word pep)) (pageindex va level)))
  | inr last ↦ rw (last, down_loop) refl
]

abbrev from_root : Memory → (pt va : ℕ) → VmIter
from_root word pt va = down_loop word pt (root pt va).pep 3 (root pt va).perm va

walk-root : (word : Memory) (pt va : ℕ) → walk word (root pt va) ≡ from_root word pt va
walk-root word pt va = ap (walk word) (root-fields pt va)

-- What a walk from the root leaves, and what is said of it.
abbrev pub StandsAt : Memory → (pt va : ℕ) → VmIter → Type 0
StandsAt word pt va it = Standing word it × (it.va ≡ va) × (it.pt ≡ pt)

from_root-StandsAt : (word : Memory) (pt va : ℕ) → StandsAt word pt va (from_root word pt va)
from_root-StandsAt word pt va =
    let e = down_loop-va 3 word pt (root pt va).perm va (root pt va).pep in
    let f = down_loop-pt 3 word pt (root pt va).perm va (root pt va).pep in
    (record { walked = ap₂ (λ p v. from_root word p v) f e }, e, f)

pub fresh-StandsAt :
    (word : Memory) (pt va : ℕ) (it : VmIter) → fresh word pt va ≡ some it → StandsAt word pt va it
unfolding down
fresh-StandsAt word pt va it e =
    elim (Bool-cases (leb 0x100000000 (pte_pa (entry_at word (walk word (root pt va)).pep)))) [
      | inl high ↦ let none_some : none ≡ some it = rw high at e in cc
      | inr low ↦
          let here : walk word (root pt va) ≡ it = some-injective _ _ (rw low at e) in
          subst (StandsAt word pt va) (sym (walk-root word pt va) ∙ here)
            (from_root-StandsAt word pt va)
    ]

abbrev pub at_va : ℕ → VmIter → VmIter
at_va v it = record it { va = v }

-- Addresses that agree with the iterator's above its level have its entry.
pub down_loop-region :
    (level : ℕ) (word : Memory) (pt perm va va0 : ℕ) (pep : Option ℕ) (it : VmIter)
    → down_loop word pt pep level perm va0 ≡ it
    → above va it.level ≡ above va0 it.level
    → down_loop word pt pep level perm va ≡ at_va va it
unfolding down_loop
down_loop-region zero word pt perm va va0 pep it at e = ap (at_va va) at
down_loop-region (suc level) word pt perm va va0 pep it at e =
    elim (Bool-cases (links (entry_at word pep))) [
      | inl linked ↦
          let perm1 = bit_and perm (entry_at word pep) in
          let pep1 = entry_word (pte_pa (entry_at word pep)) (pageindex va0 level) in
          let rest : down_loop word pt pep1 level perm1 va0 ≡ it = rw (linked, down_loop) at at in
          let low =
            subst (λ x. x.level ≤ level) rest (down_loop-level-le level word pt perm1 va0 pep1) in
          let same = above_mono it.level level va va0 low e in
          rw (linked, down_loop)
            (subst
              (λ i.
                down_loop word pt (entry_word (pte_pa (entry_at word pep)) i) level perm1 va
                ≡ at_va va it)
              (ap (λ x. x % 512) (sym same))
              (down_loop-region level word pt perm1 va va0 pep1 it rest e))
      | inr last ↦ rw (last, down_loop) (ap (at_va va) (rw (last, down_loop) at at))
    ]

vmiter-eq-checked :
    (word : Memory) (pt va : ℕ) → vmiter word pt va ≡ checked word (from_root word pt va)
unfolding vmiter real_find down
vmiter-eq-checked word pt va = ap (checked word) (walk-root word pt va)

pub checked-some : (word : Memory) (x it : VmIter) → checked word x ≡ some it → x ≡ it
checked-some word x it e = elim (Bool-cases (leb 0x100000000 (pte_pa (entry_at word x.pep)))) [
  | inl high ↦ let none_some : none ≡ some it = rw high at e in cc
  | inr low ↦ some-injective _ _ (rw low at e)
]

checked-at_va :
    (word : Memory) (v : ℕ) (it : VmIter)
    → checked word it ≡ some it
    → checked word (at_va v it) ≡ some (at_va v it)
checked-at_va word v it e = elim (Bool-cases (leb 0x100000000 (pte_pa (entry_at word it.pep)))) [
  | inl high ↦ let none_some : none ≡ some it = rw high at e in cc
  | inr low ↦ rw low refl
]

pub vmiter-canonical :
    (word : Memory) (pt va : ℕ)
    → va_is_canonical va ≡ true
    → vmiter word pt va
      ≡ checked word (down_loop word pt (entry_word pt (pageindex va 3)) 3 initial_perm va)
vmiter-canonical word pt va canonical = vmiter-eq-checked word pt va ∙ rw canonical refl

-- An iterator that stands at an address: every address that agrees with it above the iterator's level
-- has the same entry, permissions and level.
pub vmiter-region :
    (word : Memory) (pt va0 va : ℕ) (it : VmIter)
    → vmiter word pt va0 ≡ some it
    → above va it.level ≡ above va0 it.level
    → vmiter word pt va ≡ some (at_va va it)
vmiter-region word pt va0 va it e same =
    let here : from_root word pt va0 ≡ it =
      checked-some word (from_root word pt va0) it (sym (vmiter-eq-checked word pt va0) ∙ e) in
    let low =
      subst (λ x. x.level ≤ 3) here
        (down_loop-level-le 3 word pt (root pt va0).perm va0 (root pt va0).pep) in
    let top = above_mono it.level 3 va va0 low same in
    let moved : from_root word pt va ≡ at_va va it =
      ap₂ (λ p q. down_loop word pt p 3 q va) (root-pep pt va va0 top) (root-perm pt va va0 top)
      ∙ down_loop-region 3 word pt (root pt va0).perm va va0 (root pt va0).pep it here same in
    let kept : checked word it ≡ some it =
      ap (checked word) (sym here) ∙ sym (vmiter-eq-checked word pt va0) ∙ e in
    vmiter-eq-checked word pt va ∙ ap (checked word) moved ∙ checked-at_va word va it kept

vmiter-eq-fresh : (word : Memory) (pt va : ℕ) → vmiter word pt va ≡ fresh word pt va
unfolding vmiter real_find
vmiter-eq-fresh word pt va = refl

-- From an iterator that stands at an address, find() gives what a new iterator for the address would be.
pub real_find-eq-vmiter :
    (word : Memory) (pt va0 va : ℕ) (it : VmIter)
    → vmiter word pt va0 ≡ some it
    → real_find word va it ≡ vmiter word pt va
real_find-eq-vmiter word pt va0 va it e =
    let (stands, _, at) = fresh-StandsAt word pt va0 it (sym (vmiter-eq-fresh word pt va0) ∙ e) in
    real_find-eq-fresh word va it stands
    ∙ ap (λ p. fresh word p va) at
    ∙ sym (vmiter-eq-fresh word pt va)

-- Addresses from `va0` to the end of its region of a level.
in_region :
    (level va va0 : ℕ)
    → level ≤ 3
    → va0 ≤ va
    → va < (va0 / page_span level + 1) * page_span level
    → above va level ≡ above va0 level
in_region zero va va0 low h k = omega arith
in_region (suc zero) va va0 low h k = omega arith
in_region (suc (suc zero)) va va0 low h k = omega arith
in_region (suc (suc (suc zero))) va va0 low h k = omega arith
in_region (suc (suc (suc (suc n)))) va va0 low h k = absurd (omega arith)

skip-le : (word : Memory) (it : VmIter) → (skip_level word it ≡ 0) ⊎ (skip_level word it ≡ it.level)
skip-le word it = elim (Bool-cases (ltb 0 it.level && perm word it == 0)) [
  | inl skips ↦ inr (rw skips refl)
  | inr steps ↦ inl (rw steps refl)
]

-- next() goes to the end of the region it leaves, and every address it passes over has the entry, the
-- permissions and the level of the iterator: nothing is skipped that differs from what it stood at.
pub next_skips_alike :
    (word : Memory) (pt va0 va : ℕ) (it : VmIter)
    → vmiter word pt va0 ≡ some it
    → va0 ≤ va
    → va < (va0 / page_span (skip_level word it) + 1) * page_span (skip_level word it)
    → (vmiter word pt va ≡ some (at_va va it))
      × (next word it ≡ vmiter word pt (end_of va0 (skip_level word it)))
unfolding next
next_skips_alike word pt va0 va it e h k =
    let (stands, here, at) =
      fresh-StandsAt word pt va0 it (sym (vmiter-eq-fresh word pt va0) ∙ e) in
    let low = Standing-level-le word it stands in
    let skip = skip_level word it in
    let below : skip ≤ it.level = elim (skip-le word it) [
      | inl z ↦ omega (arith, z)
      | inr l ↦ omega (arith, l)
    ] in
    let alike = above_mono skip it.level va va0 below (in_region skip va va0 (omega arith) h k) in
    (
      vmiter-region word pt va0 va it e alike,
      ap (λ v. real_find word (end_of v skip) it) here
          ∙ real_find-eq-vmiter word pt va0 (end_of va0 skip) it e,
    )
