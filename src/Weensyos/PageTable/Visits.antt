-- ===== src/Weensyos/PageTable/Visits.antt =====
-- The entries that the walk of weensyos/k-vmiter.cc reads, and what a write to memory leaves alone.
use Prim.Native.Nat.{bit_and}
use mathlib.Core.Option.{some-injective}
use c_proj.Base.{
  ℕ, zero, suc, ◌+◌, ◌/◌, ◌≤◌, ◌<◌, ◌≡◌, refl, sym, ap, ◌∙◌, true, false, some, Memory, arith,
  Bool-cases, inl, inr, subst,
}
use c_proj.Weensyos.PageTable.{pageindex, pte_pa, links, VmIter, down_loop}

-- The word of the entry to which entry `p` of the level above leads.
abbrev pub below : Memory → (p level va : ℕ) → ℕ
below word p level va = pte_pa (word p) / 8 + pageindex va level

-- A walk for `va` that begins at the entry `p` of a level reads the entry `a` of the level `l`.
pub data Visits (word : Memory) (va : ℕ) : (p level a l : ℕ) → Type 0 where
  here : {level p : ℕ} → Visits word va p level p level
  deeper :
      {p level a l : ℕ}
      → links (word p) ≡ true
      → Visits word va (below word p level va) level a l
      → Visits word va p (suc level) a l

pub Visits-le : (word : Memory) (va p level a l : ℕ) → Visits word va p level a l → l ≤ level
Visits-le word va p level _ _ here = omega arith
Visits-le word va p (suc level) a l (deeper h v) =
    omega (arith, Visits-le word va (below word p level va) level a l v)

pub here-at : (word : Memory) (va p a level l : ℕ) → p ≡ a → level ≡ l → Visits word va p level a l
here-at word va p a level l e h =
    subst (λ x. Visits word va p level x l) e (subst (λ n. Visits word va p level p n) h here)

-- One round of the walk.
pub down_loop-linked :
    (level : ℕ) (word : Memory) (pt perm va p : ℕ)
    → links (word p) ≡ true
    → down_loop word pt (some p) (suc level) perm va
      ≡ down_loop word pt (some (below word p level va)) level (bit_and perm (word p)) va
unfolding down_loop
down_loop-linked level word pt perm va p linked = rw (linked, down_loop) refl

pub down_loop-last :
    (level : ℕ) (word : Memory) (pt perm va p : ℕ)
    → links (word p) ≡ false
    → down_loop word pt (some p) level perm va
      ≡ record { pt = pt; pep = some p; level = level; perm = perm; va = va }
unfolding down_loop
down_loop-last zero word pt perm va p last = refl
down_loop-last (suc level) word pt perm va p last = rw (last, down_loop) refl

-- Two memories that agree on the entries above level 0 that a walk reads lead it the same way.
pub down_loop-same :
    (level : ℕ) (word word1 : Memory) (pt perm va p : ℕ)
    → ((a l : ℕ) → Visits word va p level a l → 0 < l → word1 a ≡ word a)
    → down_loop word1 pt (some p) level perm va ≡ down_loop word pt (some p) level perm va
unfolding down_loop
down_loop-same zero word word1 pt perm va p same = refl
down_loop-same (suc level) word word1 pt perm va p same =
    let first : word1 p ≡ word p = same p (suc level) here (omega arith) in
    elim (Bool-cases (links (word p))) [
      | inl linked ↦
          down_loop-linked level word1 pt perm va p (ap links first ∙ linked)
          ∙ ap
              (λ e.
                down_loop word1 pt (some (pte_pa e / 8 + pageindex va level)) level (bit_and perm e)
                  va)
              first
          ∙ down_loop-same level word word1 pt (bit_and perm (word p)) va (below word p level va)
              (λ a l v pos. same a l (deeper linked v) pos)
          ∙ sym (down_loop-linked level word pt perm va p linked)
      | inr last ↦
          down_loop-last (suc level) word1 pt perm va p (ap links first ∙ last)
          ∙ sym (down_loop-last (suc level) word pt perm va p last)
    ]

-- The entry in which a walk ends has been read by it.
pub down_loop-Visits :
    (level : ℕ) (word : Memory) (pt perm va p a : ℕ) (it : VmIter)
    → down_loop word pt (some p) level perm va ≡ it
    → it.pep ≡ some a
    → Visits word va p level a it.level
unfolding down_loop
down_loop-Visits zero word pt perm va p a it at e =
    here-at word va p a zero it.level (some-injective _ _ (ap (λ x. x.pep) at ∙ e))
      (ap (λ x. x.level) at)
down_loop-Visits (suc level) word pt perm va p a it at e = elim (Bool-cases (links (word p))) [
  | inl linked ↦ deeper linked (
      down_loop-Visits level word pt (bit_and perm (word p)) va (below word p level va) a it
        (sym (down_loop-linked level word pt perm va p linked) ∙ at) e)
  | inr last ↦
      let stop = sym (down_loop-last (suc level) word pt perm va p last) ∙ at in
      here-at word va p a (suc level) it.level (some-injective _ _ (ap (λ x. x.pep) stop ∙ e))
        (ap (λ x. x.level) stop)
]

pub down_loop-some :
    (level : ℕ) (word : Memory) (pt perm va p : ℕ)
    → (a : ℕ) × ((down_loop word pt (some p) level perm va).pep ≡ some a)
unfolding down_loop
down_loop-some zero word pt perm va p = (p, refl)
down_loop-some (suc level) word pt perm va p = elim (Bool-cases (links (word p))) [
  | inl linked ↦
      let (a, e) =
        down_loop-some level word pt (bit_and perm (word p)) va (below word p level va) in
      (a, ap (λ x. x.pep) (down_loop-linked level word pt perm va p linked) ∙ e)
  | inr last ↦ (p, ap (λ x. x.pep) (down_loop-last (suc level) word pt perm va p last))
]

-- What a walk reads in the one of two such memories it reads in the other.
pub Visits-same :
    (level : ℕ) (word word1 : Memory) (va p b n : ℕ)
    → ((a l : ℕ) → Visits word va p level a l → 0 < l → word1 a ≡ word a)
    → Visits word1 va p level b n
    → Visits word va p level b n
Visits-same zero word word1 va p _ _ same here = here
Visits-same (suc level) word word1 va p _ _ same here = here
Visits-same (suc level) word word1 va p b n same (deeper linked v) =
    let first : word1 p ≡ word p = same p (suc level) here (omega arith) in
    let linked0 : links (word p) ≡ true = ap links (sym first) ∙ linked in
    deeper linked0 (
      Visits-same level word word1 va (below word p level va) b n
        (λ a l v pos. same a l (deeper linked0 v) pos)
        (subst (λ x. Visits word1 va (pte_pa x / 8 + pageindex va level) level b n) first v))
