-- ===== src/Weensyos/Kernel/Shown.antt =====
-- memshow of weensyos/kernel.cc: which process's memory is drawn.

use c_proj.Base.{
  ℕ, zero, suc, ◌+◌, ◌-◌, ◌%◌, ◌/◌, ◌^◌, ◌<◌, ◌≡◌, ◌⊎◌, inl, inr, refl, sym, ap, ◌∙◌, Bool, true,
  false, not, ◌&&◌, ◌||◌, Option, none, some, leb, ◌==◌, if◌then◌else◌, Bool-cases, arith,
}
use c_proj.Weensyos.Process.{Procs, nproc, is_free}

-- The two static variables.
pub record MemShow : Type 0 where
  pub last_ticks : ℕ
  pub showing : ℕ

abbrev pub hz : ℕ
hz = 100

-- A process that can be drawn.
abbrev pub drawable : Procs → ℕ → Bool
drawable t i = not (is_free (t.slot i).state) && not ((t.slot i).pagetable == 0)

-- The turn to the next process. `ticks` has 64 bits and `last_ticks` 32.
unfoldable pub turn : (ticks : ℕ) → MemShow → MemShow
turn ticks m =
    if m.last_ticks == 0 || leb (hz / 2) ((ticks + 2 ^ 64 - m.last_ticks) % 2 ^ 64)
    then record { last_ticks = ticks % 2 ^ 32; showing = (m.showing + 1) % nproc }
    else m

-- The search with `left` rounds to go: the process, and `showing`.
unfoldable pub find_drawable : (left showing : ℕ) → Procs → Option ℕ × ℕ
find_drawable zero showing t = (none, showing)
find_drawable (suc left) showing t = elim (drawable t showing) [
  | true ↦ (some showing, showing)
  | false ↦ find_drawable left ((showing + 1) % nproc) t
]

unfoldable pub memshow : (ticks : ℕ) → Procs → MemShow → Option ℕ × MemShow
memshow ticks t m =
    let m1 : MemShow = turn ticks m in
    let r : Option ℕ × ℕ = find_drawable nproc m1.showing t in (r.0, record m1 { showing = r.1 })

-- What the search comes to: a process that can be drawn, or none in the slots passed.
abbrev Found : (left showing : ℕ) → Procs → Option ℕ × ℕ → Type 0
Found left showing t (o, last) =
    (last < nproc)
    × (((i : ℕ) × (o ≡ some i) × (i < nproc) × (drawable t i ≡ true))
        ⊎ ((o ≡ none) × ((d : ℕ) → d < left → drawable t ((showing + d) % nproc) ≡ false)))

passed :
    (left showing : ℕ) (t : Procs)
    → showing < nproc
    → drawable t showing ≡ false
    → ((d : ℕ) → d < left → drawable t (((showing + 1) % nproc + d) % nproc) ≡ false)
    → (d : ℕ) → d < suc left
    → drawable t ((showing + d) % nproc) ≡ false
passed left showing t h first rest zero k =
    let e : (showing + 0) % nproc ≡ showing = omega arith in ap (drawable t) e ∙ first
passed left showing t h first rest (suc d) k =
    let e : (showing + suc d) % nproc ≡ ((showing + 1) % nproc + d) % nproc = omega arith in
    ap (drawable t) e ∙ rest d (omega arith)

find_drawable_lem :
    (left showing : ℕ) (t : Procs)
    → showing < nproc
    → Found left showing t (find_drawable left showing t)
unfolding find_drawable
find_drawable_lem zero showing t h = (h, inr (refl, λ d k. absurd (omega arith)))
find_drawable_lem (suc left) showing t h = elim (Bool-cases (drawable t showing)) [
  | inl is ↦ rw (is, find_drawable) (h, inl (showing, refl, h, is))
  | inr first ↦
      let (low, found) = find_drawable_lem left ((showing + 1) % nproc) t (omega arith) in
      rw (first, find_drawable)
        (
          low,
          elim found [
            | inl (i, e, k, is) ↦ inl (i, e, k, is)
            | inr (e, rest) ↦ inr (e, passed left showing t h first rest)
          ],
        )
]

turn_lt : (ticks : ℕ) (m : MemShow) → m.showing < nproc → (turn ticks m).showing < nproc
unfolding turn
turn_lt ticks m h = ground arith

-- memshow keeps its number within the process table, and draws a process that is not free and has a page
-- table if there is one in the table, else none.
pub memshow_lem :
    (ticks : ℕ) (t : Procs) (m : MemShow)
    → m.showing < nproc
    → ((memshow ticks t m).1.showing < nproc)
      × (((i : ℕ) × ((memshow ticks t m).0 ≡ some i) × (i < nproc) × (drawable t i ≡ true))
          ⊎ (((memshow ticks t m).0 ≡ none) × ((i : ℕ) → i < nproc → drawable t i ≡ false)))
unfolding memshow
memshow_lem ticks t m h =
    let showing = (turn ticks m).showing in
    let (low, found) = find_drawable_lem nproc showing t (turn_lt ticks m h) in
    (
      low,
      elim found [
        | inl (i, e, k, is) ↦ inl (i, e, k, is)
        | inr (e, rest) ↦ inr (
          e,
          λ i k.
              let d = (i + 32 - showing % 16) % 16 in
              let at : (showing + d) % nproc ≡ i = omega arith in
              ap (drawable t) (sym at) ∙ rest d (omega arith),
        )
      ],
    )
