-- ===== src/Weensyos/Kernel/PtIter/Ends.antt =====
-- ptiter of weensyos/k-vmiter.cc comes to an end.
use native.Mathlib.Decide.{ℕ_discrete}
use c_proj.Base.{
  ℕ, zero, suc, ◌+◌, ◌-◌, ◌*◌, ◌/◌, ◌^◌, ◌≤◌, ◌<◌, ◌≡◌, ◌⊎◌, inl, inr, refl, sym, Bool, true, false,
  not, ◌&&◌, some, Memory, arith, ◌==◌, Bool-cases, eq_eq,
}
use c_proj.Weensyos.PageTable.{above, pageindex, links, end_of}
use c_proj.Weensyos.Kernel.PtIter.{
  PtIter, va_noncanonmax, crosses, go_down, to_root, past, down_loop, down_fuel, down, ptiter, next,
}

-- An iterator that has not come to the end.
abbrev pub IsActive : PtIter → Type 0
IsActive it = (1 ≤ it.level) × (it.level ≤ 3) × (it.va < 2 ^ 48)

-- `it1` has come to the end, or it is active and is behind `it` or above it, at `stop` or higher.
abbrev pub Later : (stop : ℕ) (it it1 : PtIter) → Type 0
Later stop it it1 =
    (it1.va ≡ va_noncanonmax + 1)
    ⊎ (IsActive it1 × ((it.va < it1.va) ⊎ ((it1.va ≡ it.va) × (stop ≤ it1.level))))

not-false : (b : Bool) → not b ≡ false → b ≡ true
not-false true e = refl
not-false false e = sym e

past_lem :
    (level va : ℕ)
    → 1 ≤ level
    → level ≤ 3
    → va < 2 ^ 48
    → above (end_of va level) (suc level) ≡ above va (suc level)
    → (va < end_of va level) × (end_of va level < 2 ^ 48)
past_lem zero va h k l e = absurd (omega arith)
past_lem (suc zero) va h k l e = omega arith
past_lem (suc (suc zero)) va h k l e = omega arith
past_lem (suc (suc (suc zero))) va h k l e = omega arith
past_lem (suc (suc (suc (suc n)))) va h k l e = absurd (omega arith)

-- What is left to walk: addresses, then levels up, then levels down.
abbrev todo : (stop : ℕ) → PtIter → ℕ
todo stop it = 16 * (2 ^ 48 - it.va) + 4 * (4 - stop) + it.level

Later-from :
    (stop1 stop : ℕ) (it it1 r : PtIter)
    → (it.va < it1.va) ⊎ ((it1.va ≡ it.va) × (stop ≤ stop1))
    → Later stop1 it1 r
    → Later stop it r
Later-from stop1 stop it it1 r step (inl end) = inl end
Later-from stop1 stop it it1 r (inl lt) (inr (live, inl lt1)) = inr (live, inl (omega arith))
Later-from stop1 stop it it1 r (inl lt) (inr (live, inr (eq, up))) = inr (live, inl (omega arith))
Later-from stop1 stop it it1 r (inr (same, le)) (inr (live, inl lt1)) =
    inr (live, inl (omega arith))
Later-from stop1 stop it it1 r (inr (same, le)) (inr (live, inr (eq, up))) =
    inr (live, inr (omega arith, omega arith))

stays_inside :
    (it : PtIter)
    → crosses it ≡ false
    → above (end_of it.va it.level) (suc it.level) ≡ above it.va (suc it.level)
stays_inside it e =
    eq_eq _ _
      (not-false (above (end_of it.va it.level) (suc it.level) == above it.va (suc it.level)) e)

past-IsActive :
    (it : PtIter) → IsActive it → crosses it ≡ false → (it.va < (past it).va) × IsActive (past it)
past-IsActive it (h, k, l) e =
    let (lt, low) = past_lem it.level it.va h k l (stays_inside it e) in (lt, (h, k, low))

down_loop_total :
    (word : Memory) (fuel : ℕ) (skip : Bool) (stop : ℕ) (it : PtIter)
    → IsActive it
    → 1 ≤ stop
    → stop ≤ it.level
    → todo stop it < fuel
    → (it1 : PtIter) × (down_loop word fuel skip stop it ≡ some it1) × Later stop it it1
unfolding down_loop
down_loop_total word zero skip stop it live low high enough = absurd (omega arith)
down_loop_total word (suc fuel) skip stop it live low high enough =
    elim (Bool-cases (links (word it.pep) && not skip)) [
      | inl linked ↦ elim (Bool-cases (it.level == stop)) [
        | inl at_stop ↦
            (it, rw (linked, at_stop, down_loop) refl, inr (live, inr (refl, omega arith)))
        | inr above_stop ↦
            let ne : stop < it.level = ground arith in
            let (r, e, later) =
              down_loop_total word fuel skip stop (go_down word it)
                (omega arith, omega arith, live.2) low (omega arith) (omega arith) in
            (r, rw (linked, above_stop, down_loop) e, later)
      ]
      | inr skipped ↦ elim (Bool-cases (crosses it)) [
        | inr inside ↦
            let (lt, live1) = past-IsActive it live inside in
            let (r, e, later) =
              down_loop_total word fuel false stop (past it) live1 low high (omega arith) in
            (
              r,
              rw (skipped, inside, down_loop) e,
              Later-from stop stop it (past it) r (inl lt) later,
            )
        | inl leaves ↦ elim (ℕ_discrete it.level 3) [
          | yes top ↦
              let at_top : (it.level == 3) ≡ true = ground arith in
              (
                record it { va = va_noncanonmax + 1 },
                rw (skipped, leaves, at_top, down_loop) refl,
                inl refl,
              )
          | no below ↦
              let not_top : (it.level == 3) ≡ false = ground arith in
              let (r, e, later) =
                down_loop_total word fuel false (it.level + 1) (to_root it)
                  (omega arith, omega arith, live.2) (omega arith) (omega arith) (omega arith) in
              (
                r,
                rw (skipped, leaves, not_top, down_loop) e,
                Later-from (it.level + 1) stop it (to_root it) r (inr (refl, omega arith)) later,
              )
        ]
      ]
    ]

-- `it1` has come to the end, or it is active and is behind `it`, or at the same address and higher.
abbrev pub After : (it it1 : PtIter) → Type 0
After it it1 =
    (it1.va ≡ va_noncanonmax + 1)
    ⊎ (IsActive it1 × ((it.va < it1.va) ⊎ ((it1.va ≡ it.va) × (it.level < it1.level))))

After-Later : (it it1 r : PtIter) → it.va < it1.va → Later 1 it1 r → After it r
After-Later it it1 r h (inl end) = inl end
After-Later it it1 r h (inr (live, inl lt)) = inr (live, inl (omega arith))
After-Later it it1 r h (inr (live, inr (eq, up))) = inr (live, inl (omega arith))

After-up : (it r : PtIter) → Later (it.level + 1) (to_root it) r → After it r
After-up it r (inl end) = inl end
After-up it r (inr (live, inl lt)) = inr (live, inl lt)
After-up it r (inr (live, inr (eq, up))) = inr (live, inr (eq, omega arith))

skip_not_linked : (b : Bool) → (b && not true) ≡ false
skip_not_linked true = refl
skip_not_linked false = refl

next_loop_total :
    (word : Memory) (fuel : ℕ) (it : PtIter)
    → IsActive it
    → 2 ^ 52 + 16 ≤ fuel
    → (it1 : PtIter) × (down_loop word (suc fuel) true 1 it ≡ some it1) × After it it1
unfolding down_loop
next_loop_total word fuel it live enough =
    let skipped = skip_not_linked (links (word it.pep)) in
    elim (Bool-cases (crosses it)) [
      | inr inside ↦
          let (lt, live1) = past-IsActive it live inside in
          let (r, e, later) =
            down_loop_total word fuel false 1 (past it) live1 (omega arith) live1.0
              (omega (arith, live1)) in
          (r, rw (skipped, inside, down_loop) e, After-Later it (past it) r lt later)
      | inl leaves ↦ elim (ℕ_discrete it.level 3) [
        | yes top ↦
            let at_top : (it.level == 3) ≡ true = ground arith in
            (
              record it { va = va_noncanonmax + 1 },
              rw (skipped, leaves, at_top, down_loop) refl,
              inl refl,
            )
        | no below ↦
            let not_top : (it.level == 3) ≡ false = ground arith in
            let (r, e, later) =
              down_loop_total word fuel false (it.level + 1) (to_root it)
                (omega arith, omega arith, live.2) (omega arith) (omega arith)
                (omega (arith, live)) in
            (r, rw (skipped, leaves, not_top, down_loop) e, After-up it r later)
      ]
    ]

-- ptiter::next returns, whatever the entries in memory are, and it has come to the end, or to a higher
-- address, or to the table above at the same address.
pub next_total :
    (word : Memory) (it : PtIter)
    → IsActive it
    → (it1 : PtIter) × (next word it ≡ some it1) × After it it1
unfolding next down
next_total word it live = next_loop_total word 0x1000000000001F it live (omega arith)

live_or_end : (it r : PtIter) → Later 1 it r → (r.va ≡ va_noncanonmax + 1) ⊎ IsActive r
live_or_end it r (inl end) = inl end
live_or_end it r (inr (live, rest)) = inr live

-- The constructor of ptiter returns, at the end or with an active iterator.
pub ptiter_total :
    (word : Memory) (pt va : ℕ)
    → va < 2 ^ 48
    → (it : PtIter) × (ptiter word pt va ≡ some it) × ((it.va ≡ va_noncanonmax + 1) ⊎ IsActive it)
unfolding ptiter down
ptiter_total word pt va h =
    let (r, e, later) =
      down_loop_total word down_fuel false 1
        (record { pt = pt; pep = pt / 8 + pageindex va 3; level = 3; va = va })
        (omega arith, omega arith, h) (omega arith) (omega arith) (omega arith) in
    (
      r,
      e,
      live_or_end (record { pt = pt; pep = pt / 8 + pageindex va 3; level = 3; va = va }) r later,
    )
