-- ===== src/Weensyos/Guard/Once.antt =====
-- The variables behind a guard of weensyos/k-hardware.cc are initialised by one processor only.
use native.Mathlib.Decide.{ℕ_discrete}
use c_proj.Base.{
  ℕ, ◌≡◌, ◌≢◌, ◌⊎◌, inl, inr, refl, sym, ap, ◌∙◌, Bool, true, false, ◌==◌, eq-true, eq-false,
  Bool-cases, arith,
}
use c_proj.Weensyos.Guard.{
  At, at_load, at_exchange, at_put_back, initialising, done, System, moved_to, load_step,
  after_exchange, exchange_step, set_done, step, Reachable, start, then_step,
}

-- In acquire, with nothing found yet.
abbrev is_waiting : At → Bool
is_waiting at_load = true
is_waiting at_exchange = true
is_waiting _ = false

abbrev is_initialising : At → Bool
is_initialising initialising = true
is_initialising _ = false

-- Nobody has found the guard 0; or `owner` has, and initialises; or that is done, and the guard is 2,
-- or 1 for as long as a processor is about to put 2 back.
abbrev Untouched : System → Type 0
Untouched s = (s.guard ≡ 0) × ((p : ℕ) → is_waiting (s.at p) ≡ true)

abbrev Owned : (owner : ℕ) → System → Type 0
Owned owner s =
    (s.guard ≡ 1) × (s.at owner ≡ initialising) × ((p : ℕ) → p ≢ owner → is_waiting (s.at p) ≡ true)

abbrev Finished : System → Type 0
Finished s =
    ((p : ℕ) → is_initialising (s.at p) ≡ false)
    × ((s.guard ≡ 2) ⊎ ((s.guard ≡ 1) × ((q : ℕ) × (s.at q ≡ at_put_back))))

abbrev Phase : System → Type 0
Phase s = Untouched s ⊎ (((owner : ℕ) × Owned owner s) ⊎ Finished s)

-- What a move of `p` to `a` leaves of a property of all processors.
moved_all :
    (test : At → Bool) (b : Bool) (s : System) (p : ℕ) (a : At)
    → test a ≡ b
    → (q : ℕ) → (q ≢ p → test (s.at q) ≡ b)
    → test (moved_to s p a q) ≡ b
moved_all test b s p a new q old = elim (Bool-cases (q == p)) [
  | inl at ↦ rw at new
  | inr other ↦ rw other (old (λ e. absurd (cc (sym other ∙ eq-true q p e))))
]

moved_here : (s : System) (p : ℕ) (a : At) → moved_to s p a p ≡ a
moved_here s p a = rw (eq-true p p refl) refl

moved_other : (s : System) (p q : ℕ) (a : At) → q ≢ p → moved_to s p a q ≡ s.at q
moved_other s p q a ne = rw (eq-false q p ne) refl

At-cases :
    (a : At)
    → (a ≡ at_load) ⊎ ((a ≡ at_exchange) ⊎ ((a ≡ at_put_back) ⊎ ((a ≡ initialising) ⊎ (a ≡ done))))
At-cases at_load = inl refl
At-cases at_exchange = inr (inl refl)
At-cases at_put_back = inr (inr (inl refl))
At-cases initialising = inr (inr (inr (inl refl)))
At-cases done = inr (inr (inr (inr refl)))

Waiting-cases : (a : At) → is_waiting a ≡ true → (a ≡ at_load) ⊎ (a ≡ at_exchange)
Waiting-cases at_load e = inl refl
Waiting-cases at_exchange e = inr refl
Waiting-cases at_put_back e = absurd (cc e)
Waiting-cases initialising e = absurd (cc e)
Waiting-cases done e = absurd (cc e)

waiting_not_initialising : (a : At) → is_waiting a ≡ true → is_initialising a ≡ false
waiting_not_initialising at_load e = refl
waiting_not_initialising at_exchange e = refl
waiting_not_initialising at_put_back e = refl
waiting_not_initialising initialising e = absurd (cc e)
waiting_not_initialising done e = refl

Untouched-step : (p : ℕ) (s : System) → Untouched s → Phase (step p s)
unfolding step
Untouched-step p s (zero_guard, waiting) = elim (Waiting-cases (s.at p) (waiting p)) [
  | inl loads ↦
      let not_two : (s.guard == 2) ≡ false = ground arith in
      rw (loads, step, not_two, load_step)
        (inl (zero_guard, λ q. moved_all is_waiting true s p at_exchange refl q (λ ne. waiting q)))
  | inr exchanges ↦
      let wins : after_exchange s.guard ≡ initialising = ap after_exchange zero_guard in
      rw (exchanges, step, wins, exchange_step)
        (inr (
          inl (
            p,
            (
              refl,
              moved_here s p initialising,
              λ q ne. ap is_waiting (moved_other s p q initialising ne) ∙ waiting q,
            ),
          )))
]

Owned-step : (owner p : ℕ) (s : System) → Owned owner s → Phase (step p s)
unfolding step
Owned-step owner p s (one_guard, owns, waiting) = elim (ℕ_discrete p owner) [
  | yes at ↦
      let here : s.at p ≡ initialising = ap s.at at ∙ owns in
      rw (here, step, set_done)
        (inr (
          inr (
            (λ q.
                moved_all is_initialising false s p done refl q
                  (λ ne. waiting_not_initialising (s.at q) (waiting q (λ e. ne (e ∙ sym at))))),
            inl refl,
          )))
  | no other ↦ elim (Waiting-cases (s.at p) (waiting p other)) [
    | inl loads ↦
        let not_two : (s.guard == 2) ≡ false = ground arith in
        rw (loads, step, not_two, load_step)
          (inr (
            inl (
              owner,
              (
                one_guard,
                moved_other s p owner at_exchange (λ e. other (sym e)) ∙ owns,
                λ q ne. moved_all is_waiting true s p at_exchange refl q (λ h. waiting q ne),
              ),
            )))
    | inr exchanges ↦
        let spins : after_exchange s.guard ≡ at_exchange = ap after_exchange one_guard in
        rw (exchanges, step, spins, exchange_step)
          (inr (
            inl (
              owner,
              (
                refl,
                moved_other s p owner at_exchange (λ e. other (sym e)) ∙ owns,
                λ q ne. moved_all is_waiting true s p at_exchange refl q (λ h. waiting q ne),
              ),
            )))
  ]
]

-- The processor that is about to put 2 back stays, where another one moves.
keeps_put_back :
    (s : System) (p q : ℕ) (a : At)
    → is_waiting (s.at p) ≡ true
    → s.at q ≡ at_put_back
    → moved_to s p a q ≡ at_put_back
keeps_put_back s p q a waits puts =
    moved_other s p q a
      (λ e. absurd (cc (sym waits ∙ ap (λ x. is_waiting (s.at x)) (sym e) ∙ ap is_waiting puts)))
    ∙ puts

Finished-step : (p : ℕ) (s : System) → Finished s → Phase (step p s)
unfolding step
Finished-step p s (nobody, guard) = elim (At-cases (s.at p)) [
  | inl loads ↦ elim guard [
    | inl two ↦
        let is_two : (s.guard == 2) ≡ true = eq-true s.guard 2 two in
        rw (loads, step, is_two, load_step)
          (inr (
            inr ((λ q. moved_all is_initialising false s p done refl q (λ ne. nobody q)), inl two)))
    | inr (one, (q, puts)) ↦
        let not_two : (s.guard == 2) ≡ false = ground arith in
        rw (loads, step, not_two, load_step)
          (inr (
            inr (
              (λ r. moved_all is_initialising false s p at_exchange refl r (λ ne. nobody r)),
              inr (one, (q, keeps_put_back s p q at_exchange (ap is_waiting loads) puts)),
            )))
  ]
  | inr (inl exchanges) ↦ elim guard [
    | inl two ↦
        let found : after_exchange s.guard ≡ at_put_back = ap after_exchange two in
        rw (exchanges, step, found, exchange_step)
          (inr (
            inr (
              (λ q. moved_all is_initialising false s p at_put_back refl q (λ ne. nobody q)),
              inr (refl, (p, moved_here s p at_put_back)),
            )))
    | inr (one, (q, puts)) ↦
        let spins : after_exchange s.guard ≡ at_exchange = ap after_exchange one in
        rw (exchanges, step, spins, exchange_step)
          (inr (
            inr (
              (λ r. moved_all is_initialising false s p at_exchange refl r (λ ne. nobody r)),
              inr (refl, (q, keeps_put_back s p q at_exchange (ap is_waiting exchanges) puts)),
            )))
  ]
  | inr (inr (inl puts)) ↦
      rw (puts, step, set_done)
        (inr
          (inr ((λ q. moved_all is_initialising false s p done refl q (λ ne. nobody q)), inl refl)))
  | inr (inr (inr (inl initialises))) ↦
      absurd (cc (sym (nobody p) ∙ ap is_initialising initialises))
  | inr (inr (inr (inr ends))) ↦ rw (ends, step) (inr (inr (nobody, guard)))
]

Reachable-Phase : (s : System) → Reachable s → Phase s
Reachable-Phase _ start = inl (refl, λ p. refl)
Reachable-Phase _ (then_step p s r) = elim (Reachable-Phase s r) [
  | inl untouched ↦ Untouched-step p s untouched
  | inr (inl (owner, owned)) ↦ Owned-step owner p s owned
  | inr (inr finished) ↦ Finished-step p s finished
]

waiting_is_not : (a b : At) → is_waiting a ≡ true → is_waiting b ≡ false → a ≢ b
waiting_is_not a b w n e = absurd (cc (sym w ∙ ap is_waiting e ∙ n))

owner_is : (owner p : ℕ) (s : System) → Owned owner s → s.at p ≡ initialising → p ≡ owner
owner_is owner p s (guard, owns, waiting) e = elim (ℕ_discrete p owner) [
  | yes same ↦ same
  | no other ↦ absurd (waiting_is_not (s.at p) initialising (waiting p other) refl e)
]

-- In every state that any interleaving of the processors reaches, at most one processor is
-- initialising the variables, and none is once a processor is behind the guard.
pub guard_once :
    (s : System)
    → Reachable s
    → ((p q : ℕ) → s.at p ≡ initialising → s.at q ≡ initialising → p ≡ q)
      × ((p q : ℕ) → s.at p ≡ done → s.at q ≢ initialising)
guard_once s r = elim (Reachable-Phase s r) [
  | inl (guard, waiting) ↦ (
    (λ p q e f. absurd (waiting_is_not (s.at p) initialising (waiting p) refl e)),
    (λ p q e f. absurd (waiting_is_not (s.at q) initialising (waiting q) refl f)),
  )
  | inr (inl (owner, owned)) ↦ (
    (λ p q e f. owner_is owner p s owned e ∙ sym (owner_is owner q s owned f)),
    (λ p q e f.
        let at = owner_is owner q s owned f in
        elim (ℕ_discrete p owner) [
          | yes same ↦ absurd (cc (sym e ∙ ap s.at same ∙ owned.1))
          | no other ↦ absurd (waiting_is_not (s.at p) done (owned.2 p other) refl e)
        ]),
  )
  | inr (inr (nobody, guard)) ↦ (
    (λ p q e f. absurd (cc (sym (nobody p) ∙ ap is_initialising e))),
    (λ p q e f. absurd (cc (sym (nobody q) ∙ ap is_initialising f))),
  )
]
