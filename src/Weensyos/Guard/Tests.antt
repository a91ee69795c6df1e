-- ===== src/Weensyos/Guard/Tests.antt =====
-- Processors 0 and 1 at a guard: 0 initialises while 1 waits.
use c_proj.Base.{ℕ, ◌≡◌, ◌≢◌}
use c_proj.Weensyos.Guard.{System, step, initial, Reachable, start, then_step, initialising, done}
use c_proj.Weensyos.Guard.Once.{guard_once}

abbrev both_try : System
both_try = step 1 (step 1 (step 0 (step 0 initial)))

both_try-Reachable : Reachable both_try
both_try-Reachable = then_step 1 (step 1 (step 0 (step 0 initial))) (
    then_step 1 (step 0 (step 0 initial))
      (then_step 0 (step 0 initial) (then_step 0 initial start)))

guard_once_example :
    ((p q : ℕ) → both_try.at p ≡ initialising → both_try.at q ≡ initialising → p ≡ q)
    × ((p q : ℕ) → both_try.at p ≡ done → both_try.at q ≢ initialising)
guard_once_example = guard_once both_try both_try-Reachable
