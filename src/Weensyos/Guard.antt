-- ===== src/Weensyos/Guard.antt =====
-- __cxa_guard_acquire and __cxa_guard_release of weensyos/k-hardware.cc, as steps of processors that
-- share a guard. The guard's byte is 0, or 1 while the variables are initialised, or 2 behind that; every
-- access to it is atomic.
pub mod Once
mod Tests
use c_proj.Base.{ℕ, ◌+◌, Bool, true, false, ◌==◌, if◌then◌else◌}

-- Where a processor is: before the first load, at an exchange of the loop, between the exchange that
-- found 2 and the one that puts 2 back, initialising behind a return of 1, or behind the whole.
pub data At : Type 0 where
  at_load at_exchange at_put_back initialising done : At

pub record System : Type 0 where
  pub guard : ℕ
  pub at : ℕ → At

abbrev pub moved_to : System → (p : ℕ) → At → ℕ → At
moved_to s p a q = if q == p then a else s.at q

-- `guard->load() == 2`
abbrev pub load_step : ℕ → System → System
load_step p s = record s { at = moved_to s p (if s.guard == 2 then done else at_exchange) }

-- `old_value = guard->exchange(1)` and the tests of `old_value`.
abbrev pub after_exchange : (old_value : ℕ) → At
after_exchange old_value =
    if old_value == 2 then at_put_back else if old_value == 1 then at_exchange else initialising

abbrev pub exchange_step : ℕ → System → System
exchange_step p s = record { guard = 1; at = moved_to s p (after_exchange s.guard) }

-- `guard->exchange(2)`, and the store of __cxa_guard_release.
abbrev pub set_done : ℕ → System → System
set_done p s = record { guard = 2; at = moved_to s p done }

-- The step of processor `p`.
unfoldable pub step : ℕ → System → System
step p s = elim (s.at p) [
  | at_load ↦ load_step p s
  | at_exchange ↦ exchange_step p s
  | at_put_back ↦ set_done p s
  | initialising ↦ set_done p s
  | done ↦ s
]

-- The static variables are not yet initialised, and no processor has come to the guard.
abbrev pub initial : System
initial = record { guard = 0; at = λ p. at_load }

-- The states that the processors can reach, by any interleaving of their steps.
pub data Reachable : System → Type 0 where
  start : Reachable initial
  then_step : (p : ℕ) (s : System) → Reachable s → Reachable (step p s)
