-- ===== src/Base/Every.antt =====
-- Boolean tests of every element of a list, and of every number below a bound, which a run decides.
use Prim.Native.Nat.{ℕ, zero, suc, ◌<◌}
use mathlib.Core.Path.{◌≡◌, refl, sym, ap, ◌∙◌}
use mathlib.Core.Bool.{Bool, true, false, ◌&&◌}
use mathlib.Core.List.{List, [], ◌∷◌}
use native.Mathlib.Omega.{arith}
use native.Mathlib.Decide.{dec_lt}
use c_proj.Base.Lists.{get_or}

abbrev pub every {ℓ} : {A : Type ℓ} → (A → Bool) → List A → Bool
every p [] = true
every p (x ∷ xs) = p x && every p xs

pub both_left : (a b : Bool) → (a && b) ≡ true → a ≡ true
both_left true b e = refl
both_left false b e = e

pub both_right : (a b : Bool) → (a && b) ≡ true → b ≡ true
both_right true b e = e
both_right false b e = absurd (cc e)

-- What every element and the default have, the element at any index has.
pub get_or-every {ℓ} :
    {A : Type ℓ} (p : A → Bool) (xs : List A) (i : ℕ) (d : A)
    → every p xs ≡ true
    → p d ≡ true
    → p (get_or xs i d) ≡ true
get_or-every p [] i d e h = h
get_or-every p (x ∷ xs) zero d e h = both_left (p x) (every p xs) e
get_or-every p (x ∷ xs) (suc i) d e h = get_or-every p xs i d (both_right (p x) (every p xs) e) h

abbrev pub every_below : ℕ → (ℕ → Bool) → Bool
every_below zero p = true
every_below (suc n) p = every_below n p && p n

pub at_below : (n : ℕ) (p : ℕ → Bool) (i : ℕ) → every_below n p ≡ true → i < n → p i ≡ true
at_below zero p i e h = absurd (omega arith)
at_below (suc n) p i e h = elim (dec_lt i n) [
  | yes lt ↦ at_below n p i (both_left (every_below n p) (p n) e) lt
  | no ge ↦ let at : n ≡ i = omega arith in ap p (sym at) ∙ both_right (every_below n p) (p n) e
]
