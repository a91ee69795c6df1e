-- ===== src/Weensyos/Numbers/Random.antt =====
-- The range of rand and rand(min, max) of weensyos/lib.cc.
use c_proj.Base.{ℕ, ◌+◌, ◌-◌, ◌*◌, ◌/◌, ◌%◌, ◌^◌, ◌≤◌, ◌<◌, ◌≡◌, arith}
use c_proj.Weensyos.Numbers.{RandState, drawn, rand_max, next_rand, rand, rand_range}

rand-le : (r : RandState) → (rand r).0 ≤ rand_max
unfolding rand next_rand
rand-le r = omega arith

share_lt : (r n : ℕ) → r ≤ rand_max → n < rand_max → r * (n + 1) % 2 ^ 64 / (rand_max + 1) ≤ n
share_lt r n hr hn = let p : r * (n + 1) ≤ rand_max * (n + 1) = grind arith in omega (arith, p)

-- rand(min, max) passes its asserts and returns a number between `min` and `max`, both included, for
-- a range of numbers that are not negative and less than RAND_MAX apart.
pub rand_range_bounds :
    (lo hi : ℕ) (r : RandState)
    → lo ≤ hi
    → hi - lo < rand_max
    → (x : ℕ) × (r1 : RandState) × (rand_range lo hi r ≡ drawn x r1) × (lo ≤ x) × (x ≤ hi)
unfolding rand_range
rand_range_bounds lo hi r h k = (
  lo + (rand r).0 * (hi - lo + 1) % 2 ^ 64 / (rand_max + 1),
  (rand r).1,
  ground arith,
  omega arith,
  omega (arith, share_lt (rand r).0 (hi - lo) (rand-le r) k),
)
