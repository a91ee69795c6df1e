-- ===== src/Weensyos/Strings/Compare.antt =====
-- memcmp, strcmp and strncmp of weensyos/lib.cc against the lexicographic order of lists.
use c_proj.Base.{
  ℕ, zero, suc, ◌+◌, ◌<◌, ◌≡◌, ◌↔◌, refl, some, arith, Memory, ◌==◌, List, [], ◌∷◌, slice, take,
  if◌then◌else◌,
}
use c_proj.Weensyos.Strings.{Sign, minus, nought, plus, sign, memcmp, strcmp, strncmp}
use c_proj.Weensyos.Strings.Scan.{IsString, IsString-tail, first_ne, empty_nul}

-- The lexicographic order: the first difference decides, and a proper prefix is smaller.
abbrev pub lex : List ℕ → List ℕ → Sign
lex [] [] = nought
lex [] (y ∷ ys) = minus
lex (x ∷ xs) [] = plus
lex (x ∷ xs) (y ∷ ys) = if x == y then lex xs ys else sign x y

-- memcmp compares two blocks of `n` bytes in the lexicographic order.
pub memcmp-eq-lex : (a b n : ℕ) (m : Memory) → memcmp m a b n ≡ lex (slice m a n) (slice m b n)
unfolding memcmp
memcmp-eq-lex a b zero m = refl
memcmp-eq-lex a b (suc n) m = ground (arith, memcmp-eq-lex (a + 1) (b + 1) n m)

lex-nought : (xs ys : List ℕ) → (lex xs ys ≡ nought) ↔ (xs ≡ ys)
lex-nought [] [] = (λ e. refl, λ e. refl)
lex-nought [] (y ∷ ys) = (λ e. cc, λ e. cc)
lex-nought (x ∷ xs) [] = (λ e. cc, λ e. cc)
lex-nought (x ∷ xs) (y ∷ ys) =
    let ih = lex-nought xs ys in (λ e. ground (arith, ih.0), λ e. ground (arith, ih.1))

-- strcmp ends at the first NUL of two strings and orders them lexicographically.
pub strcmp-eq-lex :
    (fuel a b p q : ℕ) (m : Memory)
    → IsString m a p
    → IsString m b q
    → p < fuel
    → strcmp m fuel a b ≡ some (lex (slice m a p) (slice m b q))
unfolding strcmp
strcmp-eq-lex zero a b p q m ha hb lt = absurd (omega arith)
strcmp-eq-lex (suc fuel) a b zero zero m ha hb lt =
    ground (arith, empty_nul m a ha, empty_nul m b hb)
strcmp-eq-lex (suc fuel) a b zero (suc q) m ha hb lt =
    ground (arith, empty_nul m a ha, first_ne m b q hb)
strcmp-eq-lex (suc fuel) a b (suc p) zero m ha hb lt =
    ground (arith, first_ne m a p ha, empty_nul m b hb)
strcmp-eq-lex (suc fuel) a b (suc p) (suc q) m ha hb lt = ground (
  arith,
  first_ne m a p ha,
  first_ne m b q hb,
  strcmp-eq-lex fuel (a + 1) (b + 1) p q m (IsString-tail m a p ha) (IsString-tail m b q hb)
      (omega arith),
)

-- strncmp orders the prefixes of `n` bytes of two strings lexicographically.
pub strncmp-eq-lex :
    (n a b p q : ℕ) (m : Memory)
    → IsString m a p
    → IsString m b q
    → strncmp m a b n ≡ lex (take n (slice m a p)) (take n (slice m b q))
unfolding strncmp
strncmp-eq-lex zero a b p q m ha hb = refl
strncmp-eq-lex (suc n) a b zero zero m ha hb = ground (arith, empty_nul m a ha, empty_nul m b hb)
strncmp-eq-lex (suc n) a b zero (suc q) m ha hb =
    ground (arith, empty_nul m a ha, first_ne m b q hb)
strncmp-eq-lex (suc n) a b (suc p) zero m ha hb =
    ground (arith, first_ne m a p ha, empty_nul m b hb)
strncmp-eq-lex (suc n) a b (suc p) (suc q) m ha hb = ground (
  arith,
  first_ne m a p ha,
  first_ne m b q hb,
  strncmp-eq-lex n (a + 1) (b + 1) p q m (IsString-tail m a p ha) (IsString-tail m b q hb),
)
