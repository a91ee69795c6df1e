-- ===== src/Base/Blocks.antt =====
-- Memory as a function from addresses to bytes: block reads and block writes.
use Prim.Native.Nat.{ℕ, zero, suc, ◌+◌, ◌-◌, ◌≤◌, ◌<◌}
use mathlib.Core.Path.{◌≡◌, refl, sym, ap, ap₂, ◌∙◌}
use mathlib.Core.Bool.{Bool, ◌&&◌}
use mathlib.Core.List.{List, [], ◌∷◌, ◌++◌}
use native.Mathlib.Omega.{arith}
use c_proj.Base.Tests.{ltb, leb, if◌then◌else◌}
use native.Mathlib.Decide.{dec_lt}
use c_proj.Base.Lists.{length, get_or, length-append, get_or-append_left, get_or-append_right}

abbrev pub Memory : Type 0
Memory = ℕ → ℕ

-- Is `i` one of the `n` addresses from `a` on?
abbrev pub within : ℕ → ℕ → ℕ → Bool
within a n i = leb a i && ltb i (a + n)

-- The bytes `bs` written from address `a` on.
abbrev pub patch : Memory → ℕ → List ℕ → Memory
patch m a bs i = if within a (length bs) i then get_or bs (i - a) 0 else m i

-- The `n` bytes from address `a` on.
abbrev pub slice : Memory → ℕ → ℕ → List ℕ
slice m a zero = []
slice m a (suc n) = m a ∷ slice m (a + 1) n

pub length-slice : (m : Memory) (a n : ℕ) → length (slice m a n) ≡ n
length-slice m a zero = refl
length-slice m a (suc n) = ap suc (length-slice m (a + 1) n)

pub get_or-slice : (m : Memory) (a n i : ℕ) → i < n → get_or (slice m a n) i 0 ≡ m (a + i)
get_or-slice m a zero i h = absurd (omega arith)
get_or-slice m a (suc n) zero h = ap m (omega arith)
get_or-slice m a (suc n) (suc i) h = get_or-slice m (a + 1) n i (omega arith) ∙ ap m (omega arith)

-- Two memories that agree on a range have the same slice there.
pub slice-eq :
    (m m' : Memory) (a b n : ℕ)
    → ((i : ℕ) → i < n → m (a + i) ≡ m' (b + i))
    → slice m a n ≡ slice m' b n
slice-eq m m' a b zero h = refl
slice-eq m m' a b (suc n) h =
    ap₂ (λ x xs. x ∷ xs) (ap m (omega arith) ∙ h 0 (omega arith) ∙ ap m' (omega arith))
      (slice-eq m m' (a + 1) (b + 1) n
        (λ i p. ap m (omega arith) ∙ h (suc i) (omega arith) ∙ ap m' (omega arith)))

pub slice-append : (m : Memory) (a n k : ℕ) → slice m a n ++ slice m (a + n) k ≡ slice m a (n + k)
slice-append m a zero k = ap₂ (slice m) (omega arith) (omega arith)
slice-append m a (suc n) k =
    let e : suc n + k ≡ suc (n + k) = omega arith in
    let e' : a + suc n ≡ a + 1 + n = omega arith in
    rw (e, e') (ap (λ xs. m a ∷ xs) (slice-append m (a + 1) n k))

-- What a patch holds inside and outside the range that it writes.
pub patch_inside :
    (m : Memory) (a : ℕ) (bs : List ℕ) (i : ℕ)
    → a ≤ i
    → i < a + length bs
    → patch m a bs i ≡ get_or bs (i - a) 0
patch_inside m a bs i h k = ground arith

pub patch_below : (m : Memory) (a : ℕ) (bs : List ℕ) (i : ℕ) → i < a → patch m a bs i ≡ m i
patch_below m a bs i h = ground arith

pub patch_above :
    (m : Memory) (a : ℕ) (bs : List ℕ) (i : ℕ) → a + length bs ≤ i → patch m a bs i ≡ m i
patch_above m a bs i h = ground arith

pub patch-slice_inside :
    (m m' : Memory) (a b n i : ℕ)
    → a ≤ i
    → i < a + n
    → patch m a (slice m' b n) i ≡ m' (b + (i - a))
patch-slice_inside m m' a b n i h k =
    patch_inside m a (slice m' b n) i h (omega (arith, length-slice m' b n))
    ∙ get_or-slice m' b n (i - a) (omega arith)

-- Two patches one behind the other are one patch.
pub patch-append :
    (m : Memory) (a b : ℕ) (xs ys : List ℕ) (i : ℕ)
    → b ≡ a + length xs
    → patch (patch m a xs) b ys i ≡ patch m a (xs ++ ys) i
patch-append m a b xs ys i e =
    let total = length-append xs ys in
    elim (dec_lt i a) [
      | yes low ↦
          patch_below (patch m a xs) b ys i (omega arith)
          ∙ patch_below m a xs i low
          ∙ sym (patch_below m a (xs ++ ys) i low)
      | no ge ↦ elim (dec_lt i b) [
        | yes first ↦
            patch_below (patch m a xs) b ys i first
            ∙ patch_inside m a xs i (omega arith) (omega arith)
            ∙ sym (get_or-append_left xs ys (i - a) 0 (omega arith))
            ∙ sym (patch_inside m a (xs ++ ys) i (omega arith) (omega arith))
        | no ge_b ↦ elim (dec_lt i (b + length ys)) [
          | yes second ↦
              patch_inside (patch m a xs) b ys i (omega arith) second
              ∙ sym (get_or-append_right xs ys (i - b) 0)
              ∙ ap (λ k. get_or (xs ++ ys) k 0) (omega arith)
              ∙ sym (patch_inside m a (xs ++ ys) i (omega arith) (omega arith))
          | no ge_end ↦
              patch_above (patch m a xs) b ys i (omega arith)
              ∙ patch_above m a xs i (omega arith)
              ∙ sym (patch_above m a (xs ++ ys) i (omega arith))
        ]
      ]
    ]

-- A patch of memories that agree at an address agrees there.
pub patch-eq :
    (m m' : Memory) (a b : ℕ) (bs : List ℕ) (i : ℕ)
    → m i ≡ m' i
    → a ≡ b
    → patch m a bs i ≡ patch m' b bs i
patch-eq m m' a b bs i e f =
    (λ j. if within (f j) (length bs) i then get_or bs (i - f j) 0 else e j)

-- A slice that is byte for byte a list is that list.
pub slice-list :
    (m : Memory) (a : ℕ) (bs : List ℕ)
    → ((i : ℕ) → i < length bs → m (a + i) ≡ get_or bs i 0)
    → slice m a (length bs) ≡ bs
slice-list m a [] h = refl
slice-list m a (b ∷ bs) h =
    ap₂ (λ x xs. x ∷ xs) (ap m (omega arith) ∙ h 0 (omega arith))
      (slice-list m (a + 1) bs (λ i p. ap m (omega arith) ∙ h (suc i) (omega arith)))

pub slice-patch : (m : Memory) (a : ℕ) (bs : List ℕ) → slice (patch m a bs) a (length bs) ≡ bs
slice-patch m a bs = slice-list (patch m a bs) a bs λ i h.
    patch_inside m a bs (a + i) (omega arith) (omega arith) ∙ ap (λ k. get_or bs k 0) (omega arith)

pub patch-nil : (m : Memory) (a i : ℕ) → patch m a [] i ≡ m i
patch-nil m a i = elim (dec_lt i a) [
  | yes h ↦ patch_below m a [] i h
  | no h ↦ patch_above m a [] i (omega arith)
]
