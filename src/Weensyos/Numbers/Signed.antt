-- ===== src/Weensyos/Numbers/Signed.antt =====
-- strtol of weensyos/lib.cc on the digits of fill_numbuf with and without a minus sign in front.
use c_proj.Base.{
  ℕ, ◌-◌, ◌^◌, ◌≤◌, ◌<◌, ◌≡◌, refl, sym, ap, Bool, false, some, List, [], ◌∷◌, arith, ltb,
  ltb-false, ◌==◌, length, subst,
}
use c_proj.Weensyos.Numbers.{skip_spaces, strtoul, strtol, fill_numbuf, digit_char}
use c_proj.Weensyos.Numbers.Digits.{
  digits_back, decimal, strtoul-digits, Front, digit_char-ge, skip_spaces-digit,
}

strtol-minus :
    (s : List ℕ) (v : ℕ)
    → v ≤ 2 ^ 63
    → 0 < v
    → strtoul 10 s ≡ (v, [])
    → strtol 10 (b'-' ∷ s) ≡ (2 ^ 64 - v, [])
unfolding strtol skip_spaces
strtol-minus s v h positive e =
    let within_bound : ltb (2 ^ 63 - 0) v ≡ false = ltb-false _ _ (omega arith) in
    rw (e, within_bound, strtol) (ap (λ x. (x, [])) (omega arith))

strtol-plain :
    (lower : Bool) (s : List ℕ) (v : ℕ)
    → v < 2 ^ 63
    → Front lower 10 decimal s
    → strtoul 10 s ≡ (v, [])
    → strtol 10 s ≡ (v, [])
unfolding strtol
strtol-plain lower s v h (d, t, at, low, x, upper) e =
    let first = digit_char-ge lower d in
    let no_sign : (digit_char lower d == b'-') ≡ false = ground arith in
    let within_bound : ltb (2 ^ 63 - 1) v ≡ false = ltb-false _ _ (omega arith) in
    let e1 : strtoul 10 (digit_char lower d ∷ t) ≡ (v, []) =
      subst (λ x. strtoul 10 x ≡ (v, [])) at e in
    subst (λ x. strtol 10 x ≡ (v, [])) (sym at)
      (rw (skip_spaces-digit (digit_char lower d) t first, no_sign, e1, within_bound, strtol) refl)

-- The digits of a number as fill_numbuf writes them: strtol reads a number below 2 ^ 63 back, and with
-- a minus sign in front the bit pattern of its opposite, for a number from 1 to 2 ^ 63.
pub strtol-fill_numbuf :
    (lower : Bool) (v : ℕ)
    → v ≤ 2 ^ 63
    → (s : List ℕ) × (fill_numbuf lower 10 v ≡ some s)
      × (length s ≤ 20)
      × (v < 2 ^ 63 → strtol 10 s ≡ (v, []))
      × (0 < v → strtol 10 (b'-' ∷ s) ≡ (2 ^ 64 - v, []))
strtol-fill_numbuf lower v h =
    let (s, e, l, value, front) = digits_back lower 10 decimal 19 v (omega arith) (omega arith) in
    let reads = strtoul-digits lower 10 decimal s v (ground arith) front value in
    (s, e, l, (λ k. strtol-plain lower s v k front reads), λ k. strtol-minus s v h k reads)
