-- ===== src/Weensyos/Numbers/Parse.antt =====
-- strtoul of weensyos/lib.cc against the unbounded value of the digits, and the digits it accepts.
use native.Mathlib.Nat.{div-lt_iff_lt-mul}
use c_proj.Base.{
  ℕ, zero, suc, ◌+◌, ◌-◌, ◌*◌, ◌/◌, ◌%◌, ◌^◌, ◌≤◌, ◌<◌, ◌≡◌, ◌↔◌, refl, Bool, true, false, Option,
  none, some, List, [], ◌∷◌, arith, min, leb, ltb, ltb-true, if◌then◌else◌, ◌&&◌, Bool-cases,
  Option-cases, inl, inr,
}
use c_proj.Weensyos.Numbers.{
  digit_of, ulong_max, add_digit, digits_loop, choose_base, read_sign, skip_spaces, finish, strtoul,
}

-- The value of the digits in front, however large it is, and what stands behind them.
unfoldable pub horner : (base x : ℕ) → List ℕ → ℕ × List ℕ
horner base x [] = (x, [])
horner base x (c ∷ s) = elim (digit_of base c) [
  | none ↦ (x, c ∷ s)
  | some d ↦ horner base (x * base + d) s
]

digit_of-lt : (base c d : ℕ) → digit_of base c ≡ some d → d < 128
unfolding digit_of
digit_of-lt base c d e = ground arith

next-ge : (base x d : ℕ) → 0 < base → x ≤ x * base + d
next-ge zero x d h = omega arith
next-ge (suc base) x d h = grind arith

horner-ge : (base x : ℕ) (s : List ℕ) → 0 < base → x ≤ (horner base x s).0
unfolding horner
horner-ge base x [] h = omega arith
horner-ge base x (c ∷ s) h = elim (Option-cases (digit_of base c)) [
  | inl stop ↦ rw (stop, horner) (omega arith)
  | inr (d, more) ↦
      rw (more, horner)
        (let up = horner-ge base (x * base + d) s h in omega (arith, up, next-ge base x d h))
]

-- The test for overflow asks whether the next value has 64 bits.
overflow_lem :
    (base x d : ℕ)
    → 0 < base
    → d < 128
    → (ltb ((ulong_max - d) / base) x ≡ ltb ulong_max (x * base + d))
overflow_lem base x d h k =
    let (there, back) : (((ulong_max - d) / base < x) ↔ (ulong_max - d < x * base)) =
      div-lt_iff_lt-mul h in
    elim (Bool-cases (ltb ((ulong_max - d) / base) x)) [
      | inl over ↦ let p = there (ground arith) in ground arith
      | inr fits ↦ elim (Bool-cases (ltb ulong_max (x * base + d))) [
        | inl over ↦ let p = back (ground arith) in ground arith
        | inr small ↦ ground arith
      ]
    ]

add_digit_over :
    (base x d : ℕ) (over : Bool)
    → 0 < base
    → d < 128
    → ltb ulong_max (x * base + d) ≡ true
    → add_digit base d x over ≡ (x, true)
unfolding add_digit
add_digit_over base x d over h k e = rw (overflow_lem base x d h k, e) refl

add_digit_small :
    (base x d : ℕ) (over : Bool)
    → 0 < base
    → d < 128
    → ltb ulong_max (x * base + d) ≡ false
    → add_digit base d x over ≡ (x * base + d, over)
unfolding add_digit
add_digit_small base x d over h k e = rw (overflow_lem base x d h k, e) (ground arith)

add_digit-overflow : (base x d : ℕ) → (add_digit base d x true).1 ≡ true
unfolding add_digit
add_digit-overflow base x d = ground arith

-- Once it has overflowed it stays so.
digits_loop-overflow :
    (base x y : ℕ) (s : List ℕ)
    → (z : ℕ) × (digits_loop base x true s ≡ (z, true, (horner base y s).1))
unfolding digits_loop horner
digits_loop-overflow base x y [] = (x, refl)
digits_loop-overflow base x y (c ∷ s) = elim (Option-cases (digit_of base c)) [
  | inl stop ↦ (x, rw (stop, digits_loop, horner) refl)
  | inr (d, more) ↦
      let (z, e) = digits_loop-overflow base (add_digit base d x true).0 (y * base + d) s in
      (z, rw (more, digits_loop, horner, add_digit-overflow base x d) e)
]

digits_loop_lem :
    (base x : ℕ) (s : List ℕ)
    → 0 < base
    → x ≤ ulong_max
    → (z : ℕ) × (digits_loop base x false s
        ≡ (z, ltb ulong_max (horner base x s).0, (horner base x s).1))
      × ((horner base x s).0 ≤ ulong_max → z ≡ (horner base x s).0)
unfolding digits_loop horner
digits_loop_lem base x [] h k = (x, ground arith, λ _. refl)
digits_loop_lem base x (c ∷ s) h k = elim (Option-cases (digit_of base c)) [
  | inl stop ↦ (x, rw (stop, digits_loop, horner) (ground arith), λ _. rw (stop, horner) refl)
  | inr (d, more) ↦
      let low = digit_of-lt base c d more in
      elim (Bool-cases (ltb ulong_max (x * base + d))) [
        | inl over ↦
            let (z, e) = digits_loop-overflow base x (x * base + d) s in
            let up = horner-ge base (x * base + d) s h in
            (
              z,
              rw
                  (
                    more,
                    digits_loop,
                    horner,
                    add_digit_over base x d false h low over,
                    ltb-true ulong_max (horner base (x * base + d) s).0 (ground arith),
                  )
                  e,
              rw (more, horner) (λ fits. ground arith),
            )
        | inr small ↦
            let (z, e, v) = digits_loop_lem base (x * base + d) s h (ground arith) in
            (
              z,
              rw (more, digits_loop, horner, add_digit_small base x d false h low small) e,
              rw (more, horner) v,
            )
      ]
]

-- What strtoul promises, written with the unbounded value: the sign and the base are read in front,
-- a value of more than 64 bits becomes ULONG_MAX, and `-` negates modulo 2 ^ 64.
unfoldable pub promised : (base : ℕ) → List ℕ → ℕ × List ℕ
promised base text =
    let (negative, s) = read_sign (skip_spaces text) in
    let (b, digits) = choose_base base s in
    let (v, rest) = horner b 0 digits in
    let bounded : ℕ = min v ulong_max in
    (if negative then (2 ^ 64 - bounded) % 2 ^ 64 else bounded, rest)

finish_lem :
    (negative : Bool) (z v : ℕ) (rest : List ℕ)
    → (v ≤ ulong_max → z ≡ v)
    → finish negative (z, ltb ulong_max v, rest)
      ≡ (if negative then (2 ^ 64 - min v ulong_max) % 2 ^ 64 else min v ulong_max, rest)
unfolding finish
finish_lem negative z v rest h = elim (Bool-cases (ltb ulong_max v)) [
  | inl over ↦ let e : min v ulong_max ≡ ulong_max = ground arith in rw (e, over) refl
  | inr small ↦ let e : min v ulong_max ≡ v = ground arith in rw (e, small, h (ground arith)) refl
]

choose_base-pos : (base : ℕ) (s : List ℕ) → 0 < (choose_base base s).0
unfolding choose_base
choose_base-pos base s = ground arith

-- For every text and base, strtoul returns the value of what it takes for digits, behind what it takes
-- for blanks, the sign and the prefix, bounded by ULONG_MAX and negated modulo 2 ^ 64 behind a `-`, and stops at the first
-- byte that digit_of refuses.
pub strtoul_lem : (base : ℕ) (text : List ℕ) → strtoul base text ≡ promised base text
unfolding strtoul promised
strtoul_lem base text =
    let (negative, s) = read_sign (skip_spaces text) in
    let (z, e, v) =
      digits_loop_lem (choose_base base s).0 0 (choose_base base s).1 (choose_base-pos base s)
        (omega arith) in
    rw e (
      finish_lem negative z (horner (choose_base base s).0 0 (choose_base base s).1).0
        (horner (choose_base base s).0 0 (choose_base base s).1).1 v)

-- The digit that C gives a character in a base: 0 to 9, then the letters of either case from 10 on.
abbrev pub c_digit : (base c : ℕ) → Option ℕ
c_digit base c =
    let below : ℕ → Option ℕ = λ d. if ltb d base then some d else none in
    if leb b'0' c && leb c b'9'
    then below (c - b'0')
    else if leb b'a' c && leb c b'z'
    then below (c - b'a' + 10)
    else if leb b'A' c && leb c b'Z'
    then below (c - b'A' + 10)
    else none

-- strtoul reads the digits of C in every base up to 36, except that above base 10 it also takes each
-- character from `:` up to `0` + base - 1 as the digit of its distance from `0`: `:` to `?` in
-- base 16, and the upper-case letters with a wrong value from base 18 on.
pub digit_of-eq-c_digit :
    (base c : ℕ)
    → base ≤ 36
    → digit_of base c
      ≡ (if leb b':' c && ltb c (b'0' + base) then some (c - b'0') else c_digit base c)
unfolding digit_of
digit_of-eq-c_digit base c h = ground arith
