-- ===== src/Weensyos/Numbers/Digits.antt =====
-- fill_numbuf of weensyos/lib.cc ends, fits its buffer, and is read back by strtoul.
use mathlib.Core.Option.{some-injective}
use native.Mathlib.Numerals.{unary_clauses}
use c_proj.Base.{
  ℕ, zero, suc, ◌+◌, ◌/◌, ◌%◌, ◌^◌, ◌≤◌, ◌<◌, ◌≡◌, ◌≢◌, refl, sym, ◌∙◌, Bool, true, false, some,
  List, [], ◌∷◌, arith, ◌==◌, Bool-cases, length, inl, inr,
}
use c_proj.Weensyos.Numbers.{
  digit_of, add_digit, digits_loop, digit_char, char_at, fill_loop, fill_numbuf, skip_spaces,
  read_sign, choose_base, finish, strtoul,
}

-- A digit that fill_numbuf writes is read as itself.
digit_of-digit_char_10 : (lower : Bool) (d : ℕ) → d < 10 → digit_of 10 (digit_char lower d) ≡ some d
unfolding digit_of
digit_of-digit_char_10 lower d h = ground arith

digit_of-digit_char_16 : (lower : Bool) (d : ℕ) → d < 16 → digit_of 16 (digit_char lower d) ≡ some d
unfolding digit_of
digit_of-digit_char_16 true d h = ground arith
digit_of-digit_char_16 false d h = ground arith

-- A digit that fits does not overflow.
add_digit_fits : (v : ℕ) → v < 2 ^ 64 → add_digit 10 (v % 10) (v / 10) false ≡ (v, false)
unfolding add_digit
add_digit_fits v h = ground arith

add_digit_fits_16 : (v : ℕ) → v < 2 ^ 64 → add_digit 16 (v % 16) (v / 16) false ≡ (v, false)
unfolding add_digit
add_digit_fits_16 v h = ground arith

-- What a base needs for the round trip, for values of 64 bits.
pub record ReadsBack (base : ℕ) : Type 0 where
  pub digit_back :
      (lower : Bool) (v : ℕ) → digit_of base (digit_char lower (v % base)) ≡ some (v % base)
  pub no_overflow : (v : ℕ) → v < 2 ^ 64 → add_digit base (v % base) (v / base) false ≡ (v, false)
  pub zero_front : (v : ℕ) → v / base ≡ 0 → add_digit base (v % base) 0 false ≡ (v % base, false)
  pub one_digit : (v : ℕ) → v / base ≡ 0 → v % base ≡ v
  pub fewer : (v n : ℕ) → v < base ^ suc n → v / base < base ^ n
  pub digit_below : (v : ℕ) → v % base < 16
  pub halves : (v : ℕ) → v / base ≤ v / 2

pub decimal : ReadsBack 10
unfolding add_digit
decimal = record {
  digit_back = λ lower v. digit_of-digit_char_10 lower (v % 10) (omega arith);
  no_overflow = add_digit_fits;
  zero_front = λ v h. ground arith;
  one_digit = λ v h. omega arith;
  fewer = λ v n h. ground arith;
  digit_below = λ v. omega arith;
  halves = λ v. omega arith;
}

pub hexadecimal : ReadsBack 16
unfolding add_digit
hexadecimal = record {
  digit_back = λ lower v. digit_of-digit_char_16 lower (v % 16) (omega arith);
  no_overflow = add_digit_fits_16;
  zero_front = λ v h. ground arith;
  one_digit = λ v h. omega arith;
  fewer = λ v n h. ground arith;
  digit_below = λ v. omega arith;
  halves = λ v. omega arith;
}

module _ (lower : Bool) (base : ℕ) (back : ReadsBack base) where
  one_more :
      (v x : ℕ) (text : List ℕ)
      → add_digit base (v % base) x false ≡ (v, false)
      → digits_loop base x false (digit_char lower (v % base) ∷ text)
        ≡ digits_loop base v false text
  unfolding digits_loop
  one_more v x text fits = rw (back.digit_back lower v, digits_loop, fits)

  -- The digits of `v` in front of a text leave the loop of strtoul with the value `v`.
  loop-fill_loop :
      (fuel v : ℕ) (text s : List ℕ)
      → v < 2 ^ 64
      → fill_loop fuel lower base v text ≡ some s
      → digits_loop base 0 false s ≡ digits_loop base v false text
  unfolding fill_loop
  loop-fill_loop zero v text s h e = cc
  loop-fill_loop (suc fuel) v text s h e = elim (Bool-cases (v / base == 0)) [
    | inl last ↦
        let low : v / base ≡ 0 = ground arith in
        let value = back.one_digit v low in
        let written : digit_char lower (v % base) ∷ text ≡ s =
          some-injective _ _ (rw (last, fill_loop) at e) in
        rw (← written) (one_more v 0 text (back.zero_front v low ∙ (λ i. (value i, false))))
    | inr more ↦
        loop-fill_loop fuel (v / base) (digit_char lower (v % base) ∷ text) s
          (omega (arith, back.halves v)) (rw (more, fill_loop) at e)
        ∙ one_more v (v / base) text (back.no_overflow v h)
  ]

  -- Enough rounds for a value of `fuel + 1` bits, and as many digits as the power of the base says.
  fill_loop_total :
      (fuel v n : ℕ) (text : List ℕ)
      → v < 2 ^ suc fuel
      → v < base ^ suc n
      → (s : List ℕ) × (fill_loop (suc fuel) lower base v text ≡ some s)
        × (length s ≤ suc n + length text)
  unfolding fill_loop
  fill_loop_total zero v n text h k =
      let last : v / base ≡ 0 = omega (arith, back.halves v) in
      (digit_char lower (v % base) ∷ text, rw (last, fill_loop) refl, omega arith)
  fill_loop_total (suc fuel) v zero text h k =
      let low : v / base < 1 = simp unary_clauses at (back.fewer v 0 k) in
      let last : v / base ≡ 0 = omega arith in
      (digit_char lower (v % base) ∷ text, rw (last, fill_loop) refl, omega arith)
  fill_loop_total (suc fuel) v (suc n) text h k = elim (Bool-cases (v / base == 0)) [
    | inl last ↦ (digit_char lower (v % base) ∷ text, rw (last, fill_loop) refl, omega arith)
    | inr more ↦
        let (s, e, l) =
          fill_loop_total fuel (v / base) n (digit_char lower (v % base) ∷ text)
            (ground (arith, back.halves v)) (back.fewer v (suc n) k) in
        (s, rw (more, fill_loop) e, omega arith)
  ]

  -- What stands in front: a digit, and no `x` behind it.
  abbrev pub Front : List ℕ → Type 0
  Front s =
      (d : ℕ) × (t : List ℕ) × (s ≡ digit_char lower d ∷ t)
      × (d < 16)
      × (char_at t 0 ≢ b'x')
      × (char_at t 0 ≢ b'X')

  fill_loop-Front :
      (fuel v : ℕ) (text s : List ℕ)
      → char_at text 0 ≢ b'x'
      → char_at text 0 ≢ b'X'
      → fill_loop fuel lower base v text ≡ some s
      → Front s
  unfolding fill_loop
  fill_loop-Front zero v text s h k e = cc
  fill_loop-Front (suc fuel) v text s h k e = elim (Bool-cases (v / base == 0)) [
    | inl last ↦ (
      v % base,
      text,
      sym (some-injective _ _ (rw (last, fill_loop) at e)),
      back.digit_below v,
      h,
      k,
    )
    | inr more ↦
        fill_loop-Front fuel (v / base) (digit_char lower (v % base) ∷ text) s
          (let d = back.digit_below v in ground arith) (let d = back.digit_below v in ground arith)
          (rw (more, fill_loop) at e)
  ]

-- What the two halves of the round trip share: a text of digits, with a front that strtoul keeps.
pub digits_back :
    (lower : Bool) (base : ℕ) (back : ReadsBack base) (n v : ℕ)
    → v < 2 ^ 64
    → v < base ^ suc n
    → (s : List ℕ) × (fill_numbuf lower base v ≡ some s)
      × (length s ≤ suc n)
      × (digits_loop base 0 false s ≡ (v, false, []))
      × Front lower base back s
unfolding fill_numbuf digits_loop
digits_back lower base back n v h k =
    let (s, e, l) = fill_loop_total lower base back 63 v n [] h k in
    (
      s,
      e,
      omega arith,
      loop-fill_loop lower base back 64 v [] s h e,
      fill_loop-Front lower base back 64 v [] s (ground arith) (ground arith) e,
    )

pub digit_char-ge : (lower : Bool) (d : ℕ) → b'0' ≤ digit_char lower d
digit_char-ge true d = ground arith
digit_char-ge false d = ground arith

-- The three steps in front of the loop of strtoul, on a text that begins with a digit or a letter.
pub skip_spaces-digit : (c : ℕ) (t : List ℕ) → b'0' ≤ c → skip_spaces (c ∷ t) ≡ c ∷ t
unfolding skip_spaces
skip_spaces-digit c t h = ground arith

read_sign-digit : (c : ℕ) (t : List ℕ) → b'0' ≤ c → read_sign (c ∷ t) ≡ (false, c ∷ t)
unfolding read_sign
read_sign-digit c t h = ground arith

choose_base-digit :
    (base c : ℕ) (t : List ℕ)
    → base ≢ 0
    → char_at t 0 ≢ b'x'
    → char_at t 0 ≢ b'X'
    → choose_base base (c ∷ t) ≡ (base, c ∷ t)
unfolding choose_base
choose_base-digit base c t nonzero x upper = ground arith

-- strtoul leaves a text alone that begins with a digit and has no `x` behind it.
pub strtoul-digits :
    (lower : Bool) (base : ℕ) (back : ReadsBack base) (s : List ℕ) (v : ℕ)
    → base ≢ 0
    → Front lower base back s
    → digits_loop base 0 false s ≡ (v, false, [])
    → strtoul base s ≡ (v, [])
unfolding strtoul finish
strtoul-digits lower base back s v nonzero (d, t, at, low, x, upper) e =
    let h = digit_char-ge lower d in
    rw
      (
        at,
        skip_spaces-digit (digit_char lower d) t h,
        read_sign-digit (digit_char lower d) t h,
        choose_base-digit base (digit_char lower d) t nonzero x upper,
        ← at,
        e,
      )
      refl

-- A value of 64 bits in decimal: fill_numbuf ends, writes at most 20 digits, which its buffer of 24
-- bytes holds, and strtoul in base 10 reads the value back and stops at the end.
pub strtoul-fill_numbuf_decimal :
    (lower : Bool) (v : ℕ)
    → v < 2 ^ 64
    → (s : List ℕ) × (fill_numbuf lower 10 v ≡ some s) × (length s ≤ 20) × (strtoul 10 s ≡ (v, []))
strtoul-fill_numbuf_decimal lower v h =
    let (s, e, l, value, front) = digits_back lower 10 decimal 19 v h (omega arith) in
    (s, e, l, strtoul-digits lower 10 decimal s v (ground arith) front value)

-- A value of 64 bits in hexadecimal, in either case: fill_numbuf ends, writes at most 16 digits, and
-- strtoul in base 16 reads the value back and stops at the end.
pub strtoul-fill_numbuf_hexadecimal :
    (lower : Bool) (v : ℕ)
    → v < 2 ^ 64
    → (s : List ℕ) × (fill_numbuf lower 16 v ≡ some s) × (length s ≤ 16) × (strtoul 16 s ≡ (v, []))
strtoul-fill_numbuf_hexadecimal lower v h =
    let (s, e, l, value, front) = digits_back lower 16 hexadecimal 15 v h (omega arith) in
    (s, e, l, strtoul-digits lower 16 hexadecimal s v (ground arith) front value)
