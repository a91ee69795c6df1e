-- ===== src/Weensyos/Numbers/Texts.antt =====
-- What strtoul of weensyos/lib.cc makes of a text that spells a number in a base up to 16.
use c_proj.Base.{
  ℕ, ◌+◌, ◌-◌, ◌*◌, ◌%◌, ◌^◌, ◌≤◌, ◌<◌, ◌≡◌, ◌≢◌, ◌⊎◌, refl, ap, ◌∙◌, Bool, true, false, ◌&&◌, none,
  some, List, [], ◌∷◌, ◌++◌, arith, length, min, leb, ◌==◌, if◌then◌else◌,
}
use c_proj.Weensyos.Numbers.{
  isspace, char_at, digit_of, choose_base, read_sign, skip_spaces, strtoul,
}
use c_proj.Weensyos.Numbers.Parse.{horner, promised, strtoul_lem}

-- The value of a character as a digit: 0 to 9, then the letters of either case from 10 on, and 36 for
-- any other character.
abbrev pub digit_value : ℕ → ℕ
digit_value c =
    if leb b'0' c && leb c b'9'
    then c - b'0'
    else if leb b'a' c && leb c b'z'
    then c - b'a' + 10
    else if leb b'A' c && leb c b'Z'
    then c - b'A' + 10
    else 36

abbrev pub AreDigits : (base : ℕ) → List ℕ → Type 0
AreDigits base [] = Unit
AreDigits base (c ∷ s) = (digit_value c < base) × AreDigits base s

-- The number that the digits behind `x` spell.
abbrev pub number_of : (base x : ℕ) → List ℕ → ℕ
number_of base x [] = x
number_of base x (c ∷ s) = number_of base (x * base + digit_value c) s

-- Blanks, tabulators and the other characters that move the cursor.
abbrev pub AreBlank : List ℕ → Type 0
AreBlank [] = Unit
AreBlank (c ∷ s) = ((c ≡ 32) ⊎ ((9 ≤ c) × (c ≤ 13))) × AreBlank s

-- The text ends, or goes on with a character that is no digit and that strtoul does not take for one.
abbrev pub Stops : (base : ℕ) → List ℕ → Type 0
Stops base [] = Unit
Stops base (c ∷ s) = (base ≤ digit_value c) × ((c ≤ b'9') ⊎ (b'0' + base ≤ c))

-- In base 16 the second character is no `x`.
abbrev pub Unprefixed : (base : ℕ) → List ℕ → Type 0
Unprefixed base s = (base ≢ 16) ⊎ ((char_at s 1 ≢ b'x') × (char_at s 1 ≢ b'X'))

pub data Sign : Type 0 where
  no_sign plus_sign minus_sign : Sign

abbrev pub sign_text : Sign → List ℕ
sign_text no_sign = []
sign_text plus_sign = b'+' ∷ []
sign_text minus_sign = b'-' ∷ []

abbrev pub signed_value : Sign → ℕ → ℕ
signed_value minus_sign v = (2 ^ 64 - v) % 2 ^ 64
signed_value _ v = v

abbrev is_minus : Sign → Bool
is_minus minus_sign = true
is_minus _ = false

digit_of-value :
    (base c : ℕ) → base ≤ 16 → digit_value c < base → digit_of base c ≡ some (digit_value c)
unfolding digit_of
digit_of-value base c h lt = ground arith

digit_of-stop :
    (base c : ℕ)
    → base ≤ 16
    → base ≤ digit_value c
    → (c ≤ b'9') ⊎ (b'0' + base ≤ c)
    → digit_of base c ≡ none
unfolding digit_of
digit_of-stop base c h no_digit apart = ground arith

horner-digits :
    (base x : ℕ) (digits rest : List ℕ)
    → base ≤ 16
    → AreDigits base digits
    → Stops base rest
    → horner base x (digits ++ rest) ≡ (number_of base x digits, rest)
unfolding horner
horner-digits base x [] [] h all stop = refl
horner-digits base x [] (c ∷ s) h all (no_digit, apart) =
    rw (digit_of-stop base c h no_digit apart, horner) refl
horner-digits base x (c ∷ digits) rest h (lt, all) stop =
    rw (digit_of-value base c h lt, horner)
      (horner-digits base (x * base + digit_value c) digits rest h all stop)

skip_spaces-blank :
    (blanks s : List ℕ) → AreBlank blanks → skip_spaces s ≡ s → skip_spaces (blanks ++ s) ≡ s
unfolding skip_spaces
skip_spaces-blank [] s all e = e
skip_spaces-blank (c ∷ blanks) s (blank, all) e =
    let space : isspace c ≡ true = ground arith in
    rw (space, skip_spaces) (skip_spaces-blank blanks s all e)

-- Behind the blanks there is a sign or a digit.
skip_spaces-sign :
    (base : ℕ) (sign : Sign) (digits rest : List ℕ)
    → base ≤ 16
    → 0 < length digits
    → AreDigits base digits
    → skip_spaces (sign_text sign ++ (digits ++ rest)) ≡ sign_text sign ++ (digits ++ rest)
unfolding skip_spaces
skip_spaces-sign base plus_sign digits rest h pos all = refl
skip_spaces-sign base minus_sign digits rest h pos all = refl
skip_spaces-sign base no_sign [] rest h pos all = absurd (omega arith)
skip_spaces-sign base no_sign (c ∷ digits) rest h pos (lt, all) =
    let other : isspace c ≡ false = ground arith in rw (other, skip_spaces) refl

read_sign-text :
    (base : ℕ) (sign : Sign) (digits rest : List ℕ)
    → base ≤ 16
    → 0 < length digits
    → AreDigits base digits
    → read_sign (sign_text sign ++ (digits ++ rest)) ≡ (is_minus sign, digits ++ rest)
unfolding read_sign
read_sign-text base plus_sign digits rest h pos all = refl
read_sign-text base minus_sign digits rest h pos all = refl
read_sign-text base no_sign [] rest h pos all = absurd (omega arith)
read_sign-text base no_sign (c ∷ digits) rest h pos (lt, all) =
    let no_minus : (c == b'-') ≡ false = ground arith in
    let no_plus : (c == b'+') ≡ false = ground arith in rw (no_minus, no_plus) refl

choose_base-text :
    (base : ℕ) (s : List ℕ) → 2 ≤ base → Unprefixed base s → choose_base base s ≡ (base, s)
unfolding choose_base
choose_base-text base s h none_there = ground arith

signed_value-is_minus :
    (sign : Sign) (v : ℕ)
    → (if is_minus sign then (2 ^ 64 - v) % 2 ^ 64 else v) ≡ signed_value sign v
signed_value-is_minus no_sign v = refl
signed_value-is_minus plus_sign v = refl
signed_value-is_minus minus_sign v = refl

-- For a base from 2 to 16 and a text of blanks, a sign or none, digits of the base (at least one) and a
-- rest, strtoul returns the number that the digits spell, or ULONG_MAX where that is less, negated
-- modulo 2 ^ 64 behind a `-`, and stops at the rest; where the rest is empty or begins with a character
-- that is no digit and does not lie from `:` up to `0` + base - 1, and in base 16 the second character
-- behind the sign is no `x`.
pub strtoul_text :
    (base : ℕ) (blanks : List ℕ) (sign : Sign) (digits rest : List ℕ)
    → 2 ≤ base
    → base ≤ 16
    → AreBlank blanks
    → 0 < length digits
    → AreDigits base digits
    → Stops base rest
    → Unprefixed base (digits ++ rest)
    → strtoul base (blanks ++ (sign_text sign ++ (digits ++ rest)))
      ≡ (signed_value sign (min (number_of base 0 digits) (2 ^ 64 - 1)), rest)
unfolding promised
strtoul_text base blanks sign digits rest lo hi blank pos all stop plain =
    let skipped =
      skip_spaces-blank blanks (sign_text sign ++ (digits ++ rest)) blank
        (skip_spaces-sign base sign digits rest hi pos all) in
    strtoul_lem base (blanks ++ (sign_text sign ++ (digits ++ rest)))
    ∙ rw
        (
          promised,
          skipped,
          read_sign-text base sign digits rest hi pos all,
          choose_base-text base (digits ++ rest) lo plain,
          horner-digits base 0 digits rest hi all stop,
        )
        (ap (λ (v : ℕ). (v, rest))
          (signed_value-is_minus sign (min (number_of base 0 digits) (2 ^ 64 - 1))))
