-- ===== src/Weensyos/Numbers.antt =====
-- Numbers and text in weensyos/lib.cc and lib.hh: strtoul, fill_numbuf and rand. A C string is the
-- list of its bytes before the NUL; reading at the end of the list reads the NUL.
pub mod Digits
pub mod Signed
pub mod Parse
pub mod Texts
pub mod Random
mod Tests
use c_proj.Base.{
  ℕ, zero, suc, ◌+◌, ◌-◌, ◌*◌, ◌/◌, ◌%◌, ◌^◌, Bool, true, false, ◌&&◌, ◌||◌, Option, none, some,
  List, [], ◌∷◌, ltb, leb, ◌==◌, if◌then◌else◌,
}

abbrev pub isspace : ℕ → Bool
isspace c = (leb 9 c && leb c 13) || c == b' '

-- `s[0]` and `s[1]`
abbrev pub char_at : List ℕ → ℕ → ℕ
char_at [] i = 0
char_at (c ∷ s) zero = c
char_at (c ∷ s) (suc i) = char_at s i

abbrev pub skip : List ℕ → ℕ → List ℕ
skip s zero = s
skip [] (suc n) = []
skip (c ∷ s) (suc n) = skip s n

unfoldable pub skip_spaces : List ℕ → List ℕ
skip_spaces [] = []
skip_spaces (c ∷ s) = elim (isspace c) [ true ↦ skip_spaces s | false ↦ c ∷ s ]

-- A `0x` or `0X` in front.
abbrev pub has_hex_prefix : List ℕ → Bool
has_hex_prefix s = char_at s 0 == b'0' && (char_at s 1 == b'x' || char_at s 1 == b'X')

-- The base that is used, and what is left to read.
unfoldable pub choose_base : ℕ → List ℕ → ℕ × List ℕ
choose_base base s =
    if base == 0
    then (if has_hex_prefix s
        then (16, skip s 2)
        else if char_at s 0 == b'0'
        then (8, s)
        else (10, s))
    else if base == 16 && has_hex_prefix s
    then (base, skip s 2)
    else (base, s)

-- The three tests of the loop of strtoul. A `char` is signed, so a byte from 128 on is no digit.
unfoldable pub digit_of : (base c : ℕ) → Option ℕ
digit_of base c =
    if leb 128 c
    then none
    else if leb b'0' c && ltb c (b'0' + base)
    then some (c - b'0')
    else if ltb 10 base && leb b'a' c && ltb c (b'a' + base - 10)
    then some (c - b'a' + 10)
    else if ltb 10 base && leb b'A' c && ltb c (b'A' + base - 10)
    then some (c - b'A' + 10)
    else none

-- -1UL
abbrev pub ulong_max : ℕ
ulong_max = 2 ^ 64 - 1

-- One digit: the value and whether it has overflowed.
unfoldable pub add_digit : (base d x : ℕ) (overflow : Bool) → ℕ × Bool
add_digit base d x overflow =
    if ltb ((ulong_max - d) / base) x then (x, true) else ((x * base + d) % 2 ^ 64, overflow)

unfoldable pub digits_loop : (base x : ℕ) (overflow : Bool) → List ℕ → ℕ × Bool × List ℕ
digits_loop base x overflow [] = (x, overflow, [])
digits_loop base x overflow (c ∷ s) = elim (digit_of base c) [
  | none ↦ (x, overflow, c ∷ s)
  | some d ↦ digits_loop base (add_digit base d x overflow).0 (add_digit base d x overflow).1 s
]

-- `negative` and the text behind a sign.
unfoldable pub read_sign : List ℕ → Bool × List ℕ
read_sign s =
    (char_at s 0 == b'-', if char_at s 0 == b'-' || char_at s 0 == b'+' then skip s 1 else s)

-- The last lines of strtoul.
unfoldable pub finish : (negative : Bool) → ℕ × Bool × List ℕ → ℕ × List ℕ
finish negative (x, overflow, rest) =
    let x' : ℕ = if overflow then ulong_max else x in
    (if negative then (2 ^ 64 - x') % 2 ^ 64 else x', rest)

-- The value, and where `*endptr` points.
unfoldable pub strtoul : (base : ℕ) → List ℕ → ℕ × List ℕ
strtoul base text =
    let (negative, s) = read_sign (skip_spaces text) in
    let (b, digits) = choose_base base s in finish negative (digits_loop b 0 false digits)

-- The value of strtol by its bit pattern, and where `*endptr` points.
unfoldable pub strtol : (base : ℕ) → List ℕ → ℕ × List ℕ
strtol base text =
    let s : List ℕ = skip_spaces text in
    let negative : Bool = char_at s 0 == b'-' in
    let (u, rest) = strtoul base (if negative then skip s 1 else s) in
    let bound : ℕ = 2 ^ 63 - (if negative then 0 else 1) in
    let cut : ℕ = if ltb bound u then bound else u in
    (if negative then (2 ^ 64 - cut) % 2 ^ 64 else cut, rest)

-- The character of a digit, in upper or lower case.
abbrev pub digit_char : (lower : Bool) (d : ℕ) → ℕ
digit_char lower d =
    if ltb d 10 then b'0' + d else if lower then b'a' + (d - 10) else b'A' + (d - 10)

-- The loop of fill_numbuf, which fills the buffer from its end: `text` is what stands there. A
-- negative base selects lower case.
unfoldable pub fill_loop : (fuel : ℕ) (lower : Bool) (base val : ℕ) → List ℕ → Option (List ℕ)
fill_loop zero lower base val text = none
fill_loop (suc fuel) lower base val text = elim (val / base == 0) [
  | true ↦ some (digit_char lower (val % base) ∷ text)
  | false ↦ fill_loop fuel lower base (val / base) (digit_char lower (val % base) ∷ text)
]

-- A digit takes one round, and 64 are enough for every value and base.
unfoldable pub fill_numbuf : (lower : Bool) (base val : ℕ) → Option (List ℕ)
fill_numbuf lower base val = fill_loop 64 lower base val []

abbrev pub rand_max : ℕ
rand_max = 0x7FFFFFFF

-- The static variables of rand.
pub record RandState : Type 0 where
  pub seed_set : Bool
  pub seed : ℕ

-- srand: the seed in both halves.
unfoldable pub srand : ℕ → RandState
srand s = record { seed_set = true; seed = (s % 2 ^ 32) * 2 ^ 32 + s % 2 ^ 32 }

-- `& RAND_MAX` keeps the low 31 bits.
unfoldable pub next_rand : ℕ → ℕ × RandState
next_rand seed =
    let seed' : ℕ = (seed * 6364136223846793005 + 1) % 2 ^ 64 in
    (seed' / 2 ^ 32 % 2 ^ 31, record { seed_set = true; seed = seed' })

unfoldable pub rand : RandState → ℕ × RandState
rand r = next_rand (if r.seed_set then r.seed else (srand 819234718).seed)

-- What rand(min, max) comes to.
pub data Drawn : Type 0 where
  drawn : ℕ → RandState → Drawn
  assertion_failed : Drawn
  -- `max - min + 1` does not fit an int.
  int_overflow : Drawn

-- rand(min, max), for `min` and `max` that are not negative.
unfoldable pub rand_range : (lo hi : ℕ) → RandState → Drawn
rand_range lo hi r =
    if leb lo hi && leb (hi - lo) rand_max
    then (if hi - lo == rand_max
        then int_overflow
        else drawn (lo + (rand r).0 * (hi - lo + 1) % 2 ^ 64 / (rand_max + 1)) (rand r).1)
    else assertion_failed
