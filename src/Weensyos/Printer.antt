-- ===== src/Weensyos/Printer.antt =====
-- printer::vprintf of weensyos/lib.cc. putc is virtual and returns nothing, so a call of vprintf is the
-- list of its calls of putc. A format or a string argument is the list of its bytes before the NUL.
pub mod Fields
pub mod Buffer
mod Tests
use mathlib.Core.List.{map}
use c_proj.Base.{
  ℕ, zero, suc, ◌+◌, ◌-◌, ◌*◌, ◌%◌, ◌^◌, Bool, true, false, not, ◌&&◌, ◌||◌, Option, none, some,
  List, [], ◌∷◌, ◌++◌, ltb, leb, ◌==◌, if◌then◌else◌, length, take,
}
use c_proj.Weensyos.Numbers.{fill_numbuf}

-- What va_arg finds: an int or a long by its bit pattern, of which the low 32 or 64 bits count, or a pointer to a string. Pointers that %p
-- prints are longs. Another type than the conversion asks for is undefined behaviour.
pub data Arg : Type 0 where
  int_arg : ℕ → Arg
  long_arg : ℕ → Arg
  text_arg : List ℕ → Arg

-- FLAG_ALT to FLAG_PLUSPOSITIVE
pub record Flags : Type 0 where
  pub alt : Bool
  pub zero_pad : Bool
  pub left : Bool
  pub space : Bool
  pub plus : Bool

abbrev pub no_flags : Flags
no_flags = record { alt = false; zero_pad = false; left = false; space = false; plus = false }

-- The position of the byte in flag_chars, "#0- +", sets the flag.
abbrev pub flag : ℕ → Flags → Option Flags
flag c f =
    if c == b'#'
    then some (record f { alt = true })
    else if c == b'0'
    then some (record f { zero_pad = true })
    else if c == b'-'
    then some (record f { left = true })
    else if c == b' '
    then some (record f { space = true })
    else if c == b'+'
    then some (record f { plus = true })
    else none

unfoldable pub read_flags : Flags → List ℕ → Flags × List ℕ
read_flags f [] = (f, [])
read_flags f (c ∷ s) = elim (flag c f) [ none ↦ (f, c ∷ s) | some f1 ↦ read_flags f1 s ]

abbrev pub isdigit : ℕ → Bool
isdigit c = leb b'0' c && leb c b'9'

-- `for (n = 0; isdigit(*format); ) n = 10 * n + *format++ - '0'` on an int. It is undefined behaviour,
-- `none`, if `10 * n + *format` overflows.
unfoldable pub read_digits : ℕ → List ℕ → Option (ℕ × List ℕ)
read_digits n [] = some (n, [])
read_digits n (c ∷ s) = elim (isdigit c) [
  | false ↦ some (n, c ∷ s)
  | true ↦ elim (ltb (10 * n + c) (2 ^ 31)) [
    | true ↦ read_digits (10 * n + c - b'0') s
    | false ↦ none
  ]
]

-- The value of an int by its bit pattern, where a negative one counts as 0.
abbrev pub from_int : ℕ → ℕ
from_int w = if ltb (w % 2 ^ 32) (2 ^ 31) then w % 2 ^ 32 else 0

abbrev pub with_args : Option (ℕ × List ℕ) → List Arg → Option (ℕ × List ℕ × List Arg)
with_args none args = none
with_args (some (n, s)) args = some (n, s, args)

abbrev pub int_star : List ℕ → List Arg → Option (ℕ × List ℕ × List Arg)
int_star s (int_arg w ∷ args) = some (w % 2 ^ 32, s, args)
int_star s _ = none

-- -1 as an int.
abbrev pub minus_one : ℕ
minus_one = 2 ^ 32 - 1

-- The width, an int by its bit pattern.
unfoldable pub read_width : List ℕ → List Arg → Option (ℕ × List ℕ × List Arg)
read_width [] args = some (minus_one, [], args)
read_width (c ∷ s) args =
    if leb b'1' c && leb c b'9'
    then with_args (read_digits 0 (c ∷ s)) args
    else if c == b'*'
    then int_star s args
    else some (minus_one, c ∷ s, args)

-- What follows the dot, an int by its bit pattern.
unfoldable pub read_after_dot : List ℕ → List Arg → Option (ℕ × List ℕ × List Arg)
read_after_dot [] args = some (minus_one, [], args)
read_after_dot (c ∷ s) args =
    if isdigit c
    then with_args (read_digits 0 (c ∷ s)) args
    else if c == b'*'
    then int_star s args
    else some (minus_one, c ∷ s, args)

-- The precision, where `none` is -1; behind a dot a negative one becomes 0.
unfoldable pub read_precision : List ℕ → List Arg → Option (Option ℕ × List ℕ × List Arg)
read_precision [] args = some (none, [], args)
read_precision (c ∷ s) args =
    if c == b'.'
    then (elim (read_after_dot s args) [
      | none ↦ none
      | some (n, s1, args1) ↦ some (some (from_int n), s1, args1)
    ])
    else some (none, c ∷ s, args)

unfoldable pub read_length : List ℕ → Bool × List ℕ
read_length [] = (false, [])
read_length (c ∷ s) =
    if c == b'l' || c == b't' || c == b'z'
    then (true, s)
    else if c == b'h'
    then (false, s)
    else (false, c ∷ s)

-- What is to be printed: a number with its base and case and the sign flags, a string, or no field but
-- a new colour.
pub data Item : Type 0 where
  number : (num base : ℕ) (lower signed negative alt2 : Bool) → Item
  chars : List ℕ → Item
  new_colour : ℕ → Item

-- The NUL that %c may be given ends the string.
abbrev pub one_char : ℕ → List ℕ
one_char c = if c == 0 then [] else c ∷ []

-- `num` and whether it stands for a negative number, by the bit pattern of an integer of `bits` bits
-- whose negative has a value of the type long.
abbrev pub magnitude : (bits w : ℕ) → ℕ × Bool
magnitude bits w = if ltb w (2 ^ (bits - 1)) then (w, false) else (2 ^ bits - w, true)

abbrev pub signed_number : ℕ × Bool → Item
signed_number (num, negative) = number num 10 false true negative false

-- %d and %i: an int is extended to a long before it is negated. To negate the least long is undefined
-- behaviour.
unfoldable pub signed_item : (long : Bool) → List Arg → Option (Item × List Arg)
signed_item false (int_arg w ∷ args) = some (signed_number (magnitude 32 (w % 2 ^ 32)), args)
signed_item true (long_arg w ∷ args) =
    if w % 2 ^ 64 == 2 ^ 63 then none else some (signed_number (magnitude 64 (w % 2 ^ 64)), args)
signed_item long args = none

unfoldable pub unsigned_item : (base : ℕ) (lower long : Bool) → List Arg → Option (Item × List Arg)
unsigned_item base lower false (int_arg w ∷ args) =
    some (number (w % 2 ^ 32) base lower false false false, args)
unsigned_item base lower true (long_arg w ∷ args) =
    some (number (w % 2 ^ 64) base lower false false false, args)
unsigned_item base lower long args = none

abbrev pub pointer_item : List Arg → Option (Item × List Arg)
pointer_item (long_arg w ∷ args) = some (number (w % 2 ^ 64) 16 true false false true, args)
pointer_item args = none

abbrev pub text_item : List Arg → Option (Item × List Arg)
text_item (text_arg s ∷ args) = some (chars s, args)
text_item args = none

abbrev pub colour_item : List Arg → Option (Item × List Arg)
colour_item (int_arg w ∷ args) = some (new_colour w, args)
colour_item args = none

abbrev pub char_item : List Arg → Option (Item × List Arg)
char_item (int_arg w ∷ args) = some (chars (one_char (w % 256)), args)
char_item args = none

-- The switch on the conversion character.
unfoldable pub convert : (c : ℕ) (long : Bool) → List Arg → Option (Item × List Arg)
convert c long args =
    if c == b'd' || c == b'i'
    then signed_item long args
    else if c == b'u'
    then unsigned_item 10 false long args
    else if c == b'x'
    then unsigned_item 16 true long args
    else if c == b'X'
    then unsigned_item 16 false long args
    else if c == b'p'
    then pointer_item args
    else if c == b's'
    then text_item args
    else if c == b'C'
    then colour_item args
    else if c == b'c'
    then char_item args
    else some (chars (c ∷ []), args)
