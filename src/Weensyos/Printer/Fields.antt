-- ===== src/Weensyos/Printer/Fields.antt =====
-- The second half of the loop of printer::vprintf of weensyos/lib.cc: the field that a conversion
-- prints, and the loop itself.
pub mod Total
pub mod Widths
pub mod Signed
use mathlib.Core.List.{map}
use c_proj.Base.{
  ℕ, zero, suc, ◌+◌, ◌-◌, ◌%◌, ◌^◌, Bool, true, false, not, ◌&&◌, ◌||◌, Option, none, some, List,
  [], ◌∷◌, ◌++◌, ltb, leb, ◌==◌, if◌then◌else◌, length, take,
}
use c_proj.Weensyos.Numbers.{fill_numbuf}
use c_proj.Weensyos.Printer.{
  Arg, Flags, no_flags, read_flags, read_width, read_precision, read_length, Item, number, chars,
  new_colour, convert,
}

abbrev pub replicate : ℕ → ℕ → List ℕ
replicate zero c = []
replicate (suc n) c = c ∷ replicate n c

-- `prefix`
unfoldable pub prefix_of : Flags → Item → List ℕ
prefix_of f (chars s) = []
prefix_of f (new_colour c) = []
prefix_of f (number num base lower signed negative alt2) =
    if signed
    then (if negative
        then b'-' ∷ []
        else if f.plus
        then b'+' ∷ []
        else if f.space
        then b' ' ∷ []
        else [])
    else if (f.alt || alt2) && base == 16 && (not (num == 0) || alt2)
    then b'0' ∷ (if lower then b'x' else b'X') ∷ []
    else []

-- `data`, cut to `datalen`; `none` if fill_numbuf runs out of fuel.
unfoldable pub data_of : (precision : Option ℕ) → Item → Option (List ℕ)
data_of precision (number num base lower signed negative alt2) = fill_numbuf lower base num
data_of none (chars s) = some s
data_of (some n) (chars s) = some (take n s)
data_of precision (new_colour c) = some []

abbrev pub is_number : Item → Bool
is_number (number _ _ _ _ _ _) = true
is_number _ = false

-- `zeros`; `width` is an int by its bit pattern.
unfoldable pub zeros_of :
    Flags → (width : ℕ) (precision : Option ℕ) → Item → (datalen prefixlen : ℕ) → ℕ
zeros_of f width (some p) item datalen prefixlen =
    if is_number item && ltb datalen p then p - datalen else 0
zeros_of f width none item datalen prefixlen =
    if is_number item
      && f.zero_pad
      && not f.left
      && ltb width (2 ^ 31)
      && ltb (datalen + prefixlen) width
    then width - datalen - prefixlen
    else 0

-- The blanks: `width -= n`, computed modulo 2 ^ 64 and cut to an int, where that is positive.
abbrev pub blanks : (width n : ℕ) → ℕ
blanks width n =
    let left : ℕ = (width + 2 ^ 32 - n % 2 ^ 32) % 2 ^ 32 in if ltb left (2 ^ 31) then left else 0

-- The five loops that print the field. Where the first has run, `width` is 0 for the last.
unfoldable pub padded : Flags → (width zeros : ℕ) (prefix text : List ℕ) → List ℕ
padded f width zeros prefix text =
    let pad : List ℕ = replicate (blanks width (length text + zeros + length prefix)) b' ' in
    let body : List ℕ = prefix ++ (replicate zeros b'0' ++ text) in
    if f.left then body ++ pad else pad ++ body

unfoldable pub field : Flags → (width : ℕ) (precision : Option ℕ) → Item → Option (List ℕ)
field f width precision item = elim (data_of precision item) [
  | none ↦ none
  | some text ↦ some (
      padded f width (zeros_of f width precision item (length text) (length (prefix_of f item)))
        (prefix_of f item) text)
]

-- A call of putc: the byte and the colour.
abbrev pub Put : Type 0
Put = ℕ × ℕ

abbrev pub coloured : ℕ → List ℕ → List Put
coloured colour = map (λ c. (c, colour))

-- What a call of vprintf comes to.
pub data Printed : Type 0 where
  printed : List Put → Printed
  undefined_behaviour : Printed
  out_of_fuel : Printed

abbrev pub before : List Put → Printed → Printed
before ps (printed qs) = printed (ps ++ qs)
before ps r = r

-- A directive behind its `%`: the flags, the width as an int by its bit pattern, the precision and the
-- length.
pub record Directive : Type 0 where
  pub flags : Flags
  pub width : ℕ
  pub precision : Option ℕ
  pub long : Bool

unfoldable pub read_directive : List ℕ → List Arg → Option (Directive × List ℕ × List Arg)
read_directive s args =
    let (f, s1) = read_flags no_flags s in
    elim (read_width s1 args) [
      | none ↦ none
      | some (w, s2, args2) ↦ elim (read_precision s2 args2) [
        | none ↦ none
        | some (p, s3, args3) ↦ some (
          record { flags = f; width = w; precision = p; long = (read_length s3).0 },
          (read_length s3).1,
          args3,
        )
      ]
    ]

-- The conversion, and the text behind it. A format that ends within a directive prints `%`.
unfoldable pub read_conversion :
    (long : Bool) → List ℕ → List Arg → Option (Item × List ℕ × List Arg)
read_conversion long [] args = some (chars (b'%' ∷ []), [], args)
read_conversion long (c ∷ s) args = elim (convert c long args) [
  | none ↦ none
  | some (item, args1) ↦ some (item, s, args1)
]

-- What follows a `%`: the calls of putc, the colour from there on, and what is left.
pub data Step : Type 0 where
  step : List Put → (colour : ℕ) (format : List ℕ) → List Arg → Step
  no_step : Printed → Step

abbrev pub field_step : (d : Directive) (colour : ℕ) → Item → List ℕ → List Arg → Step
field_step d colour (new_colour c) s args = step [] c s args
field_step d colour item s args = elim (field d.flags d.width d.precision item) [
  | none ↦ no_step out_of_fuel
  | some text ↦ step (coloured colour text) colour s args
]

unfoldable pub directive : (colour : ℕ) → List ℕ → List Arg → Step
directive colour s args = elim (read_directive s args) [
  | none ↦ no_step undefined_behaviour
  | some (d, s1, args1) ↦ elim (read_conversion d.long s1 args1) [
    | none ↦ no_step undefined_behaviour
    | some (item, s2, args2) ↦ field_step d colour item s2 args2
  ]
]

unfoldable pub vprintf_loop : (fuel colour : ℕ) → List ℕ → List Arg → Printed
vprintf_loop zero colour s args = out_of_fuel
vprintf_loop (suc fuel) colour [] args = printed []
vprintf_loop (suc fuel) colour (c ∷ s) args = elim (c == b'%') [
  | false ↦ before ((c, colour) ∷ []) (vprintf_loop fuel colour s args)
  | true ↦ elim (directive colour s args) [
    | no_step r ↦ r
    | step ps colour1 s1 args1 ↦ before ps (vprintf_loop fuel colour1 s1 args1)
  ]
]

-- A round takes a byte of the format at least.
unfoldable pub vprintf : (colour : ℕ) → List ℕ → List Arg → Printed
vprintf colour format args = vprintf_loop (suc (length format)) colour format args
