-- ===== src/Weensyos/Printer/Fields/Total.antt =====
-- printer::vprintf ends: a round of its loop takes a byte of the format, and fill_numbuf has room.
use mathlib.Core.Option.{some-injective}
use c_proj.Base.{
  ltb, ℕ, zero, suc, ◌+◌, ◌-◌, ◌*◌, ◌^◌, ◌≤◌, ◌<◌, ◌≡◌, ◌≢◌, ◌⊎◌, inl, inr, refl, ap, ◌∙◌, Bool,
  true, false, Option, none, some, List, [], ◌∷◌, arith, ◌==◌, length, take, Bool-cases,
  Option-cases, subst,
}
use c_proj.Weensyos.Numbers.{fill_numbuf}
use c_proj.Weensyos.Numbers.Digits.{strtoul-fill_numbuf_decimal, strtoul-fill_numbuf_hexadecimal}
use c_proj.Weensyos.Printer.{
  Arg, int_arg, long_arg, text_arg, Flags, flag, read_flags, read_digits, no_flags, isdigit,
  pointer_item, text_item, colour_item, char_item, with_args, int_star, read_width, read_after_dot,
  read_precision, read_length, Item, number, chars, new_colour, signed_item, unsigned_item, convert,
}
use c_proj.Weensyos.Printer.Fields.{
  data_of, field, Printed, printed, out_of_fuel, undefined_behaviour, Put, before, Directive,
  read_directive, read_conversion, Step, step, no_step, field_step, directive, vprintf_loop,
  vprintf,
}

read_flags-le : (f : Flags) (s : List ℕ) → length (read_flags f s).1 ≤ length s
unfolding read_flags
read_flags-le f [] = omega arith
read_flags-le f (c ∷ s) = elim (Option-cases (flag c f)) [
  | inl e ↦ rw (e, read_flags) (omega arith)
  | inr (f1, e) ↦ rw (e, read_flags) (omega (arith, read_flags-le f1 s))
]

-- What a reader leaves is no longer than what it was given.
abbrev Shorter : {A : Type 0} → List ℕ → Option (A × List ℕ × List Arg) → Type 0
Shorter s none = Unit
Shorter s (some (a, s1, args)) = length s1 ≤ length s

with_args-Shorter :
    (n : ℕ) (s s1 : List ℕ) (args : List Arg)
    → length s ≤ length s1
    → Shorter s1 (with_args (read_digits n s) args)
unfolding read_digits
with_args-Shorter n [] s1 args h = h
with_args-Shorter n (c ∷ s) s1 args h = elim (Bool-cases (isdigit c)) [
  | inr other ↦ rw (other, read_digits) h
  | inl digit ↦ elim (Bool-cases (ltb (10 * n + c) (2 ^ 31))) [
    | inl small ↦
        rw (digit, small, read_digits)
          (with_args-Shorter (10 * n + c - b'0') s s1 args (omega arith))
    | inr large ↦ rw (digit, large, read_digits) tt
  ]
]

int_star-Shorter : (c : ℕ) (s : List ℕ) (args : List Arg) → Shorter (c ∷ s) (int_star s args)
int_star-Shorter c s [] = tt
int_star-Shorter c s (int_arg w ∷ args) = omega arith
int_star-Shorter c s (long_arg w ∷ args) = tt
int_star-Shorter c s (text_arg t ∷ args) = tt

read_width-Shorter : (s : List ℕ) (args : List Arg) → Shorter s (read_width s args)
unfolding read_width
read_width-Shorter [] args = omega arith
read_width-Shorter (c ∷ s) args =
    ground
      (arith, with_args-Shorter 0 (c ∷ s) (c ∷ s) args (omega arith), int_star-Shorter c s args)

read_after_dot-Shorter : (s : List ℕ) (args : List Arg) → Shorter s (read_after_dot s args)
unfolding read_after_dot
read_after_dot-Shorter [] args = omega arith
read_after_dot-Shorter (c ∷ s) args =
    ground
      (arith, with_args-Shorter 0 (c ∷ s) (c ∷ s) args (omega arith), int_star-Shorter c s args)

read_precision-Shorter : (s : List ℕ) (args : List Arg) → Shorter s (read_precision s args)
unfolding read_precision
read_precision-Shorter [] args = omega arith
read_precision-Shorter (c ∷ s) args = ground (arith, read_after_dot-Shorter s args)

read_length-le : (s : List ℕ) → length (read_length s).1 ≤ length s
unfolding read_length
read_length-le [] = omega arith
read_length-le (c ∷ s) = ground arith

read_directive-Shorter : (s : List ℕ) (args : List Arg) → Shorter s (read_directive s args)
unfolding read_directive
read_directive-Shorter s args =
    let s1 = (read_flags no_flags s).1 in
    let short1 = read_flags-le no_flags s in
    elim (Option-cases (read_width s1 args)) [
      | inl e ↦ rw (e, Shorter) tt
      | inr ((w, s2, args2), e) ↦
          let short2 = subst (Shorter s1) e (read_width-Shorter s1 args) in
          elim (Option-cases (read_precision s2 args2)) [
            | inl f ↦ rw (e, f, Shorter) tt
            | inr ((p, s3, args3), f) ↦
                let short3 = subst (Shorter s2) f (read_precision-Shorter s2 args2) in
                rw (e, f, Shorter) (omega (arith, short1, short2, short3, read_length-le s3))
          ]
    ]

-- A number that fill_numbuf is called for: 64 bits, in base 10 or 16.
abbrev Fits : Item → Type 0
Fits (number num base lower signed negative alt2) = (num < 2 ^ 64) × ((base ≡ 10) ⊎ (base ≡ 16))
Fits _ = Unit

abbrev AllFit : {A : Type 0} → Option (Item × A) → Type 0
AllFit none = Unit
AllFit (some (item, a)) = Fits item

signed_item-Fits : (long : Bool) (args : List Arg) → AllFit (signed_item long args)
unfolding signed_item
signed_item-Fits true [] = tt
signed_item-Fits false [] = tt
signed_item-Fits true (int_arg w ∷ args) = tt
signed_item-Fits false (int_arg w ∷ args) = ground arith
signed_item-Fits true (long_arg w ∷ args) = ground arith
signed_item-Fits false (long_arg w ∷ args) = tt
signed_item-Fits true (text_arg t ∷ args) = tt
signed_item-Fits false (text_arg t ∷ args) = tt

unsigned_item-Fits :
    (base : ℕ) (lower long : Bool) (args : List Arg)
    → (base ≡ 10) ⊎ (base ≡ 16)
    → AllFit (unsigned_item base lower long args)
unfolding unsigned_item
unsigned_item-Fits base lower true [] h = tt
unsigned_item-Fits base lower false [] h = tt
unsigned_item-Fits base lower true (int_arg w ∷ args) h = tt
unsigned_item-Fits base lower false (int_arg w ∷ args) h = (omega arith, h)
unsigned_item-Fits base lower true (long_arg w ∷ args) h = (omega arith, h)
unsigned_item-Fits base lower false (long_arg w ∷ args) h = tt
unsigned_item-Fits base lower true (text_arg t ∷ args) h = tt
unsigned_item-Fits base lower false (text_arg t ∷ args) h = tt

pointer_item-Fits : (args : List Arg) → AllFit (pointer_item args)
pointer_item-Fits [] = tt
pointer_item-Fits (int_arg w ∷ args) = tt
pointer_item-Fits (long_arg w ∷ args) = (omega arith, inr refl)
pointer_item-Fits (text_arg t ∷ args) = tt

text_item-Fits : (args : List Arg) → AllFit (text_item args)
text_item-Fits [] = tt
text_item-Fits (int_arg w ∷ args) = tt
text_item-Fits (long_arg w ∷ args) = tt
text_item-Fits (text_arg t ∷ args) = tt

colour_item-Fits : (args : List Arg) → AllFit (colour_item args)
colour_item-Fits [] = tt
colour_item-Fits (int_arg w ∷ args) = tt
colour_item-Fits (long_arg w ∷ args) = tt
colour_item-Fits (text_arg t ∷ args) = tt

char_item-Fits : (args : List Arg) → AllFit (char_item args)
char_item-Fits [] = tt
char_item-Fits (int_arg w ∷ args) = tt
char_item-Fits (long_arg w ∷ args) = tt
char_item-Fits (text_arg t ∷ args) = tt

convert-Fits : (c : ℕ) (long : Bool) (args : List Arg) → AllFit (convert c long args)
unfolding convert
convert-Fits c long args = ground (
  arith,
  signed_item-Fits long args,
  unsigned_item-Fits 10 false long args (inl refl),
  unsigned_item-Fits 16 true long args (inr refl),
  unsigned_item-Fits 16 false long args (inr refl),
  pointer_item-Fits args,
  text_item-Fits args,
  colour_item-Fits args,
  char_item-Fits args,
)

-- fill_numbuf has enough rounds for what fits.
data_of-some :
    (precision : Option ℕ) (item : Item)
    → Fits item
    → (text : List ℕ) × (data_of precision item ≡ some text)
unfolding data_of
data_of-some none (number num base lower signed negative alt2) (small, inl e) =
    let (s, f, _, _) = strtoul-fill_numbuf_decimal lower num small in
    (s, ap (λ b. fill_numbuf lower b num) e ∙ f)
data_of-some none (number num base lower signed negative alt2) (small, inr e) =
    let (s, f, _, _) = strtoul-fill_numbuf_hexadecimal lower num small in
    (s, ap (λ b. fill_numbuf lower b num) e ∙ f)
data_of-some (some p) (number num base lower signed negative alt2) (small, inl e) =
    let (s, f, _, _) = strtoul-fill_numbuf_decimal lower num small in
    (s, ap (λ b. fill_numbuf lower b num) e ∙ f)
data_of-some (some p) (number num base lower signed negative alt2) (small, inr e) =
    let (s, f, _, _) = strtoul-fill_numbuf_hexadecimal lower num small in
    (s, ap (λ b. fill_numbuf lower b num) e ∙ f)
data_of-some none (chars s) h = (s, refl)
data_of-some (some p) (chars s) h = (take p s, refl)
data_of-some none (new_colour c) h = ([], refl)
data_of-some (some p) (new_colour c) h = ([], refl)

read_conversion-Good :
    (long : Bool) (s s1 : List ℕ) (args args1 : List Arg) (item : Item)
    → read_conversion long s args ≡ some (item, s1, args1)
    → (length s1 ≤ length s) × Fits item
unfolding read_conversion
read_conversion-Good long [] s1 args args1 item e =
    let same = some-injective _ _ e in
    (
      omega (arith, ap (λ (x : Item × List ℕ × List Arg). length x.1) same),
      subst Fits (ap (λ (x : Item × List ℕ × List Arg). x.0) same) tt,
    )
read_conversion-Good long (c ∷ s) s1 args args1 item e = elim (Option-cases (convert c long args)) [
  | inl f ↦
      let z : ◌≡◌ {A = Option (Item × List ℕ × List Arg)} none (some (item, s1, args1)) =
        rw (f, read_conversion) at e in
      cc
  | inr ((item0, args0), f) ↦
      let same : (item0, s, args0) ≡ (item, s1, args1) =
        some-injective _ _ (rw (f, read_conversion) at e) in
      (
        omega (arith, ap (λ (x : Item × List ℕ × List Arg). length x.1) same),
        subst Fits (ap (λ (x : Item × List ℕ × List Arg). x.0) same)
            (subst AllFit f (convert-Fits c long args)),
      )
]

-- A step that goes on leaves less of the format, and no step stops for want of fuel.
abbrev Steps : List ℕ → Step → Type 0
Steps s (step ps colour s1 args) = length s1 ≤ length s
Steps s (no_step r) = r ≢ out_of_fuel

field_step-Steps :
    (d : Directive) (colour : ℕ) (item : Item) (s s1 : List ℕ) (args : List Arg)
    → Fits item
    → length s1 ≤ length s
    → Steps s (field_step d colour item s1 args)
unfolding field
field_step-Steps d colour (new_colour c) s s1 args fits h = h
field_step-Steps d colour (chars t) s s1 args fits h =
    let (text, e) = data_of-some d.precision (chars t) fits in rw (e, Steps) h
field_step-Steps d colour (number num base lower signed negative alt2) s s1 args fits h =
    let (text, e) = data_of-some d.precision (number num base lower signed negative alt2) fits in
    rw (e, Steps) h

directive-Steps : (colour : ℕ) (s : List ℕ) (args : List Arg) → Steps s (directive colour s args)
unfolding directive
directive-Steps colour s args = elim (Option-cases (read_directive s args)) [
  | inl e ↦ rw (e, Steps) (λ h. cc)
  | inr ((d, s1, args1), e) ↦
      let short1 = subst (Shorter s) e (read_directive-Shorter s args) in
      elim (Option-cases (read_conversion d.long s1 args1)) [
        | inl f ↦ rw (e, f, Steps) (λ h. cc)
        | inr ((item, s2, args2), f) ↦
            let (short2, fits) = read_conversion-Good d.long s1 s2 args1 args2 item f in
            rw (e, f, Steps)
              (field_step-Steps d colour item s s2 args2 fits (omega (arith, short1, short2)))
      ]
]

before-ne : (ps : List Put) (r : Printed) → r ≢ out_of_fuel → before ps r ≢ out_of_fuel
before-ne ps (printed qs) h e = cc
before-ne ps undefined_behaviour h e = cc
before-ne ps out_of_fuel h e = h refl

-- The rest of a round of the loop.
abbrev went : (fuel : ℕ) → Step → Printed
went fuel (no_step r) = r
went fuel (step ps colour1 s1 args1) = before ps (vprintf_loop fuel colour1 s1 args1)

after-step :
    (fuel : ℕ) (s : List ℕ) (args : List Arg) (t : Step)
    → Steps s t
    → ((colour1 : ℕ) (s1 : List ℕ) (args1 : List Arg)
        → length s1 ≤ length s
        → vprintf_loop fuel colour1 s1 args1 ≢ out_of_fuel)
    → went fuel t ≢ out_of_fuel
after-step fuel s args (no_step r) h rest = h
after-step fuel s args (step ps colour1 s1 args1) h rest =
    before-ne ps (vprintf_loop fuel colour1 s1 args1) (rest colour1 s1 args1 h)

-- With more fuel than bytes of the format the loop does not run out of it.
vprintf_loop_total :
    (fuel colour : ℕ) (s : List ℕ) (args : List Arg)
    → length s < fuel
    → vprintf_loop fuel colour s args ≢ out_of_fuel
unfolding vprintf_loop
vprintf_loop_total zero colour s args h = absurd (omega arith)
vprintf_loop_total (suc fuel) colour [] args h = λ e. cc
vprintf_loop_total (suc fuel) colour (c ∷ s) args h = elim (Bool-cases (c == b'%')) [
  | inr plain ↦
      rw (plain, vprintf_loop)
        (before-ne ((c, colour) ∷ []) (vprintf_loop fuel colour s args)
          (vprintf_loop_total fuel colour s args (omega arith)))
  | inl percent ↦
      rw (percent, vprintf_loop)
        (after-step fuel s args (directive colour s args) (directive-Steps colour s args)
          (λ colour1 s1 args1 le. vprintf_loop_total fuel colour1 s1 args1 (omega arith)))
]

ended :
    (r : Printed)
    → r ≢ out_of_fuel
    → (r ≡ undefined_behaviour) ⊎ ((ps : List Put) × (r ≡ printed ps))
ended (printed ps) h = inr (ps, refl)
ended undefined_behaviour h = inl refl
ended out_of_fuel h = absurd (h refl)

-- vprintf ends for every format and all arguments: it prints a text, or an argument is missing or of
-- the wrong type, or the digits of a width or precision overflow an int, or the least long is to be
-- negated.
pub vprintf_total :
    (colour : ℕ) (format : List ℕ) (args : List Arg)
    → (vprintf colour format args ≡ undefined_behaviour)
      ⊎ ((ps : List Put) × (vprintf colour format args ≡ printed ps))
unfolding vprintf
vprintf_total colour format args =
    let ends = vprintf_loop_total (suc (length format)) colour format args (omega arith) in
    ended (vprintf_loop (suc (length format)) colour format args) ends
