-- ===== src/Weensyos/Printer/Fields/Signed.antt =====
-- What "%ld" of printer::vprintf of weensyos/lib.cc prints, strtol reads back.
use c_proj.Base.{
  ℕ, ◌+◌, ◌-◌, ◌%◌, ◌^◌, ◌≤◌, ◌<◌, ◌≡◌, ◌≢◌, ◌==◌, refl, ap, ◌∙◌, Bool, true, false, none, some,
  List, [], ◌∷◌, ◌++◌, arith, length, Bool-cases, inl, inr, ltb, ltb_lt, if◌then◌else◌,
}
use c_proj.Weensyos.Numbers.{fill_numbuf, strtol}
use c_proj.Weensyos.Numbers.Signed.{strtol-fill_numbuf}
use c_proj.Weensyos.Printer.{
  long_arg, no_flags, minus_one, number, read_flags, read_width, read_precision, read_length,
  convert, signed_item, signed_number, magnitude,
}
use c_proj.Weensyos.Printer.Fields.{
  replicate, prefix_of, data_of, zeros_of, blanks, padded, field, coloured, printed, vprintf,
  directive, Directive, read_directive, read_conversion, field_step,
}
use c_proj.Weensyos.Printer.Fields.Widths.{one_directive}

-- "%ld"
abbrev pub signed_long : List ℕ
signed_long = b'%' ∷ b'l' ∷ b'd' ∷ []

abbrev plain_long : Directive
plain_long = record { flags = no_flags; width = minus_one; precision = none; long = true }

long_item :
    (w : ℕ)
    → (w % 2 ^ 64 == 2 ^ 63) ≡ false
    → signed_item true (long_arg w ∷ []) ≡ some (signed_number (magnitude 64 (w % 2 ^ 64)), [])
unfolding signed_item
long_item w other = rw other refl

signed_step :
    (colour w : ℕ)
    → (w % 2 ^ 64 == 2 ^ 63) ≡ false
    → directive colour (b'l' ∷ b'd' ∷ []) (long_arg w ∷ [])
      ≡ field_step plain_long colour (signed_number (magnitude 64 (w % 2 ^ 64))) [] []
unfolding directive read_directive read_flags read_width read_precision read_length read_conversion
    convert
signed_step colour w other = rw (long_item w other, directive, read_conversion, convert) refl

abbrev sign_of : Bool → List ℕ
sign_of negative = if negative then b'-' ∷ [] else []

no_blanks : (n : ℕ) → n ≤ 22 → blanks minus_one n ≡ 0
no_blanks n few = ground arith

signed_field :
    (v : ℕ) (negative : Bool) (s : List ℕ)
    → length s ≤ 20
    → fill_numbuf false 10 v ≡ some s
    → field no_flags minus_one none (number v 10 false true negative false)
      ≡ some (sign_of negative ++ s)
unfolding field data_of zeros_of prefix_of padded
signed_field v true s few e =
    rw (e, field)
      (ap (λ k. some (replicate k b' ' ++ b'-' ∷ s)) (no_blanks (length s + 0 + 1) (omega arith)))
signed_field v false s few e =
    rw (e, field)
      (ap (λ k. some (replicate k b' ' ++ s)) (no_blanks (length s + 0 + 0) (omega arith)))

signed_printed :
    (colour w v : ℕ) (negative : Bool) (s : List ℕ)
    → (w % 2 ^ 64 == 2 ^ 63) ≡ false
    → magnitude 64 (w % 2 ^ 64) ≡ (v, negative)
    → length s ≤ 20
    → fill_numbuf false 10 v ≡ some s
    → vprintf colour signed_long (long_arg w ∷ [])
      ≡ printed (coloured colour (sign_of negative ++ s))
signed_printed colour w v negative s other size few e =
    one_directive colour colour (b'l' ∷ b'd' ∷ []) (long_arg w ∷ []) []
      (coloured colour (sign_of negative ++ s))
      (signed_step colour w other
        ∙ ap (λ m. field_step plain_long colour (signed_number m) [] []) size
        ∙ rw (signed_field v negative s few e, field_step) refl)

-- "%ld" prints a long of any value but the least, whose negation is undefined behaviour, given and read
-- back by its bit pattern: strtol in base 10 reads the text back and stops at its end, and the text has
-- at most 21 bytes.
pub signed_long_lem :
    (colour w : ℕ)
    → w < 2 ^ 64
    → w ≢ 2 ^ 63
    → (text : List ℕ) × (vprintf colour signed_long (long_arg w ∷ [])
        ≡ printed (coloured colour text))
      × (length text ≤ 21)
      × (strtol 10 text ≡ (w, []))
signed_long_lem colour w h least =
    let same : w % 2 ^ 64 ≡ w = omega arith in
    let other : (w % 2 ^ 64 == 2 ^ 63) ≡ false = ground arith in
    elim (Bool-cases (ltb w (2 ^ 63))) [
      | inl positive ↦
          let low = ltb_lt w (2 ^ 63) positive in
          let (s, e, few, plain, minus) = strtol-fill_numbuf false w (omega arith) in
          let size : magnitude 64 (w % 2 ^ 64) ≡ (w, false) =
            ap (magnitude 64) same ∙ rw positive refl in
          (s, signed_printed colour w w false s other size few e, omega arith, plain low)
      | inr negative ↦
          let high : 2 ^ 63 ≤ w = ground arith in
          let (s, e, few, plain, minus) = strtol-fill_numbuf false (2 ^ 64 - w) (omega arith) in
          let back : 2 ^ 64 - (2 ^ 64 - w) ≡ w = omega arith in
          let size : magnitude 64 (w % 2 ^ 64) ≡ (2 ^ 64 - w, true) =
            ap (magnitude 64) same ∙ rw negative refl in
          (
            b'-' ∷ s,
            signed_printed colour w (2 ^ 64 - w) true s other size few e,
            omega arith,
            minus (omega arith) ∙ ap (λ x. (x, [])) back,
          )
    ]
