-- ===== src/Weensyos/Printer/Fields/Widths.antt =====
-- The width and the text of what printer::vprintf of weensyos/lib.cc prints.
use mathlib.Core.List.{append-nil}
use c_proj.Base.{
  ℕ, zero, suc, ◌+◌, ◌-◌, ◌%◌, ◌^◌, ◌≤◌, ◌<◌, ◌≡◌, ◌≢◌, refl, ap, ap₂, ◌∙◌, true, false, max, none,
  some, List, [], ◌∷◌, ◌++◌, arith, length, length-append, Bool-cases, inl, inr, ◌==◌,
}
use c_proj.Weensyos.Numbers.{fill_numbuf, strtoul, skip_spaces}
use c_proj.Weensyos.Numbers.Digits.{strtoul-fill_numbuf_decimal}
use c_proj.Weensyos.Printer.{
  Arg, int_arg, long_arg, Flags, no_flags, number, read_flags, read_width, read_precision,
  read_length, convert, unsigned_item,
}
use c_proj.Weensyos.Printer.Fields.{
  replicate, prefix_of, data_of, zeros_of, blanks, padded, field, Put, coloured, printed, before,
  vprintf_loop, vprintf, directive, Directive, step, read_directive, read_conversion, field_step,
}

length-replicate : (n c : ℕ) → length (replicate n c) ≡ n
length-replicate zero c = refl
length-replicate (suc n) c = ap suc (length-replicate n c)

blanks-sub : (width n : ℕ) → width < 2 ^ 31 → n < 2 ^ 31 → blanks width n ≡ width - n
blanks-sub width n hw hn = ground arith

-- A field is as long as its width says, or as its prefix, zeros and text are where that is more, for
-- lengths of an int.
pub length-padded :
    (f : Flags) (width zeros : ℕ) (prefix text : List ℕ)
    → width < 2 ^ 31
    → length text + zeros + length prefix < 2 ^ 31
    → length (padded f width zeros prefix text) ≡ max width (length prefix + (zeros + length text))
unfolding padded
length-padded f width zeros prefix text hw hn =
    let n = length text + zeros + length prefix in
    let few = blanks-sub width n hw hn in
    let pad = replicate (blanks width (length text + zeros + length prefix)) b' ' in
    let body = prefix ++ (replicate zeros b'0' ++ text) in
    let lengths = length-replicate (blanks width (length text + zeros + length prefix)) b' ' in
    let inner = length-append (replicate zeros b'0') text in
    let outer = length-append prefix (replicate zeros b'0' ++ text) in
    let zero_count = length-replicate zeros b'0' in
    elim (Bool-cases f.left) [
      | inl left ↦
          rw (left, padded)
            (omega (arith, few, length-append body pad, lengths, inner, outer, zero_count))
      | inr right ↦
          rw (right, padded)
            (omega (arith, few, length-append pad body, lengths, inner, outer, zero_count))
    ]

-- No directive in a format.
abbrev pub IsPlain : List ℕ → Type 0
IsPlain [] = Unit
IsPlain (c ∷ s) = (c ≢ b'%') × IsPlain s

plain_loop :
    (fuel colour : ℕ) (s : List ℕ) (args : List Arg)
    → length s < fuel
    → IsPlain s
    → vprintf_loop fuel colour s args ≡ printed (coloured colour s)
unfolding vprintf_loop
plain_loop zero colour s args h plain = absurd (omega arith)
plain_loop (suc fuel) colour [] args h plain = refl
plain_loop (suc fuel) colour (c ∷ s) args h (ne, plain) =
    let other : (c == b'%') ≡ false = ground arith in
    rw (other, vprintf_loop)
      (ap (before ((c, colour) ∷ [])) (plain_loop fuel colour s args (omega arith) plain))

-- A format without `%` prints itself, in the colour given.
pub vprintf_plain :
    (colour : ℕ) (s : List ℕ) (args : List Arg)
    → IsPlain s
    → vprintf colour s args ≡ printed (coloured colour s)
unfolding vprintf
vprintf_plain colour s args plain = plain_loop (suc (length s)) colour s args (omega arith) plain

skip_spaces-pad : (n : ℕ) (s : List ℕ) → skip_spaces (replicate n b' ' ++ s) ≡ skip_spaces s
unfolding skip_spaces
skip_spaces-pad zero s = refl
skip_spaces-pad (suc n) s = skip_spaces-pad n s

-- strtoul passes over blanks in front.
strtoul-pad : (base n : ℕ) (s : List ℕ) → strtoul base (replicate n b' ' ++ s) ≡ strtoul base s
unfolding strtoul
strtoul-pad base n s = rw (skip_spaces-pad n s) refl

-- "%*lu"
abbrev pub wide_unsigned : List ℕ
wide_unsigned = b'%' ∷ b'*' ∷ b'l' ∷ b'u' ∷ []

abbrev wide : ℕ → Directive
wide w = record { flags = no_flags; width = w; precision = none; long = true }

wide_step :
    (colour w v : ℕ)
    → w < 2 ^ 31
    → v < 2 ^ 64
    → directive colour (b'*' ∷ b'l' ∷ b'u' ∷ []) (int_arg w ∷ long_arg v ∷ [])
      ≡ field_step (wide w) colour (number v 10 false false false false) [] []
unfolding directive read_directive read_flags read_width read_precision read_length read_conversion
    convert unsigned_item
wide_step colour w v hw hv =
    let ew : w % 2 ^ 32 ≡ w = omega arith in
    ap₂ (λ x y. field_step (wide x) colour (number y 10 false false false false) [] []) ew
      (omega arith)

wide_field :
    (w v : ℕ) (s : List ℕ)
    → w < 2 ^ 31
    → length s ≤ 20
    → fill_numbuf false 10 v ≡ some s
    → field no_flags w none (number v 10 false false false false)
      ≡ some (replicate (w - length s) b' ' ++ s)
unfolding field data_of zeros_of prefix_of padded
wide_field w v s hw few e =
    let room : blanks w (length s + 0 + 0) ≡ w - length s =
      ap (blanks w) (omega arith) ∙ blanks-sub w (length s) hw (omega arith) in
    rw (e, field) (ap (λ n. some (replicate n b' ' ++ s)) room)

wide_printed :
    (colour w v : ℕ) (s : List ℕ)
    → w < 2 ^ 31
    → length s ≤ 20
    → fill_numbuf false 10 v ≡ some s
    → field_step (wide w) colour (number v 10 false false false false) [] []
      ≡ step (coloured colour (replicate (w - length s) b' ' ++ s)) colour [] []
wide_printed colour w v s hw few e = rw (wide_field w v s hw few e, field_step) refl

-- A format that is one directive.
pub one_directive :
    (colour colour1 : ℕ) (s : List ℕ) (args args1 : List Arg) (ps : List Put)
    → directive colour s args ≡ step ps colour1 [] args1
    → vprintf colour (b'%' ∷ s) args ≡ printed ps
unfolding vprintf vprintf_loop
one_directive colour colour1 s args args1 ps e = rw (e, vprintf_loop) (ap printed (append-nil ps))

-- "%*lu" prints a number of 64 bits in a field of the width given, set to the right: it prints the
-- larger of the width and of the count of digits, at most 20, and strtoul reads the number back.
pub wide_unsigned_lem :
    (colour w v : ℕ)
    → w < 2 ^ 31
    → v < 2 ^ 64
    → (digits : List ℕ) × (text : List ℕ) × (vprintf colour wide_unsigned
          (int_arg w ∷ long_arg v ∷ [])
        ≡ printed (coloured colour text))
      × (length digits ≤ 20)
      × (text ≡ replicate (w - length digits) b' ' ++ digits)
      × (strtoul 10 text ≡ (v, []))
wide_unsigned_lem colour w v hw hv =
    let (s, e, few, back) = strtoul-fill_numbuf_decimal false v hv in
    (
      s,
      replicate (w - length s) b' ' ++ s,
      one_directive colour colour (b'*' ∷ b'l' ∷ b'u' ∷ []) (int_arg w ∷ long_arg v ∷ []) []
          (coloured colour (replicate (w - length s) b' ' ++ s))
          (wide_step colour w v hw hv ∙ wide_printed colour w v s hw few e),
      few,
      refl,
      strtoul-pad 10 (w - length s) s ∙ back,
    )
