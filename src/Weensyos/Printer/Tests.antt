-- ===== src/Weensyos/Printer/Tests.antt =====
-- Runs of printer::vprintf and vsnprintf of weensyos/lib.cc.

use c_proj.Base.{ℕ, ◌-◌, ◌++◌, ◌≤◌, ◌≡◌, ◌⊎◌, refl, List, [], ◌∷◌, length, patch, arith}
use c_proj.Weensyos.Numbers.{fill_numbuf, fill_loop, strtol, strtoul}
use c_proj.Weensyos.Printer.{
  Arg, int_arg, long_arg, text_arg, read_flags, read_digits, read_width, read_after_dot,
  read_precision, read_length, signed_item, unsigned_item, convert,
}
use c_proj.Weensyos.Printer.Fields.{
  replicate, Put, coloured, printed, undefined_behaviour, vprintf, vprintf_loop, directive,
  read_directive, read_conversion, field, padded, zeros_of, data_of, prefix_of,
}
use c_proj.Weensyos.Printer.Fields.Total.{vprintf_total}
use c_proj.Weensyos.Printer.Fields.Widths.{wide_unsigned, wide_unsigned_lem}
use c_proj.Weensyos.Printer.Fields.Signed.{signed_long, signed_long_lem}
use c_proj.Weensyos.Printer.Buffer.{formatted, vsnprintf, kept, bytes_of, vsnprintf_lem}

-- "<%+5d|%-6s|%#x>" with 42, "ab" and 255
abbrev mixed : List ℕ
mixed =
    b'<' ∷ b'%' ∷ b'+' ∷ b'5' ∷ b'd' ∷ b'|' ∷ b'%' ∷ b'-' ∷ b'6' ∷ b's' ∷ b'|' ∷ b'%' ∷ b'#' ∷ b'x'
    ∷ b'>' ∷ []

abbrev mixed_args : List Arg
mixed_args = int_arg 42 ∷ text_arg (b'a' ∷ b'b' ∷ []) ∷ int_arg 255 ∷ []

-- "<  +42|ab    |0xff>"
abbrev mixed_text : List ℕ
mixed_text =
    b'<' ∷ b' ' ∷ b' ' ∷ b'+' ∷ b'4' ∷ b'2' ∷ b'|' ∷ b'a' ∷ b'b' ∷ b' ' ∷ b' ' ∷ b' ' ∷ b' ' ∷ b'|'
    ∷ b'0' ∷ b'x' ∷ b'f' ∷ b'f' ∷ b'>' ∷ []

mixed_run : vprintf 0 mixed mixed_args ≡ printed (coloured 0 mixed_text)
unfolding vprintf vprintf_loop directive read_directive read_conversion read_flags read_digits
    read_width read_after_dot read_precision read_length signed_item unsigned_item convert field
    padded zeros_of data_of prefix_of fill_numbuf fill_loop
mixed_run = refl

-- "%05.3lu" with 7: a precision turns the flag 0 off.
precise_run :
    vprintf 0 (b'%' ∷ b'0' ∷ b'5' ∷ b'.' ∷ b'3' ∷ b'l' ∷ b'u' ∷ []) (long_arg 7 ∷ [])
    ≡ printed (coloured 0 (b' ' ∷ b' ' ∷ b'0' ∷ b'0' ∷ b'7' ∷ []))
unfolding vprintf vprintf_loop directive read_directive read_conversion read_flags read_digits
    read_width read_after_dot read_precision read_length signed_item unsigned_item convert field
    padded zeros_of data_of prefix_of fill_numbuf fill_loop
precise_run = refl

vprintf_total_example :
    (vprintf 7 mixed mixed_args ≡ undefined_behaviour)
    ⊎ ((ps : List Put) × (vprintf 7 mixed mixed_args ≡ printed ps))
vprintf_total_example = vprintf_total 7 mixed mixed_args

vsnprintf_lem_example :
    vsnprintf 100 4 mixed mixed_args (λ i. 9)
    ≡ formatted
        (length (coloured 0 mixed_text))
        (patch (λ i. 9) 100 (kept 4 (bytes_of (coloured 0 mixed_text))))
vsnprintf_lem_example =
    vsnprintf_lem 100 4 mixed mixed_args (λ i. 9) (coloured 0 mixed_text) mixed_run

-- The text of the least long but one.
signed_long_lem_example :
    (text : List ℕ) × (vprintf 7 signed_long (long_arg 0x8000000000000001 ∷ [])
      ≡ printed (coloured 7 text))
    × (length text ≤ 21)
    × (strtol 10 text ≡ (0x8000000000000001, []))
signed_long_lem_example = signed_long_lem 7 0x8000000000000001 (omega arith) (omega arith)

-- "%*lu" with 5 and 42.
wide_unsigned_lem_example :
    (digits : List ℕ) × (text : List ℕ) × (vprintf 7 wide_unsigned (int_arg 5 ∷ long_arg 42 ∷ [])
      ≡ printed (coloured 7 text))
    × (length digits ≤ 20)
    × (text ≡ replicate (5 - length digits) b' ' ++ digits)
    × (strtoul 10 text ≡ (42, []))
wide_unsigned_lem_example = wide_unsigned_lem 7 5 42 (omega arith) (omega arith)
