-- ===== src/Weensyos/Numbers/Tests.antt =====
-- Runs of the numbers of weensyos/lib.cc.
use c_proj.Base.{
  ℕ, ◌+◌, ◌≡◌, ◌≤◌, length, inl, inr, refl, true, false, some, List, [], ◌∷◌, leb, ltb, ◌&&◌,
  if◌then◌else◌, arith,
}
use c_proj.Weensyos.Numbers.{
  strtoul, digit_of, fill_numbuf, RandState, digits_loop, skip_spaces, read_sign, choose_base,
  finish, add_digit, fill_loop,
}
use c_proj.Weensyos.Numbers.Digits.{strtoul-fill_numbuf_decimal}
use c_proj.Weensyos.Numbers.Texts.{minus_sign, strtoul_text}
use c_proj.Weensyos.Numbers.Parse.{c_digit, digit_of-eq-c_digit}

-- " -0x1Fz"
abbrev signed_text : List ℕ
signed_text = b' ' ∷ b'-' ∷ b'0' ∷ b'x' ∷ b'1' ∷ b'F' ∷ b'z' ∷ []

signed_run : strtoul 16 signed_text ≡ (18446744073709551585, (b'z' ∷ []))
unfolding strtoul digits_loop skip_spaces read_sign choose_base finish add_digit digit_of
signed_run = refl

decimal_run : fill_numbuf true 10 1203 ≡ some (b'1' ∷ b'2' ∷ b'0' ∷ b'3' ∷ [])
unfolding fill_numbuf fill_loop
decimal_run = refl

-- A blank, `-`, "1F" and "z".
strtoul_text_example :
    strtoul 16 (b' ' ∷ b'-' ∷ b'1' ∷ b'F' ∷ b'z' ∷ []) ≡ (18446744073709551585, (b'z' ∷ []))
strtoul_text_example =
    strtoul_text 16 (b' ' ∷ []) minus_sign (b'1' ∷ b'F' ∷ []) (b'z' ∷ []) (omega arith)
      (omega arith) (inl refl, tt) (omega arith) (omega arith, (omega arith, tt))
      (omega arith, inr (omega arith)) (inr (λ e. ground arith, λ e. ground arith))

digit_of-eq-c_digit_example :
    digit_of 16 b'<' ≡ (if leb b':' b'<' && ltb b'<' (b'0' + 16) then some 12 else c_digit 16 b'<')
digit_of-eq-c_digit_example = digit_of-eq-c_digit 16 b'<' (omega arith)

-- Before a seed is set.
abbrev unseeded : RandState
unseeded = record { seed_set = false; seed = 0 }

strtoul-fill_numbuf_decimal_example :
    (s : List ℕ) × (fill_numbuf false 10 1203 ≡ some s)
    × (length s ≤ 20)
    × (strtoul 10 s ≡ (1203, []))
strtoul-fill_numbuf_decimal_example = strtoul-fill_numbuf_decimal false 1203 (omega arith)
