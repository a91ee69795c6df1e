-- ===== src/Weensyos/Keyboard/Chords.antt =====
-- Letters typed with a modifier key held, by keyboard_readc of weensyos/k-hardware.cc.
use Prim.Native.Nat.{bit_and, bit_or}
use c_proj.Base.{
  every_below, at_below, eq-false, eq_eq, ℕ, ◌+◌, ◌-◌, ◌≤◌, ◌<◌, ◌≡◌, ◌≢◌, refl, sym, ap, ◌∙◌, Bool,
  true, false, not, ◌&&◌, ◌||◌, [], ◌∷◌, arith, ltb, leb, ◌==◌, if◌then◌else◌,
}
use c_proj.Weensyos.Keyboard.{
  keymap, Keyboard, has, differ, letter, pressed, released, key_of, scan, scans,
}

abbrev agree : Bool → Bool → Bool
agree true b = b
agree false b = not b

agree-eq : (a b : Bool) → agree a b ≡ true → a ≡ b
agree-eq true true e = refl
agree-eq true false e = sym e
agree-eq false true e = e
agree-eq false false e = refl

-- A modifier bit set and cleared again, where it was clear: the others stay, and so does `m`.
abbrev bit_laws : ℕ → ℕ → Bool
bit_laws bit m =
    has m bit
    || (has (bit_or m bit) bit
        && bit_and (bit_or m bit) (255 - bit) == m
        && (bit == 2 || agree (has (bit_or m bit) 2) (has m 2))
        && agree (has (bit_or m bit) 8) (has m 8))

shift_laws : every_below 64 (bit_laws 1) ≡ true
shift_laws = refl

control_laws : every_below 64 (bit_laws 2) ≡ true
control_laws = refl

all_four :
    (a b c d : Bool) → (a && b && c && d) ≡ true → (a ≡ true) × (b ≡ true) × (c ≡ true) × (d ≡ true)
all_four true true true true e = (refl, refl, refl, refl)
all_four true true true false e = absurd (cc e)
all_four true true false d e = absurd (cc e)
all_four true false c d e = absurd (cc e)
all_four false b c d e = absurd (cc e)

bit_facts :
    (bit m : ℕ)
    → has m bit ≡ false
    → bit_laws bit m ≡ true
    → (has (bit_or m bit) bit ≡ true)
      × (bit_and (bit_or m bit) (255 - bit) ≡ m)
      × ((bit == 2 || agree (has (bit_or m bit) 2) (has m 2)) ≡ true)
      × (has (bit_or m bit) 8 ≡ has m 8)
bit_facts bit m off laws =
    let all =
      all_four (has (bit_or m bit) bit) (bit_and (bit_or m bit) (255 - bit) == m)
        (bit == 2 || agree (has (bit_or m bit) 2) (has m 2))
        (agree (has (bit_or m bit) 8) (has m 8)) (rw off at laws) in
    (
      all.0,
      eq_eq (bit_and (bit_or m bit) (255 - bit)) m all.1,
      all.2,
      agree-eq (has (bit_or m bit) 8) (has m 8) all.3,
    )

not_if : (b : Bool) (x y : ℕ) → (if not b then x else y) ≡ (if b then y else x)
not_if true x y = refl
not_if false x y = refl

-- No escape byte has come before.
abbrev pub holding : ℕ → Keyboard
holding m = record { modifiers = m; last_escape = 0 }

-- The scan code of a letter.
abbrev pub IsLetter : (code c : ℕ) → Type 0
IsLetter code c = (code < 0x80) × (key_of code 0 ≡ c) × (b'a' ≤ c) × (c ≤ b'z')

scan-letter : (code c m : ℕ) → IsLetter code c → scan code (holding m) ≡ (letter c m, holding m)
unfolding scan
scan-letter code c m (low, e, h, k) =
    let plain : (code == 0xE0) ≡ false = ground arith in
    let press : leb 0x80 code ≡ false = ground arith in
    let small : (leb b'a' c && leb c b'z') ≡ true = ground arith in
    rw (plain, press, e, small, scan, pressed) refl

letter_not_escape : (code c : ℕ) → IsLetter code c → code ≢ 0x60
unfolding key_of keymap
letter_not_escape code c (low, e, h, k) at =
    let none_there : key_of 0x60 0 ≡ 0 = refl in
    let same : 0 ≡ c = sym none_there ∙ ap (λ i. key_of i 0) (sym at) ∙ e in omega (arith, same)

scan-letter_release :
    (code c m : ℕ) → IsLetter code c → scan (code + 0x80) (holding m) ≡ (0, holding m)
unfolding scan
scan-letter_release code c m (low, e, h, k) =
    let other = letter_not_escape code c (low, e, h, k) in
    let plain : (code + 0x80 == 0xE0) ≡ false =
      eq-false (code + 0x80) 0xE0 (omega (arith, other)) in
    let release : leb 0x80 (code + 0x80) ≡ true = ground arith in
    let back : code + 0x80 - 0x80 ≡ code = omega arith in
    let no_modifier : (leb 250 c && ltb c 253) ≡ false = ground arith in
    rw (plain, release, back, e, no_modifier, scan, released) refl

-- A letter between the press and the release of a modifier key.
chord :
    (press release bit code c m : ℕ)
    → IsLetter code c
    → ((n : ℕ) → scan press (holding n) ≡ (0, holding (bit_or n bit)))
    → ((n : ℕ) → scan release (holding n) ≡ (0, holding (bit_and n (255 - bit))))
    → bit_and (bit_or m bit) (255 - bit) ≡ m
    → scans (press ∷ code ∷ (code + 0x80) ∷ release ∷ []) (holding m)
      ≡ (0 ∷ letter c (bit_or m bit) ∷ 0 ∷ 0 ∷ [], holding m)
unfolding scans
chord press release bit code c m l down up back =
    rw
      (
        down m,
        scan-letter code c (bit_or m bit) l,
        scan-letter_release code c (bit_or m bit) l,
        up (bit_or m bit),
        back,
        scans,
      )
      refl

shift_down : (n : ℕ) → scan 0x2A (holding n) ≡ (0, holding (bit_or n 1))
unfolding scan key_of keymap
shift_down n = refl

shift_up : (n : ℕ) → scan 0xAA (holding n) ≡ (0, holding (bit_and n (255 - 1)))
unfolding scan key_of keymap
shift_up n = refl

control_down : (n : ℕ) → scan 0x1D (holding n) ≡ (0, holding (bit_or n 2))
unfolding scan key_of keymap
control_down n = refl

control_up : (n : ℕ) → scan 0x9D (holding n) ≡ (0, holding (bit_and n (255 - 2)))
unfolding scan key_of keymap
control_up n = refl

-- With neither control nor a shift key held, and no escape byte before: shift pressed, a letter pressed
-- and released, and shift released give the letter in upper case, or in lower case where caps lock is
-- on, and leave the keyboard as it was.
pub shift_chord :
    (code c m : ℕ)
    → IsLetter code c
    → m < 64
    → has m 1 ≡ false
    → has m 2 ≡ false
    → scans (0x2A ∷ code ∷ (code + 0x80) ∷ 0xAA ∷ []) (holding m)
      ≡ (0 ∷ (if has m 8 then c else c - 0x20) ∷ 0 ∷ 0 ∷ [], holding m)
shift_chord code c m l h no_shift no_control =
    let (on, back, other, caps) =
      bit_facts 1 m no_shift (at_below 64 (bit_laws 1) m shift_laws h) in
    let control_off : has (bit_or m 1) 2 ≡ false =
      agree-eq (has (bit_or m 1) 2) (has m 2) other ∙ no_control in
    chord 0x2A 0xAA 1 code c m l shift_down shift_up back
    ∙ ap (λ x. (0 ∷ x ∷ 0 ∷ 0 ∷ [], holding m))
        (rw (control_off, on, caps, letter, differ) (not_if (has m 8) (c - 0x20) c))

-- The same with control: the letter gives its control character, with or without caps lock.
control_chord :
    (code c m : ℕ)
    → IsLetter code c
    → m < 64
    → has m 2 ≡ false
    → scans (0x1D ∷ code ∷ (code + 0x80) ∷ 0x9D ∷ []) (holding m)
      ≡ (0 ∷ (c - 0x60) ∷ 0 ∷ 0 ∷ [], holding m)
control_chord code c m l h no_control =
    let (on, back, other, caps) =
      bit_facts 2 m no_control (at_below 64 (bit_laws 2) m control_laws h) in
    chord 0x1D 0x9D 2 code c m l control_down control_up back
    ∙ ap (λ x. (0 ∷ x ∷ 0 ∷ 0 ∷ [], holding m)) (rw (on, letter) refl)
