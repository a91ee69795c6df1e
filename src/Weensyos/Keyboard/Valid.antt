-- ===== src/Weensyos/Keyboard/Valid.antt =====
-- What keyboard_readc of weensyos/k-hardware.cc can return, and what its static variables can hold.
use Prim.Native.Nat.{bit_and, bit_or, bit_xor}
use c_proj.Base.{
  ℕ, ◌-◌, ◌^◌, ◌≤◌, ◌<◌, ◌≡◌, ◌⊎◌, inl, inr, refl, Bool, true, ◌&&◌, ◌||◌, List, [], ◌∷◌, arith,
  ltb, leb, ◌==◌, get_or, ltb_lt, Bool-cases, every, get_or-every, every_below, at_below,
}
use c_proj.Weensyos.Keyboard.{
  keymap, complex_keymap, Keyboard, key_shift, key_capslock, ckey, has, released, letter, pressed,
  key_of, scan, scans,
}

-- The four kinds of entry of keymap: a character, a key with a row of complex_keymap, a key without a
-- character, and a modifier.
abbrev is_key : ℕ → Bool
is_key c =
    ltb c 0x80 || (leb 0x80 c && leb c 0x95 || (leb 0xC0 c && leb c 0xC9 || leb 250 c && leb c 255))

keymap-is_key : every is_key keymap ≡ true
unfolding keymap
keymap-is_key = refl

abbrev is_ascii : ℕ → Bool
is_ascii c = ltb c 0x80

complex_keymap-is_ascii : every (every is_ascii) complex_keymap ≡ true
unfolding complex_keymap
complex_keymap-is_ascii = refl

bits_xor : every_below 64 (λ m. every_below 6 (λ k. ltb (bit_xor m (2 ^ k)) 64)) ≡ true
bits_xor = refl

bits_or : every_below 64 (λ m. every_below 6 (λ k. ltb (bit_or m (2 ^ k)) 64)) ≡ true
bits_or = refl

bits_and : every_below 64 (λ m. every_below 6 (λ k. ltb (bit_and m (255 - 2 ^ k)) 64)) ≡ true
bits_and = refl

bits_bounded :
    (f : ℕ → ℕ → ℕ) (m k : ℕ)
    → every_below 64 (λ m. every_below 6 (λ k. ltb (f m k) 64)) ≡ true
    → m < 64
    → k < 6
    → f m k < 64
bits_bounded f m k e hm hk = ltb_lt (f m k) 64 (
    at_below 6 (λ k. ltb (f m k) 64) k
      (at_below 64 (λ m. every_below 6 (λ k. ltb (f m k) 64)) m e hm) hk)

-- The static variables of keyboard_readc between two calls: six modifier bits, and an escape byte.
abbrev pub IsValid : Keyboard → Type 0
IsValid kb = (kb.modifiers < 64) × ((kb.last_escape ≡ 0) ⊎ (kb.last_escape ≡ 0x80))

-- A character of ASCII, or one of the special keys of kernel.hh.
abbrev pub is_character : ℕ → Bool
is_character c = ltb c 0x80 || (leb 0xC0 c && leb c 0xC9)

released_lt : (ch m : ℕ) → m < 64 → released ch m < 64
released_lt ch m h = elim (Bool-cases (leb key_shift ch && ltb ch key_capslock)) [
  | inl held ↦
      rw held (bits_bounded (λ m k. bit_and m (255 - 2 ^ k)) m (ch - 250) bits_and h (ground arith))
  | inr other ↦ rw other h
]

letter-is_character : (ch m : ℕ) → b'a' ≤ ch → ch ≤ b'z' → is_character (letter ch m) ≡ true
letter-is_character ch m h k = ground arith

complex-is_character : (i j : ℕ) → is_character (get_or (get_or complex_keymap i []) j 0) ≡ true
complex-is_character i j =
    let row = get_or-every (every is_ascii) complex_keymap i [] complex_keymap-is_ascii refl in
    let at = get_or-every is_ascii (get_or complex_keymap i []) j 0 row refl in ground arith

pressed-Valid :
    (ch m : ℕ)
    → is_key ch ≡ true
    → m < 64
    → (is_character (pressed ch m).0 ≡ true) × ((pressed ch m).1 < 64)
pressed-Valid ch m key h = elim (Bool-cases (leb b'a' ch && leb ch b'z')) [
  | inl small ↦ rw (small, pressed) (letter-is_character ch m (ground arith) (ground arith), h)
  | inr not_small ↦ elim (Bool-cases (leb key_capslock ch)) [
    | inl toggle ↦
        rw (not_small, toggle, pressed)
          (refl, bits_bounded (λ m k. bit_xor m (2 ^ k)) m (ch - 250) bits_xor h (ground arith))
    | inr not_toggle ↦ elim (Bool-cases (leb key_shift ch)) [
      | inl hold ↦
          rw (not_small, not_toggle, hold, pressed)
            (refl, bits_bounded (λ m k. bit_or m (2 ^ k)) m (ch - 250) bits_or h (ground arith))
      | inr not_hold ↦ elim (Bool-cases (leb (ckey 0) ch && leb ch (ckey 21))) [
        | inl complex ↦
            rw (not_small, not_toggle, not_hold, complex, pressed)
              (complex-is_character (ch - ckey 0) (bit_and m 3), h)
        | inr simple ↦ elim (Bool-cases (ltb ch 0x80 && has m 2)) [
          | inl dead ↦ rw (not_small, not_toggle, not_hold, simple, dead, pressed) (refl, h)
          | inr plain ↦
              rw (not_small, not_toggle, not_hold, simple, plain, pressed) (ground arith, h)
        ]
      ]
    ]
  ]
]

key_of-is_key : (code escape : ℕ) → is_key (key_of code escape) ≡ true
unfolding key_of
key_of-is_key code escape = get_or-every is_key keymap (bit_or code escape) 0 keymap-is_key refl

scan-IsValid :
    (code : ℕ) (kb : Keyboard)
    → IsValid kb
    → (is_character (scan code kb).0 ≡ true) × IsValid (scan code kb).1
unfolding scan
scan-IsValid code kb (h, escape) = elim (Bool-cases (code == 0xE0)) [
  | inl shift ↦ rw (shift, scan) (refl, (h, inr refl))
  | inr not_shift ↦ elim (Bool-cases (leb 0x80 code)) [
    | inl release ↦
        rw (not_shift, release, scan)
          (refl, (released_lt (key_of (code - 0x80) kb.last_escape) kb.modifiers h, inl refl))
    | inr press ↦
        let (c, m) =
          pressed-Valid (key_of code kb.last_escape) kb.modifiers
            (key_of-is_key code kb.last_escape) h in
        rw (not_shift, press, scan) (c, (m, inl refl))
  ]
]

-- Whatever bytes the keyboard sends, the modifiers stay within their six bits and the escape byte is 0
-- or 0x80, and keyboard_readc returns no code of a modifier or of complex_keymap: each result is 0, a
-- character of ASCII, or one of the ten special keys of kernel.hh.
pub scans-IsValid :
    (codes : List ℕ) (kb : Keyboard)
    → IsValid kb
    → (every is_character (scans codes kb).0 ≡ true) × IsValid (scans codes kb).1
unfolding scans
scans-IsValid [] kb h = (refl, h)
scans-IsValid (code ∷ rest) kb h =
    let (c, h1) = scan-IsValid code kb h in
    let (cs, h2) = scans-IsValid rest (scan code kb).1 h1 in (rw (c, scans) cs, h2)
