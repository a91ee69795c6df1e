-- ===== src/Weensyos/Keyboard/Tests.antt =====
-- Keys of weensyos/k-hardware.cc.
use c_proj.Base.{every, ℕ, ◌+◌, ◌-◌, ◌≡◌, refl, inl, true, if◌then◌else◌, List, [], ◌∷◌, arith}
use c_proj.Weensyos.Keyboard.{keymap, key_of, has, scans}
use c_proj.Weensyos.Keyboard.Valid.{is_character, IsValid, scans-IsValid}
use c_proj.Weensyos.Keyboard.Chords.{holding, IsLetter, shift_chord}

-- Caps lock pressed and released, the up arrow behind its escape byte, and the key of 5 with shift.
abbrev typed : List ℕ
typed = 0x3A ∷ 0xBA ∷ 0xE0 ∷ 0x48 ∷ 0x2A ∷ 0x06 ∷ []

scans-IsValid_example :
    (every is_character (scans typed (holding 0)).0 ≡ true) × IsValid (scans typed (holding 0)).1
scans-IsValid_example = scans-IsValid typed (holding 0) (omega arith, inl refl)

IsLetter-a : IsLetter 0x1E b'a'
unfolding key_of keymap
IsLetter-a = (omega arith, refl, omega arith, omega arith)

-- With caps lock on.
shift_chord_example :
    scans (0x2A ∷ 0x1E ∷ (0x1E + 0x80) ∷ 0xAA ∷ []) (holding 8)
    ≡ (0 ∷ (if has 8 8 then b'a' else b'a' - 0x20) ∷ 0 ∷ 0 ∷ [], holding 8)
shift_chord_example = shift_chord 0x1E b'a' 8 IsLetter-a (omega arith) refl refl
