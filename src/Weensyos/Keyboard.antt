-- ===== src/Weensyos/Keyboard.antt =====
-- keyboard_readc of weensyos/k-hardware.cc: a state machine over the bytes of the keyboard's data port.
pub mod Valid
pub mod Chords
mod Tests
use Prim.Native.Nat.{bit_and, bit_or, bit_xor}
use c_proj.Base.{
  ℕ, ◌+◌, ◌-◌, ◌^◌, Bool, true, false, not, ◌&&◌, ◌||◌, Option, none, some, List, [], ◌∷◌, ◌++◌,
  ltb, leb, ◌==◌, if◌then◌else◌, get_or,
}

abbrev pub mod_shift : ℕ
mod_shift = 1

abbrev pub mod_control : ℕ
mod_control = 2

abbrev pub mod_capslock : ℕ
mod_capslock = 8

abbrev pub key_shift : ℕ
key_shift = 250

abbrev pub key_control : ℕ
key_control = 251

abbrev pub key_alt : ℕ
key_alt = 252

abbrev pub key_capslock : ℕ
key_capslock = 253

abbrev pub key_numlock : ℕ
key_numlock = 254

abbrev pub key_scrolllock : ℕ
key_scrolllock = 255

-- CKEY
abbrev pub ckey : ℕ → ℕ
ckey cn = 0x80 + cn

abbrev no_keys : List ℕ
no_keys = 0 ∷ 0 ∷ 0 ∷ 0 ∷ 0 ∷ 0 ∷ 0 ∷ 0 ∷ []

-- The lines of keymap, eight keys in each.
abbrev keymap_lines : List (List ℕ)
keymap_lines =
    (0 ∷ 27 ∷ ckey 0 ∷ ckey 1 ∷ ckey 2 ∷ ckey 3 ∷ ckey 4 ∷ ckey 5 ∷ [])
    ∷ (ckey 6 ∷ ckey 7 ∷ ckey 8 ∷ ckey 9 ∷ ckey 10 ∷ ckey 11 ∷ 0x08 ∷ b'\t' ∷ [])
    ∷ (b'q' ∷ b'w' ∷ b'e' ∷ b'r' ∷ b't' ∷ b'y' ∷ b'u' ∷ b'i' ∷ [])
    ∷ (b'o' ∷ b'p' ∷ ckey 12 ∷ ckey 13 ∷ ckey 14 ∷ key_control ∷ b'a' ∷ b's' ∷ [])
    ∷ (b'd' ∷ b'f' ∷ b'g' ∷ b'h' ∷ b'j' ∷ b'k' ∷ b'l' ∷ ckey 15 ∷ [])
    ∷ (ckey 16 ∷ ckey 17 ∷ key_shift ∷ ckey 18 ∷ b'z' ∷ b'x' ∷ b'c' ∷ b'v' ∷ [])
    ∷ (b'b' ∷ b'n' ∷ b'm' ∷ ckey 19 ∷ ckey 20 ∷ ckey 21 ∷ key_shift ∷ b'*' ∷ [])
    ∷ (key_alt ∷ b' ' ∷ key_capslock ∷ 0 ∷ 0 ∷ 0 ∷ 0 ∷ 0 ∷ [])
    ∷ (0 ∷ 0 ∷ 0 ∷ 0 ∷ 0 ∷ key_numlock ∷ key_scrolllock ∷ b'7' ∷ [])
    ∷ (b'8' ∷ b'9' ∷ b'-' ∷ b'4' ∷ b'5' ∷ b'6' ∷ b'+' ∷ b'1' ∷ [])
    ∷ (b'2' ∷ b'3' ∷ b'0' ∷ b'.' ∷ 0 ∷ 0 ∷ 0 ∷ 0 ∷ [])
    ∷ no_keys
    ∷ no_keys
    ∷ no_keys
    ∷ no_keys
    ∷ no_keys
    ∷ no_keys
    ∷ no_keys
    ∷ no_keys
    ∷ (0 ∷ 0 ∷ 0 ∷ 0 ∷ ckey 14 ∷ key_control ∷ 0 ∷ 0 ∷ [])
    ∷ no_keys
    ∷ no_keys
    ∷ (0 ∷ 0 ∷ 0 ∷ 0 ∷ 0 ∷ b'/' ∷ 0 ∷ 0 ∷ [])
    ∷ (key_alt ∷ 0 ∷ 0 ∷ 0 ∷ 0 ∷ 0 ∷ 0 ∷ 0 ∷ [])
    ∷ (0 ∷ 0 ∷ 0 ∷ 0 ∷ 0 ∷ 0 ∷ 0 ∷ 196 ∷ [])
    ∷ (192 ∷ 198 ∷ 0 ∷ 195 ∷ 0 ∷ 193 ∷ 0 ∷ 197 ∷ [])
    ∷ (194 ∷ 199 ∷ 200 ∷ 201 ∷ 0 ∷ 0 ∷ 0 ∷ 0 ∷ [])
    ∷ no_keys
    ∷ no_keys
    ∷ no_keys
    ∷ no_keys
    ∷ no_keys
    ∷ []

abbrev joined : List (List ℕ) → List ℕ
joined [] = []
joined (line ∷ lines) = line ++ joined lines

unfoldable pub keymap : List ℕ
keymap = joined keymap_lines

unfoldable pub complex_keymap : List (List ℕ)
complex_keymap =
    (b'1' ∷ b'!' ∷ 0 ∷ 0 ∷ [])
    ∷ (b'2' ∷ b'@' ∷ 0 ∷ 0 ∷ [])
    ∷ (b'3' ∷ b'#' ∷ 0 ∷ 0 ∷ [])
    ∷ (b'4' ∷ b'$' ∷ 0 ∷ 0 ∷ [])
    ∷ (b'5' ∷ b'%' ∷ 0 ∷ 0 ∷ [])
    ∷ (b'6' ∷ b'^' ∷ 0 ∷ 30 ∷ [])
    ∷ (b'7' ∷ b'&' ∷ 0 ∷ 0 ∷ [])
    ∷ (b'8' ∷ b'*' ∷ 0 ∷ 0 ∷ [])
    ∷ (b'9' ∷ b'(' ∷ 0 ∷ 0 ∷ [])
    ∷ (b'0' ∷ b')' ∷ 0 ∷ 0 ∷ [])
    ∷ (b'-' ∷ b'_' ∷ 0 ∷ 31 ∷ [])
    ∷ (b'=' ∷ b'+' ∷ 0 ∷ 0 ∷ [])
    ∷ (b'[' ∷ b'{' ∷ 27 ∷ 0 ∷ [])
    ∷ (b']' ∷ b'}' ∷ 29 ∷ 0 ∷ [])
    ∷ (b'\n' ∷ b'\n' ∷ b'\r' ∷ b'\r' ∷ [])
    ∷ (b';' ∷ b':' ∷ 0 ∷ 0 ∷ [])
    ∷ (39 ∷ 34 ∷ 0 ∷ 0 ∷ [])
    ∷ (b'`' ∷ b'~' ∷ 0 ∷ 0 ∷ [])
    ∷ (92 ∷ b'|' ∷ 28 ∷ 0 ∷ [])
    ∷ (b',' ∷ b'<' ∷ 0 ∷ 0 ∷ [])
    ∷ (b'.' ∷ b'>' ∷ 0 ∷ 0 ∷ [])
    ∷ (b'/' ∷ b'?' ∷ 0 ∷ 0 ∷ [])
    ∷ []

-- The two static variables of keyboard_readc.
pub record Keyboard : Type 0 where
  pub modifiers : ℕ
  pub last_escape : ℕ

-- The bit that stands for a modifier key.
abbrev pub modifier_bit : ℕ → ℕ
modifier_bit ch = 2 ^ (ch - key_shift)

-- `modifiers & mask`, as a condition.
abbrev pub has : (modifiers mask : ℕ) → Bool
has modifiers mask = not (bit_and modifiers mask == 0)

-- The release of a key: `~bit` is cut to eight bits when it meets `modifiers`.
abbrev pub released : (ch modifiers : ℕ) → ℕ
released ch modifiers =
    if leb key_shift ch && ltb ch key_capslock
    then bit_and modifiers (255 - modifier_bit ch)
    else modifiers

-- `!a != !b`
abbrev pub differ : Bool → Bool → Bool
differ true b = not b
differ false b = b

abbrev pub letter : (ch modifiers : ℕ) → ℕ
letter ch modifiers =
    if has modifiers mod_control
    then ch - 0x60
    else if differ (has modifiers mod_shift) (has modifiers mod_capslock)
    then ch - 0x20
    else ch

-- The press of a key: the character and the modifiers.
abbrev pub pressed : (ch modifiers : ℕ) → ℕ × ℕ
pressed ch modifiers =
    if leb b'a' ch && leb ch b'z'
    then (letter ch modifiers, modifiers)
    else if leb key_capslock ch
    then (0, bit_xor modifiers (modifier_bit ch))
    else if leb key_shift ch
    then (0, bit_or modifiers (modifier_bit ch))
    else if leb (ckey 0) ch && leb ch (ckey 21)
    then (get_or (get_or complex_keymap (ch - ckey 0) []) (bit_and modifiers 3) 0, modifiers)
    else if ltb ch 0x80 && has modifiers mod_control
    then (0, modifiers)
    else (ch, modifiers)

-- The character of a key, by its scan code.
unfoldable pub key_of : (code escape : ℕ) → ℕ
key_of code escape = get_or keymap (bit_or code escape) 0

-- What a byte of the data port does.
unfoldable pub scan : (code : ℕ) → Keyboard → ℕ × Keyboard
scan code kb =
    if code == 0xE0
    then (0, record kb { last_escape = 0x80 })
    else if leb 0x80 code
    then (
      0,
      record {
        modifiers = released (key_of (code - 0x80) kb.last_escape) kb.modifiers;
        last_escape = 0;
      },
    )
    else let r : ℕ × ℕ = pressed (key_of code kb.last_escape) kb.modifiers in
      (r.0, record { modifiers = r.1; last_escape = 0 })

-- The byte is `none` where the status port says that none is ready, and the character is `none` for -1.
unfoldable pub keyboard_readc : Option ℕ → Keyboard → Option ℕ × Keyboard
keyboard_readc none kb = (none, kb)
keyboard_readc (some code) kb = (some (scan code kb).0, (scan code kb).1)

-- The characters that the bytes give, one after the other.
unfoldable pub scans : List ℕ → Keyboard → List ℕ × Keyboard
scans [] kb = ([], kb)
scans (code ∷ rest) kb =
    let r : ℕ × Keyboard = scan code kb in
    let s : List ℕ × Keyboard = scans rest r.1 in (r.0 ∷ s.0, s.1)
