-- ===== src/Weensyos/Strings.antt =====
-- The memory and string functions of weensyos/lib.cc, over memory as a function from addresses to
-- bytes. A function that only reads takes the memory as an argument. A scan for the end of a string
-- takes fuel, and `none` means that the fuel ran out.
pub mod Copy
pub mod Compare
pub mod Scan
pub mod Cases
mod Tests
use c_proj.Base.{
  ℕ, zero, suc, ◌+◌, ◌-◌, ◌%◌, Bool, true, false, not, ◌&&◌, ◌||◌, Option, none, some, Memory, ltb,
  leb, ◌==◌, if◌then◌else◌,
}

-- `*p = v`
abbrev pub store : Memory → ℕ → ℕ → Memory
store m p v q = if q == p then v else m q

-- The loop of memcpy, and the forward loop of memmove.
unfoldable pub copy_up : (n d s : ℕ) → Memory → Memory
copy_up zero d s m = m
copy_up (suc n) d s m = copy_up n (d + 1) (s + 1) (store m d (m s))

-- The backward loop of memmove: the ends come down from `d + n` and `s + n`.
unfoldable pub copy_down : (n d s : ℕ) → Memory → Memory
copy_down zero d s m = m
copy_down (suc n) d s m = copy_down n d s (store m (d + n) (m (s + n)))

unfoldable pub memcpy : (dst src n : ℕ) → Memory → Memory
memcpy dst src n = copy_up n dst src

unfoldable pub memmove : (dst src n : ℕ) → Memory → Memory
memmove dst src n m =
    if ltb src dst && ltb dst (src + n) then copy_down n dst src m else copy_up n dst src m

-- The byte that `c` becomes in `*p = c`.
unfoldable pub memset : (v c n : ℕ) → Memory → Memory
memset v c zero m = m
memset v c (suc n) m = memset (v + 1) c n (store m v (c % 256))

-- The sign of a comparison: `(a > b) - (a < b)`.
pub data Sign : Type 0 where
  minus nought plus : Sign

abbrev pub sign : (a b : ℕ) → Sign
sign a b = if ltb b a then plus else if ltb a b then minus else nought

unfoldable pub memcmp : Memory → (a b n : ℕ) → Sign
memcmp m a b zero = nought
memcmp m a b (suc n) = elim (m a == m b) [
  | true ↦ memcmp m (a + 1) (b + 1) n
  | false ↦ sign (m a) (m b)
]

-- `none` is nullptr.
unfoldable pub memchr : Memory → (s c n : ℕ) → Option ℕ
memchr m s c zero = none
memchr m s c (suc n) = elim (m s == c % 256) [ true ↦ some s | false ↦ memchr m (s + 1) c n ]

unfoldable pub strlen_loop : Memory → (fuel s n : ℕ) → Option ℕ
strlen_loop m zero s n = none
strlen_loop m (suc fuel) s n = elim (m s == 0) [
  | true ↦ some n
  | false ↦ strlen_loop m fuel (s + 1) (n + 1)
]

unfoldable pub strlen : Memory → (fuel s : ℕ) → Option ℕ
strlen m fuel s = strlen_loop m fuel s 0

-- The rounds of strnlen are bounded by `maxlen`, so it needs no fuel. `left` is `maxlen - n`.
unfoldable pub strnlen_loop : Memory → (left s n : ℕ) → ℕ
strnlen_loop m zero s n = n
strnlen_loop m (suc left) s n = elim (m s == 0) [
  | true ↦ n
  | false ↦ strnlen_loop m left (s + 1) (n + 1)
]

unfoldable pub strnlen : Memory → (s maxlen : ℕ) → ℕ
strnlen m s maxlen = strnlen_loop m maxlen s 0

-- The body of the loop of strcpy runs before its test reads the byte that was copied.
unfoldable pub strcpy : (fuel dst src : ℕ) → Memory → Option Memory
strcpy zero dst src m = none
strcpy (suc fuel) dst src m = elim (m src == 0) [
  | true ↦ some (store m dst (m src))
  | false ↦ strcpy fuel (dst + 1) (src + 1) (store m dst (m src))
]

unfoldable pub strcmp : Memory → (fuel a b : ℕ) → Option Sign
strcmp m zero a b = none
strcmp m (suc fuel) a b = elim (m a == 0 || m b == 0 || not (m a == m b)) [
  | true ↦ some (sign (m a) (m b))
  | false ↦ strcmp m fuel (a + 1) (b + 1)
]

-- `n ? *a : 0`
unfoldable pub strncmp : Memory → (a b n : ℕ) → Sign
strncmp m a b zero = nought
strncmp m a b (suc n) = elim (m a == 0 || m b == 0 || not (m a == m b)) [
  | true ↦ sign (m a) (m b)
  | false ↦ strncmp m (a + 1) (b + 1) n
]

-- The loop of strchr stops at the end of the string or at the byte; the first `none` is the fuel,
-- the second nullptr.
unfoldable pub strchr : Memory → (fuel s c : ℕ) → Option (Option ℕ)
strchr m zero s c = none
strchr m (suc fuel) s c = elim (m s == 0 || m s == c % 256) [
  | true ↦ some (if m s == c % 256 then some s else none)
  | false ↦ strchr m fuel (s + 1) c
]
