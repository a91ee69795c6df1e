-- ===== src/Weensyos/Strings/Cases.antt =====
-- The character traits of weensyos/lib.hh, and strcasecmp and strncasecmp of lib.cc.
use Prim.Native.Nat.{bit_or}
use c_proj.Base.{
  ℕ, zero, suc, ◌+◌, ◌-◌, ◌%◌, ◌^◌, ◌<◌, ◌≡◌, refl, Bool, true, false, not, ◌&&◌, ◌||◌, Option,
  none, some, Memory, ltb, ◌==◌, Bool-cases, inl, inr, if◌then◌else◌, at_below,
}
use c_proj.Weensyos.Strings.{Sign, nought, sign, strcmp, strncmp}

-- `unsigned(a) - unsigned(b)`
abbrev pub minus_unsigned : (a b : ℕ) → ℕ
minus_unsigned a b = (a + 2 ^ 32 - b) % 2 ^ 32

unfoldable pub isdigit : ℕ → Bool
isdigit c = ltb (minus_unsigned c b'0') 10

unfoldable pub islower : ℕ → Bool
islower c = ltb (minus_unsigned c b'a') 26

unfoldable pub isupper : ℕ → Bool
isupper c = ltb (minus_unsigned c b'A') 26

unfoldable pub isalpha : ℕ → Bool
isalpha c = ltb (minus_unsigned (bit_or c 0x20) b'a') 26

unfoldable pub isalnum : ℕ → Bool
isalnum c = isalpha c || isdigit c

unfoldable pub tolower : ℕ → ℕ
tolower c = if isupper c then c + b'a' - b'A' else c

unfoldable pub toupper : ℕ → ℕ
toupper c = if islower c then c + b'A' - b'a' else c

-- `none` if the fuel runs out.
unfoldable pub strcasecmp : Memory → (fuel a b : ℕ) → Option Sign
strcasecmp m zero a b = none
strcasecmp m (suc fuel) a b =
    elim (tolower (m a) == 0 || tolower (m b) == 0 || not (tolower (m a) == tolower (m b))) [
      | true ↦ some (sign (tolower (m a)) (tolower (m b)))
      | false ↦ strcasecmp m fuel (a + 1) (b + 1)
    ]

-- `n ? tolower(*a) : 0`
unfoldable pub strncasecmp : Memory → (a b n : ℕ) → Sign
strncasecmp m a b zero = nought
strncasecmp m a b (suc n) =
    elim (tolower (m a) == 0 || tolower (m b) == 0 || not (tolower (m a) == tolower (m b))) [
      | true ↦ sign (tolower (m a)) (tolower (m b))
      | false ↦ strncasecmp m (a + 1) (b + 1) n
    ]

abbrev pub lowered : Memory → Memory
lowered m i = tolower (m i)

-- strcasecmp compares as strcmp does on memory in which each byte is in lower case.
pub strcasecmp-eq-strcmp :
    (m : Memory) (fuel a b : ℕ) → strcasecmp m fuel a b ≡ strcmp (lowered m) fuel a b
unfolding strcasecmp strcmp
strcasecmp-eq-strcmp m zero a b = refl
strcasecmp-eq-strcmp m (suc fuel) a b =
    elim (Bool-cases
      (tolower (m a) == 0 || tolower (m b) == 0 || not (tolower (m a) == tolower (m b)))) [
        | inl stops ↦ rw (stops, strcasecmp, strcmp) refl
        | inr goes_on ↦
            rw (goes_on, strcasecmp, strcmp) (strcasecmp-eq-strcmp m fuel (a + 1) (b + 1))
      ]

-- The same for strncasecmp and strncmp.
pub strncasecmp-eq-strncmp :
    (m : Memory) (a b n : ℕ) → strncasecmp m a b n ≡ strncmp (lowered m) a b n
unfolding strncasecmp strncmp
strncasecmp-eq-strncmp m a b zero = refl
strncasecmp-eq-strncmp m a b (suc n) =
    elim (Bool-cases
      (tolower (m a) == 0 || tolower (m b) == 0 || not (tolower (m a) == tolower (m b)))) [
        | inl stops ↦ rw (stops, strncasecmp, strncmp) refl
        | inr goes_on ↦
            rw (goes_on, strncasecmp, strncmp) (strncasecmp-eq-strncmp m (a + 1) (b + 1) n)
      ]

abbrev traits_agree : ℕ → Bool
traits_agree c =
    (if isalpha c then islower c || isupper c else not (islower c || isupper c))
    && (if isupper c then islower (tolower c) && toupper (tolower c) == c else tolower c == c)
    && (if islower c then isupper (toupper c) && tolower (toupper c) == c else toupper c == c)

-- For every byte: isalpha holds of the letters that islower and isupper name, and tolower and toupper turn
-- one kind into the other and back and leave all else alone.
pub traits_lem : (c : ℕ) → c < 256 → traits_agree c ≡ true
unfolding isalpha islower isupper tolower toupper
traits_lem c h = at_below 256 traits_agree c refl h
