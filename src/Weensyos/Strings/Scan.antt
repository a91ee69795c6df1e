-- ===== src/Weensyos/Strings/Scan.antt =====
-- strlen, strnlen, memchr, strchr, strchr and strcpy of weensyos/lib.cc.

use c_proj.Base.{
  ℕ, zero, suc, ◌+◌, ◌%◌, ◌≤◌, ◌<◌, ◌≡◌, ◌≢◌, ◌⊎◌, inl, inr, ap, ◌∙◌, Option, none, some, arith,
  Memory, Bool-cases, ◌==◌, min,
}
use c_proj.Weensyos.Strings.{
  store, memchr, strlen_loop, strlen, strnlen_loop, strnlen, strcpy, strchr, copy_up,
}
use c_proj.Weensyos.Strings.Copy.{moved, copy_up_lem}

-- A string of `n` bytes at `s`: no byte of it is NUL, and the byte behind it is.
pub record IsString (m : Memory) (s n : ℕ) : Type 0 where
  pub no_nul : (i : ℕ) → i < n → m (s + i) ≢ 0
  pub nul : m (s + n) ≡ 0

pub IsString-tail : (m : Memory) (s n : ℕ) → IsString m s (suc n) → IsString m (s + 1) n
IsString-tail m s n h = record {
  no_nul = λ i lo e. h.no_nul (suc i) (omega arith) (ap m (omega arith) ∙ e);
  nul = ap m (omega arith) ∙ h.nul;
}

pub first_ne : (m : Memory) (s n : ℕ) → IsString m s (suc n) → m s ≢ 0
first_ne m s n h e = h.no_nul 0 (omega arith) (ap m (omega arith) ∙ e)

pub empty_nul : (m : Memory) (s : ℕ) → IsString m s 0 → m s ≡ 0
empty_nul m s h = ap m (omega arith) ∙ h.nul

strlen_loop_lem :
    (fuel n k s : ℕ) (m : Memory)
    → IsString m s n
    → n < fuel
    → strlen_loop m fuel s k ≡ some (k + n)
unfolding strlen_loop
strlen_loop_lem zero n k s m h lt = absurd (omega arith)
strlen_loop_lem (suc fuel) zero k s m h lt = ground (arith, empty_nul m s h)
strlen_loop_lem (suc fuel) (suc n) k s m h lt = ground (
  arith,
  first_ne m s n h,
  strlen_loop_lem fuel n (k + 1) (s + 1) m (IsString-tail m s n h) (omega arith),
)

-- strlen ends at the NUL of a string and returns its length.
pub strlen_lem : (fuel n s : ℕ) (m : Memory) → IsString m s n → n < fuel → strlen m fuel s ≡ some n
unfolding strlen
strlen_lem fuel n s m h lt = strlen_loop_lem fuel n 0 s m h lt ∙ ap some (omega arith)

strnlen_loop_lem :
    (left n k s : ℕ) (m : Memory) → IsString m s n → strnlen_loop m left s k ≡ k + min n left
unfolding strnlen_loop
strnlen_loop_lem zero n k s m h = omega arith
strnlen_loop_lem (suc left) zero k s m h = ground (arith, empty_nul m s h)
strnlen_loop_lem (suc left) (suc n) k s m h =
    ground
      (arith, first_ne m s n h, strnlen_loop_lem left n (k + 1) (s + 1) m (IsString-tail m s n h))

-- strnlen is the smaller of the length of the string and the bound.
pub strnlen_lem : (n s maxlen : ℕ) (m : Memory) → IsString m s n → strnlen m s maxlen ≡ min n maxlen
unfolding strnlen
strnlen_lem n s maxlen m h = strnlen_loop_lem maxlen n 0 s m h ∙ omega arith

-- What memchr finds: the first of the `n` bytes that is the low eight bits of `c`, or none.
abbrev pub FindsByte : Memory → (s c n : ℕ) → Option ℕ → Type 0
FindsByte m s c n none = (i : ℕ) → i < n → m (s + i) ≢ c % 256
FindsByte m s c n (some p) =
    (k : ℕ) × (p ≡ s + k) × (k < n) × (m p ≡ c % 256) × ((i : ℕ) → i < k → m (s + i) ≢ c % 256)

FindsByte-step :
    (m : Memory) (s c n : ℕ) (r : Option ℕ)
    → m s ≢ c % 256
    → FindsByte m (s + 1) c n r
    → FindsByte m s c (suc n) r
FindsByte-step m s c n none ne f = later
  where
    later : (i : ℕ) → i < suc n → m (s + i) ≢ c % 256
    later zero h e = ne (ap m (omega arith) ∙ e)
    later (suc i) h e = f i (omega arith) (ap m (omega arith) ∙ e)
FindsByte-step m s c n (some p) ne (k, at, inside, hit, before) =
    (suc k, omega arith, omega arith, hit, later)
  where
    later : (i : ℕ) → i < suc k → m (s + i) ≢ c % 256
    later zero h e = ne (ap m (omega arith) ∙ e)
    later (suc i) h e = before i (omega arith) (ap m (omega arith) ∙ e)

-- memchr returns the address of the first of `n` bytes that is `c`, and nullptr where none is.
pub memchr_lem : (s c n : ℕ) (m : Memory) → FindsByte m s c n (memchr m s c n)
unfolding memchr
memchr_lem s c zero m = λ i h. absurd (omega arith)
memchr_lem s c (suc n) m = elim (Bool-cases (m s == c % 256)) [
  | inl hit ↦
      rw (hit, memchr) (0, omega arith, omega arith, ground arith, λ i h. absurd (omega arith))
  | inr miss ↦
      rw (miss, memchr)
        (FindsByte-step m s c n (memchr m (s + 1) c n) (ground arith) (memchr_lem (s + 1) c n m))
]

-- A write that misses a string leaves it a string.
IsString-store :
    (m : Memory) (s n d v : ℕ) → (d < s) ⊎ (s + n < d) → IsString m s n → IsString (store m d v) s n
IsString-store m s n d v apart h = record {
  no_nul = λ i lt. ground (arith, h.no_nul i);
  nul = ground (arith, h.nul);
}

strcpy-eq-copy_up :
    (fuel n dst src : ℕ) (m : Memory)
    → IsString m src n
    → n < fuel
    → (dst ≤ src) ⊎ (src + n < dst)
    → strcpy fuel dst src m ≡ some (copy_up (suc n) dst src m)
unfolding strcpy copy_up
strcpy-eq-copy_up zero n dst src m h lt apart = absurd (omega arith)
strcpy-eq-copy_up (suc fuel) zero dst src m h lt apart = ground (arith, empty_nul m src h)
strcpy-eq-copy_up (suc fuel) (suc n) dst src m h lt apart = ground (
  arith,
  first_ne m src n h,
  strcpy-eq-copy_up fuel n (dst + 1) (src + 1) (store m dst (m src))
      (IsString-store m (src + 1) n dst (m src) (ground arith) (IsString-tail m src n h))
      (omega arith) (ground arith),
)

-- strcpy ends at the NUL of the source and has copied the string with its NUL, and no other byte has
-- changed, where the destination does not begin inside the source, behind its start.
pub strcpy_lem :
    (fuel n dst src : ℕ) (m : Memory)
    → IsString m src n
    → n < fuel
    → (dst ≤ src) ⊎ (src + n < dst)
    → (m1 : Memory) × (strcpy fuel dst src m ≡ some m1)
      × ((i : ℕ) → m1 i ≡ moved m dst src (suc n) i)
strcpy_lem fuel n dst src m h lt apart = (
  copy_up (suc n) dst src m,
  strcpy-eq-copy_up fuel n dst src m h lt apart,
  copy_up_lem (suc n) dst src m (ground arith),
)

-- strchr ends at the first NUL of a string and finds what memchr finds in the string with its NUL.
pub strchr-eq-memchr :
    (fuel n s c : ℕ) (m : Memory)
    → IsString m s n
    → n < fuel
    → strchr m fuel s c ≡ some (memchr m s c (suc n))
unfolding strchr memchr
strchr-eq-memchr zero n s c m h lt = absurd (omega arith)
strchr-eq-memchr (suc fuel) zero s c m h lt = ground (arith, empty_nul m s h)
strchr-eq-memchr (suc fuel) (suc n) s c m h lt = ground (
  arith,
  first_ne m s n h,
  strchr-eq-memchr fuel n (s + 1) c m (IsString-tail m s n h) (omega arith),
)
