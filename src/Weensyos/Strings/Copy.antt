-- ===== src/Weensyos/Strings/Copy.antt =====
-- memcpy, memmove, memset and strcpy of weensyos/lib.cc.
use native.Mathlib.Decide.{dec_lt, ℕ_discrete}
use c_proj.Base.{
  ℕ, zero, suc, ◌+◌, ◌-◌, ◌%◌, ◌≤◌, ◌≡◌, ◌⊎◌, inl, inr, sym, ◌∙◌, arith, Memory, Bool-cases, ltb,
  if◌then◌else◌, ◌&&◌, within,
}
use c_proj.Weensyos.Strings.{store, copy_up, copy_down, memcpy, memmove, memset}

-- What `m` becomes when the `n` bytes from `s` on are written to `d` all at once.
abbrev pub moved : Memory → (d s n : ℕ) → Memory
moved m d s n i = if within d n i then m (s + (i - d)) else m i

up_step :
    (n d s : ℕ) (m : Memory)
    → (d ≤ s) ⊎ (s + suc n ≤ d)
    → (i : ℕ) → moved (store m d (m s)) (d + 1) (s + 1) n i ≡ moved m d s (suc n) i
up_step n d s m apart i = elim (dec_lt d i) [
  | yes behind ↦ let e : s + 1 + (i - (d + 1)) ≡ s + (i - d) = omega arith in rw e (ground arith)
  | no not_behind ↦ elim (ℕ_discrete i d) [
    | yes at ↦ let e : s ≡ s + (i - d) = omega arith in rw (← e) (ground arith)
    | no before ↦ ground arith
  ]
]

down_step :
    (n d s : ℕ) (m : Memory)
    → s ≤ d
    → (i : ℕ) → moved (store m (d + n) (m (s + n))) d s n i ≡ moved m d s (suc n) i
down_step n d s m apart i = elim (ℕ_discrete i (d + n)) [
  | yes at ↦ let e : s + (i - d) ≡ s + n = omega arith in rw e (ground arith)
  | no other ↦ ground arith
]

-- Forward copying is right where the destination is not inside the source, behind its start.
pub copy_up_lem :
    (n d s : ℕ) (m : Memory) → (d ≤ s) ⊎ (s + n ≤ d) → (i : ℕ) → copy_up n d s m i ≡ moved m d s n i
unfolding copy_up
copy_up_lem zero d s m apart i = ground arith
copy_up_lem (suc n) d s m apart i =
    copy_up_lem n (d + 1) (s + 1) (store m d (m s)) (ground arith) i ∙ up_step n d s m apart i

-- Backward copying is right where the destination is not in front of the source.
copy_down_lem : (n d s : ℕ) (m : Memory) → s ≤ d → (i : ℕ) → copy_down n d s m i ≡ moved m d s n i
unfolding copy_down
copy_down_lem zero d s m apart i = ground arith
copy_down_lem (suc n) d s m apart i =
    copy_down_lem n d s (store m (d + n) (m (s + n))) apart i ∙ down_step n d s m apart i

-- memmove copies the bytes as if all were read before any is written, whether or not the two ranges
-- overlap, and changes no other byte.
pub memmove_lem : (dst src n : ℕ) (m : Memory) (i : ℕ) → memmove dst src n m i ≡ moved m dst src n i
unfolding memmove
memmove_lem dst src n m i = elim (Bool-cases (ltb src dst && ltb dst (src + n))) [
  | inl inside ↦ rw inside (copy_down_lem n dst src m (ground arith) i)
  | inr outside ↦ rw outside (copy_up_lem n dst src m (ground arith) i)
]

-- memcpy agrees with memmove where the destination does not begin inside the source, behind its start.
pub memcpy-eq-memmove :
    (dst src n : ℕ) (m : Memory)
    → (dst ≤ src) ⊎ (src + n ≤ dst)
    → (i : ℕ) → memcpy dst src n m i ≡ memmove dst src n m i
unfolding memcpy
memcpy-eq-memmove dst src n m apart i =
    copy_up_lem n dst src m apart i ∙ sym (memmove_lem dst src n m i)

-- memset writes the low eight bits of `c` to the `n` bytes from `v` on, and changes no other byte.
pub memset_lem :
    (v c n : ℕ) (m : Memory) (i : ℕ) → memset v c n m i ≡ (if within v n i then c % 256 else m i)
unfolding memset
memset_lem v c zero m i = ground arith
memset_lem v c (suc n) m i = memset_lem (v + 1) c n (store m v (c % 256)) i ∙ ground arith
