-- ===== src/Weensyos/Printer/Buffer.antt =====
-- string_printer, vsnprintf and snprintf of weensyos/lib.cc.

use native.Mathlib.Decide.{ℕ_discrete, dec_lt}
use c_proj.Base.{
  ℕ, zero, suc, ◌+◌, ◌-◌, ◌%◌, ◌^◌, ◌≤◌, ◌<◌, ◌≡◌, refl, sym, ap, ap₂, ◌∙◌, true, false, not, ◌&&◌,
  List, [], ◌∷◌, ◌++◌, arith, ltb, length-take, ltb-true, ltb-false, ◌==◌, if◌then◌else◌, length,
  take, Memory, patch, get_or, Bool-cases, inl, inr, min, patch-eq, patch-append, patch-nil,
}
use c_proj.Weensyos.Printer.{Arg}
use c_proj.Weensyos.Printer.Fields.{Put, printed, undefined_behaviour, out_of_fuel, vprintf}

-- struct string_printer, with the memory that it writes to.
pub record StringPrinter : Type 0 where
  pub memory : Memory
  pub s : ℕ
  pub end_of_buffer : ℕ
  pub n : ℕ

abbrev pub byte_at : Memory → (a v : ℕ) → Memory
byte_at m a v i = if i == a then v else m i

abbrev pub string_putc : ℕ → StringPrinter → StringPrinter
string_putc c p =
    if ltb p.s p.end_of_buffer
    then record p { memory = byte_at p.memory p.s (c % 256); s = p.s + 1; n = p.n + 1 }
    else record p { n = p.n + 1 }

unfoldable pub string_puts : List Put → StringPrinter → StringPrinter
string_puts [] p = p
string_puts ((c, colour) ∷ ps) p = string_puts ps (string_putc c p)

-- The NUL at the end.
abbrev pub terminated : (size : ℕ) → StringPrinter → Memory
terminated size p =
    if not (size == 0) && ltb p.s p.end_of_buffer
    then byte_at p.memory p.s 0
    else if not (size == 0)
    then byte_at p.memory (p.end_of_buffer - 1) 0
    else p.memory

-- The constructor.
abbrev pub string_printer : (s size : ℕ) → Memory → StringPrinter
string_printer s size m = record { memory = m; s = s; end_of_buffer = s + size; n = 0 }

-- What a call comes to: the count that it returns, and the memory.
pub data Formatted : Type 0 where
  formatted : ℕ → Memory → Formatted
  formats_undefined : Formatted
  no_fuel : Formatted

unfoldable pub vsnprintf : (s size : ℕ) → List ℕ → List Arg → Memory → Formatted
vsnprintf s size format args m = elim (vprintf 0 format args) [
  | undefined_behaviour ↦ formats_undefined
  | out_of_fuel ↦ no_fuel
  | printed ps ↦
      let sp : StringPrinter = string_puts ps (string_printer s size m) in
      formatted sp.n (terminated size sp)
]

-- `int n = vsnprintf(...)`, by its bit pattern.
abbrev pub as_int : Formatted → Formatted
as_int (formatted n m) = formatted (n % 2 ^ 32) m
as_int r = r

unfoldable pub snprintf : (s size : ℕ) → List ℕ → List Arg → Memory → Formatted
snprintf s size format args m = as_int (vsnprintf s size format args m)

-- The bytes of the calls of putc.
abbrev pub bytes_of : List Put → List ℕ
bytes_of [] = []
bytes_of ((c, colour) ∷ ps) = c % 256 ∷ bytes_of ps

string_puts-n : (ps : List Put) (p : StringPrinter) → (string_puts ps p).n ≡ p.n + length ps
unfolding string_puts
string_puts-n [] p = omega arith
string_puts-n ((c, colour) ∷ ps) p = string_puts-n ps (string_putc c p) ∙ ground arith

string_puts-s :
    (ps : List Put) (p : StringPrinter)
    → p.s ≤ p.end_of_buffer
    → (string_puts ps p).s ≡ p.s + min (length ps) (p.end_of_buffer - p.s)
unfolding string_puts
string_puts-s [] p h = omega arith
string_puts-s ((c, colour) ∷ ps) p h =
    string_puts-s ps (string_putc c p) (ground arith) ∙ ground arith

string_puts-end :
    (ps : List Put) (p : StringPrinter) → (string_puts ps p).end_of_buffer ≡ p.end_of_buffer
unfolding string_puts
string_puts-end [] p = refl
string_puts-end ((c, colour) ∷ ps) p = string_puts-end ps (string_putc c p) ∙ ground arith

length-bytes_of : (ps : List Put) → length (bytes_of ps) ≡ length ps
length-bytes_of [] = refl
length-bytes_of ((c, colour) ∷ ps) = ap suc (length-bytes_of ps)

byte_at-patch : (m : Memory) (a v i : ℕ) → byte_at m a v i ≡ patch m a (v ∷ []) i
byte_at-patch m a v i = elim (ℕ_discrete i a) [
  | yes at ↦ let e : i - a ≡ 0 = omega arith in ground (arith, e)
  | no other ↦ ground arith
]

take-nil : (n : ℕ) → ◌≡◌ {A = List ℕ} (take n []) []
take-nil zero = refl
take-nil (suc n) = refl

-- The bytes that fit, written one behind the other.
string_puts-memory :
    (ps : List Put) (p : StringPrinter)
    → p.s ≤ p.end_of_buffer
    → (i : ℕ)
    → (string_puts ps p).memory i
      ≡ patch p.memory p.s (take (p.end_of_buffer - p.s) (bytes_of ps)) i
unfolding string_puts
string_puts-memory [] p h i = rw (take-nil (p.end_of_buffer - p.s)) (sym (patch-nil p.memory p.s i))
string_puts-memory ((c, colour) ∷ ps) p h i = elim (Bool-cases (ltb p.s p.end_of_buffer)) [
  | inl fits ↦
      let room : p.end_of_buffer - p.s ≡ suc (p.end_of_buffer - (p.s + 1)) = ground arith in
      rw (fits, room, string_puts, string_putc)
        (string_puts-memory ps
            (record {
              memory = byte_at p.memory p.s (c % 256);
              s = p.s + 1;
              end_of_buffer = p.end_of_buffer;
              n = p.n + 1;
            })
            (ground arith) i
          ∙ patch-eq (byte_at p.memory p.s (c % 256)) (patch p.memory p.s (c % 256 ∷ [])) (p.s + 1)
              (p.s + 1) (take (p.end_of_buffer - (p.s + 1)) (bytes_of ps)) i
              (byte_at-patch p.memory p.s (c % 256) i) refl
          ∙ patch-append p.memory p.s (p.s + 1) (c % 256 ∷ [])
              (take (p.end_of_buffer - (p.s + 1)) (bytes_of ps)) i refl)
  | inr full ↦
      let none_left : p.end_of_buffer - p.s ≡ 0 = ground arith in
      rw (full, string_puts, string_putc)
        (string_puts-memory ps (record p { n = p.n + 1 }) h i
          ∙ ap (λ k. patch p.memory p.s (take k (bytes_of ps)) i) none_left
          ∙ sym (ap (λ k. patch p.memory p.s (take k (c % 256 ∷ bytes_of ps)) i) none_left))
]

take-succ :
    (n : ℕ) (bs : List ℕ) → n < length bs → take (suc n) bs ≡ take n bs ++ (get_or bs n 0 ∷ [])
take-succ n [] h = absurd (omega arith)
take-succ zero (b ∷ bs) h = refl
take-succ (suc n) (b ∷ bs) h = ap (λ xs. b ∷ xs) (take-succ n bs (omega arith))

take-all : (n : ℕ) (bs : List ℕ) → length bs ≤ n → take n bs ≡ bs
take-all zero [] h = refl
take-all (suc n) [] h = refl
take-all zero (b ∷ bs) h = absurd (omega arith)
take-all (suc n) (b ∷ bs) h = ap (λ xs. b ∷ xs) (take-all n bs (omega arith))

-- What a buffer of `size` bytes is given: as many bytes as leave room for the NUL, and the NUL.
abbrev pub kept : (size : ℕ) → List ℕ → List ℕ
kept zero bs = []
kept (suc n) bs = take n bs ++ (0 ∷ [])

-- The NUL behind the bytes of a patch.
end_patch :
    (m m1 : Memory) (s a : ℕ) (bs : List ℕ)
    → a ≡ s + length bs
    → ((i : ℕ) → m1 i ≡ patch m s bs i)
    → (i : ℕ) → byte_at m1 a 0 i ≡ patch m s (bs ++ (0 ∷ [])) i
end_patch m m1 s a bs e same i =
    byte_at-patch m1 a 0 i
    ∙ patch-eq m1 (patch m s bs) a a (0 ∷ []) i (same i) refl
    ∙ patch-append m s a bs (0 ∷ []) i e

byte_at-twice : (m : Memory) (a x y i : ℕ) → byte_at (byte_at m a x) a y i ≡ byte_at m a y i
byte_at-twice m a x y i = ground arith

-- The NUL in place of the last byte of a patch.
last_patch :
    (m m1 : Memory) (s a x : ℕ) (bs : List ℕ)
    → a ≡ s + length bs
    → ((i : ℕ) → m1 i ≡ patch m s (bs ++ (x ∷ [])) i)
    → (i : ℕ) → byte_at m1 a 0 i ≡ patch m s (bs ++ (0 ∷ [])) i
last_patch m m1 s a x bs e same i =
    ap (λ v. if i == a then 0 else v)
      (same i ∙ sym (patch-append m s a bs (x ∷ []) i e) ∙ sym (byte_at-patch (patch m s bs) a x i))
    ∙ byte_at-twice (patch m s bs) a x 0 i
    ∙ end_patch m (patch m s bs) s a bs e (λ k. refl) i

terminated-kept :
    (s size : ℕ) (ps : List Put) (m : Memory) (i : ℕ)
    → terminated size (string_puts ps (string_printer s size m)) i
      ≡ patch m s (kept size (bytes_of ps)) i
terminated-kept s zero ps m i =
    let room : s + 0 - s ≡ 0 = omega arith in
    string_puts-memory ps (string_printer s 0 m) (omega arith) i
    ∙ ap (λ n. patch m s (take n (bytes_of ps)) i) room
terminated-kept s (suc n) ps m i =
    let p = string_printer s (suc n) m in
    let len = length-bytes_of ps in
    let ends = string_puts-end ps p in
    let at = string_puts-s ps p (omega arith) in
    let nonzero : (suc n == 0) ≡ false = ground arith in
    let room : s + suc n - s ≡ suc n = omega arith in
    let same : (k : ℕ) → (string_puts ps p).memory k ≡ patch m s (take (suc n) (bytes_of ps)) k =
      λ k.
        string_puts-memory ps p (omega arith) k
        ∙ ap (λ r. patch m s (take r (bytes_of ps)) k) room in
    elim (dec_lt n (length ps)) [
      | yes long ↦
          let full : ltb (string_puts ps p).s (string_puts ps p).end_of_buffer ≡ false =
            ltb-false _ _ (omega (arith, ends, at)) in
          rw (full, nonzero)
            (last_patch m (string_puts ps p).memory s ((string_puts ps p).end_of_buffer - 1)
              (get_or (bytes_of ps) n 0) (take n (bytes_of ps))
              (omega (arith, ends, length-take n (bytes_of ps), len))
              (λ k.
                same k ∙ ap (λ bs. patch m s bs k) (take-succ n (bytes_of ps) (omega (arith, len))))
              i)
      | no short ↦
          let fits : ltb (string_puts ps p).s (string_puts ps p).end_of_buffer ≡ true =
            ltb-true _ _ (omega (arith, ends, at)) in
          rw (fits, nonzero)
            (end_patch m (string_puts ps p).memory s (string_puts ps p).s (take n (bytes_of ps))
              (omega (arith, at, length-take n (bytes_of ps), len))
              (λ k.
                same k
                ∙ ap (λ bs. patch m s bs k)
                    (take-all (suc n) (bytes_of ps) (omega (arith, len))
                      ∙ sym (take-all n (bytes_of ps) (omega (arith, len)))))
              i)
    ]

-- Where vprintf prints, vsnprintf returns how many bytes the whole text has, whatever the size, and a
-- buffer of `size` bytes from s on then holds the first size - 1 bytes of the text, or all of them if
-- they are fewer, and a NUL; no other byte is written, and none if the size is 0.
pub vsnprintf_lem :
    (s size : ℕ) (format : List ℕ) (args : List Arg) (m : Memory) (ps : List Put)
    → vprintf 0 format args ≡ printed ps
    → vsnprintf s size format args m ≡ formatted (length ps) (patch m s (kept size (bytes_of ps)))
unfolding vsnprintf
vsnprintf_lem s size format args m ps e =
    rw (e, vsnprintf)
      (ap₂ formatted (string_puts-n ps (string_printer s size m) ∙ omega arith)
        (λ j i. terminated-kept s size ps m i j))
