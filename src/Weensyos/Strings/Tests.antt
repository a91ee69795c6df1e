-- ===== src/Weensyos/Strings/Tests.antt =====
-- Runs of the string functions of weensyos/lib.cc.
use c_proj.Base.{◌≡◌, refl, [], ◌∷◌, Memory, patch, arith}
use c_proj.Weensyos.Strings.{memmove}
use c_proj.Weensyos.Strings.Copy.{moved, memmove_lem}
use c_proj.Weensyos.Strings.Scan.{IsString}

-- "abc" at 10 and "abd" at 20, in memory that holds 1 elsewhere.
abbrev texts : Memory
texts = patch (patch (λ i. 1) 10 (b'a' ∷ b'b' ∷ b'c' ∷ 0 ∷ [])) 20 (b'a' ∷ b'b' ∷ b'd' ∷ 0 ∷ [])

abc : IsString texts 10 3
abc = record { no_nul = λ i h. ground arith; nul = refl }

abd : IsString texts 20 3
abd = record { no_nul = λ i h. ground arith; nul = refl }

memmove_lem_example : memmove 11 10 3 texts 13 ≡ moved texts 11 10 3 13
memmove_lem_example = memmove_lem 11 10 3 texts 13
