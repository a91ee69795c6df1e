-- ===== src/Fileio/Naive.antt =====
-- fileio/impl/naive.c: the calls of io300.h without a cache, on the state of the descriptor.
pub mod Agreement
mod Tests
use c_proj.Base.{
  ℕ, ◌%◌, ◌^◌, Bool, true, false, Option, none, some, List, [], ◌∷◌, ltb, ◌==◌, if◌then◌else◌,
}
use c_proj.Fileio.Posix.{Os}
use c_proj.Fileio.Student.{as_int}

module _ {S : Type 0} (os : Os S) where
  -- `block` says whether malloc succeeded; `none` is NULL.
  unfoldable pub naive_open : (block : Bool) → S → Option S
  naive_open block s = if block then os.open_fd s else none

  -- `none` is -1.
  unfoldable pub naive_filesize : S → Option ℕ
  naive_filesize s = elim (os.fstat s) [
    | none ↦ none
    | some (regular, size) ↦ if regular then some size else none
  ]

  -- The offset as an int; `none` is a negative one, which -1 is too.
  abbrev int_of : Option ℕ → Option ℕ
  int_of none = none
  int_of (some p) = as_int p

  unfoldable pub naive_seek : (pos : ℕ) → S → Option ℕ × S
  naive_seek pos s = (int_of (os.lseek s pos).0, (os.lseek s pos).1)

  abbrev one_byte : Option (List ℕ) → Option ℕ
  one_byte (some (c ∷ [])) = some c
  one_byte _ = none

  unfoldable pub naive_readc : S → Option ℕ × S
  naive_readc s = (one_byte (os.read s 1).0, (os.read s 1).1)

  abbrev one_written : ℕ → Option ℕ → Option ℕ
  one_written ch none = none
  one_written ch (some n) = if n == 1 then as_int ch else none

  -- `ch` is an int by its bit pattern, and `none` a negative int.
  unfoldable pub naive_writec : (ch : ℕ) → S → Option ℕ × S
  naive_writec ch s =
      (one_written ch (os.write s (ch % 256 ∷ [])).0, (os.write s (ch % 256 ∷ [])).1)

  unfoldable pub naive_read : (sz : ℕ) → S → Option (List ℕ) × S
  naive_read sz s = os.read s sz

  unfoldable pub naive_write : List ℕ → S → Option ℕ × S
  naive_write bs s = os.write s bs

  -- io300_flush does nothing and returns 0.
  unfoldable pub naive_flush : S → Bool × S
  naive_flush s = (true, s)

  -- The descriptor is not closed.
  unfoldable pub naive_close : S → Bool × S
  naive_close s = (true, (naive_flush s).1)
