-- ===== src/Fileio/Student/Invariant.antt =====
-- What holds of the cache of student.c between calls: the asserts of check_invariants, the bytes in
-- front of the head, and the bytes behind it; and the file that a user of the cache sees.
use c_proj.Base.{ℕ, ◌+◌, ◌-◌, ◌≤◌, ◌<◌, ◌≡◌, true, false, arith, Memory, patch}
use c_proj.Fileio.Posix.{Os, RegularFile, grown}
use c_proj.Fileio.Student.{Io300File, Io, done, check_invariants, written_bytes}

-- The asserts of check_invariants.
pub record Held (cache_size : ℕ) (f : Io300File) : Type 0 where
  pub start_le : f.cache_start ≤ f.head
  pub head_le : f.head ≤ f.cache_end
  pub span : f.cache_end ≤ f.cache_start + cache_size

module _ {S : Type 0} {cache_size : ℕ} where
  pub check-done : (w : Io S) → Held cache_size w.file → check_invariants cache_size w ≡ done tt w
  unfolding check_invariants
  check-done w h = ground arith

module _ {S : Type 0} {os : Os S} (disk : RegularFile S os) where
  -- The file as its user sees it: the disk, with the cache in front of the head written over it.
  abbrev pub view_byte : Io S → Memory
  view_byte w = patch (disk.byte w.sys) w.file.cache_start (written_bytes w.file)

  abbrev pub view_size : Io S → ℕ
  view_size w = grown (disk.size w.sys) w.file.cache_start (written_bytes w.file)

  -- A byte of the cache is the byte of the file at that offset.
  abbrev pub Agrees : Io S → ℕ → Type 0
  Agrees w i = (i < disk.size w.sys) × (w.file.cache (i - w.file.cache_start) ≡ disk.byte w.sys i)

  -- The bytes in front of the head are those of the disk, unless they are to be written back.
  abbrev pub IsPrefixed : Io S → Type 0
  IsPrefixed w =
      w.file.dirty ≡ false → (i : ℕ) → w.file.cache_start ≤ i → i < w.file.head → Agrees w i

  -- The bytes from the head to the end of the cache are those of the disk.
  abbrev pub IsLoaded : Io S → Type 0
  IsLoaded w = (i : ℕ) → w.file.head ≤ i → i < w.file.cache_end → Agrees w i

  -- What every call keeps.
  pub record IsValid (cache_size : ℕ) (w : Io S) : Type 0 where
    pub held : Held cache_size w.file
    pub forward : w.file.direction ≡ true
    pub prefixed : IsPrefixed w
