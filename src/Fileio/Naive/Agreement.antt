-- ===== src/Fileio/Naive/Agreement.antt =====
-- student.c reads what naive.c reads.
use c_proj.Base.{
  ℕ, ◌+◌, ◌-◌, ◌<◌, ◌≡◌, sym, ap, ap₂, ◌∙◌, subst, false, some, List, slice, slice-eq, min,
}
use c_proj.Fileio.Posix.{Os, RegularFile}
use c_proj.Fileio.Student.{Io, done, size_lt, io300_seek, io300_read, ◌>>◌}
use c_proj.Fileio.Student.Invariant.{view_byte, view_size, IsValid}
use c_proj.Fileio.Student.Reads.{available, read_lem}
use c_proj.Fileio.Student.Seek.{seek_lem}
use c_proj.Fileio.Student.Session.{size_after-false}
use c_proj.Fileio.Naive.{naive_seek, naive_read}

module _ {S : Type 0} {os : Os S} (disk : RegularFile S os) (cache_size : ℕ) where
  -- The user of the cached file sees the file that is on the disk in `s`.
  pub record SameFile (w : Io S) (s : S) : Type 0 where
    pub same_bytes : (i : ℕ) → view_byte disk w i ≡ disk.byte s i
    pub same_size : view_size disk w ≡ disk.size s

  -- A seek and a read of student.c give the bytes that a seek and a read of naive.c give on the file
  -- that its user sees, whatever the cache holds and whether or not it is dirty; on a regular file,
  -- with a cache of at least one byte, from a valid state whose recorded size is known.
  pub read-eq-naive_read :
      (p sz : ℕ) (w : Io S) (s : S) (n : ℕ)
      → 0 < cache_size
      → IsValid disk cache_size w
      → w.file.file_size ≡ some n
      → SameFile w s
      → (bs : List ℕ) × (w1 : Io S) × ((io300_seek os cache_size p >> io300_read os cache_size sz) w
          ≡ done bs w1)
        × ((naive_read os sz (naive_seek os p s).1).0 ≡ some bs)
  unfolding naive_read naive_seek
  read-eq-naive_read p sz w s n pos v known file =
      let (w1, sought_run, sought) = seek_lem disk cache_size p w v in
      let recorded : size_lt w1.file.file_size w1.file.head ≡ false =
        subst (λ fs. size_lt fs w1.file.head ≡ false) (sym sought.recorded_size)
          (size_after-false w.file.file_size p w1.file.head n known sought.head_at) in
      let (w2, read, d) =
        read_lem disk cache_size sz w1 pos sought.valid sought.is_loaded recorded in
      let count : available disk cache_size w1 sz ≡ min sz (disk.size s - p) =
        ap₂ (λ a b. min sz (a - b)) (sought.length_kept ∙ file.same_size) sought.head_at in
      let bytes : slice (view_byte disk w1) w1.file.head (min sz (disk.size s - p))
          ≡ slice (disk.byte s) p (min sz (disk.size s - p)) =
        slice-eq (view_byte disk w1) (disk.byte s) w1.file.head p (min sz (disk.size s - p)) (λ i h.
          sought.byte_kept (w1.file.head + i)
          ∙ file.same_bytes (w1.file.head + i)
          ∙ ap (λ a. disk.byte s (a + i)) sought.head_at) in
      (
        slice (disk.byte s) p (min sz (disk.size s - p)),
        w2,
        rw (sought_run, read)
            (ap (λ b. done b w2) (ap (slice (view_byte disk w1) w1.file.head) count ∙ bytes)),
        disk.read_after_lseek s sz p,
      )
