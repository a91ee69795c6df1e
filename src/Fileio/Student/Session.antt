-- ===== src/Fileio/Student/Session.antt =====
-- Several calls of student.c in a row on a regular file: open, write, seek, read and close.

use c_proj.Base.{
  subst, ℕ, ◌+◌, ◌-◌, ◌<◌, ◌≡◌, refl, sym, ap, ◌∙◌, true, false, Option, none, some, List, arith,
  length, Memory, patch_inside, slice, slice-list, patch-nil, get_or, min, [], ◌∷◌,
}
use c_proj.Fileio.Posix.{Os, RegularFile, grown}
use c_proj.Fileio.Student.{
  Io, done, size_lt, lt_size, OpenEnv, fresh_file, initialise, io300_open, io300_filesize,
  io300_seek, io300_read, io300_write, ◌>>◌,
}
use c_proj.Fileio.Student.Invariant.{Held, check-done, view_byte, view_size, IsLoaded, IsValid}
use c_proj.Fileio.Student.Flush.{fetched, fetch-done, fetched-Refilled}
use c_proj.Fileio.Student.Reads.{available, read_lem}
use c_proj.Fileio.Student.Writes.{IsHonest, write_lem}
use c_proj.Fileio.Student.Seek.{seek_lem, size_after}

pub size_after-false :
    (size : Option ℕ) (p q n : ℕ) → size ≡ some n → q ≡ p → size_lt (size_after size p) q ≡ false
size_after-false none p q n e f = cc
size_after-false (some m) p q n e f = ground arith

written_available :
    (size2 size h2 h : ℕ) (bs : List ℕ)
    → size2 ≡ grown size h bs
    → h2 ≡ h
    → min (length bs) (size2 - h2) ≡ length bs
written_available size2 size h2 h [] e f = omega arith
written_available size2 size h2 h (b ∷ bs) e f = omega arith

module _ {S : Type 0} {os : Os S} (disk : RegularFile S os) (cache_size : ℕ) where
  -- A state as io300_open leaves it.
  pub record Opened (s : S) (w : Io S) : Type 0 where
    pub valid : IsValid disk cache_size w
    pub is_loaded : IsLoaded disk w
    pub honest : IsHonest disk cache_size w
    pub head_at : w.file.head ≡ 0
    pub byte_kept : (i : ℕ) → view_byte disk w i ≡ disk.byte s i
    pub length_kept : view_size disk w ≡ disk.size s
    pub recorded_size : w.file.file_size ≡ some (disk.size s)

  -- The state between the two calls of io300_open that touch the descriptor.
  abbrev pub sized : OpenEnv → Memory → S → Io S
  sized env block s = record {
    file = record (fresh_file env block) { file_size = some (disk.size s) };
    sys = s;
  }

  sized-IsValid :
      (env : OpenEnv) (block : Memory) (s : S) → IsValid disk cache_size (sized env block s)
  sized-IsValid env block s = record {
    held = record { start_le = omega arith; head_le = omega arith; span = omega arith };
    forward = refl;
    prefixed = λ clean i lo hi. absurd (omega arith);
  }

  initialise_lem :
      (env : OpenEnv) (block : Memory) (s : S)
      → initialise os cache_size env block s ≡ done tt (fetched disk cache_size (sized env block s))
  unfolding initialise io300_filesize
  initialise_lem env block s =
      let w0 = sized env block s in
      let v = sized-IsValid env block s in
      let r = fetched-Refilled disk cache_size w0 v refl in
      let start : Io S = record { file = fresh_file env block; sys = s } in
      let held : Held cache_size start.file = record {
        start_le = omega arith;
        head_le = omega arith;
        span = omega arith;
      } in
      ground (
        arith,
        check-done start held,
        disk.fstat_lem s,
        fetch-done disk cache_size w0 v,
        check-done (fetched disk cache_size w0) r.valid.held,
      )

  pub fetched-Opened :
      (env : OpenEnv) (block : Memory) (s : S)
      → Opened s (fetched disk cache_size (sized env block s))
  fetched-Opened env block s =
      let w0 = sized env block s in
      let w = fetched disk cache_size w0 in
      let r = fetched-Refilled disk cache_size w0 (sized-IsValid env block s) refl in
      let inside : (n : ℕ) → lt_size n (some (disk.size s)) ≡ true → n < disk.size s =
        λ n h. ground arith in
      record {
        valid = r.valid;
        is_loaded = r.is_loaded;
        honest = record {
          recorded = λ n h. rw r.length_kept (inside n h);
          filled = λ h. omega (arith, r.end_at, r.start_at, inside w.file.cache_end h);
        };
        head_at = r.head_kept;
        byte_kept = λ i. r.byte_kept i ∙ patch-nil (disk.byte s) 0 i;
        length_kept = r.length_kept;
        recorded_size = refl;
      }

  -- With a path, a descriptor and both blocks io300_open succeeds: the file is as on the disk, the
  -- head is at 0 and the cache is loaded.
  pub open_lem :
      (env : OpenEnv) (s s1 : S) (block : Memory)
      → env.path ≡ true
      → env.file_block ≡ true
      → env.cache_block ≡ some block
      → os.open_fd s ≡ some s1
      → (w : Io S) × (io300_open os cache_size env s ≡ some (done tt w)) × Opened s1 w
  unfolding io300_open
  open_lem env s s1 block path file_block cache_block opened = (
    fetched disk cache_size (sized env block s1),
    ground (arith, initialise_lem env block s1),
    fetched-Opened env block s1,
  )

  -- Bytes that are written at the head are read back by a seek to where they begin and a read of as
  -- many, which moves the head behind them; on a regular file, with a cache of at least one byte, from
  -- a valid state whose recorded size is known and not more than that of the file, and whose cache is
  -- full if it ends before the recorded size.
  pub write_seek_read :
      (bs : List ℕ) (w : Io S) (n : ℕ)
      → 0 < cache_size
      → IsValid disk cache_size w
      → IsHonest disk cache_size w
      → w.file.file_size ≡ some n
      → (w1 : Io S) × ((io300_write os cache_size bs
              >> io300_seek os cache_size w.file.head
              >> io300_read os cache_size (length bs))
            w
          ≡ done bs w1)
        × (w1.file.head ≡ w.file.head + length bs)
  write_seek_read bs w n pos v honest known =
      let (w1, wrote, v1, h1, written) = write_lem disk cache_size bs w pos v honest in
      let (w2, sought_run, sought) = seek_lem disk cache_size w.file.head w1 v1 in
      let recorded : size_lt w2.file.file_size w2.file.head ≡ false =
        subst (λ fs. size_lt fs w2.file.head ≡ false) (sym sought.recorded_size)
          (size_after-false w1.file.file_size w.file.head w2.file.head n (written.size_kept ∙ known)
            sought.head_at) in
      let (w3, read, d) =
        read_lem disk cache_size (length bs) w2 pos sought.valid sought.is_loaded recorded in
      let all : available disk cache_size w2 (length bs) ≡ length bs =
        written_available (view_size disk w2) (view_size disk w) w2.file.head w.file.head bs
          (sought.length_kept ∙ written.size) sought.head_at in
      let bytes : slice (view_byte disk w2) w2.file.head (length bs) ≡ bs =
        slice-list (view_byte disk w2) w2.file.head bs λ i h.
          sought.byte_kept (w2.file.head + i)
          ∙ written.byte (w2.file.head + i)
          ∙ patch_inside (view_byte disk w) w.file.head bs (w2.file.head + i)
              (omega (arith, sought.head_at)) (omega (arith, sought.head_at))
          ∙ ap (λ k. get_or bs k 0) (omega (arith, sought.head_at)) in
      (
        w3,
        rw (wrote, sought_run, read)
            (λ i. done ((ap (slice (view_byte disk w2) w2.file.head) all ∙ bytes) i) w3),
        omega (arith, d.moved, all, sought.head_at),
      )
