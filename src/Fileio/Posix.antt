-- ===== src/Fileio/Posix.antt =====
-- The system calls that impl/student.c makes on its file descriptor. They are a parameter of the
-- model: `Os` has the calls, `RegularFile` what POSIX documents of them on a regular file.
use c_proj.Base.{
  ℕ, ◌+◌, ◌-◌, ◌≤◌, min, max, ◌≡◌, Bool, true, Option, some, List, [], ◌∷◌, Memory, length, patch,
  slice,
}

-- `S` is the state of the kernel's side of the descriptor. `none` stands for the result -1.
pub record Os (S : Type 0) : Type 0 where
  -- open(path, O_RDWR | O_CREAT | O_SYNC, …)
  pub open_fd : S → Option S
  -- pread(fd, buf, len, off): the bytes that it puts into `buf`
  pub pread : S → (len off : ℕ) → Option (List ℕ)
  -- pwrite(fd, buf, len, off): the count of bytes that it wrote
  pub pwrite : S → (bytes : List ℕ) (off : ℕ) → Option ℕ × S
  -- lseek(fd, pos, SEEK_SET)
  pub lseek : S → (pos : ℕ) → Option ℕ × S
  -- read(fd, buf, len) and write(fd, buf, len), at the descriptor's own offset
  pub read : S → (len : ℕ) → Option (List ℕ) × S
  pub write : S → (bytes : List ℕ) → Option ℕ × S
  -- fstat(fd, &s): S_ISREG(s.st_mode) and s.st_size
  pub fstat : S → Option (Bool × ℕ)
  -- close(fd): is the result 0?
  pub close_fd : S → Bool × S

-- A zero-length write does not extend a file.
abbrev pub grown : (size off : ℕ) → List ℕ → ℕ
grown size off [] = size
grown size off (b ∷ bs) = max size (off + length (b ∷ bs))

-- The documented behaviour on a regular file when no call fails: reads are short only at the end
-- of the file, writes are whole, and a gap reads as zero.
pub record RegularFile (S : Type 0) (os : Os S) : Type 0 where
  pub size : S → ℕ
  pub byte : S → Memory
  pub past_end : (s : S) (i : ℕ) → size s ≤ i → byte s i ≡ 0
  pub pread_lem :
      (s : S) (len off : ℕ)
      → os.pread s len off ≡ some (slice (byte s) off (min len (size s - off)))
  pub pwrite_count : (s : S) (bs : List ℕ) (off : ℕ) → (os.pwrite s bs off).0 ≡ some (length bs)
  pub pwrite_byte :
      (s : S) (bs : List ℕ) (off i : ℕ) → byte (os.pwrite s bs off).1 i ≡ patch (byte s) off bs i
  pub pwrite_size :
      (s : S) (bs : List ℕ) (off : ℕ) → size (os.pwrite s bs off).1 ≡ grown (size s) off bs
  pub lseek_result : (s : S) (pos : ℕ) → (os.lseek s pos).0 ≡ some pos
  pub lseek_byte : (s : S) (pos i : ℕ) → byte (os.lseek s pos).1 i ≡ byte s i
  pub lseek_size : (s : S) (pos : ℕ) → size (os.lseek s pos).1 ≡ size s
  pub read_after_lseek :
      (s : S) (len pos : ℕ)
      → (os.read (os.lseek s pos).1 len).0 ≡ some (slice (byte s) pos (min len (size s - pos)))
  pub read_byte : (s : S) (len i : ℕ) → byte (os.read s len).1 i ≡ byte s i
  pub read_size : (s : S) (len : ℕ) → size (os.read s len).1 ≡ size s
  pub fstat_lem : (s : S) → os.fstat s ≡ some (true, size s)
  pub close_byte : (s : S) (i : ℕ) → byte (os.close_fd s).1 i ≡ byte s i
  pub close_size : (s : S) → size (os.close_fd s).1 ≡ size s
