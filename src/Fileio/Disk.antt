-- ===== src/Fileio/Disk.antt =====
-- A regular file in memory: a concrete operating system that meets the laws of Posix.
use native.Mathlib.Decide.{dec_lt}
use c_proj.Base.{
  ℕ, ◌+◌, ◌-◌, ◌≤◌, ◌<◌, ◌≡◌, refl, sym, ◌∙◌, true, some, List, [], ◌∷◌, arith, Memory, patch,
  patch_above, patch-nil, slice, min, length, ltb, if◌then◌else◌,
}
use c_proj.Fileio.Posix.{Os, RegularFile, grown}

-- `mem` counts up to `size`; `offset` is the descriptor's own.
pub record Disk : Type 0 where
  pub size : ℕ
  pub mem : Memory
  pub offset : ℕ

abbrev pub byte_of : Disk → Memory
byte_of d i = if ltb i d.size then d.mem i else 0

abbrev pub written_at : Disk → List ℕ → ℕ → Disk
written_at d bs off = record d { size = grown d.size off bs; mem = patch (byte_of d) off bs }

abbrev pub count_at : Disk → ℕ → ℕ → ℕ
count_at d len off = min len (d.size - off)

abbrev pub disk_os : Os Disk
disk_os = record {
  open_fd = λ d. some (record d { offset = 0 });
  pread = λ d len off. some (slice (byte_of d) off (count_at d len off));
  pwrite = λ d bs off. (some (length bs), written_at d bs off);
  lseek = λ d pos. (some pos, record d { offset = pos });
  read = λ d len. (
    some (slice (byte_of d) d.offset (count_at d len d.offset)),
    record d { offset = d.offset + count_at d len d.offset },
  );
  write = λ d bs.
      (some (length bs), record (written_at d bs d.offset) { offset = d.offset + length bs });
  fstat = λ d. some (true, d.size);
  close_fd = λ d. (true, d);
}

pub past_end : (d : Disk) (i : ℕ) → d.size ≤ i → byte_of d i ≡ 0
past_end d i h = ground arith

unwritten :
    (d : Disk) (bs : List ℕ) (off i : ℕ) → grown d.size off bs ≤ i → patch (byte_of d) off bs i ≡ 0
unwritten d [] off i h = patch-nil (byte_of d) off i ∙ past_end d i h
unwritten d (b ∷ bs) off i h =
    patch_above (byte_of d) off (b ∷ bs) i (omega arith) ∙ past_end d i (omega arith)

byte_of_inside : (d : Disk) (i : ℕ) → i < d.size → byte_of d i ≡ d.mem i
byte_of_inside d i h = ground arith

pub written_byte :
    (d : Disk) (bs : List ℕ) (off i : ℕ)
    → byte_of (written_at d bs off) i ≡ patch (byte_of d) off bs i
written_byte d bs off i = elim (dec_lt i (grown d.size off bs)) [
  | yes h ↦ byte_of_inside (written_at d bs off) i h
  | no h ↦ past_end (written_at d bs off) i (omega arith) ∙ sym (unwritten d bs off i (omega arith))
]

abbrev pub disk_laws : RegularFile Disk disk_os
disk_laws = record {
  size = λ d. d.size;
  byte = byte_of;
  past_end = past_end;
  pread_lem = λ d len off. refl;
  pwrite_count = λ d bs off. refl;
  pwrite_byte = written_byte;
  pwrite_size = λ d bs off. refl;
  lseek_result = λ d pos. refl;
  lseek_byte = λ d pos i. refl;
  lseek_size = λ d pos. refl;
  read_after_lseek = λ d len pos. refl;
  read_byte = λ d len i. refl;
  read_size = λ d len. refl;
  fstat_lem = λ d. refl;
  close_byte = λ d i. refl;
  close_size = λ d. refl;
}
