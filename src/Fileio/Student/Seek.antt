-- ===== src/Fileio/Student/Seek.antt =====
-- io300_seek, io300_close and io300_open of student.c on a regular file, and a write read back.

use c_proj.Base.{
  subst, ℕ, ◌+◌, ◌-◌, ◌≤◌, ◌≡◌, inl, inr, refl, sym, ap, ◌∙◌, true, false, Option, none, some,
  arith, length, patch, slice, length-slice, patch-slice_inside, min, if◌then◌else◌, Bool-cases,
}
use c_proj.Fileio.Posix.{Os, RegularFile}
use c_proj.Fileio.Student.{
  Io300File, Io, done, size_lt, as_int, seek_length, seek_flush, seek_load, seek_body, io300_seek,
  io300_close, written_bytes,
}
use c_proj.Fileio.Student.Invariant.{Held, check-done, view_byte, view_size, IsLoaded, IsValid}
use c_proj.Fileio.Student.Flush.{
  flushed, flush-done, clean-view_byte, clean-view_size, unwritten-view_byte, unwritten-view_size,
}

-- The recorded size after a seek to `p`: a seek past the end records `p`.
abbrev pub size_after : Option ℕ → ℕ → Option ℕ
size_after size p = if size_lt size p then some p else size

module _ {S : Type 0} {os : Os S} (disk : RegularFile S os) (cache_size : ℕ) where
  -- The state once the cache has been written back and the call counted: the disk is the view.
  record Settled (w w1 : Io S) : Type 0 where
    forward : w1.file.direction ≡ true
    clean : w1.file.dirty ≡ false
    size_kept : w1.file.file_size ≡ w.file.file_size
    byte : (i : ℕ) → disk.byte w1.sys i ≡ view_byte disk w i
    size : disk.size w1.sys ≡ view_size disk w

  settle :
      (w : Io S)
      → IsValid disk cache_size w
      → (w1 : Io S) × (seek_flush os cache_size w ≡ done tt w1) × Settled w w1
  unfolding seek_flush
  settle w v =
      let counted : Io S = record w { file = record (w.file) { seeks = w.file.seeks + 1 } } in
      let held : Held cache_size counted.file = record {
        start_le = v.held.start_le;
        head_le = v.held.head_le;
        span = v.held.span;
      } in
      elim (Bool-cases w.file.dirty) [
        | inl dirty ↦ (
          flushed os cache_size counted,
          ground (arith, flush-done disk cache_size counted held),
          record {
            forward = v.forward;
            clean = refl;
            size_kept = refl;
            byte = disk.pwrite_byte w.sys (written_bytes w.file) w.file.cache_start;
            size = disk.pwrite_size w.sys (written_bytes w.file) w.file.cache_start;
          },
        )
        | inr clean ↦ (
          counted,
          ground arith,
          record {
            forward = v.forward;
            clean = clean;
            size_kept = refl;
            byte = clean-view_byte disk cache_size w v clean;
            size = clean-view_size disk cache_size w v clean;
          },
        )
      ]

  -- What io300_seek leaves: an empty or freshly loaded cache at the new offset.
  pub record Sought (w : Io S) (p : ℕ) (w1 : Io S) : Type 0 where
    pub valid : IsValid disk cache_size w1
    pub is_loaded : IsLoaded disk w1
    pub head_at : w1.file.head ≡ p
    pub byte_kept : (i : ℕ) → view_byte disk w1 i ≡ view_byte disk w i
    pub length_kept : view_size disk w1 ≡ view_size disk w
    pub recorded_size : w1.file.file_size ≡ size_after w.file.file_size p

  abbrev at_offset : Io300File → ℕ → Io300File
  at_offset f p = record f { head = p; cache_start = p; cache_end = p }

  -- The bytes that the read of io300_seek finds.
  abbrev sought_count : Io S → ℕ → ℕ
  sought_count w p = min (seek_length cache_size w.file.file_size p) (disk.size w.sys - p)

  seek_length-le : (size : Option ℕ) (p : ℕ) → seek_length cache_size size p ≤ cache_size
  seek_length-le none p = omega arith
  seek_length-le (some n) p = ground arith

  module _ (w w1 : Io S) (p : ℕ) (settled : Settled w w1) where
    -- A state that starts at `p` on a disk with the same contents.
    Sought-any :
        (w2 : Io S) (n : ℕ)
        → w2.file.direction ≡ true
        → w2.file.head ≡ p
        → w2.file.cache_start ≡ p
        → w2.file.cache_end ≡ p + n
        → n ≤ cache_size
        → IsLoaded disk w2
        → ((i : ℕ) → disk.byte w2.sys i ≡ disk.byte w1.sys i)
        → disk.size w2.sys ≡ disk.size w1.sys
        → w2.file.file_size ≡ size_after w.file.file_size p
        → Sought w p w2
    Sought-any w2 n forward head start end le l byte size recorded = record {
      valid = record {
        held = record { start_le = omega arith; head_le = omega arith; span = omega arith };
        forward = forward;
        prefixed = λ clean i lo hi. absurd (omega arith);
      };
      is_loaded = l;
      head_at = head;
      byte_kept =
          λ i. unwritten-view_byte disk cache_size w2 (omega arith) i ∙ byte i ∙ settled.byte i;
      length_kept = unwritten-view_size disk cache_size w2 (omega arith) ∙ size ∙ settled.size;
      recorded_size = recorded;
    }

    Sought-past :
        size_lt w1.file.file_size p ≡ true
        → (w2 : Io S) × (seek_body os cache_size p w1 ≡ done (as_int p) w2) × Sought w p w2
    unfolding seek_body seek_load
    Sought-past past =
        let s2 = (os.lseek w1.sys p).1 in
        let w2 : Io S = record {
          file = record (at_offset w1.file p) { file_size = some p };
          sys = s2;
        } in
        (
          w2,
          rw (disk.lseek_result w1.sys p, seek_body, past, seek_load),
          Sought-any w2 0 settled.forward refl refl (omega arith) (omega arith)
              (λ i lo hi. absurd (omega arith)) (disk.lseek_byte w1.sys p)
              (disk.lseek_size w1.sys p)
              (rw (subst (λ fs. size_lt fs p ≡ true) settled.size_kept past)),
        )

    Sought-inside :
        size_lt w1.file.file_size p ≡ false
        → (w2 : Io S) × (seek_body os cache_size p w1 ≡ done (as_int p) w2) × Sought w p w2
    unfolding seek_body seek_load
    Sought-inside inside =
        let bs = slice (disk.byte w1.sys) p (sought_count w1 p) in
        let len : length bs ≡ sought_count w1 p =
          length-slice (disk.byte w1.sys) p (sought_count w1 p) in
        let l = seek_length-le w1.file.file_size p in
        let s1 = (os.lseek w1.sys p).1 in
        let s2 = (os.read s1 (seek_length cache_size w1.file.file_size p)).1 in
        let w2 : Io S = record {
          file = record (at_offset w1.file p) {
            cache = patch w1.file.cache 0 bs;
            cache_end = p + length bs;
          };
          sys = s2;
        } in
        let byte : (i : ℕ) → disk.byte s2 i ≡ disk.byte w1.sys i =
          λ i. disk.read_byte s1 _ i ∙ disk.lseek_byte w1.sys p i in
        let size : disk.size s2 ≡ disk.size w1.sys =
          disk.read_size s1 _ ∙ disk.lseek_size w1.sys p in
        (
          w2,
          rw (
            disk.lseek_result w1.sys p,
            seek_body,
            inside,
            seek_load,
            disk.read_after_lseek w1.sys (seek_length cache_size w1.file.file_size p) p,
            seek_load,
          ),
          Sought-any w2 (sought_count w1 p) settled.forward refl refl (omega arith) (omega arith)
              (λ i lo hi. (
                omega (arith, len, size),
                patch-slice_inside w1.file.cache (disk.byte w1.sys) 0 p (sought_count w1 p) (i - p)
                      (omega arith) (omega arith)
                    ∙ ap (disk.byte w1.sys) (omega arith)
                    ∙ sym (byte i),
              ))
              byte size
              (rw (subst (λ fs. size_lt fs p ≡ false) settled.size_kept inside) settled.size_kept),
        )

  -- io300_seek returns the offset (as an int) and leaves the file as its user sees it as it was, with
  -- the head at the offset and a cache that holds bytes of the file; on a regular file, from a valid
  -- state. The recorded size becomes the offset where that is greater.
  pub seek_lem :
      (p : ℕ) (w : Io S)
      → IsValid disk cache_size w
      → (w1 : Io S) × (io300_seek os cache_size p w ≡ done (as_int p) w1) × Sought w p w1
  unfolding io300_seek
  seek_lem p w v =
      let (w1, run, settled) = settle w v in
      elim (Bool-cases (size_lt w1.file.file_size p)) [
        | inl past ↦
            let (w2, ran, sought) = Sought-past w w1 p settled past in
            (w2, rw (check-done w v.held, run) ran, sought)
        | inr inside ↦
            let (w2, ran, sought) = Sought-inside w w1 p settled inside in
            (w2, rw (check-done w v.held, run) ran, sought)
      ]

  -- io300_close ends with a call of close(fd), whose result it returns and whose state it leaves, and
  -- leaves on the disk exactly the file as its user saw it, whether or not the cache was dirty; on a
  -- regular file, from a valid state.
  pub close_lem :
      (w : Io S)
      → IsValid disk cache_size w
      → (w0 : Io S) × (w1 : Io S) × (io300_close os cache_size w ≡ done (os.close_fd w0.sys).0 w1)
        × (w1.sys ≡ (os.close_fd w0.sys).1)
        × ((i : ℕ) → disk.byte w1.sys i ≡ view_byte disk w i)
        × (disk.size w1.sys ≡ view_size disk w)
  unfolding io300_close
  close_lem w v = elim (Bool-cases w.file.dirty) [
    | inl dirty ↦
        let w1 = flushed os cache_size w in
        (
          w1,
          record w1 { sys = (os.close_fd w1.sys).1 },
          ground (arith, check-done w v.held, flush-done disk cache_size w v.held),
          refl,
          λ i.
              disk.close_byte w1.sys i
              ∙ disk.pwrite_byte w.sys (written_bytes w.file) w.file.cache_start i,
          disk.close_size w1.sys ∙ disk.pwrite_size w.sys (written_bytes w.file) w.file.cache_start,
        )
    | inr clean ↦ (
      w,
      record w { sys = (os.close_fd w.sys).1 },
      ground (arith, check-done w v.held),
      refl,
      λ i. disk.close_byte w.sys i ∙ clean-view_byte disk cache_size w v clean i,
      disk.close_size w.sys ∙ clean-view_size disk cache_size w v clean,
    )
  ]
