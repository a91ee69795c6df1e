-- ===== src/Fileio/Student/Flush.antt =====
-- io300_flush and io300_fetch of student.c on a regular file: the state that each leaves.
use c_proj.Base.{
  ℕ, zero, suc, ◌+◌, ◌-◌, ◌≤◌, ◌<◌, ◌≡◌, ◌⊎◌, inl, inr, refl, sym, ap, ◌∙◌, true, false, arith,
  patch, slice, length-slice, min, max, if◌then◌else◌, Bool-cases, patch-slice_inside, patch_below,
  patch_above, Memory,
}
use native.Mathlib.Decide.{dec_le, dec_lt}
use c_proj.Fileio.Posix.{Os, RegularFile, grown}
use c_proj.Fileio.Student.{
  Io, done, written_bytes, io300_flush, flush_body, io300_fetch, fetch_prepare, fetch_read,
}
use c_proj.Fileio.Student.Invariant.{Held, check-done, view_byte, view_size, IsLoaded, IsValid}

pub grown-slice_pos :
    (m : Memory) (size off n : ℕ) → 0 < n → grown size off (slice m 0 n) ≡ max size (off + n)
grown-slice_pos m size off zero h = absurd (omega arith)
grown-slice_pos m size off (suc n) h = omega (arith, length-slice m 1 n)

pub grown_below :
    (m : Memory) (size off n : ℕ) → off + n ≤ size → grown size off (slice m 0 n) ≡ size
grown_below m size off zero h = refl
grown_below m size off (suc n) h = omega (arith, length-slice m 1 n)

module _ {S : Type 0} (os : Os S) (cache_size : ℕ) where
  -- The state after a write-back that succeeds.
  abbrev pub flushed : Io S → Io S
  flushed w = record {
    file = record (w.file) {
      cache_start = w.file.head;
      cache_end = w.file.cache_end + cache_size;
      dirty = false;
    };
    sys = (os.pwrite w.sys (written_bytes w.file) w.file.cache_start).1;
  }

  -- The state in which io300_fetch reads.
  abbrev pub prepared : Io S → Io S
  prepared w = if w.file.dirty then flushed w else record w {
    file = record (w.file) { cache_start = w.file.cache_end; head = w.file.cache_end };
  }

module _ {S : Type 0} {os : Os S} (disk : RegularFile S os) (cache_size : ℕ) where
  -- The state after the read of io300_fetch.
  abbrev pub loaded : Io S → Io S
  loaded w = record w {
    file = record (w.file) {
      cache =
          patch w.file.cache 0
            (slice (disk.byte w.sys) w.file.head (min cache_size (disk.size w.sys - w.file.head)));
      cache_start = w.file.head;
      cache_end = w.file.head + min cache_size (disk.size w.sys - w.file.head);
    };
  }

  abbrev pub fetched : Io S → Io S
  fetched w = loaded (prepared os cache_size w)

  pub flush-done :
      (w : Io S)
      → Held cache_size w.file
      → io300_flush os cache_size w ≡ done true (flushed os cache_size w)
  unfolding io300_flush flush_body
  flush-done w h =
      ground
        (arith, check-done w h, disk.pwrite_count w.sys (written_bytes w.file) w.file.cache_start)

  prepare-done :
      (w : Io S)
      → Held cache_size w.file
      → fetch_prepare os cache_size w ≡ done tt (prepared os cache_size w)
  unfolding fetch_prepare
  prepare-done w h = ground (arith, flush-done w h)

  load-done :
      (w : Io S)
      → w.file.direction ≡ true
      → w.file.cache_start ≤ w.file.head
      → w.file.head ≤ w.file.cache_end
      → fetch_read os cache_size w ≡ done true (loaded w)
  unfolding fetch_read
  load-done w forward lo hi = ground (
    arith,
    disk.pread_lem w.sys cache_size w.file.head,
    length-slice (disk.byte w.sys) w.file.head (min cache_size (disk.size w.sys - w.file.head)),
  )

  pub fetch-done :
      (w : Io S) → IsValid disk cache_size w → io300_fetch os cache_size w ≡ done true (fetched w)
  unfolding io300_fetch
  fetch-done w v =
      rw (check-done w v.held, prepare-done w v.held)
        (load-done (prepared os cache_size w) (ground arith) (ground arith) (ground arith))

  -- What the cache holds in front of the head, as bytes of the view.
  pub view_front :
      (w : Io S) (i : ℕ)
      → w.file.cache_start ≤ i
      → i < w.file.head
      → view_byte disk w i ≡ w.file.cache (i - w.file.cache_start)
  view_front w i lo hi =
      patch-slice_inside (disk.byte w.sys) w.file.cache w.file.cache_start 0
        (w.file.head - w.file.cache_start) i lo (omega arith)
      ∙ ap w.file.cache (omega arith)

  pub view_elsewhere :
      (w : Io S) (i : ℕ)
      → w.file.cache_start ≤ w.file.head
      → (i < w.file.cache_start) ⊎ (w.file.head ≤ i)
      → view_byte disk w i ≡ disk.byte w.sys i
  view_elsewhere w i le (inl h) = patch_below (disk.byte w.sys) _ (written_bytes w.file) i h
  view_elsewhere w i le (inr h) =
      patch_above (disk.byte w.sys) _ (written_bytes w.file) i
        (omega (arith, length-slice w.file.cache 0 (w.file.head - w.file.cache_start)))

  -- With nothing to write back the view is the disk.
  pub clean-view_byte :
      (w : Io S)
      → IsValid disk cache_size w
      → w.file.dirty ≡ false
      → (i : ℕ) → disk.byte w.sys i ≡ view_byte disk w i
  clean-view_byte w v clean i = elim (dec_le w.file.cache_start i) [
    | yes lo ↦ elim (dec_lt i w.file.head) [
      | yes hi ↦ sym (view_front w i lo hi ∙ (v.prefixed clean i lo hi).1)
      | no hi ↦ sym (view_elsewhere w i v.held.start_le (inr (omega arith)))
    ]
    | no lo ↦ sym (view_elsewhere w i v.held.start_le (inl (omega arith)))
  ]

  pub clean-view_size :
      (w : Io S)
      → IsValid disk cache_size w
      → w.file.dirty ≡ false
      → disk.size w.sys ≡ view_size disk w
  clean-view_size w v clean = elim (dec_lt w.file.cache_start w.file.head) [
    | yes p ↦
        let last : w.file.head - 1 < disk.size w.sys =
          (v.prefixed clean (w.file.head - 1) (omega arith) (omega arith)).0 in
        sym (grown_below w.file.cache _ _ _ (omega arith))
    | no p ↦ let e : w.file.head - w.file.cache_start ≡ 0 = omega arith in rw e
  ]

  pub prepared-byte :
      (w : Io S)
      → IsValid disk cache_size w
      → (i : ℕ) → disk.byte (prepared os cache_size w).sys i ≡ view_byte disk w i
  prepared-byte w v i = elim (Bool-cases w.file.dirty) [
    | inl dirty ↦ rw dirty (disk.pwrite_byte w.sys (written_bytes w.file) w.file.cache_start i)
    | inr clean ↦ rw clean (clean-view_byte w v clean i)
  ]

  pub prepared-size :
      (w : Io S)
      → IsValid disk cache_size w
      → disk.size (prepared os cache_size w).sys ≡ view_size disk w
  prepared-size w v = elim (Bool-cases w.file.dirty) [
    | inl dirty ↦ rw dirty (disk.pwrite_size w.sys (written_bytes w.file) w.file.cache_start)
    | inr clean ↦ rw clean (clean-view_size w v clean)
  ]

  -- Where nothing stands in front of the head, the view is the disk.
  pub unwritten-view_byte :
      (w : Io S)
      → w.file.cache_start ≡ w.file.head
      → (i : ℕ) → view_byte disk w i ≡ disk.byte w.sys i
  unwritten-view_byte w e i = elim (dec_lt i w.file.head) [
    | yes h ↦ view_elsewhere w i (omega arith) (inl (omega arith))
    | no h ↦ view_elsewhere w i (omega arith) (inr (omega arith))
  ]

  pub unwritten-view_size :
      (w : Io S) → w.file.cache_start ≡ w.file.head → view_size disk w ≡ disk.size w.sys
  unwritten-view_size w e =
      let none_written : w.file.head - w.file.cache_start ≡ 0 = omega arith in rw none_written

  pub loaded-IsLoaded : (w : Io S) → IsLoaded disk (loaded w)
  loaded-IsLoaded w i lo hi = (
    omega arith,
    patch-slice_inside w.file.cache (disk.byte w.sys) 0 w.file.head
          (min cache_size (disk.size w.sys - w.file.head)) (i - w.file.head) (omega arith)
          (omega arith)
        ∙ ap (disk.byte w.sys) (omega arith),
  )

  pub loaded-IsValid : (w : Io S) → w.file.direction ≡ true → IsValid disk cache_size (loaded w)
  loaded-IsValid w forward = record {
    held = record { start_le = omega arith; head_le = omega arith; span = omega arith };
    forward = forward;
    prefixed = λ clean i lo hi. absurd (omega arith);
  }

  -- io300_fetch at the end of the cache keeps the head and the view, and what it loads is of the disk.
  pub record Refilled (w w1 : Io S) : Type 0 where
    pub head_kept : w1.file.head ≡ w.file.head
    pub start_at : w1.file.cache_start ≡ w.file.head
    pub end_at : w1.file.cache_end ≡ w.file.head + min cache_size (view_size disk w - w.file.head)
    pub size_kept : w1.file.file_size ≡ w.file.file_size
    pub valid : IsValid disk cache_size w1
    pub is_loaded : IsLoaded disk w1
    pub byte_kept : (i : ℕ) → view_byte disk w1 i ≡ view_byte disk w i
    pub disk_byte : (i : ℕ) → disk.byte w1.sys i ≡ view_byte disk w i
    pub length_kept : view_size disk w1 ≡ view_size disk w
    pub disk_size : disk.size w1.sys ≡ view_size disk w

  prepared-head :
      (w : Io S)
      → w.file.head ≡ w.file.cache_end
      → (prepared os cache_size w).file.head ≡ w.file.head
  prepared-head w e = ground arith

  pub fetched-Refilled :
      (w : Io S)
      → IsValid disk cache_size w
      → w.file.head ≡ w.file.cache_end
      → Refilled w (fetched w)
  fetched-Refilled w v e =
      let p = prepared os cache_size w in
      record {
        head_kept = prepared-head w e;
        start_at = prepared-head w e;
        end_at = rw (prepared-head w e, prepared-size w v);
        size_kept = ground arith;
        valid = loaded-IsValid p (ground arith);
        is_loaded = loaded-IsLoaded p;
        byte_kept = λ i. unwritten-view_byte (loaded p) refl i ∙ prepared-byte w v i;
        disk_byte = λ i. prepared-byte w v i;
        length_kept = unwritten-view_size (loaded p) refl ∙ prepared-size w v;
        disk_size = prepared-size w v;
      }
