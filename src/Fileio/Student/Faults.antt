-- ===== src/Fileio/Student/Faults.antt =====
-- Where student.c does not do what io300.h promises, each for the class of states that shows it.

use c_proj.Base.{
  subst, ℕ, zero, suc, ◌+◌, ◌-◌, ◌<◌, ◌≡◌, refl, ap, ◌∙◌, true, false, none, some, List, [], ◌∷◌,
  arith, length, take, drop, length-take, length-drop, get_or, sym, patch_inside,
}
use c_proj.Fileio.Posix.{Os, RegularFile, grown}
use c_proj.Fileio.Student.{
  Io300File, Io, done, failed, assertion, out_of_fuel, size_lt, lt_size, check_invariants,
  flush_body, fetch_prepare, fetch_read, take_byte, readc_body, make_room, write_loop, io300_flush,
  io300_fetch, io300_filesize, io300_seek, io300_close, io300_readc, io300_writec, io300_read,
  io300_write, ◌>>◌, written_bytes, next_direction, fetch_length, fetch_start,
}
use c_proj.Fileio.Student.Invariant.{Held, check-done, view_byte, view_size, IsValid}
use c_proj.Fileio.Student.Flush.{flushed, flush-done, unwritten-view_size}
use c_proj.Fileio.Student.Reads.{advance, byte_if, next_byte, readc_lem}
use c_proj.Fileio.Student.Writes.{stored, write_loop_round, copy_in-done, IsHonest, write_lem}
use c_proj.Fileio.Student.Seek.{seek_lem, size_after}

size_lt-same : (n : ℕ) → size_lt (some n) n ≡ false
size_lt-same n = ground arith

size_lt-next : (n : ℕ) → size_lt (some n) (n + 1) ≡ true
size_lt-next n = ground arith

size_after-same : (n : ℕ) → size_after (some n) n ≡ some n
size_after-same n = ground arith

grown-end : (n : ℕ) (bs : List ℕ) → 0 < length bs → grown n n bs ≡ n + length bs
grown-end n [] h = absurd (omega arith)
grown-end n (b ∷ bs) h = omega arith

byte_if-inside : (h size b : ℕ) → h < size → byte_if h size b ≡ some b
byte_if-inside h size b lt = ground arith

module _ {S : Type 0} {os : Os S} (disk : RegularFile S os) (cache_size : ℕ) where
  -- Every call begins with the asserts, so where they fail every call aborts.
  pub record AllAbort (w : Io S) : Type 0 where
    pub readc_aborts : io300_readc os cache_size w ≡ failed assertion
    pub writec_aborts : (ch : ℕ) → io300_writec os cache_size ch w ≡ failed assertion
    pub read_aborts : (sz : ℕ) → io300_read os cache_size sz w ≡ failed assertion
    pub write_aborts : (bs : List ℕ) → io300_write os cache_size bs w ≡ failed assertion
    pub seek_aborts : (p : ℕ) → io300_seek os cache_size p w ≡ failed assertion
    pub flush_aborts : io300_flush os cache_size w ≡ failed assertion
    pub size_aborts : io300_filesize os cache_size w ≡ failed assertion
    pub close_aborts : io300_close os cache_size w ≡ failed assertion

  aborts : (w : Io S) → check_invariants cache_size w ≡ failed assertion → AllAbort w
  unfolding io300_readc io300_writec io300_read io300_write io300_seek io300_flush io300_filesize
      io300_close
  aborts w e = record {
    readc_aborts = rw e;
    writec_aborts = λ ch. rw e;
    read_aborts = λ sz. rw e;
    write_aborts = λ bs. rw e;
    seek_aborts = λ p. rw e;
    flush_aborts = rw e;
    size_aborts = rw e;
    close_aborts = rw e;
  }

  -- An io300_flush that succeeds while the cache holds bytes behind the head leaves a state in which
  -- the next call, whichever it is, fails an assert.
  pub flush_then_abort :
      (w : Io S)
      → IsValid disk cache_size w
      → w.file.head < w.file.cache_end
      → (w1 : Io S) × (io300_flush os cache_size w ≡ done true w1) × AllAbort w1
  unfolding check_invariants
  flush_then_abort w v behind =
      let w1 = flushed os cache_size w in
      (w1, flush-done disk cache_size w v.held, aborts w1 (ground (arith, v.held)))

  stops :
      (w : Io S)
      → IsValid disk cache_size w
      → size_lt w.file.file_size w.file.head ≡ true
      → io300_readc os cache_size w ≡ done none w
  unfolding io300_readc readc_body
  stops w v past = rw (check-done w v.held, past)

  -- io300_write does not update the recorded size. Where at least two bytes are written at the end of
  -- the file, at the recorded size, and then a seek goes back to where they begin, io300_readc returns
  -- the first of them and then -1, though the file has more bytes behind the head; under the conditions
  -- of io300_write.
  pub readc_stops_at_recorded_size :
      (bs : List ℕ) (w : Io S)
      → 0 < cache_size
      → IsValid disk cache_size w
      → IsHonest disk cache_size w
      → w.file.file_size ≡ some w.file.head
      → w.file.head ≡ view_size disk w
      → 1 < length bs
      → (w1 : Io S) × ((io300_write os cache_size bs
              >> io300_seek os cache_size w.file.head
              >> io300_readc os cache_size)
            w
          ≡ done (some (get_or bs 0 0)) w1)
        × (io300_readc os cache_size w1 ≡ done none w1)
        × (w1.file.head < view_size disk w1)
  readc_stops_at_recorded_size bs w pos v honest recorded at_end several =
      let (w1, wrote, v1, h1, written) = write_lem disk cache_size bs w pos v honest in
      let (w2, sought_run, sought) = seek_lem disk cache_size w.file.head w1 v1 in
      let known : w2.file.file_size ≡ some w.file.head =
        sought.recorded_size
        ∙ ap (λ size. size_after size w.file.head) (written.size_kept ∙ recorded)
        ∙ size_after-same w.file.head in
      let inside : size_lt w2.file.file_size w2.file.head ≡ false =
        rw (known, sought.head_at) (size_lt-same w.file.head) in
      let (w3, run, d) = readc_lem disk cache_size w2 pos sought.valid sought.is_loaded inside in
      let size : view_size disk w2 ≡ w.file.head + length bs =
        sought.length_kept
        ∙ written.size
        ∙ ap (λ n. grown n w.file.head bs) (sym at_end)
        ∙ grown-end w.file.head bs (omega arith) in
      let byte : view_byte disk w2 w2.file.head ≡ get_or bs 0 0 =
        ap (view_byte disk w2) sought.head_at
        ∙ sought.byte_kept w.file.head
        ∙ written.byte w.file.head
        ∙ patch_inside (view_byte disk w) w.file.head bs w.file.head (omega arith) (omega arith)
        ∙ ap (λ k. get_or bs k 0) (omega arith) in
      let next : next_byte disk cache_size w2 ≡ some (get_or bs 0 0) =
        byte_if-inside w2.file.head (view_size disk w2) (view_byte disk w2 w2.file.head)
          (omega (arith, size, sought.head_at))
        ∙ ap some byte in
      let moved : w3.file.head ≡ w.file.head + 1 = omega (arith, d.moved, size, sought.head_at) in
      let stays : w3.file.file_size ≡ some w.file.head = d.same.size_kept ∙ known in
      (
        w3,
        rw (wrote, sought_run, run) (ap (λ b. done b w3) next),
        stops w3 d.same.valid (rw (stays, moved) (size_lt-next w.file.head)),
        omega (arith, moved, size, d.same.length_kept),
      )

  -- After io300_flush at the end of the file, which is also the recorded size and the end of the cache,
  -- io300_readc returns the first byte that the cache held before, although the head is at the end of
  -- the file as its user sees it, before the flush and after it; on a regular file, with a cache of at
  -- least one byte, from a valid state.
  pub readc_past_end :
      (w : Io S)
      → 0 < cache_size
      → IsValid disk cache_size w
      → w.file.file_size ≡ some w.file.head
      → view_size disk w ≡ w.file.head
      → w.file.head ≡ w.file.cache_end
      → (w1 : Io S) × ((io300_flush os cache_size >> io300_readc os cache_size) w
          ≡ done (some (w.file.cache 0)) (advance w1 1))
        × (w1.file.head ≡ w.file.head)
        × (view_size disk w1 ≡ w.file.head)
  unfolding io300_readc readc_body take_byte
  readc_past_end w pos v recorded past full =
      let w1 = flushed os cache_size w in
      let held : Held cache_size w1.file = record {
        start_le = omega arith;
        head_le = omega (arith, full);
        span = omega (arith, full);
      } in
      let inside : size_lt w.file.file_size w.file.head ≡ false =
        rw recorded (size_lt-same w.file.head) in
      (
        w1,
        rw (flush-done disk cache_size w v.held, check-done w1 held, inside) (ground (arith, full)),
        refl,
        unwritten-view_size disk cache_size w1 refl
            ∙ disk.pwrite_size w.sys (written_bytes w.file) w.file.cache_start
            ∙ past,
      )

  no_room_needed :
      (w : Io S)
      → w.file.head < w.file.cache_start + cache_size
      → make_room os cache_size w ≡ done true w
  unfolding make_room
  no_room_needed w h = ground arith

  fetch_aborts :
      (w : Io S) → w.file.cache_end < w.file.head → io300_fetch os cache_size w ≡ failed assertion
  unfolding io300_fetch check_invariants
  fetch_aborts w h = ground arith

  round_aborts :
      (fuel : ℕ) (bs : List ℕ) (w : Io S)
      → 0 < length bs
      → w.file.head ≡ w.file.cache_start + cache_size
      → w.file.cache_end < w.file.head
      → lt_size w.file.head w.file.file_size ≡ true
      → write_loop os cache_size (suc fuel) bs w ≡ failed assertion
  unfolding write_loop make_room
  round_aborts fuel bs w pos full short recorded = ground (arith, fetch_aborts w short)

  -- With a recorded size beyond where a full cache would end, which a seek past the end of the file
  -- leaves, a write over that place from a cache that is only partly filled fails an assert in the
  -- middle.
  pub write_aborts_beyond_end :
      (bs : List ℕ) (w : Io S)
      → IsValid disk cache_size w
      → w.file.cache_end < w.file.cache_start + cache_size
      → lt_size (w.file.cache_start + cache_size) w.file.file_size ≡ true
      → w.file.cache_start + cache_size < w.file.head + length bs
      → io300_write os cache_size bs w ≡ failed assertion
  unfolding io300_write
  write_aborts_beyond_end bs w v short recorded long =
      let c = cache_size - (w.file.head - w.file.cache_start) in
      let len = length-take c bs in
      let w2 = stored w (take c bs) in
      let len_c : length (take c bs) ≡ c = omega (arith, len, v.held.start_le, v.held.head_le) in
      let end : w2.file.head ≡ w2.file.cache_start + cache_size =
        omega (arith, len_c, v.held.start_le, v.held.head_le) in
      let fuel : length bs ≡ suc (suc (length bs - 2)) =
        omega (arith, v.held.start_le, v.held.head_le) in
      let first =
        write_loop_round os cache_size (suc (length bs - 2)) bs w w w2 c (ground (arith, v.held))
          (omega arith) (no_room_needed w (omega (arith, v.held.head_le)))
          (copy_in-done cache_size w (take c bs) v.held.start_le
            (omega (arith, len_c, v.held.start_le))) in
      let rest = length-drop c bs in
      let second =
        round_aborts (length bs - 2) (drop c bs) w2 (omega (arith, v.held.start_le, v.held.head_le))
          end (omega (arith, len_c, v.held.start_le, v.held.head_le)) (rw end recorded) in
      let looped : write_loop os cache_size (length bs) bs w ≡ failed assertion =
        ap (λ f. write_loop os cache_size f bs w) fuel ∙ first ∙ second in
      rw (check-done w v.held, looped)

-- A disk on which neither pwrite nor pread works.
pub record Broken {S : Type 0} (os : Os S) : Type 0 where
  pub no_pwrite : (s : S) (bs : List ℕ) (off : ℕ) → (os.pwrite s bs off).0 ≡ none
  pub no_pread : (s : S) (len off : ℕ) → os.pread s len off ≡ none

-- A full, dirty cache with the head at its end and more of the file behind it.
pub record IsFull (cache_size : ℕ) (f : Io300File) : Type 0 where
  pub held : Held cache_size f
  pub at_end : f.head ≡ f.cache_start + cache_size
  pub is_dirty : f.dirty ≡ true
  pub more : lt_size f.head f.file_size ≡ true

module _ {S : Type 0} (os : Os S) (cache_size : ℕ) (broken : Broken os) where
  -- The state after a fetch in which both calls fail.
  abbrev unfetched : Io S → Io S
  unfetched w = record {
    file = record (w.file) { direction = next_direction w.file };
    sys = (os.pwrite w.sys (written_bytes w.file) w.file.cache_start).1;
  }

  failed_flush :
      (w : Io S)
      → Held cache_size w.file
      → io300_flush os cache_size w
        ≡ done false
            (record w { sys = (os.pwrite w.sys (written_bytes w.file) w.file.cache_start).1 })
  unfolding io300_flush flush_body
  failed_flush w h =
      ground
        (arith, check-done w h, broken.no_pwrite w.sys (written_bytes w.file) w.file.cache_start)

  failed_fetch :
      (w : Io S) → IsFull cache_size w.file → io300_fetch os cache_size w ≡ done false (unfetched w)
  unfolding io300_fetch fetch_prepare fetch_read
  failed_fetch w f =
      let s = (os.pwrite w.sys (written_bytes w.file) w.file.cache_start).1 in
      ground (
        arith,
        check-done w f.held,
        failed_flush w f.held,
        broken.no_pread s (fetch_length cache_size w.file) (fetch_start cache_size w.file),
        f.is_dirty,
      )

  no_room_made :
      (w : Io S) → IsFull cache_size w.file → make_room os cache_size w ≡ done true (unfetched w)
  unfolding make_room
  no_room_made w f = ground (arith, f.at_end, f.more, failed_fetch w f)

  -- On a disk where both calls fail, the loop of io300_write over a full dirty cache before the
  -- recorded end never ends: no number of rounds is enough for any bytes at all.
  pub write_never_ends :
      (fuel : ℕ) (bs : List ℕ) (w : Io S)
      → 0 < length bs
      → IsFull cache_size w.file
      → write_loop os cache_size fuel bs w ≡ failed out_of_fuel
  unfolding write_loop
  write_never_ends zero bs w pos f = ground arith
  write_never_ends (suc fuel) bs w pos f =
      let r = unfetched w in
      let head_same : w.file.head ≡ w.file.head + 0 = omega arith in
      write_loop_round os cache_size fuel bs w r (stored r []) 0 (ground (arith, f.at_end))
        (omega arith) (no_room_made w f)
        (copy_in-done cache_size r [] f.held.start_le (omega (arith, f.at_end)))
      ∙ write_never_ends fuel bs (stored r []) pos (record {
        held = record {
          start_le = omega (arith, f.held.start_le);
          head_le = omega (arith, f.held.head_le);
          span = f.held.span;
        };
        at_end = omega (arith, f.at_end);
        is_dirty = refl;
        more = subst (λ h. lt_size h w.file.file_size ≡ true) head_same f.more;
      })
