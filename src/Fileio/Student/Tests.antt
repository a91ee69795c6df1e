-- ===== src/Fileio/Student/Tests.antt =====
-- The theorems about student.c at a file "abcdef" with a cache of four bytes, and runs.
use c_proj.Base.{ℕ, ◌<◌, ◌≡◌, refl, true, false, none, some, List, [], ◌∷◌, arith, get_or, patch}
use c_proj.Fileio.Posix.{Os}
use c_proj.Fileio.Disk.{Disk, disk_os, disk_laws, byte_of}
use c_proj.Fileio.Student.{
  Io300File, Io, done, failed, assertion, out_of_fuel, OpenEnv, ◌>>◌, io300_open, initialise,
  io300_filesize, check_invariants, io300_fetch, fetch_prepare, fetch_read, io300_read, io300_readc,
  io300_write, io300_writec, io300_seek, io300_flush, io300_close, write_loop, read_loop,
  refill_if_empty, copy_out,
}
use c_proj.Fileio.Student.Invariant.{view_byte, view_size, IsValid}
use c_proj.Fileio.Student.Reads.{read_lem, readc_lem, Delivered, advance}
use c_proj.Fileio.Student.Writes.{write_lem, writec_lem, ReturnsByte, Puts, IsHonest, Written}
use c_proj.Fileio.Student.Seek.{seek_lem, close_lem, Sought}
use c_proj.Fileio.Student.Session.{Opened, open_lem, write_seek_read, fetched-Opened}
use c_proj.Fileio.Student.Faults.{
  AllAbort, flush_then_abort, readc_stops_at_recorded_size, readc_past_end, write_aborts_beyond_end,
  Broken, IsFull, write_never_ends,
}

abbrev text : List ℕ
text = 97 ∷ 98 ∷ 99 ∷ 100 ∷ 101 ∷ 102 ∷ []

abbrev abcdef : Disk
abcdef = record { size = 6; mem = λ i. get_or text i 0; offset = 0 }

abbrev env : OpenEnv
env = record { path = true; file_block = true; cache_block = some (λ i. 170); stale_seeks = 0 }

-- The state after io300_open.
abbrev opened : Io Disk
opened = record {
  file = record {
    cache = patch (λ i. 170) 0 (97 ∷ 98 ∷ 99 ∷ 100 ∷ []);
    dirty = false;
    head = 0;
    cache_start = 0;
    cache_end = 4;
    file_size = some 6;
    direction = true;
    seeks = 0;
  };
  sys = abcdef;
}

open_lem_example :
    (w : Io Disk) × (io300_open disk_os 4 env abcdef ≡ some (done tt w))
    × Opened disk_laws 4 abcdef w
open_lem_example = open_lem disk_laws 4 env abcdef abcdef (λ i. 170) refl refl refl refl

opened_state : io300_open disk_os 4 env abcdef ≡ some (done tt opened)
unfolding io300_open initialise io300_filesize check_invariants io300_fetch fetch_prepare fetch_read
opened_state = refl

opened-Opened : Opened disk_laws 4 abcdef opened
opened-Opened = fetched-Opened disk_laws 4 env (λ i. 170) abcdef

read_lem_example :
    (w : Io Disk) × (io300_read disk_os 4 9 opened ≡ done text w) × Delivered disk_laws 4 opened 6 w
read_lem_example =
    read_lem disk_laws 4 9 opened (omega arith) opened-Opened.valid opened-Opened.is_loaded refl

readc_lem_example :
    (w : Io Disk) × (io300_readc disk_os 4 opened ≡ done (some 97) w)
    × Delivered disk_laws 4 opened 1 w
readc_lem_example =
    readc_lem disk_laws 4 opened (omega arith) opened-Opened.valid opened-Opened.is_loaded refl

write_lem_example :
    (w : Io Disk) × (io300_write disk_os 4 text opened ≡ done (some 6) w)
    × IsValid disk_laws 4 w
    × IsHonest disk_laws 4 w
    × Written disk_laws 4 opened text w
write_lem_example =
    write_lem disk_laws 4 text opened (omega arith) opened-Opened.valid opened-Opened.honest

writec_lem_example : Puts disk_laws 4 65 opened (io300_writec disk_os 4 65 opened) × ReturnsByte 65
writec_lem_example =
    writec_lem disk_laws 4 65 opened (omega arith) (omega arith) opened-Opened.valid
      opened-Opened.honest

seek_lem_example :
    (w : Io Disk) × (io300_seek disk_os 4 5 opened ≡ done (some 5) w)
    × Sought disk_laws 4 opened 5 w
seek_lem_example = seek_lem disk_laws 4 5 opened opened-Opened.valid

close_lem_example :
    (w0 : Io Disk) × (w : Io Disk) × (io300_close disk_os 4 opened
      ≡ done (disk_os.close_fd w0.sys).0 w)
    × (w.sys ≡ (disk_os.close_fd w0.sys).1)
    × ((i : ℕ) → byte_of w.sys i ≡ view_byte disk_laws opened i)
    × (w.sys.size ≡ 6)
close_lem_example = close_lem disk_laws 4 opened opened-Opened.valid

write_seek_read_example :
    (w : Io Disk) × ((io300_write disk_os 4 text
          >> io300_seek disk_os 4 0
          >> io300_read disk_os 4 6)
        opened
      ≡ done text w)
    × (w.file.head ≡ 6)
write_seek_read_example =
    write_seek_read disk_laws 4 text opened 6 (omega arith) opened-Opened.valid opened-Opened.honest
      refl

flush_then_abort_example :
    (w : Io Disk) × (io300_flush disk_os 4 opened ≡ done true w) × AllAbort disk_laws 4 w
flush_then_abort_example = flush_then_abort disk_laws 4 opened opened-Opened.valid (omega arith)

-- A new file.
abbrev new_file : Io Disk
new_file = record {
  file = record (opened.file) { cache_end = 0; file_size = some 0 };
  sys = record abcdef { size = 0 };
}

new_file-IsValid : IsValid disk_laws 4 new_file
new_file-IsValid = record {
  held = record { start_le = omega arith; head_le = omega arith; span = omega arith };
  forward = refl;
  prefixed = λ clean i lo hi. absurd (omega arith);
}

new_file-IsHonest : IsHonest disk_laws 4 new_file
new_file-IsHonest = record { recorded = λ n h. ground arith; filled = λ h. ground arith }

readc_stops_at_recorded_size_example :
    (w : Io Disk) × ((io300_write disk_os 4 text >> io300_seek disk_os 4 0 >> io300_readc disk_os 4)
        new_file
      ≡ done (some 97) w)
    × (io300_readc disk_os 4 w ≡ done none w)
    × (w.file.head < view_size disk_laws w)
readc_stops_at_recorded_size_example =
    readc_stops_at_recorded_size disk_laws 4 text new_file (omega arith) new_file-IsValid
      new_file-IsHonest refl refl (omega arith)

-- After all six bytes have been read with two fetches.
abbrev read_to_end : Io Disk
read_to_end = record {
  file = record (opened.file) {
    cache = patch (patch (λ i. 170) 0 (97 ∷ 98 ∷ 99 ∷ 100 ∷ [])) 0 (101 ∷ 102 ∷ []);
    head = 6;
    cache_start = 4;
    cache_end = 6;
  };
  sys = abcdef;
}

read_state : (io300_read disk_os 4 6 >> λ w. done tt w) opened ≡ done tt read_to_end
unfolding io300_read read_loop refill_if_empty copy_out opened_state
read_state = refl

read_to_end-IsValid : IsValid disk_laws 4 read_to_end
read_to_end-IsValid = record {
  held = record { start_le = omega arith; head_le = omega arith; span = omega arith };
  forward = refl;
  prefixed = λ clean i lo hi. ground arith;
}

readc_past_end_example :
    (w : Io Disk) × ((io300_flush disk_os 4 >> io300_readc disk_os 4) read_to_end
      ≡ done (some 101) (advance w 1))
    × (w.file.head ≡ 6)
    × (view_size disk_laws w ≡ 6)
readc_past_end_example =
    readc_past_end disk_laws 4 read_to_end (omega arith) read_to_end-IsValid refl refl refl

-- After a seek to 100 in a file of three bytes, and a seek back to its start.
abbrev beyond : Io Disk
beyond = record {
  file = record (opened.file) { cache_end = 3; file_size = some 100 };
  sys = record abcdef { size = 3 };
}

beyond-IsValid : IsValid disk_laws 4 beyond
beyond-IsValid = record {
  held = record { start_le = omega arith; head_le = omega arith; span = omega arith };
  forward = refl;
  prefixed = λ clean i lo hi. absurd (omega arith);
}

write_aborts_beyond_end_example : io300_write disk_os 4 text beyond ≡ failed assertion
write_aborts_beyond_end_example =
    write_aborts_beyond_end disk_laws 4 text beyond beyond-IsValid (omega arith) refl (omega arith)

abbrev broken_os : Os Disk
broken_os = record disk_os { pread = λ d len off. none; pwrite = λ d bs off. (none, d) }

broken_os-Broken : Broken broken_os
broken_os-Broken = record { no_pwrite = λ s bs off. refl; no_pread = λ s len off. refl }

abbrev full_file : Io300File
full_file = record (opened.file) { dirty = true; head = 4 }

full_file-IsFull : IsFull 4 full_file
full_file-IsFull = record {
  held = record { start_le = omega arith; head_le = omega arith; span = omega arith };
  at_end = refl;
  is_dirty = refl;
  more = refl;
}

write_never_ends_example :
    write_loop broken_os 4 1000 text (record { file = full_file; sys = abcdef })
    ≡ failed out_of_fuel
write_never_ends_example =
    write_never_ends broken_os 4 broken_os-Broken 1000 text
      (record { file = full_file; sys = abcdef }) (omega arith) full_file-IsFull
