-- ===== src/Fileio/Student.antt =====
-- fileio/impl/student.c: a file behind one write-back cache of `cache_size` bytes.
-- `off_t` values are natural numbers here; the size of the file, which may be -1, is an option.
pub mod Invariant
pub mod Flush
pub mod Reads
pub mod Writes
pub mod Seek
pub mod Session
pub mod Faults
mod Tests
use c_proj.Base.{
  ℕ, zero, suc, ◌+◌, ◌-◌, ◌%◌, ◌^◌, Bool, true, false, ◌&&◌, ◌||◌, not, Option, none, some, List,
  [], ◌∷◌, ◌++◌, ltb, leb, ◌==◌, if◌then◌else◌, length, take, drop, Memory, patch, slice,
}
use c_proj.Fileio.Posix.{Os}

-- struct io300_file. `cache` is the heap block behind the pointer.
pub record Io300File : Type 0 where
  pub cache : Memory
  pub dirty : Bool
  pub head : ℕ
  pub cache_start : ℕ
  pub cache_end : ℕ
  pub file_size : Option ℕ
  pub direction : Bool
  pub seeks : ℕ

-- The file and the kernel's side of its descriptor.
pub record Io (S : Type 0) : Type 0 where
  pub file : Io300File
  pub sys : S

-- How a call ends other than by returning.
pub data Failure : Type 0 where
  assertion out_of_bounds out_of_fuel : Failure

pub data Run (S A : Type 0) : Type 0 where
  done : A → Io S → Run S A
  failed : Failure → Run S A

module _ {S A B : Type 0} where
  abbrev pub and_then : Run S A → (A → Io S → Run S B) → Run S B
  and_then (done a w) k = k a w
  and_then (failed e) k = failed e

  infixl 5 ◌>>=◌ ◌>>◌
  abbrev pub ◌>>=◌ : (Io S → Run S A) → (A → Io S → Run S B) → Io S → Run S B
  ◌>>=◌ m k w = and_then (m w) k

  abbrev pub ◌>>◌ : (Io S → Run S A) → (Io S → Run S B) → Io S → Run S B
  ◌>>◌ m k w = and_then (m w) (λ _. k)

-- A comparison with `file_size`, where `none` is -1.
abbrev pub size_lt : Option ℕ → ℕ → Bool
size_lt none n = true
size_lt (some m) n = ltb m n

abbrev pub lt_size : ℕ → Option ℕ → Bool
lt_size n none = false
lt_size n (some m) = ltb n m

-- The value of an `off_t` that is returned as an `int`; `none` is a negative one.
abbrev pub as_int : ℕ → Option ℕ
as_int n = if ltb (n % 2 ^ 32) (2 ^ 31) then some (n % 2 ^ 32) else none

-- What is written back: the bytes of the cache in front of the head.
abbrev pub written_bytes : Io300File → List ℕ
written_bytes f = slice f.cache 0 (f.head - f.cache_start)

abbrev pub next_direction : Io300File → Bool
next_direction f =
    if ltb f.head f.cache_start then false else if ltb f.cache_end f.head then true else f.direction

-- `n_to_copy` of a round of io300_read, where `left` bytes are wanted.
abbrev pub copy_count : Io300File → ℕ → ℕ
copy_count f left = if ltb left (f.cache_end - f.head) then left else f.cache_end - f.head

module _ (cache_size : ℕ) where
  -- Is `f->cache[head - cache_start .. + n)` inside the block?
  abbrev pub in_cache : Io300File → ℕ → Bool
  in_cache f n = leb f.cache_start f.head && leb (f.head - f.cache_start + n) cache_size

  abbrev pub fetch_start : Io300File → ℕ
  fetch_start f = if next_direction f then f.head else f.head - cache_size

  abbrev pub fetch_length : Io300File → ℕ
  fetch_length f =
      if next_direction f then f.head + cache_size - f.head else f.head - (f.head - cache_size)

  -- `n_to_write` of a round, where `left` bytes remain.
  abbrev pub room : Io300File → ℕ → ℕ
  room f left =
      if ltb left (cache_size - (f.head - f.cache_start))
      then left
      else cache_size - (f.head - f.cache_start)

  -- `to_read`: never more than is left of the file by its recorded size.
  abbrev pub seek_length : Option ℕ → ℕ → ℕ
  seek_length none pos = 0
  seek_length (some size) pos = if ltb size (pos + cache_size) then size - pos else cache_size

abbrev pub Command : Type 0 → Type 0 → Type 0
Command S A = Io S → Run S A

module _ {S : Type 0} (cache_size : ℕ) where
  -- The asserts on the offsets; the pointers and the descriptor are part of the representation.
  unfoldable pub check_invariants : Command S (Unit {0})
  check_invariants w =
      if leb w.file.cache_start w.file.head && leb w.file.head w.file.cache_end
      then (if leb (w.file.cache_end - w.file.cache_start) cache_size
          then done tt w
          else failed assertion)
      else failed assertion

  -- The byte under the head, and the step of the head past it.
  unfoldable pub take_byte : Command S (Option ℕ)
  take_byte w =
      if in_cache cache_size w.file 1
      then done (some (w.file.cache (w.file.head - w.file.cache_start)))
          (record w { file = record (w.file) { head = w.file.head + 1 } })
      else failed out_of_bounds

  -- `f->cache[f->head - f->cache_start] = ch; f->head++; f->dirty = 1; return ch;`
  -- `ch` is an int by its bit pattern.
  unfoldable pub put_byte : ℕ → Command S (Option ℕ)
  put_byte ch w =
      if in_cache cache_size w.file 1
      then done (as_int ch) (record w {
        file = record (w.file) {
          cache = patch w.file.cache (w.file.head - w.file.cache_start) ((ch % 256) ∷ []);
          head = w.file.head + 1;
          dirty = true;
        };
      })
      else failed out_of_bounds

  unfoldable pub put_if : ℕ → Bool → Command S (Option ℕ)
  put_if ch true w = put_byte ch w
  put_if ch false w = done none w

  -- The part of the loop of io300_read that copies `n` bytes out of the cache.
  unfoldable pub copy_out : ℕ → Command S (List ℕ)
  copy_out n w =
      if in_cache cache_size w.file n
      then done (slice w.file.cache (w.file.head - w.file.cache_start) n)
          (record w { file = record (w.file) { head = w.file.head + n } })
      else failed out_of_bounds

  -- The part of the loop of io300_write that copies `bs` into the cache.
  unfoldable pub copy_in : List ℕ → Command S (Unit {0})
  copy_in bs w =
      if in_cache cache_size w.file (length bs)
      then done tt (record w {
        file = record (w.file) {
          cache = patch w.file.cache (w.file.head - w.file.cache_start) bs;
          head = w.file.head + length bs;
          dirty = true;
        };
      })
      else failed out_of_bounds

  -- `if (f->cache_end < f->head) f->cache_end = f->cache_start + CACHE_SIZE;`
  abbrev pub extend_end : Io S → Io S
  extend_end w =
      if ltb w.file.cache_end w.file.head
      then record w { file = record (w.file) { cache_end = w.file.cache_start + cache_size } }
      else w

module _ {S : Type 0} (os : Os S) (cache_size : ℕ) where
  -- A call returns 0 (`true`) or -1 (`false`). A short count from pwrite counts as success.
  unfoldable pub flush_body : Command S Bool
  flush_body w = elim (os.pwrite w.sys (written_bytes w.file) w.file.cache_start).0 [
    | none ↦
        done false
          (record w { sys = (os.pwrite w.sys (written_bytes w.file) w.file.cache_start).1 })
    | some n ↦ done true (record {
      file = record (w.file) {
        cache_start = w.file.head;
        cache_end = w.file.cache_end + cache_size;
        dirty = false;
      };
      sys = (os.pwrite w.sys (written_bytes w.file) w.file.cache_start).1;
    })
  ]

  unfoldable pub io300_flush : Command S Bool
  io300_flush = check_invariants cache_size >> flush_body

  -- The first branch of io300_fetch: write back, or move on to the end of the cache.
  unfoldable pub fetch_prepare : Command S (Unit {0})
  fetch_prepare w =
      if w.file.dirty
      then (io300_flush >>= λ _. done tt) w
      else done tt (record w {
        file = record (w.file) { cache_start = w.file.cache_end; head = w.file.cache_end };
      })

  unfoldable pub fetch_read : Command S Bool
  fetch_read w =
      elim (os.pread w.sys (fetch_length cache_size w.file) (fetch_start cache_size w.file)) [
        | none ↦
            done false (record w { file = record (w.file) { direction = next_direction w.file } })
        | some bs ↦ done true (record w {
          file = record (w.file) {
            direction = next_direction w.file;
            cache = patch w.file.cache 0 bs;
            cache_start = fetch_start cache_size w.file;
            cache_end = fetch_start cache_size w.file + length bs;
          };
        })
      ]

  unfoldable pub io300_fetch : Command S Bool
  io300_fetch = check_invariants cache_size >> fetch_prepare >> fetch_read

  unfoldable pub io300_filesize : Command S (Option ℕ)
  io300_filesize = check_invariants cache_size >> λ w. elim (os.fstat w.sys) [
    | none ↦ done none w
    | some (regular, size) ↦ done (if regular then some size else none) w
  ]

  -- After the refill: still at the end of the cache is the end of the file.
  unfoldable pub readc_refilled : Bool → Command S (Option ℕ)
  readc_refilled false w = done none w
  readc_refilled true w =
      if w.file.head == w.file.cache_end then done none w else take_byte cache_size w

  unfoldable pub readc_body : Command S (Option ℕ)
  readc_body w =
      if size_lt w.file.file_size w.file.head
      then done none w
      else if w.file.head == w.file.cache_end
      then (io300_fetch >>= readc_refilled) w
      else take_byte cache_size w

  -- `none` is -1.
  unfoldable pub io300_readc : Command S (Option ℕ)
  io300_readc = check_invariants cache_size >> readc_body

  -- At the end of the cache: refill before the end of the file, else write back.
  unfoldable pub writec_at_end : ℕ → Option ℕ → Command S (Option ℕ)
  writec_at_end ch size w =
      if lt_size w.file.head size
      then (io300_fetch >>= λ _. put_byte cache_size ch) w
      else (io300_flush >>= put_if cache_size ch) w

  unfoldable pub writec_body : ℕ → Command S (Option ℕ)
  writec_body ch w =
      if w.file.head == w.file.cache_end
      then (io300_filesize >>= writec_at_end ch) w
      else put_byte cache_size ch w

  -- `none` is a negative int: -1, or `ch` itself.
  unfoldable pub io300_writec : ℕ → Command S (Option ℕ)
  io300_writec ch = check_invariants cache_size >> writec_body ch

  unfoldable pub refill_if_empty : Command S (Unit {0})
  refill_if_empty w =
      if w.file.head == w.file.cache_end then (io300_fetch >>= λ _. done tt) w else done tt w

  -- while (pos < sz), with `left` for `sz - pos`. The result is what `buff` receives.
  unfoldable pub read_loop : (fuel left : ℕ) → Command S (List ℕ)
  read_loop zero left w = if left == 0 then done [] w else failed out_of_fuel
  read_loop (suc fuel) left w = elim (left == 0) [
    | true ↦ done [] w
    | false ↦ and_then (refill_if_empty w) (λ _ w1. elim (w1.file.head == w1.file.cache_end) [
      | true ↦ done [] w1
      | false ↦ and_then (copy_out cache_size (copy_count w1.file left) w1) (λ bs w2.
          and_then (read_loop fuel (left - copy_count w1.file left) w2) (λ rest. done (bs ++ rest)))
    ])
  ]

  -- The count that is returned is the length of the list.
  unfoldable pub io300_read : ℕ → Command S (List ℕ)
  io300_read sz = check_invariants cache_size >> λ w.
      if size_lt w.file.file_size w.file.head then done [] w else read_loop sz sz w

  -- The start of a round of io300_write; `false` is the early return of -1.
  unfoldable pub make_room : Command S Bool
  make_room w =
      if w.file.head == w.file.cache_start + cache_size
      then (if lt_size w.file.head w.file.file_size
          then (io300_fetch >>= λ _. done true) w
          else io300_flush (extend_end cache_size w))
      else done true w

  unfoldable pub write_loop : (fuel : ℕ) → List ℕ → Command S Bool
  write_loop zero bs w = if length bs == 0 then done true w else failed out_of_fuel
  write_loop (suc fuel) bs w = elim (length bs == 0) [
    | true ↦ done true w
    | false ↦ and_then (make_room w) (λ room_made w1. elim room_made [
      | false ↦ done false w1
      | true ↦
          and_then (copy_in cache_size (take (room cache_size w1.file (length bs)) bs) w1)
            (λ _ w2. write_loop fuel (drop (room cache_size w1.file (length bs)) bs) w2)
    ])
  ]

  -- `none` is -1.
  unfoldable pub io300_write : List ℕ → Command S (Option ℕ)
  io300_write bs = check_invariants cache_size >> λ w.
      and_then (write_loop (length bs) bs w) (λ ok w1. elim ok [
        | false ↦ done none w1
        | true ↦ done (some (length bs)) (extend_end cache_size w1)
      ])

  -- The first part of io300_seek: count the call and write back.
  unfoldable pub seek_flush : Command S (Unit {0})
  seek_flush w =
      let w1 : Io S = record w { file = record (w.file) { seeks = w.file.seeks + 1 } } in
      if w.file.dirty then (io300_flush >>= λ _. done tt) w1 else done tt w1

  -- The rest of io300_seek, once lseek has succeeded.
  unfoldable pub seek_load : ℕ → Command S (Option ℕ)
  seek_load p w =
      let at : Io300File = record (w.file) { head = p; cache_start = p; cache_end = p } in
      if size_lt w.file.file_size p
      then done (as_int p) (record w { file = record at { file_size = some p } })
      else elim (os.read w.sys (seek_length cache_size w.file.file_size p)).0 [
        | none ↦ done (as_int p) (record {
          file = at;
          sys = (os.read w.sys (seek_length cache_size w.file.file_size p)).1;
        })
        | some bs ↦ done (as_int p) (record {
          file = record at { cache = patch w.file.cache 0 bs; cache_end = p + length bs };
          sys = (os.read w.sys (seek_length cache_size w.file.file_size p)).1;
        })
      ]

  unfoldable pub seek_body : ℕ → Command S (Option ℕ)
  seek_body p w = elim (os.lseek w.sys p).0 [
    | none ↦ done none (record w { sys = (os.lseek w.sys p).1 })
    | some _ ↦ seek_load p (record w { sys = (os.lseek w.sys p).1 })
  ]

  -- `none` is a negative `int`.
  unfoldable pub io300_seek : ℕ → Command S (Option ℕ)
  io300_seek p = check_invariants cache_size >> seek_flush >> seek_body p

  -- The result says whether close(fd) returned 0; the result of the flush is not looked at.
  unfoldable pub io300_close : Command S Bool
  io300_close = check_invariants cache_size >> λ w.
      and_then (if w.file.dirty then io300_flush w else done true w)
        (λ _ w1. done (os.close_fd w1.sys).0 (record w1 { sys = (os.close_fd w1.sys).1 }))

-- What io300_open depends on besides the descriptor: a path that is not null, the two results of
-- malloc, and the contents of the memory that malloc leaves as it is.
pub record OpenEnv : Type 0 where
  pub path : Bool
  pub file_block : Bool
  pub cache_block : Option Memory
  pub stale_seeks : ℕ

-- What io300_open writes into the new block.
abbrev pub fresh_file : OpenEnv → Memory → Io300File
fresh_file env block = record {
  cache = block;
  dirty = false;
  head = 0;
  cache_start = 0;
  cache_end = 0;
  file_size = none;
  direction = true;
  seeks = env.stale_seeks;
}

module _ {S : Type 0} (os : Os S) (cache_size : ℕ) where
  unfoldable pub initialise : OpenEnv → Memory → S → Run S (Unit {0})
  initialise env block s =
      and_then (io300_filesize os cache_size (record { file = fresh_file env block; sys = s }))
        (λ size w.
          and_then
            (io300_fetch os cache_size (record w { file = record (w.file) { file_size = size } }))
            (λ _. check_invariants cache_size))

  -- `none` is NULL.
  unfoldable pub io300_open : OpenEnv → S → Option (Run S (Unit {0}))
  io300_open env s = if not env.path then none else elim (os.open_fd s) [
    | none ↦ none
    | some s1 ↦
        if not env.file_block
        then none
        else elim env.cache_block [ none ↦ none | some block ↦ some (initialise env block s1) ]
  ]
