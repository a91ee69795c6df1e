-- ===== src/Fileio/Student/Writes.antt =====
-- io300_write and io300_writec of student.c on a regular file.
use native.Mathlib.Decide.{dec_lt, ℕ_discrete}
use c_proj.Base.{
  subst, ℕ, zero, suc, ◌+◌, ◌-◌, ◌%◌, ◌^◌, ◌≤◌, ◌<◌, ◌≡◌, ◌≢◌, ◌⊎◌, inl, inr, refl, sym, ap, ◌∙◌,
  true, Option, none, some, List, [], ◌∷◌, ◌++◌, arith, length, get_or, take, drop, length-take,
  length-drop, length-append, take-append-drop, patch, patch_inside, patch_below, patch_above,
  patch-append, patch-eq, patch-nil, max, Bool-cases, ltb, ◌==◌,
}
use c_proj.Fileio.Posix.{Os, RegularFile, grown}
use c_proj.Fileio.Student.{
  Io, Run, done, lt_size, copy_in, room, make_room, extend_end, written_bytes, write_loop,
  io300_write, io300_flush, io300_filesize, put_byte, put_if, writec_at_end, writec_body,
  io300_writec, as_int,
}
use c_proj.Fileio.Student.Invariant.{check-done, view_byte, view_size, IsPrefixed, IsValid}
use c_proj.Fileio.Student.Flush.{
  flushed, flush-done, fetched, fetch-done, fetched-Refilled, view_front, view_elsewhere,
  grown-slice_pos, unwritten-view_byte, unwritten-view_size,
}

-- The value that io300_writec returns is the byte that it has written, or the argument is no byte.
abbrev pub ReturnsByte : ℕ → Type 0
ReturnsByte ch =
    ((ch < 256) × (as_int ch ≡ some (ch % 256))) ⊎ ((256 ≤ ch) × (as_int ch ≢ some (ch % 256)))

as_int-cases : (ch : ℕ) → ch < 2 ^ 32 → ReturnsByte ch
as_int-cases ch h = elim (dec_lt ch 256) [
  | yes byte ↦ inl (byte, ground arith)
  | no large ↦ inr (omega arith, λ e. ground arith)
]

-- The state after `bs` has been copied into the cache at the head.
abbrev pub stored : {S : Type 0} → Io S → List ℕ → Io S
stored w bs = record w {
  file = record (w.file) {
    cache = patch w.file.cache (w.file.head - w.file.cache_start) bs;
    head = w.file.head + length bs;
    dirty = true;
  };
}

pub grown_pos :
    (size off : ℕ) (bs : List ℕ) → 0 < length bs → grown size off bs ≡ max size (off + length bs)
grown_pos size off [] h = absurd (omega arith)
grown_pos size off (b ∷ bs) h = refl

grown-ge : (size off : ℕ) (bs : List ℕ) → size ≤ grown size off bs
grown-ge size off [] = omega arith
grown-ge size off (b ∷ bs) = omega arith

pub grown-append :
    (size off mid : ℕ) (xs ys : List ℕ)
    → mid ≡ off + length xs
    → grown (grown size off xs) mid ys ≡ grown size off (xs ++ ys)
grown-append size off mid [] [] e = refl
grown-append size off mid [] (y ∷ ys) e = omega arith
grown-append size off mid (x ∷ xs) [] e = omega (arith, length-append xs [])
grown-append size off mid (x ∷ xs) (y ∷ ys) e = omega (arith, length-append xs (y ∷ ys))

lt_size_mono : (size : Option ℕ) {a b : ℕ} → a < b → lt_size b size ≡ true → lt_size a size ≡ true
lt_size_mono none h k = k
lt_size_mono (some n) h k = ground arith

-- One round of the loop of io300_write, where it makes room and copies.
pub write_loop_round :
    {S : Type 0} (os : Os S) (cache_size : ℕ) (fuel : ℕ) (bs : List ℕ) (w r w2 : Io S) (c : ℕ)
    → c ≡ room cache_size r.file (length bs)
    → length bs ≢ 0
    → make_room os cache_size w ≡ done true r
    → copy_in cache_size (take c bs) r ≡ done tt w2
    → write_loop os cache_size (suc fuel) bs w ≡ write_loop os cache_size fuel (drop c bs) w2
unfolding write_loop
write_loop_round os cache_size fuel bs w r w2 c e more roomy copied = ground arith

pub copy_in-done :
    {S : Type 0} (cache_size : ℕ) (w : Io S) (bs : List ℕ)
    → w.file.cache_start ≤ w.file.head
    → w.file.head + length bs ≤ w.file.cache_start + cache_size
    → copy_in cache_size bs w ≡ done tt (stored w bs)
unfolding copy_in
copy_in-done cache_size w bs le fits = ground arith

module _ {S : Type 0} {os : Os S} (disk : RegularFile S os) (cache_size : ℕ) where
  -- The recorded size is not more than that of the file, and a cache that ends early ends at the
  -- recorded end or behind it. A seek past the end of the file breaks the first.
  pub record IsHonest (w : Io S) : Type 0 where
    pub recorded : (n : ℕ) → lt_size n w.file.file_size ≡ true → n < view_size disk w
    pub filled :
        lt_size w.file.cache_end w.file.file_size ≡ true
        → w.file.cache_end ≡ w.file.cache_start + cache_size

  -- Between the rounds of io300_write the head may stand behind the end of the cache.
  record Writing (w : Io S) : Type 0 where
    start_le : w.file.cache_start ≤ w.file.head
    in_block : w.file.head ≤ w.file.cache_start + cache_size
    span : w.file.cache_end ≤ w.file.cache_start + cache_size
    forward : w.file.direction ≡ true
    prefixed : IsPrefixed disk w
    honest : IsHonest w

  -- `bs` written at the head of the view.
  pub record Written (w : Io S) (bs : List ℕ) (w1 : Io S) : Type 0 where
    pub byte : (i : ℕ) → view_byte disk w1 i ≡ patch (view_byte disk w) w.file.head bs i
    pub size : view_size disk w1 ≡ grown (view_size disk w) w.file.head bs
    pub moved : w1.file.head ≡ w.file.head + length bs
    pub size_kept : w1.file.file_size ≡ w.file.file_size

  Written-append :
      (w w1 w2 : Io S) (xs ys : List ℕ)
      → Written w xs w1
      → Written w1 ys w2
      → Written w (xs ++ ys) w2
  Written-append w w1 w2 xs ys a b = record {
    byte = λ i.
        b.byte i
        ∙ patch-eq (view_byte disk w1) (patch (view_byte disk w) w.file.head xs) _ _ ys i (a.byte i)
            a.moved
        ∙ patch-append (view_byte disk w) w.file.head _ xs ys i refl;
    size =
        b.size
        ∙ (λ j. grown (a.size j) (a.moved j) ys)
        ∙ grown-append (view_size disk w) w.file.head _ xs ys refl;
    moved = omega (arith, b.moved, a.moved, length-append xs ys);
    size_kept = b.size_kept ∙ a.size_kept;
  }

  module _ (w : Io S) (bs : List ℕ) (le : w.file.cache_start ≤ w.file.head) where
    stored-view_byte :
        (i : ℕ) → view_byte disk (stored w bs) i ≡ patch (view_byte disk w) w.file.head bs i
    stored-view_byte i = elim (dec_lt i w.file.cache_start) [
      | yes low ↦
          view_elsewhere disk cache_size (stored w bs) i (omega arith) (inl low)
          ∙ sym (view_elsewhere disk cache_size w i le (inl low))
          ∙ sym (patch_below (view_byte disk w) w.file.head bs i (omega arith))
      | no ge ↦ elim (dec_lt i w.file.head) [
        | yes front ↦
            view_front disk cache_size (stored w bs) i (omega arith) (omega arith)
            ∙ patch_below w.file.cache _ bs _ (omega arith)
            ∙ sym (view_front disk cache_size w i (omega arith) front)
            ∙ sym (patch_below (view_byte disk w) w.file.head bs i front)
        | no ge_head ↦ elim (dec_lt i (w.file.head + length bs)) [
          | yes new ↦
              view_front disk cache_size (stored w bs) i (omega arith) new
              ∙ patch_inside w.file.cache _ bs _ (omega arith) (omega arith)
              ∙ ap (λ k. get_or bs k 0) (omega arith)
              ∙ sym (patch_inside (view_byte disk w) w.file.head bs i (omega arith) new)
          | no ge_end ↦
              view_elsewhere disk cache_size (stored w bs) i (omega arith) (inr (omega arith))
              ∙ sym (view_elsewhere disk cache_size w i le (inr (omega arith)))
              ∙ sym (patch_above (view_byte disk w) w.file.head bs i (omega arith))
        ]
      ]
    ]

    stored-view_size :
        0 < length bs → view_size disk (stored w bs) ≡ grown (view_size disk w) w.file.head bs
    stored-view_size pos =
        let new =
          grown-slice_pos (stored w bs).file.cache (disk.size w.sys) w.file.cache_start
            (w.file.head + length bs - w.file.cache_start) (omega arith) in
        let grows = grown_pos (view_size disk w) w.file.head bs pos in
        elim (dec_lt w.file.cache_start w.file.head) [
          | yes some_front ↦
              let old =
                grown-slice_pos w.file.cache (disk.size w.sys) w.file.cache_start
                  (w.file.head - w.file.cache_start) (omega arith) in
              omega (arith, new, grows, old)
          | no none_front ↦
              let old = unwritten-view_size disk cache_size w (omega arith) in
              omega (arith, new, grows, old)
        ]

    stored-Written : 0 < length bs → Written w bs (stored w bs)
    stored-Written pos = record {
      byte = stored-view_byte;
      size = stored-view_size pos;
      moved = refl;
      size_kept = refl;
    }

  stored-Writing :
      (w : Io S) (bs : List ℕ)
      → Writing w
      → 0 < length bs
      → w.file.head + length bs ≤ w.file.cache_start + cache_size
      → Writing (stored w bs)
  stored-Writing w bs g pos fits =
      let size = stored-view_size w bs g.start_le pos in
      let grows = grown_pos (view_size disk w) w.file.head bs pos in
      record {
        start_le = omega (arith, g.start_le);
        in_block = fits;
        span = g.span;
        forward = g.forward;
        prefixed = λ clean. cc;
        honest = record {
          recorded = λ n h. omega (arith, g.honest.recorded n h, size, grows);
          filled = g.honest.filled;
        };
      }

  pub Unwritten :
      (w w1 : Io S)
      → (w1.file.head ≡ w.file.head)
      → ((i : ℕ) → view_byte disk w1 i ≡ view_byte disk w i)
      → view_size disk w1 ≡ view_size disk w
      → w1.file.file_size ≡ w.file.file_size
      → Written w [] w1
  Unwritten w w1 moved byte size kept = record {
    size_kept = kept;
    byte = λ i. byte i ∙ sym (patch-nil (view_byte disk w) w.file.head i);
    size = size;
    moved = omega arith;
  }

  -- At the start of the copy of a round there is room, and nothing has changed for the user.
  record Roomy (w w1 : Io S) : Type 0 where
    writing : Writing w1
    unwritten : Written w [] w1
    has_room : w1.file.head < w1.file.cache_start + cache_size

  IsValid-of_full :
      (w : Io S) → Writing w → w.file.head ≡ w.file.cache_end → IsValid disk cache_size w
  IsValid-of_full w g e = record {
    held = record { start_le = g.start_le; head_le = omega arith; span = g.span };
    forward = g.forward;
    prefixed = g.prefixed;
  }

  fetched-Roomy :
      (w : Io S)
      → 0 < cache_size
      → Writing w
      → w.file.head ≡ w.file.cache_end
      → Roomy w (fetched disk cache_size w)
  fetched-Roomy w pos g e =
      let w1 = fetched disk cache_size w in
      let r = fetched-Refilled disk cache_size w (IsValid-of_full w g e) e in
      let v = r.valid in
      record {
        writing = record {
          start_le = v.held.start_le;
          in_block = omega (arith, v.held.head_le, v.held.span);
          span = v.held.span;
          forward = v.forward;
          prefixed = v.prefixed;
          honest = record {
            recorded = λ n h. rw r.length_kept (g.honest.recorded n (rw (← r.size_kept) h));
            filled = λ h.
                let inside : w1.file.cache_end < view_size disk w =
                  g.honest.recorded w1.file.cache_end
                    (subst (λ fs. lt_size w1.file.cache_end fs ≡ true) r.size_kept h) in
                omega (arith, r.end_at, r.start_at);
          };
        };
        unwritten = Unwritten w w1 r.head_kept r.byte_kept r.length_kept r.size_kept;
        has_room = omega (arith, r.head_kept, r.start_at);
      }

  flushed-Roomy :
      (w : Io S)
      → 0 < cache_size
      → Writing w
      → w.file.head ≡ w.file.cache_end
      → Roomy w (flushed os cache_size w)
  flushed-Roomy w pos g e =
      let w1 = flushed os cache_size w in
      let size : view_size disk w1 ≡ view_size disk w =
        unwritten-view_size disk cache_size w1 refl
        ∙ disk.pwrite_size w.sys (written_bytes w.file) w.file.cache_start in
      record {
        writing = record {
          start_le = omega arith;
          in_block = omega arith;
          span = omega arith;
          forward = g.forward;
          prefixed = λ clean i lo hi. absurd (omega arith);
          honest = record {
            recorded = λ n h. rw size (g.honest.recorded n h);
            filled = λ h. omega arith;
          };
        };
        unwritten =
            Unwritten w w1 refl
              (λ i.
                unwritten-view_byte disk cache_size w1 refl i
                ∙ disk.pwrite_byte w.sys (written_bytes w.file) w.file.cache_start i)
              size refl;
        has_room = omega arith;
      }

  abbrev MakesRoom : Io S → Type 0
  MakesRoom w = (w1 : Io S) × (make_room os cache_size w ≡ done true w1) × Roomy w w1

  full_flush :
      (w : Io S)
      → 0 < cache_size
      → Writing w
      → w.file.head ≡ w.file.cache_start + cache_size
      → (w1 : Io S) × (io300_flush os cache_size (extend_end cache_size w) ≡ done true w1)
        × Roomy w w1
  full_flush w pos g full = elim (Bool-cases (ltb w.file.cache_end w.file.head)) [
    | inl short ↦
        let w' : Io S = record w {
          file = record (w.file) { cache_end = w.file.cache_start + cache_size };
        } in
        let g' : Writing w' = record {
          start_le = g.start_le;
          in_block = g.in_block;
          span = omega arith;
          forward = g.forward;
          prefixed = g.prefixed;
          honest = record { recorded = g.honest.recorded; filled = λ h. refl };
        } in
        let r = flushed-Roomy w' pos g' full in
        (
          flushed os cache_size w',
          rw short (flush-done disk cache_size w' (IsValid-of_full w' g' full).held),
          record {
            writing = r.writing;
            unwritten = record {
              byte = r.unwritten.byte;
              size = r.unwritten.size;
              moved = r.unwritten.moved;
              size_kept = r.unwritten.size_kept;
            };
            has_room = r.has_room;
          },
        )
    | inr whole ↦
        let e : w.file.head ≡ w.file.cache_end = ground (arith, g.span) in
        (
          flushed os cache_size w,
          rw whole (flush-done disk cache_size w (IsValid-of_full w g e).held),
          flushed-Roomy w pos g e,
        )
  ]

  full_end :
      (w : Io S)
      → Writing w
      → w.file.head ≡ w.file.cache_start + cache_size
      → lt_size w.file.head w.file.file_size ≡ true
      → w.file.head ≡ w.file.cache_end
  full_end w g full inside = elim (dec_lt w.file.cache_end w.file.head) [
    | yes short ↦ omega (arith, g.honest.filled (lt_size_mono w.file.file_size short inside))
    | no whole ↦ omega (arith, g.span)
  ]

  makes_room : (w : Io S) → 0 < cache_size → Writing w → MakesRoom w
  unfolding make_room
  makes_room w pos g = elim (ℕ_discrete w.file.head (w.file.cache_start + cache_size)) [
    | no more ↦ (
      w,
      ground arith,
      record {
        writing = g;
        unwritten = Unwritten w w refl (λ i. refl) refl refl;
        has_room = omega (arith, g.in_block);
      },
    )
    | yes full ↦ elim (Bool-cases (lt_size w.file.head w.file.file_size)) [
      | inl inside ↦
          let e : w.file.head ≡ w.file.cache_end = full_end w g full inside in
          (
            fetched disk cache_size w,
            ground (arith, fetch-done disk cache_size w (IsValid-of_full w g e)),
            fetched-Roomy w pos g e,
          )
      | inr at_end ↦ let (w1, run, r) = full_flush w pos g full in (w1, ground arith, r)
    ]
  ]

  write_loop_step :
      (fuel : ℕ) (bs : List ℕ) (w r w2 w3 : Io S) (c : ℕ)
      → c ≡ room cache_size r.file (length bs)
      → length bs ≢ 0
      → make_room os cache_size w ≡ done true r
      → copy_in cache_size (take c bs) r ≡ done tt w2
      → write_loop os cache_size fuel (drop c bs) w2 ≡ done true w3
      → write_loop os cache_size (suc fuel) bs w ≡ done true w3
  write_loop_step fuel bs w r w2 w3 c e more roomy copied looped =
      write_loop_round os cache_size fuel bs w r w2 c e more roomy copied ∙ looped

  write_loop_end :
      (fuel : ℕ) (bs : List ℕ) (w : Io S)
      → length bs ≡ 0
      → write_loop os cache_size fuel bs w ≡ done true w
  unfolding write_loop
  write_loop_end zero bs w e = ground arith
  write_loop_end (suc fuel) bs w e = ground arith

  nil_of_length : (bs : List ℕ) → length bs ≡ 0 → [] ≡ bs
  nil_of_length [] e = refl
  nil_of_length (b ∷ bs) e = absurd (omega arith)

  -- The loop of io300_write ends, and has written all of `bs`.
  abbrev WritesAll : ℕ → List ℕ → Io S → Type 0
  WritesAll fuel bs w =
      (w1 : Io S) × (write_loop os cache_size fuel bs w ≡ done true w1)
      × Writing w1
      × Written w bs w1

  write_round :
      (fuel : ℕ) (bs : List ℕ) (w r : Io S)
      → length bs ≢ 0
      → make_room os cache_size w ≡ done true r
      → Roomy w r
      → (c : ℕ) → c ≡ room cache_size r.file (length bs)
      → (Writing (stored r (take c bs)) → WritesAll fuel (drop c bs) (stored r (take c bs)))
      → WritesAll (suc fuel) bs w
  write_round fuel bs w r more run roomy c e rest =
      let g = roomy.writing in
      let c_le : c ≤ length bs = ground (arith, g.start_le) in
      let c_pos : 0 < c = ground (arith, roomy.has_room, g.start_le) in
      let fits : r.file.head + c ≤ r.file.cache_start + cache_size =
        ground (arith, roomy.has_room, g.start_le) in
      let len : length (take c bs) ≡ c = omega (arith, length-take c bs) in
      let g2 = stored-Writing r (take c bs) g (omega arith) (omega arith) in
      let (w1, looped, g1, written) = rest g2 in
      (
        w1,
        write_loop_step fuel bs w r (stored r (take c bs)) w1 c e more run
            (copy_in-done cache_size r (take c bs) g.start_le (omega arith)) looped,
        g1,
        subst (λ xs. Written w xs w1) (take-append-drop c bs)
            (Written-append w r w1 [] (take c bs ++ drop c bs) roomy.unwritten (
              Written-append r (stored r (take c bs)) w1 (take c bs) (drop c bs)
                (stored-Written r (take c bs) g.start_le (omega arith)) written)),
      )

  writes_all :
      (fuel : ℕ) (bs : List ℕ) (w : Io S)
      → 0 < cache_size
      → Writing w
      → length bs ≤ fuel
      → WritesAll fuel bs w
  writes_all fuel [] w pos g h =
      (w, write_loop_end fuel [] w refl, g, Unwritten w w refl (λ i. refl) refl refl)
  writes_all zero (b ∷ bs) w pos g h = absurd (omega arith)
  writes_all (suc fuel) (b ∷ bs) w pos g h =
      let (r, run, roomy) = makes_room w pos g in
      let c = room cache_size r.file (length (b ∷ bs)) in
      let c_pos : 0 < c = ground (arith, roomy.has_room, roomy.writing.start_le) in
      write_round fuel (b ∷ bs) w r (omega arith) run roomy c refl (λ g2.
        writes_all fuel (drop c (b ∷ bs)) (stored r (take c (b ∷ bs))) pos g2
          (omega (arith, length-drop c (b ∷ bs))))

  Writing-of_valid : (w : Io S) → IsValid disk cache_size w → IsHonest w → Writing w
  Writing-of_valid w v honest = record {
    start_le = v.held.start_le;
    in_block = omega (arith, v.held.head_le, v.held.span);
    span = v.held.span;
    forward = v.forward;
    prefixed = v.prefixed;
    honest = honest;
  }

  -- The end of io300_write makes the asserts true again.
  record Closed (w : Io S) : Type 0 where
    valid : IsValid disk cache_size w
    honest : IsHonest w

  extend-Closed : (w : Io S) → Writing w → Closed (extend_end cache_size w)
  extend-Closed w g = elim (Bool-cases (ltb w.file.cache_end w.file.head)) [
    | inl short ↦ rw short (record {
      valid = record {
        held = record { start_le = g.start_le; head_le = g.in_block; span = omega arith };
        forward = g.forward;
        prefixed = g.prefixed;
      };
      honest = record { recorded = g.honest.recorded; filled = λ h. refl };
    })
    | inr whole ↦ rw whole (record {
      valid = record {
        held = record { start_le = g.start_le; head_le = ground arith; span = g.span };
        forward = g.forward;
        prefixed = g.prefixed;
      };
      honest = g.honest;
    })
  ]

  extend-Written :
      (w w1 : Io S) (bs : List ℕ) → Written w bs w1 → Written w bs (extend_end cache_size w1)
  extend-Written w w1 bs r = elim (Bool-cases (ltb w1.file.cache_end w1.file.head)) [
    | inl short ↦
        rw short (record { byte = r.byte; size = r.size; moved = r.moved; size_kept = r.size_kept })
    | inr whole ↦ rw whole r
  ]

  -- io300_write returns the count of the bytes, and the file as its user sees it is the old one with
  -- the bytes written at the head, which moves behind them; what check_invariants asserts holds again.
  -- This is on a regular file, with a cache of at least one byte, from a valid state whose recorded
  -- size is not more than that of the file and whose cache is full if it ends before the recorded size.
  pub write_lem :
      (bs : List ℕ) (w : Io S)
      → 0 < cache_size
      → IsValid disk cache_size w
      → IsHonest w
      → (w1 : Io S) × (io300_write os cache_size bs w ≡ done (some (length bs)) w1)
        × IsValid disk cache_size w1
        × IsHonest w1
        × Written w bs w1
  unfolding io300_write
  write_lem bs w pos v honest =
      let (w1, run, g, written) =
        writes_all (length bs) bs w pos (Writing-of_valid w v honest) (omega arith) in
      let closed = extend-Closed w1 g in
      (
        extend_end cache_size w1,
        rw (check-done w v.held, run),
        closed.valid,
        closed.honest,
        extend-Written w w1 bs written,
      )

  put_byte-done :
      (ch : ℕ) (w : Io S)
      → w.file.cache_start ≤ w.file.head
      → w.file.head < w.file.cache_start + cache_size
      → put_byte cache_size ch w ≡ done (as_int ch) (stored w ((ch % 256) ∷ []))
  unfolding put_byte
  put_byte-done ch w le room_left = ground arith

  -- What io300_writec promises.
  abbrev pub Puts : ℕ → Io S → Run S (Option ℕ) → Type 0
  Puts ch w run =
      (w1 : Io S) × (run ≡ done (as_int ch) w1)
      × IsValid disk cache_size w1
      × IsHonest w1
      × Written w ((ch % 256) ∷ []) w1

  put-Roomy :
      (ch : ℕ) (w r : Io S)
      → Roomy w r
      → r.file.head < r.file.cache_end
      → Puts ch w (put_byte cache_size ch r)
  put-Roomy ch w r roomy inside =
      let g = roomy.writing in
      let bs = (ch % 256) ∷ [] in
      let g2 = stored-Writing r bs g (omega arith) (omega (arith, g.span)) in
      (
        stored r bs,
        put_byte-done ch r g.start_le roomy.has_room,
        record {
          held = record { start_le = g2.start_le; head_le = omega arith; span = g.span };
          forward = g2.forward;
          prefixed = g2.prefixed;
        },
        g2.honest,
        Written-append w r (stored r bs) [] bs roomy.unwritten
            (stored-Written r bs g.start_le (omega arith)),
      )

  view_size-ge : (w : Io S) → disk.size w.sys ≤ view_size disk w
  view_size-ge w = grown-ge (disk.size w.sys) w.file.cache_start (written_bytes w.file)

  writec_refill :
      (ch : ℕ) (w : Io S)
      → 0 < cache_size
      → IsValid disk cache_size w
      → IsHonest w
      → w.file.head ≡ w.file.cache_end
      → Puts ch w (writec_at_end os cache_size ch (some (disk.size w.sys)) w)
  unfolding writec_at_end put_if
  writec_refill ch w pos v honest e =
      let g = Writing-of_valid w v honest in
      elim (Bool-cases (ltb w.file.head (disk.size w.sys))) [
        | inl inside ↦
            let r = fetched-Refilled disk cache_size w v e in
            let grows : disk.size w.sys ≤ view_size disk w = view_size-ge w in
            rw (inside, fetch-done disk cache_size w v)
              (put-Roomy ch w (fetched disk cache_size w) (fetched-Roomy w pos g e)
                (ground (arith, r.end_at, r.head_kept)))
        | inr at_end ↦
            rw (at_end, flush-done disk cache_size w v.held)
              (put-Roomy ch w (flushed os cache_size w) (flushed-Roomy w pos g e) (omega arith))
      ]

  writec-Puts :
      (ch : ℕ) (w : Io S)
      → 0 < cache_size
      → IsValid disk cache_size w
      → IsHonest w
      → Puts ch w (io300_writec os cache_size ch w)
  unfolding io300_writec writec_body io300_filesize
  writec-Puts ch w pos v honest = elim (Bool-cases (w.file.head == w.file.cache_end)) [
    | inl at_end ↦
        rw (check-done w v.held, at_end, check-done w v.held, disk.fstat_lem w.sys)
          (writec_refill ch w pos v honest (ground arith))
    | inr inside ↦
        rw (check-done w v.held, inside)
          (put-Roomy ch w w
            (record {
              writing = Writing-of_valid w v honest;
              unwritten = Unwritten w w refl (λ i. refl) refl refl;
              has_room = ground (arith, v.held);
            })
            (ground (arith, v.held)))
  ]

  -- io300_writec of an int, given by its bit pattern, returns that int, and the file as its user sees
  -- it is the old one with the low eight bits written at the head, which moves behind them; under the
  -- conditions of io300_write. What it returns is the byte that it wrote exactly where the argument is
  -- below 256.
  pub writec_lem :
      (ch : ℕ) (w : Io S)
      → ch < 2 ^ 32
      → 0 < cache_size
      → IsValid disk cache_size w
      → IsHonest w
      → Puts ch w (io300_writec os cache_size ch w) × ReturnsByte ch
  writec_lem ch w int pos v honest = (writec-Puts ch w pos v honest, as_int-cases ch int)
