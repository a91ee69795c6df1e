-- ===== src/Fileio/Student/Reads.antt =====
-- io300_readc and io300_read of student.c on a regular file.
use native.Mathlib.Decide.{dec_le, dec_lt, ℕ_discrete}
use c_proj.Base.{
  ℕ, zero, suc, ◌+◌, ◌-◌, ◌≤◌, ◌<◌, ◌≡◌, ◌≢◌, inl, inr, refl, sym, ap, ◌∙◌, true, false, Option,
  none, some, List, [], ◌++◌, arith, slice, slice-eq, slice-append, min, if◌then◌else◌, Bool-cases,
  ltb, ◌==◌, ltb-true, ltb-false,
}
use c_proj.Fileio.Posix.{Os, RegularFile}
use c_proj.Fileio.Student.{
  Io, done, size_lt, take_byte, copy_out, copy_count, refill_if_empty, read_loop, io300_read,
  io300_readc, readc_body, readc_refilled,
}
use c_proj.Fileio.Student.Invariant.{check-done, view_byte, view_size, IsLoaded, IsValid}
use c_proj.Fileio.Student.Flush.{
  fetched, fetch-done, Refilled, fetched-Refilled, view_front, view_elsewhere, grown_below,
}

-- The head moved on over `n` bytes.
abbrev pub advance : {S : Type 0} → Io S → ℕ → Io S
advance w n = record w { file = record (w.file) { head = w.file.head + n } }

-- The byte `b` at offset `h`, if a file of that size has one.
abbrev pub byte_if : (h size b : ℕ) → Option ℕ
byte_if h size b = if ltb h size then some b else none

module _ {S : Type 0} {os : Os S} (disk : RegularFile S os) (cache_size : ℕ) where
  -- A valid state whose cache is loaded, with the view and the recorded size of `w`.
  pub record SameView (w w1 : Io S) : Type 0 where
    pub valid : IsValid disk cache_size w1
    pub is_loaded : IsLoaded disk w1
    pub byte_kept : (i : ℕ) → view_byte disk w1 i ≡ view_byte disk w i
    pub length_kept : view_size disk w1 ≡ view_size disk w
    pub size_kept : w1.file.file_size ≡ w.file.file_size

  SameView-trans : (w w1 w2 : Io S) → SameView w w1 → SameView w1 w2 → SameView w w2
  SameView-trans w w1 w2 a b = record {
    valid = b.valid;
    is_loaded = b.is_loaded;
    byte_kept = λ i. b.byte_kept i ∙ a.byte_kept i;
    length_kept = b.length_kept ∙ a.length_kept;
    size_kept = b.size_kept ∙ a.size_kept;
  }

  module _ (w : Io S) (v : IsValid disk cache_size w) (l : IsLoaded disk w) where
    view_behind :
        (i : ℕ)
        → w.file.head ≤ i
        → i < w.file.cache_end
        → view_byte disk w i ≡ w.file.cache (i - w.file.cache_start)
    view_behind i lo hi =
        view_elsewhere disk cache_size w i v.held.start_le (inr lo) ∙ sym (l i lo hi).1

    -- The view is the cache at every offset that the cache covers.
    view_cached :
        (i : ℕ)
        → w.file.cache_start ≤ i
        → i < w.file.cache_end
        → view_byte disk w i ≡ w.file.cache (i - w.file.cache_start)
    view_cached i lo hi = elim (dec_lt i w.file.head) [
      | yes h ↦ view_front disk cache_size w i lo h
      | no h ↦ view_behind i (omega arith) hi
    ]

    loaded_size :
        w.file.head < w.file.cache_end
        → (w.file.cache_end ≤ disk.size w.sys) × (view_size disk w ≡ disk.size w.sys)
    loaded_size h =
        let last : w.file.cache_end - 1 < disk.size w.sys =
          (l (w.file.cache_end - 1) (omega arith) (omega arith)).0 in
        (omega arith, grown_below w.file.cache _ _ _ (omega (arith, v.held.start_le)))

    module _ (n : ℕ) (pos : 0 < n) (fits : w.file.head + n ≤ w.file.cache_end) where
      advanced-view_byte : (i : ℕ) → view_byte disk (advance w n) i ≡ view_byte disk w i
      advanced-view_byte i = elim (dec_le w.file.cache_start i) [
        | no lo ↦
            view_elsewhere disk cache_size (advance w n) i (omega (arith, v.held.start_le))
              (inl (omega arith))
            ∙ sym (view_elsewhere disk cache_size w i v.held.start_le (inl (omega arith)))
        | yes lo ↦ elim (dec_lt i (w.file.head + n)) [
          | yes hi ↦
              view_front disk cache_size (advance w n) i lo hi
              ∙ sym (view_cached i lo (omega arith))
          | no hi ↦
              view_elsewhere disk cache_size (advance w n) i (omega (arith, v.held.start_le))
                (inr (omega arith))
              ∙ sym (view_elsewhere disk cache_size w i v.held.start_le (inr (omega arith)))
        ]
      ]

      advance-SameView : SameView w (advance w n)
      advance-SameView = record {
        valid = record {
          held = record {
            start_le = omega (arith, v.held.start_le);
            head_le = fits;
            span = v.held.span;
          };
          forward = v.forward;
          prefixed = λ clean i lo hi. elim (dec_lt i w.file.head) [
            | yes h ↦ v.prefixed clean i lo h
            | no h ↦ l i (omega arith) (omega arith)
          ];
        };
        is_loaded = λ i lo hi. l i (omega arith) hi;
        byte_kept = advanced-view_byte;
        length_kept =
            grown_below w.file.cache _ _ _
              (omega (arith, v.held.start_le, (loaded_size (omega arith)).0))
            ∙ sym (loaded_size (omega arith)).1;
        size_kept = refl;
      }

      copy_out-done :
          copy_out cache_size n w ≡ done (slice (view_byte disk w) w.file.head n) (advance w n)
      unfolding copy_out
      copy_out-done =
          let e : slice w.file.cache (w.file.head - w.file.cache_start) n
              ≡ slice (view_byte disk w) w.file.head n =
            slice-eq _ _ _ _ n λ i h.
              ap w.file.cache (omega (arith, v.held.start_le))
              ∙ sym (view_behind (w.file.head + i) (omega arith) (omega arith)) in
          rw (← e) (ground (arith, v.held))

  -- The state after the refill at the start of a round.
  abbrev ready : Io S → Io S
  ready w = if w.file.head == w.file.cache_end then fetched disk cache_size w else w

  -- What the refill gives: bytes of the file, or none at the end of the file.
  record Ready (w w1 : Io S) : Type 0 where
    same : SameView w w1
    head_kept : w1.file.head ≡ w.file.head
    at_end : w1.file.head ≡ w1.file.cache_end → view_size disk w ≤ w.file.head

  refill-done :
      (w : Io S) → IsValid disk cache_size w → refill_if_empty os cache_size w ≡ done tt (ready w)
  unfolding refill_if_empty
  refill-done w v = ground (arith, fetch-done disk cache_size w v)

  Refilled-SameView : (w w1 : Io S) → Refilled disk cache_size w w1 → SameView w w1
  Refilled-SameView w w1 r = record {
    valid = r.valid;
    is_loaded = r.is_loaded;
    byte_kept = r.byte_kept;
    length_kept = r.length_kept;
    size_kept = r.size_kept;
  }

  ready-Ready :
      (w : Io S) → 0 < cache_size → IsValid disk cache_size w → IsLoaded disk w → Ready w (ready w)
  ready-Ready w pos v l = elim (Bool-cases (w.file.head == w.file.cache_end)) [
    | inl at_end ↦
        let r = fetched-Refilled disk cache_size w v (ground arith) in
        rw at_end (record {
          same = Refilled-SameView w (fetched disk cache_size w) r;
          head_kept = r.head_kept;
          at_end = λ e. omega (arith, r.end_at, r.head_kept);
        })
    | inr inside ↦ rw inside (record {
      same = record {
        valid = v;
        is_loaded = l;
        byte_kept = λ i. refl;
        length_kept = refl;
        size_kept = refl;
      };
      head_kept = refl;
      at_end = λ e. ground arith;
    })
  ]

  -- How much of `sz` bytes the file still has.
  abbrev pub available : Io S → ℕ → ℕ
  available w sz = min sz (view_size disk w - w.file.head)

  -- After `n` bytes have been handed over.
  pub record Delivered (w : Io S) (n : ℕ) (w1 : Io S) : Type 0 where
    pub same : SameView w w1
    pub moved : w1.file.head ≡ w.file.head + n

  -- The bytes of a round and those of the rounds after it.
  slice-view :
      (w w2 : Io S) (c n : ℕ)
      → SameView w w2
      → w2.file.head ≡ w.file.head + c
      → slice (view_byte disk w) w.file.head c ++ slice (view_byte disk w2) w2.file.head n
        ≡ slice (view_byte disk w) w.file.head (c + n)
  slice-view w w2 c n s e =
      ap (λ xs. slice (view_byte disk w) w.file.head c ++ xs)
        (slice-eq (view_byte disk w2) (view_byte disk w) w2.file.head (w.file.head + c) n
          λ i h. s.byte_kept (w2.file.head + i) ∙ ap (view_byte disk w) (omega arith))
      ∙ slice-append (view_byte disk w) w.file.head c n

  round_bytes :
      (w r : Io S) (c n : ℕ)
      → Ready w r
      → SameView w (advance r c)
      → (advance r c).file.head ≡ w.file.head + c
      → slice (view_byte disk r) r.file.head c
          ++ slice (view_byte disk (advance r c)) (advance r c).file.head n
        ≡ slice (view_byte disk w) w.file.head (c + n)
  round_bytes w r c n ok on moved =
      ap (λ xs. xs ++ slice (view_byte disk (advance r c)) (advance r c).file.head n)
        (slice-eq (view_byte disk r) (view_byte disk w) r.file.head w.file.head c λ i h.
          ok.same.byte_kept (r.file.head + i) ∙ ap (view_byte disk w) (omega (arith, ok.head_kept)))
      ∙ slice-view w (advance r c) c n on moved

  module _ (fuel left : ℕ) (w r : Io S) (more : left ≢ 0)
      (refilled : refill_if_empty os cache_size w ≡ done tt r) where
    read_loop_stop :
        r.file.head ≡ r.file.cache_end → read_loop os cache_size (suc fuel) left w ≡ done [] r
    unfolding read_loop
    read_loop_stop stop = ground arith

    read_loop_step :
        (w2 w3 : Io S) (bs rest : List ℕ)
        → r.file.head ≢ r.file.cache_end
        → copy_out cache_size (copy_count r.file left) r ≡ done bs w2
        → read_loop os cache_size fuel (left - copy_count r.file left) w2 ≡ done rest w3
        → read_loop os cache_size (suc fuel) left w ≡ done (bs ++ rest) w3
    unfolding read_loop
    read_loop_step w2 w3 bs rest go copied looped = ground arith

  Stays : (w : Io S) → IsValid disk cache_size w → IsLoaded disk w → Delivered w 0 w
  Stays w v l = record {
    same = record {
      valid = v;
      is_loaded = l;
      byte_kept = λ i. refl;
      length_kept = refl;
      size_kept = refl;
    };
    moved = omega arith;
  }

  -- What read_loop promises: the bytes of the view, as many as there are.
  abbrev Reads : (fuel left : ℕ) → Io S → Type 0
  Reads fuel left w =
      (w1 : Io S) × (read_loop os cache_size fuel left w
        ≡ done (slice (view_byte disk w) w.file.head (available w left)) w1)
      × Delivered w (available w left) w1

  read_nothing :
      (fuel left : ℕ) (w w1 : Io S)
      → available w left ≡ 0
      → read_loop os cache_size fuel left w ≡ done [] w1
      → Delivered w 0 w1
      → Reads fuel left w
  read_nothing fuel left w w1 e run d = (w1, rw e run, rw e d)

  read_more :
      (fuel left : ℕ) (w r : Io S)
      → Ready w r
      → left ≢ 0
      → r.file.head ≢ r.file.cache_end
      → refill_if_empty os cache_size w ≡ done tt r
      → Reads fuel (left - copy_count r.file left) (advance r (copy_count r.file left))
      → Reads (suc fuel) left w
  read_more fuel left w r ok more go refilled (w1, run, d) =
      let c = copy_count r.file left in
      let v = ok.same.valid in
      let c_pos : 0 < c = ground (arith, v.held) in
      let fits : r.file.head + c ≤ r.file.cache_end = ground (arith, v.held) in
      let on =
        SameView-trans w r (advance r c) ok.same
          (advance-SameView r v ok.same.is_loaded c c_pos fits) in
      let c_le : c ≤ left = ground arith in
      let size_r : (r.file.cache_end ≤ disk.size r.sys) × (view_size disk r ≡ disk.size r.sys) =
        loaded_size r v ok.same.is_loaded (ground (arith, v.held)) in
      let all : available w left ≡ c + available (advance r c) (left - c) = omega (
        arith, on.length_kept, ok.head_kept, ok.same.length_kept, size_r.0, size_r.1, fits, c_le,
      ) in
      let moved : (advance r c).file.head ≡ w.file.head + c = omega (arith, ok.head_kept) in
      (
        w1,
        read_loop_step fuel left w r more refilled (advance r c) w1 _ _ go
              (copy_out-done r v ok.same.is_loaded c c_pos fits) run
            ∙ ap (λ bs. done bs w1)
                (round_bytes w r c (available (advance r c) (left - c)) ok on moved
                  ∙ ap (slice (view_byte disk w) w.file.head) (sym all)),
        rw all (record {
          same = SameView-trans w (advance r c) w1 on d.same;
          moved = omega (arith, d.moved, ok.head_kept);
        }),
      )

  read_loop_lem :
      (fuel left : ℕ) (w : Io S)
      → 0 < cache_size
      → IsValid disk cache_size w
      → IsLoaded disk w
      → left ≤ fuel
      → Reads fuel left w
  read_loop_lem zero left w pos v l h =
      read_nothing zero left w w (omega arith) (unfold read_loop in (ground arith)) (Stays w v l)
  read_loop_lem (suc fuel) left w pos v l h = elim (ℕ_discrete left 0) [
    | yes enough ↦
        read_nothing (suc fuel) left w w (omega arith) (unfold read_loop in (ground arith))
          (Stays w v l)
    | no more ↦
        let r = ready w in
        let ok : Ready w r = ready-Ready w pos v l in
        elim (ℕ_discrete r.file.head r.file.cache_end) [
          | yes stop ↦
              read_nothing (suc fuel) left w r (omega (arith, ok.at_end stop))
                (read_loop_stop fuel left w r more (refill-done w v) stop)
                (record { same = ok.same; moved = omega (arith, ok.head_kept) })
          | no go ↦
              let c = copy_count r.file left in
              let c_pos : 0 < c = ground (arith, ok.same.valid.held) in
              let fits : r.file.head + c ≤ r.file.cache_end = ground (arith, ok.same.valid.held) in
              let on = advance-SameView r ok.same.valid ok.same.is_loaded c c_pos fits in
              read_more fuel left w r ok more go (refill-done w v) (
                read_loop_lem fuel (left - c) (advance r c) pos on.valid on.is_loaded (omega arith))
        ]
  ]

  -- io300_read hands over the next bytes of the file as its user sees it, as many as there are up to
  -- `sz`, moves the head behind them and changes nothing of the file; this is on a regular file, with
  -- a loaded cache of at least one byte and the head not past the recorded size.
  pub read_lem :
      (sz : ℕ) (w : Io S)
      → 0 < cache_size
      → IsValid disk cache_size w
      → IsLoaded disk w
      → size_lt w.file.file_size w.file.head ≡ false
      → (w1 : Io S) × (io300_read os cache_size sz w
          ≡ done (slice (view_byte disk w) w.file.head (available w sz)) w1)
        × Delivered w (available w sz) w1
  unfolding io300_read
  read_lem sz w pos v l inside =
      let (w1, run, d) = read_loop_lem sz sz w pos v l (omega arith) in
      (w1, rw (check-done w v.held, inside) run, d)

  -- A head past the recorded size reads nothing and changes nothing, whatever the disk holds.
  pub read_past_size :
      (sz : ℕ) (w : Io S)
      → IsValid disk cache_size w
      → size_lt w.file.file_size w.file.head ≡ true
      → io300_read os cache_size sz w ≡ done [] w
  unfolding io300_read
  read_past_size sz w v past = rw (check-done w v.held, past)

  -- The byte at the head of the view.
  abbrev pub next_byte : Io S → Option ℕ
  next_byte w = byte_if w.file.head (view_size disk w) (view_byte disk w w.file.head)

  take_byte-done :
      (w : Io S)
      → IsValid disk cache_size w
      → IsLoaded disk w
      → w.file.head < w.file.cache_end
      → take_byte cache_size w ≡ done (next_byte w) (advance w 1)
  unfolding take_byte
  take_byte-done w v l h =
      let size = loaded_size w v l h in
      let e : view_byte disk w w.file.head ≡ w.file.cache (w.file.head - w.file.cache_start) =
        view_behind w v l w.file.head (omega arith) h in
      rw (ltb-true w.file.head (view_size disk w) (omega (arith, size.0, size.1)), e)
        (ground (arith, v.held))

  take_if :
      (w r : Io S)
      → Ready w r
      → (r.file.head == r.file.cache_end) ≡ false
      → (w1 : Io S) × (take_byte cache_size r ≡ done (next_byte w) w1)
        × Delivered w (available w 1) w1
  take_if w r ok go =
      let v = ok.same.valid in
      let inside : r.file.head < r.file.cache_end = ground (arith, v.held) in
      let size = loaded_size r v ok.same.is_loaded inside in
      let one : available w 1 ≡ 1 =
        omega (arith, size.0, size.1, ok.head_kept, ok.same.length_kept) in
      (
        advance r 1,
        take_byte-done r v ok.same.is_loaded inside
            ∙ ap (λ b. done b (advance r 1))
                (λ i.
                  byte_if (ok.head_kept i) (ok.same.length_kept i)
                    ((ok.same.byte_kept r.file.head ∙ ap (view_byte disk w) ok.head_kept) i)),
        rw one (record {
          same =
              SameView-trans w r (advance r 1) ok.same
                (advance-SameView r v ok.same.is_loaded 1 (omega arith) (omega arith));
          moved = omega (arith, ok.head_kept);
        }),
      )

  readc_refill :
      (w : Io S)
      → (w.file.head == w.file.cache_end) ≡ true
      → Ready w (ready w)
      → (w1 : Io S) × (readc_refilled os cache_size true (fetched disk cache_size w)
          ≡ done (next_byte w) w1)
        × Delivered w (available w 1) w1
  unfolding readc_refilled
  readc_refill w at_end ok =
      let r = fetched disk cache_size w in
      let ok : Ready w r = rw at_end at ok in
      elim (Bool-cases (r.file.head == r.file.cache_end)) [
        | inl stop ↦
            let past = ok.at_end (ground arith) in
            let zero_left : available w 1 ≡ 0 = omega arith in
            (
              r,
              rw (stop, ltb-false w.file.head (view_size disk w) past),
              rw zero_left (record { same = ok.same; moved = omega (arith, ok.head_kept) }),
            )
        | inr go ↦ let (w1, run, d) = take_if w r ok go in (w1, rw go run, d)
      ]

  -- io300_readc returns the next byte of the file as its user sees it, or -1 at its end, and moves
  -- the head over it; under the conditions of io300_read.
  pub readc_lem :
      (w : Io S)
      → 0 < cache_size
      → IsValid disk cache_size w
      → IsLoaded disk w
      → size_lt w.file.file_size w.file.head ≡ false
      → (w1 : Io S) × (io300_readc os cache_size w ≡ done (next_byte w) w1)
        × Delivered w (available w 1) w1
  unfolding io300_readc readc_body
  readc_lem w pos v l inside = elim (Bool-cases (w.file.head == w.file.cache_end)) [
    | inl at_end ↦
        let (w1, run, d) = readc_refill w at_end (ready-Ready w pos v l) in
        (w1, rw (check-done w v.held, inside, at_end, fetch-done disk cache_size w v) run, d)
    | inr go ↦
        let (w1, run, d) =
          take_if w w
            (record {
              same = record {
                valid = v;
                is_loaded = l;
                byte_kept = λ i. refl;
                length_kept = refl;
                size_kept = refl;
              };
              head_kept = refl;
              at_end = λ e. ground arith;
            })
            go in
        (w1, rw (check-done w v.held, inside, go) run, d)
  ]
