-- ===== src/Weensyos/Console/Page.antt =====
-- The console of weensyos/lib.cc as a window of 25 rows on an endless page.
use native.Mathlib.Decide.{dec_lt, ℕ_discrete}
use c_proj.Base.{
  ℕ, zero, suc, ◌+◌, ◌-◌, ◌%◌, ◌≤◌, ◌<◌, ◌≡◌, ◌≢◌, refl, ap, ◌∙◌, true, false, none, some, List, [],
  ◌∷◌, arith, ltb, ◌==◌, if◌then◌else◌, Memory, Bool-cases, inl, inr, within,
}
use c_proj.Weensyos.Strings.{memmove, memset}
use c_proj.Weensyos.Strings.Copy.{memmove_lem, memset_lem}
use c_proj.Weensyos.Printer.{Arg}
use c_proj.Weensyos.Printer.Fields.{Put, printed, vprintf}
use c_proj.Weensyos.Console.{
  Screen, ConsolePrinter, console_printer, scroll, make_room, write, fill_line, put_cells, putc,
  puts, move_cursor, show, console_vprintf,
}

-- putc and its repetition on an endless page, which is never full.
abbrev pub page_puts : List Put → ConsolePrinter → ConsolePrinter
page_puts [] p = p
page_puts ((c, colour) ∷ ps) p = page_puts ps (put_cells c colour p)

-- The console shows the page from row `off / 80` on, below which the page is blank.
abbrev Shows : ConsolePrinter → ConsolePrinter → ℕ → Type 0
Shows p page off =
    (page.cell ≡ off + p.cell)
    × (p.cell ≤ 2000)
    × (off % 80 ≡ 0)
    × (p.scrolls ≡ true)
    × ((i : ℕ) → i < 2000 → p.console i ≡ page.console (off + i))
    × ((i : ℕ) → off + 2000 ≤ i → page.console i ≡ 0)

-- The console that `scroll` leaves.
abbrev pub scrolled_console : Memory → Memory
scrolled_console m = memset 1920 0 80 (memmove 0 80 1920 m)

pub scrolled_console_lem :
    (m : Memory) (i : ℕ)
    → scrolled_console m i
      ≡ (if within 1920 80 i then 0 else if within 0 1920 i then m (80 + (i - 0)) else m i)
scrolled_console_lem m i =
    memset_lem 1920 0 80 (memmove 0 80 1920 m) i
    ∙ ap (λ v. if within 1920 80 i then 0 else v) (memmove_lem 0 80 1920 m i)

scrolled-Shows :
    (p page : ConsolePrinter) (off : ℕ)
    → p.cell ≡ 2000
    → Shows p page off
    → (q : ConsolePrinter) × (scroll p ≡ some q) × (q.cell < 2000) × Shows q page (off + 80)
unfolding scroll
scrolled-Shows p page off full (at, le, rows, scrolls, same, blank) =
    let on_end : ltb p.cell 2000 ≡ false = ground arith in
    (
      record { console = scrolled_console p.console; cell = p.cell - 80; scrolls = p.scrolls },
      rw (on_end, scrolls, scroll) refl,
      omega arith,
      (
        omega arith,
        omega arith,
        omega arith,
        scrolls,
        (λ i k. scrolled_console_lem p.console i ∙ elim (dec_lt i 1920) [
          | yes upper ↦
              let e : off + 80 + i ≡ off + (80 + (i - 0)) = omega arith in
              let h = same (80 + (i - 0)) (omega arith) in rw e (ground arith)
          | no last ↦ let h = blank (off + 80 + i) (omega arith) in ground arith
        ]),
        (λ i k. blank i (omega arith)),
      ),
    )

write-Shows :
    (c colour : ℕ) (p page : ConsolePrinter) (off : ℕ)
    → p.cell < 2000
    → Shows p page off
    → Shows (write c colour p) (write c colour page) off
write-Shows c colour p page off h (at, le, rows, scrolls, same, blank) = (
  omega arith,
  omega arith,
  rows,
  scrolls,
  (λ i k.
      let g = same i k in
      elim (ℕ_discrete i p.cell) [
        | yes e ↦ let f : off + i ≡ page.cell = omega arith in ground arith
        | no ne ↦ let f : off + i ≢ page.cell = omega arith in ground arith
      ]),
  (λ i k. let g = blank i k in let f : i ≢ page.cell = omega arith in ground arith),
)

fill_line-Shows :
    (n colour : ℕ) (p page : ConsolePrinter) (off : ℕ)
    → p.cell + n ≤ 2000
    → Shows p page off
    → Shows (fill_line n colour p) (fill_line n colour page) off
unfolding fill_line
fill_line-Shows zero colour p page off h shows = shows
fill_line-Shows (suc n) colour p page off h shows =
    fill_line-Shows n colour (write b' ' colour p) (write b' ' colour page) off (omega arith)
      (write-Shows b' ' colour p page off (omega arith) shows)

put_cells-Shows :
    (c colour : ℕ) (p page : ConsolePrinter) (off : ℕ)
    → p.cell < 2000
    → Shows p page off
    → Shows (put_cells c colour p) (put_cells c colour page) off
put_cells-Shows c colour p page off h shows =
    let column : page.cell % 80 ≡ p.cell % 80 = omega (arith, shows.0, shows.2) in
    elim (Bool-cases (c == b'\n')) [
      | inl newline ↦
          rw (newline, column)
            (fill_line-Shows (80 - p.cell % 80) colour p page off (omega arith) shows)
      | inr other ↦ rw other (write-Shows c colour p page off h shows)
    ]

pub make_room_now :
    (fuel : ℕ) (p : ConsolePrinter) → p.cell < 2000 → make_room (suc fuel) p ≡ some p
unfolding make_room
make_room_now fuel p h = let e : ltb p.cell 2000 ≡ true = ground arith in rw (e, make_room) refl

pub make_room_later :
    (fuel : ℕ) (p q : ConsolePrinter)
    → 2000 ≤ p.cell
    → scroll p ≡ some q
    → make_room (suc fuel) p ≡ make_room fuel q
unfolding make_room
make_room_later fuel p q h e =
    let f : ltb p.cell 2000 ≡ false = ground arith in rw (f, e, make_room) refl

make_room-Shows :
    (p page : ConsolePrinter) (off : ℕ)
    → Shows p page off
    → (q : ConsolePrinter) × (off1 : ℕ) × (make_room (suc p.cell) p ≡ some q)
      × (q.cell < 2000)
      × Shows q page off1
make_room-Shows p page off shows = elim (dec_lt p.cell 2000) [
  | yes room ↦ (p, off, make_room_now p.cell p room, room, shows)
  | no end ↦
      let full : p.cell ≡ 2000 = omega (arith, shows.1) in
      let (q, e, room, shows1) = scrolled-Shows p page off full shows in
      (
        q,
        off + 80,
        make_room_later p.cell p q (omega arith) e
            ∙ ap (λ f. make_room f q) full
            ∙ make_room_now 1999 q room,
        room,
        shows1,
      )
]

putc-Shows :
    (c colour : ℕ) (p page : ConsolePrinter) (off : ℕ)
    → Shows p page off
    → (q : ConsolePrinter) × (off1 : ℕ) × (putc c colour p ≡ some q)
      × Shows q (put_cells c colour page) off1
unfolding putc
putc-Shows c colour p page off shows =
    let (q, off1, e, room, shows1) = make_room-Shows p page off shows in
    (
      put_cells c colour q,
      off1,
      rw (e, putc) refl,
      put_cells-Shows c colour q page off1 room shows1,
    )

puts-Shows :
    (ps : List Put) (p page : ConsolePrinter) (off : ℕ)
    → Shows p page off
    → (q : ConsolePrinter) × (off1 : ℕ) × (puts ps p ≡ some q) × Shows q (page_puts ps page) off1
unfolding puts
puts-Shows [] p page off shows = (p, off, refl, shows)
puts-Shows ((c, colour) ∷ ps) p page off shows =
    let (q, off1, e, shows1) = putc-Shows c colour p page off shows in
    let (r, off2, f, shows2) = puts-Shows ps q (put_cells c colour page) off1 shows1 in
    (r, off2, rw (e, puts) f, shows2)

-- The page with the console's rows at its top and blank rows below.
abbrev pub page_of : Screen → ConsolePrinter
page_of scr = record {
  console = λ i. if ltb i 2000 then scr.console i else 0;
  cell = scr.cursorpos;
  scrolls = true;
}

-- The console of `scr` is what the rows of `page` from `off` on look like, with the cursor at `pos`.
abbrev pub Window : (page : ConsolePrinter) (off pos : ℕ) → Screen → Type 0
Window page off pos scr =
    (off % 80 ≡ 0)
    × (pos ≤ 2000)
    × (page.cell ≡ off + pos)
    × (scr.cursorpos ≡ pos)
    × ((i : ℕ) → i < 2000 → scr.console i ≡ page.console (off + i))

start-Shows :
    (scr : Screen) → scr.cursorpos ≤ 2000 → Shows (console_printer none scr) (page_of scr) 0
unfolding console_printer
start-Shows scr h = (
  omega arith,
  h,
  omega arith,
  refl,
  (λ i k. let e : 0 + i ≡ i = omega arith in rw e (ground arith)),
  (λ i k. ground arith),
)

-- What is shown at the cursor, where the cursor is on the console.
show_page :
    (ps : List Put) (scr : Screen)
    → scr.cursorpos ≤ 2000
    → (off : ℕ) × (pos : ℕ) × (scr1 : Screen) × (show none ps scr ≡ some (pos, scr1))
      × Window (page_puts ps (page_of scr)) off pos scr1
unfolding move_cursor
show_page ps scr h =
    let (q, off, e, (at, le, rows, scrolls, same, blank)) =
      puts-Shows ps (console_printer none scr) (page_of scr) 0 (start-Shows scr h) in
    (
      off,
      q.cell,
      move_cursor q (record scr { console = q.console }),
      rw (e, show) refl,
      (rows, le, at, refl, same),
    )

-- Where vprintf prints, console_vprintf at the cursor returns, with no failed assertion, if the cursor is
-- on the console: the cursor is then where the position returned says, and the console is a window of
-- 25 whole rows on the page that begins with the old console and that the text is written on without end.
pub console_vprintf_page :
    (colour : ℕ) (format : List ℕ) (args : List Arg) (ps : List Put) (scr : Screen)
    → vprintf colour format args ≡ printed ps
    → scr.cursorpos ≤ 2000
    → (off : ℕ) × (pos : ℕ) × (scr1 : Screen) × (console_vprintf none colour format args scr
        ≡ some (pos, scr1))
      × Window (page_puts ps (page_of scr)) off pos scr1
unfolding console_vprintf
console_vprintf_page colour format args ps scr e h = rw (e, console_vprintf) (show_page ps scr h)
