-- ===== src/Weensyos/Console/Inside.antt =====
-- No write outside of the console of weensyos/lib.cc.
use native.Mathlib.Decide.{dec_lt}
use c_proj.Base.{
  ℕ, zero, suc, ◌+◌, ◌-◌, ◌%◌, ◌≤◌, ◌<◌, ◌≡◌, ◌≢◌, refl, ap, ◌∙◌, false, Option, none, some, List,
  [], ◌∷◌, arith, ltb, ◌==◌, Bool-cases, inl, inr,
}
use c_proj.Weensyos.Printer.Fields.{Put, coloured}
use c_proj.Weensyos.Console.{
  Screen, ConsolePrinter, console_printer, scroll, make_room, write, fill_line, put_cells, putc,
  puts, move_cursor, show, console_puts,
}
use c_proj.Weensyos.Console.Page.{
  scrolled_console, scrolled_console_lem, make_room_now, make_room_later,
}

-- `q` is on the console, as `p` was, and has written nothing behind it.
abbrev Inside : ConsolePrinter → ConsolePrinter → Type 0
Inside p q = (q.cell ≤ 2000) × ((i : ℕ) → 2000 ≤ i → q.console i ≡ p.console i)

then-Inside : (p q r : ConsolePrinter) → Inside p q → Inside q r → Inside p r
then-Inside p q r (h, same) (k, same1) = (k, λ i l. same1 i l ∙ same i l)

write-Inside : (c colour : ℕ) (p : ConsolePrinter) → p.cell < 2000 → Inside p (write c colour p)
write-Inside c colour p h = (omega arith, λ i k. let f : i ≢ p.cell = omega arith in ground arith)

fill_line-Inside :
    (n colour : ℕ) (p : ConsolePrinter) → p.cell + n ≤ 2000 → Inside p (fill_line n colour p)
unfolding fill_line
fill_line-Inside zero colour p h = (omega arith, λ i k. refl)
fill_line-Inside (suc n) colour p h =
    then-Inside p (write b' ' colour p) (fill_line n colour (write b' ' colour p))
      (write-Inside b' ' colour p (omega arith))
      (fill_line-Inside n colour (write b' ' colour p) (omega arith))

put_cells-Inside :
    (c colour : ℕ) (p : ConsolePrinter) → p.cell < 2000 → Inside p (put_cells c colour p)
put_cells-Inside c colour p h = elim (Bool-cases (c == b'\n')) [
  | inl newline ↦ rw newline (fill_line-Inside (80 - p.cell % 80) colour p (omega arith))
  | inr other ↦ rw other (write-Inside c colour p h)
]

-- Where the cursor is at the end, `scroll` takes it back and keeps inside.
scroll-Inside :
    (p : ConsolePrinter)
    → p.cell ≡ 2000
    → (q : ConsolePrinter) × (scroll p ≡ some q) × (q.cell < 2000) × Inside p q
unfolding scroll
scroll-Inside p full =
    let end : ltb p.cell 2000 ≡ false = ground arith in
    elim (Bool-cases p.scrolls) [
      | inl yes_scrolls ↦ (
        record p { console = scrolled_console p.console; cell = p.cell - 80 },
        rw (end, yes_scrolls, scroll) refl,
        omega arith,
        (omega arith, λ i k. scrolled_console_lem p.console i ∙ ground arith),
      )
      | inr wraps ↦ (
        record p { cell = 0 },
        rw (end, wraps, scroll) refl,
        omega arith,
        (omega arith, λ i k. refl),
      )
    ]

make_room-Inside :
    (p : ConsolePrinter)
    → p.cell ≤ 2000
    → (q : ConsolePrinter) × (make_room (suc p.cell) p ≡ some q) × (q.cell < 2000) × Inside p q
make_room-Inside p le = elim (dec_lt p.cell 2000) [
  | yes room ↦ (p, make_room_now p.cell p room, room, (le, λ i k. refl))
  | no end ↦
      let full : p.cell ≡ 2000 = omega arith in
      let (q, e, room, inside) = scroll-Inside p full in
      (
        q,
        make_room_later p.cell p q (omega arith) e
            ∙ ap (λ f. make_room f q) full
            ∙ make_room_now 1999 q room,
        room,
        inside,
      )
]

puts-Inside :
    (ps : List Put) (p : ConsolePrinter)
    → p.cell ≤ 2000
    → (q : ConsolePrinter) × (puts ps p ≡ some q) × Inside p q
unfolding puts putc
puts-Inside [] p le = (p, refl, (le, λ i k. refl))
puts-Inside ((c, colour) ∷ ps) p le =
    let (q, e, room, inside) = make_room-Inside p le in
    let inside1 = put_cells-Inside c colour q room in
    let (r, f, inside2) = puts-Inside ps (put_cells c colour q) inside1.0 in
    (
      r,
      rw (e, puts, putc) f,
      then-Inside p q r inside (then-Inside q (put_cells c colour q) r inside1 inside2),
    )

start_inside :
    (cpos : Option ℕ) (scr : Screen) → scr.cursorpos ≤ 2000 → (console_printer cpos scr).cell ≤ 2000
unfolding console_printer
start_inside none scr h = h
start_inside (some cpos) scr h = ground arith

-- What is shown at any position.
show_inside :
    (cpos : Option ℕ) (ps : List Put) (scr : Screen)
    → scr.cursorpos ≤ 2000
    → (pos : ℕ) × (scr1 : Screen) × (show cpos ps scr ≡ some (pos, scr1))
      × (pos ≤ 2000)
      × (scr1.cursorpos ≤ 2000)
      × ((i : ℕ) → 2000 ≤ i → scr1.console i ≡ scr.console i)
unfolding console_printer move_cursor
show_inside none ps scr h =
    let (q, e, (le, same)) = puts-Inside ps (console_printer none scr) h in
    (q.cell, move_cursor q (record scr { console = q.console }), rw (e, show) refl, le, le, same)
show_inside (some cpos) ps scr h =
    let (q, e, (le, same)) =
      puts-Inside ps (console_printer (some cpos) scr) (start_inside (some cpos) scr h) in
    (q.cell, record scr { console = q.console }, rw (e, show) refl, le, h, same)

-- console_puts at any position, with a cursor on the console, returns a position on it, leaves the
-- cursor on it, and writes no cell behind the console's 2000.
pub console_puts_inside :
    (cpos : Option ℕ) (colour : ℕ) (s : List ℕ) (scr : Screen)
    → scr.cursorpos ≤ 2000
    → (pos : ℕ) × (scr1 : Screen) × (console_puts cpos colour s scr ≡ some (pos, scr1))
      × (pos ≤ 2000)
      × (scr1.cursorpos ≤ 2000)
      × ((i : ℕ) → 2000 ≤ i → scr1.console i ≡ scr.console i)
unfolding console_puts
console_puts_inside cpos colour s scr h = show_inside cpos (coloured colour s) scr h
