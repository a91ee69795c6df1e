-- ===== src/Weensyos/Console.antt =====
-- The console of weensyos/lib.cc: console_clear, console_printer, console_puts and console_vprintf, and
-- console_show_cursor of weensyos/k-hardware.cc. `console` has a number of 16 bits at each cell, so memory
-- counts cells here. A position on the console, an int, is `none` where it is negative.
pub mod Page
pub mod Inside
mod Tests
use Prim.Native.Nat.{bit_or}
use c_proj.Base.{
  ℕ, zero, suc, ◌+◌, ◌-◌, ◌*◌, ◌/◌, ◌%◌, ◌^◌, Bool, true, false, Option, none, some, List, [], ◌∷◌,
  ◌++◌, ltb, leb, ◌==◌, if◌then◌else◌, Memory,
}
use c_proj.Weensyos.Strings.{store, memmove, memset}
use c_proj.Weensyos.Printer.{Arg}
use c_proj.Weensyos.Printer.Fields.{
  Put, Printed, printed, undefined_behaviour, out_of_fuel, coloured, vprintf,
}

abbrev pub console_columns : ℕ
console_columns = 80

abbrev pub console_rows : ℕ
console_rows = 25

abbrev pub console_cells : ℕ
console_cells = console_rows * console_columns

-- `console`, `cursorpos`, whether this is the kernel's build, and what the kernel has sent to ports.
pub record Screen : Type 0 where
  pub console : Memory
  pub cursorpos : ℕ
  pub in_kernel : Bool
  pub outbs : List (ℕ × ℕ)

-- The loop of console_clear with `n` rounds to go.
unfoldable pub clear_cells : (n i : ℕ) → Memory → Memory
clear_cells zero i m = m
clear_cells (suc n) i m = clear_cells n (i + 1) (store m i (bit_or b' ' 0x0700))

unfoldable pub console_clear : Screen → Screen
console_clear scr = record scr { console = clear_cells console_cells 0 scr.console; cursorpos = 0 }

-- The port and the byte of each outb of console_show_cursor.
unfoldable pub console_show_cursor : Option ℕ → List (ℕ × ℕ)
console_show_cursor none = (0x3D4, 14) ∷ (0x3D5, 0) ∷ (0x3D4, 15) ∷ (0x3D5, 0) ∷ []
console_show_cursor (some pos) =
    let cpos : ℕ = if ltb console_cells pos then 0 else pos in
    (0x3D4, 14) ∷ (0x3D5, cpos / 256) ∷ (0x3D4, 15) ∷ (0x3D5, cpos % 256) ∷ []

-- struct console_printer, with the console that it writes to. `cell` counts from `console`.
pub record ConsolePrinter : Type 0 where
  pub console : Memory
  pub cell : ℕ
  pub scrolls : Bool

unfoldable pub console_printer : (cpos : Option ℕ) → Screen → ConsolePrinter
console_printer none scr = record { console = scr.console; cell = scr.cursorpos; scrolls = true }
console_printer (some cpos) scr = record {
  console = scr.console;
  cell = if leb cpos console_cells then cpos else 0;
  scrolls = false;
}

-- `none` is a failed assertion.
unfoldable pub scroll : ConsolePrinter → Option ConsolePrinter
scroll p =
    if ltb p.cell console_cells
    then none
    else if p.scrolls
    then some (record p {
      console =
          memset ((console_rows - 1) * console_columns) 0 console_columns
            (memmove 0 console_columns ((console_rows - 1) * console_columns) p.console);
      cell = p.cell - console_columns;
    })
    else some (record p { cell = 0 })

-- The loop at the start of putc. `none` also if the fuel runs out.
unfoldable pub make_room : (fuel : ℕ) → ConsolePrinter → Option ConsolePrinter
make_room zero p = none
make_room (suc fuel) p = elim (ltb p.cell console_cells) [
  | true ↦ some p
  | false ↦ elim (scroll p) [ none ↦ none | some q ↦ make_room fuel q ]
]

-- `*cell_++ = c | color`
abbrev pub write : (c colour : ℕ) → ConsolePrinter → ConsolePrinter
write c colour p = record p {
  console = store p.console p.cell (bit_or c colour % 2 ^ 16);
  cell = p.cell + 1;
}

-- The loop for '\n' with `n` rounds to go.
unfoldable pub fill_line : (n colour : ℕ) → ConsolePrinter → ConsolePrinter
fill_line zero colour p = p
fill_line (suc n) colour p = fill_line n colour (write b' ' colour p)

-- The rest of putc.
abbrev pub put_cells : (c colour : ℕ) → ConsolePrinter → ConsolePrinter
put_cells c colour p =
    if c == b'\n' then fill_line (80 - p.cell % 80) colour p else write c colour p

-- A round of `scroll` takes a row from `cell`, or all of it.
unfoldable pub putc : (c colour : ℕ) → ConsolePrinter → Option ConsolePrinter
putc c colour p = elim (make_room (suc p.cell) p) [
  | none ↦ none
  | some q ↦ some (put_cells c colour q)
]

unfoldable pub puts : List Put → ConsolePrinter → Option ConsolePrinter
puts [] p = some p
puts ((c, colour) ∷ ps) p = elim (putc c colour p) [ none ↦ none | some q ↦ puts ps q ]

unfoldable pub move_cursor : ConsolePrinter → Screen → Screen
move_cursor p scr = record scr {
  cursorpos = p.cell;
  outbs = if scr.in_kernel then scr.outbs ++ console_show_cursor (some p.cell) else scr.outbs;
}

-- The end of console_puts and console_vprintf: the position returned, and the screen.
abbrev pub finish : (cpos : Option ℕ) → ConsolePrinter → Screen → ℕ × Screen
finish none p scr = (p.cell, move_cursor p (record scr { console = p.console }))
finish (some cpos) p scr = (p.cell, record scr { console = p.console })

abbrev pub show : (cpos : Option ℕ) → List Put → Screen → Option (ℕ × Screen)
show cpos ps scr = elim (puts ps (console_printer cpos scr)) [
  | none ↦ none
  | some p ↦ some (finish cpos p scr)
]

unfoldable pub console_puts : (cpos : Option ℕ) (colour : ℕ) → List ℕ → Screen → Option (ℕ × Screen)
console_puts cpos colour s scr = show cpos (coloured colour s) scr

unfoldable pub console_vprintf :
    (cpos : Option ℕ) (colour : ℕ) → List ℕ → List Arg → Screen → Option (ℕ × Screen)
console_vprintf cpos colour format args scr = elim (vprintf colour format args) [
  | printed ps ↦ show cpos ps scr
  | undefined_behaviour ↦ none
  | out_of_fuel ↦ none
]

-- console_printf with a colour and without one.
unfoldable pub console_printf_coloured : (colour : ℕ) → List ℕ → List Arg → Screen → Option Screen
console_printf_coloured colour format args scr =
    elim (console_vprintf none colour format args scr) [
      | none ↦ none
      | some (pos, scr1) ↦ some scr1
    ]

unfoldable pub console_printf : List ℕ → List Arg → Screen → Option Screen
console_printf = console_printf_coloured 0x700
