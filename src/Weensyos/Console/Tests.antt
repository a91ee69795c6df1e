-- ===== src/Weensyos/Console/Tests.antt =====
-- The console on concrete texts.
use c_proj.Base.{ℕ, ◌≤◌, ◌≡◌, refl, none, some, List, [], ◌∷◌, arith, true}
use c_proj.Weensyos.Printer.Fields.{Put, printed, vprintf, vprintf_loop}
use c_proj.Weensyos.Console.{Screen, console_vprintf, console_puts}
use c_proj.Weensyos.Console.Page.{Window, page_puts, page_of, console_vprintf_page}
use c_proj.Weensyos.Console.Inside.{console_puts_inside}

-- A console with the cursor in its last cell.
abbrev last_cell : Screen
last_cell = record { console = λ i. i; cursorpos = 1999; in_kernel = true; outbs = [] }

abbrev two_lines : List ℕ
two_lines = b'a' ∷ b'\n' ∷ b'b' ∷ []

abbrev two_lines_puts : List Put
two_lines_puts = (b'a', 0x700) ∷ (b'\n', 0x700) ∷ (b'b', 0x700) ∷ []

two_lines_printed : vprintf 0x700 two_lines [] ≡ printed two_lines_puts
unfolding vprintf vprintf_loop
two_lines_printed = refl

console_vprintf_page_example :
    (off : ℕ) × (pos : ℕ) × (scr1 : Screen) × (console_vprintf none 0x700 two_lines [] last_cell
      ≡ some (pos, scr1))
    × Window (page_puts two_lines_puts (page_of last_cell)) off pos scr1
console_vprintf_page_example =
    console_vprintf_page 0x700 two_lines [] two_lines_puts last_cell two_lines_printed (omega arith)

console_puts_inside_example :
    (pos : ℕ) × (scr1 : Screen) × (console_puts (some 2000) 0xC000 two_lines last_cell
      ≡ some (pos, scr1))
    × (pos ≤ 2000)
    × (scr1.cursorpos ≤ 2000)
    × ((i : ℕ) → 2000 ≤ i → scr1.console i ≡ last_cell.console i)
console_puts_inside_example =
    console_puts_inside (some 2000) 0xC000 two_lines last_cell (omega arith)
