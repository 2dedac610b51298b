-- ===== src/Gui/Status.antt =====
-- The status box of SIPTextGUI/text_gui.c: 8 rows, of which the messages use 7.
use furikup.Prelude.{
  ℕ, zero, suc, ◌+◌, ◌-◌, Bool, false, ◌||◌, ◌==◌, List, [], ◌∷◌, Option, none, some, Bytes, ltb,
  if◌then◌else◌, ◌▸◌, take, set, get_elem?,
}
use furikup.CString.{strcpy}
use furikup.Gui.Types.{set_xy, print, clean, Gui, out}

-- STATUS_BOX_LEFT, _TOP, the width and the height of the box, and MAX_STATUS_LINES.
abbrev pub box_left : ℕ
box_left = 0

abbrev pub box_top : ℕ
box_top = 25

abbrev pub box_width : ℕ
box_width = 68

abbrev pub max_status_lines : ℕ
max_status_lines = 8

-- The loop of `clearStatusBox`, of which `rounds` are left: each round writes a NUL to
-- `gStatusLines[MAX_STATUS_LINES][0]`, the byte behind the array, where it means to empty a row.
abbrev pub clear_rows : ℕ → Gui → Gui
clear_rows zero g = g
clear_rows (suc rounds) g = clear_rows rounds (record g { behind_status_lines = 0 })

-- `clearStatusBox`: the rows keep their texts.
unfoldable pub clear_status_box : Gui → Gui
clear_status_box g =
    clear_rows max_status_lines
      (record (out (clean box_left box_top box_width max_status_lines) g) { num_status_lines = 0 })

abbrev pub print_line : ℕ → Option Bytes → Gui → Gui
print_line row none g = out (set_xy box_left (box_top + row)) g
print_line row (some text) g = g ▸ out (set_xy box_left (box_top + row)) ▸ out (print text)

-- The loop over the rows in use: `rows` are left, the next one is `row`.
unfoldable pub print_lines : ℕ → ℕ → Gui → Gui
print_lines zero row g = g
print_lines (suc rows) row g =
    print_lines rows (row + 1) (print_line row (get_elem? g.status_lines row) g)

unfoldable pub display_status_lines : Gui → Gui
unfolding print_lines
display_status_lines g =
    print_lines g.num_status_lines 0 (out (clean box_left box_top box_width max_status_lines) g)

-- `for (ii = 0; ii < count; ii++) strcpy(lines[ii], lines[ii + 1]);`
unfoldable pub scroll : ℕ → List Bytes → List Bytes
scroll zero lines = lines
scroll (suc count) (x ∷ y ∷ lines) = y ∷ scroll count (y ∷ lines)
scroll (suc count) lines = lines

unfoldable pub add_line : Bytes → Gui → Gui
unfolding scroll
add_line text g =
    if ltb g.num_status_lines (max_status_lines - 1)
    then record g {
      status_lines = set g.status_lines g.num_status_lines text;
      num_status_lines = g.num_status_lines + 1;
    }
    else record g {
      status_lines =
          set (scroll (g.num_status_lines - 1) g.status_lines) (g.num_status_lines - 1) text;
    }

abbrev pub add_checked : Option Bytes → Gui → Option Gui
add_checked none g = none
add_checked (some text) g = some (add_line text g)

abbrev pub redisplay : Option Gui → Option Gui
redisplay none = none
redisplay (some g) = some (display_status_lines g)

-- A percent sign is in the text.
abbrev pub has_percent : Bytes → Bool
has_percent [] = false
has_percent (c ∷ text) = c == b'%' || has_percent text

-- `statusMessage` on the text that its format gives: cut to 255 bytes, and copied into a row of 69.
-- `displayStatusLines` gives the row to printf as a format. `none` is a text that outgrows its row, or
-- that has a percent sign, which would print an argument that is not there.
unfoldable pub status_message : Bytes → Gui → Option Gui
unfolding add_line display_status_lines
status_message text g =
    if has_percent text then none else redisplay (add_checked (strcpy 69 (take 255 text)) g)
