-- ===== src/Gui/Screen.antt =====
-- SIPTextGUI/text_gui.c: `cleanScreenRect`, the menu, and the two lines of state.
use furikup.Prelude.{
  ℕ, zero, suc, ◌+◌, ℤ, pos, negsuc, false, ◌||◌, List, [], ◌∷◌, ◌++◌, Option, none, some, Bytes,
  codes, ◌==◌, if◌then◌else◌, ◌▸◌, get_elem?,
}
use furikup.AddressBook.{Contact}
use furikup.Engine.{
  sip_disconnected, sip_connecting, sip_connected, sip_trying, sip_incoming, sip_established,
}
use furikup.Gui.Types.{Output, set_xy, print, clean, Gui, out, set_redraw}

-- The inner loop: `cols` columns are left, from `x` on.
unfoldable pub clean_row : ℕ → ℕ → ℕ → List Output
clean_row zero x y = []
clean_row (suc cols) x y = set_xy x y ∷ print (codes " ") ∷ clean_row cols (x + 1) y

-- The outer loop: `rows` rows are left, from `y` on. The outputs stand in the order of the calls.
unfoldable pub clean_rows : ℕ → ℕ → ℕ → ℕ → List Output
unfolding clean_row
clean_rows zero cols x y = []
clean_rows (suc rows) cols x y = clean_row cols x y ++ clean_rows rows cols x (y + 1)

unfoldable pub clean_screen_rect : ℕ → ℕ → ℕ → ℕ → List Output
unfolding clean_rows
clean_screen_rect x y cx cy = clean_rows cy cx x y

abbrev pub server_text : ℕ → Bytes
server_text n =
    if n == sip_disconnected
    then codes "Not connected"
    else if n == sip_connecting
    then codes "Connecting..."
    else if n == sip_connected || n == sip_trying || n == sip_incoming || n == sip_established
    then codes "Connected"
    else codes "Unknown"

unfoldable pub display_sip_state : Gui → Gui
display_sip_state g =
    g
    ▸ out (clean 40 0 27 1)
    ▸ out (set_xy 40 0)
    ▸ out (print (codes "Server : "))
    ▸ out (print (server_text g.current_state))

abbrev pub call_text : ℕ → Bytes
call_text n =
    if n == sip_trying
    then codes "Calling"
    else if n == sip_incoming
    then codes "Incoming"
    else if n == sip_established
    then codes "Connected"
    else if n == sip_disconnected || n == sip_connecting || n == sip_connected
    then codes "None"
    else codes "Unknown"

unfoldable pub display_call_state : Gui → Gui
display_call_state g =
    g
    ▸ out (clean 40 1 27 1)
    ▸ out (set_xy 40 1)
    ▸ out (print (codes "Call   : "))
    ▸ out (print (call_text g.current_state))

abbrev pub marker : ℤ → ℕ → Bytes
marker (pos n) i = if n == i then codes "*" else codes " "
marker (negsuc n) i = codes " "

abbrev pub print_contact : ℕ → Option Contact → Gui → Option Gui
print_contact i none g = none
print_contact i (some c) g = some (out (print (marker g.cur_pos i ++ (codes " " ++ c.nickname))) g)

abbrev pub print_if_any : ℕ → Option (List Contact) → Gui → Option Gui
print_if_any i none g = some g
print_if_any i (some cs) g = print_contact i (get_elem? cs i) g

-- The loop over the contacts: `count` are left, the next one is `i`. `none` is a read behind the
-- array of contacts.
unfoldable pub print_contacts : ℕ → ℕ → Gui → Option Gui
print_contacts zero i g = some g
print_contacts (suc count) i g = elim (print_if_any i g.contacts (out (set_xy 3 (6 + i)) g)) [
  | none ↦ none
  | some h ↦ print_contacts count (i + 1) h
]

unfoldable pub display_body : Gui → Option Gui
unfolding print_contacts
display_body g =
    if g.current_state == sip_connected
    then print_contacts g.contacts_count 0 (
        g
        ▸ out (print (codes "Please choose a contact and press X to dial."))
        ▸ out (clean 3 6 68 g.contacts_count))
    else if g.current_state == sip_established
    then some (out (print (codes "Press triangle to hang up.")) g)
    else if g.current_state == sip_trying
    then some (
        g
        ▸ out (print (codes "Attempting call to " ++ (g.callee ++ codes "\n")))
        ▸ out (print (codes "Press O to cancel.")))
    else if g.current_state == sip_incoming
    then some (
        g
        ▸ out (print (codes "Incoming call from " ++ (g.caller ++ codes "\n")))
        ▸ out (print (codes "Press X to accept, O to reject.")))
    else if g.current_state == sip_disconnected
    then some (out (print (codes "Please wait while the server is contacted.")) g)
    else some g

abbrev pub close_menu : Option Gui → Option Gui
close_menu none = none
close_menu (some g) =
    some (g ▸ display_call_state ▸ display_sip_state ▸ out (set_xy 0 10) ▸ set_redraw false)

unfoldable pub display_menu : Gui → Option Gui
unfolding display_body display_call_state display_sip_state set_redraw
display_menu g =
    if g.redraw
    then close_menu (display_body (g ▸ out (clean 0 3 68 20) ▸ out (set_xy 0 3)))
    else some g
