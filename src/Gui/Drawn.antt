-- ===== src/Gui/Drawn.antt =====
-- SIPTextGUI/text_gui.c, behind `SIPEngineDoEvent`, and the menu: with contacts to show, nothing goes
-- out of bounds.
use furikup.Prelude.{
  ℕ, zero, suc, ◌+◌, ◌≤◌, ◌<◌, ℤ, pos, negsuc, Bool, true, false, not, List, [], ◌∷◌, ◌++◌, Option,
  none, some, refl, arith, Bytes, codes, ◌==◌, if◌then◌else◌, length, get_elem?, ◌▸◌,
}
use furikup.AddressBook.{Contact}
use furikup.Engine.{sip_connected, sip_established, sip_trying, sip_incoming, sip_disconnected}
use furikup.Gui.Types.{Gui, out, ◌>>=◌, set_redraw, set_xy, print, clean}
use furikup.Gui.Status.{status_message, clear_status_box}
use furikup.Gui.Buttons.{Button, start, select, press_global}
use furikup.Gui.Requests.{
  Branch, dialling, cancelling, refusing, accepting, hanging_up, after_request,
}
use furikup.Gui.Screen.{
  print_if_any, print_contacts, display_body, close_menu, display_menu, print_contact, marker,
  display_call_state, display_sip_state,
}
use furikup.Gui.Lines.{IsPrintable}
use furikup.Gui.Well.{
  IsListed, IsWell, Goes, >>=-Goes, IsWell-SameMenu, status_message-IsWell, clear_and_say-IsWell,
}

-- A message, and then nothing that counts.
said_and :
    (text : Bytes) (g : Gui) (f : Gui → Gui)
    → IsPrintable text
    → IsWell g
    → ((h : Gui) → IsWell h → IsWell (f h))
    → Goes IsWell (status_message text g >>= λ h. some (f h))
said_and text g f short w k =
    >>=-Goes IsWell IsWell (status_message text g) _ (status_message-IsWell text g short w) k

redrawn : (h : Gui) → IsWell h → IsWell (set_redraw true h)
unfolding set_redraw
redrawn h = IsWell-SameMenu h (record h { redraw = true }) (refl, refl, refl, refl, refl)

pub after_request-IsWell : (br : Branch) (g : Gui) → IsWell g → Goes IsWell (after_request br g)
unfolding after_request set_redraw
after_request-IsWell dialling g w = IsWell-SameMenu g _ (refl, refl, refl, refl, refl) w
after_request-IsWell cancelling g w =
    said_and (codes "Cancelling...") g (λ h. set_redraw true (record h { callee = [] }))
      (omega arith, refl) w
      (λ h.
        IsWell-SameMenu h (set_redraw true (record h { callee = [] }))
          (refl, refl, refl, refl, refl))
after_request-IsWell refusing g w =
    said_and (codes "Rejecting...") g (set_redraw true) (omega arith, refl) w redrawn
after_request-IsWell accepting g w =
    said_and (codes "Answering...") g (set_redraw true) (omega arith, refl) w redrawn
after_request-IsWell hanging_up g w =
    >>=-Goes IsWell IsWell (status_message (codes "Call disconnected.") (clear_status_box g))
      (λ h. some (set_redraw true h))
      (clear_and_say-IsWell true (codes "Call disconnected.") g (omega arith, refl) w) redrawn

if_Goes :
    (P : Gui → Type 0) (t : Bool) (o p : Option Gui)
    → Goes P o
    → Goes P p
    → Goes P (if t then o else p)
if_Goes P true o p h k = h
if_Goes P false o p h k = k

pub press_global-IsWell : (b : Button) (g : Gui) → IsWell g → Goes IsWell (press_global b g)
unfolding press_global
press_global-IsWell start g w = IsWell-SameMenu g _ (refl, refl, refl, refl, refl) w
press_global-IsWell select g w =
    if_Goes IsWell (not g.show_infos) _ _
      (status_message-IsWell (codes "Extra informational messages ENABLED") _ (omega arith, refl)
        (IsWell-SameMenu g _ (refl, refl, refl, refl, refl) w))
      (status_message-IsWell (codes "Extra informational messages DISABLED") _ (omega arith, refl)
        (IsWell-SameMenu g _ (refl, refl, refl, refl, refl) w))
press_global-IsWell _ g w = w

-- The contacts are printed from the i-th on.
abbrev Counts : ℕ → Gui → Type 0
Counts n g = IsWell g × (n ≤ g.contacts_count)

print_contact-Counts :
    (cs : List Contact) (i j n : ℕ) (g : Gui)
    → i < length cs
    → Counts n g
    → Goes (Counts n) (print_contact j (get_elem? cs i) g)
print_contact-Counts [] i j n g h w = absurd (omega arith)
print_contact-Counts (c ∷ cs) zero j n g h (w, m) = (
  IsWell-SameMenu g (out (print (marker g.cur_pos j ++ (codes " " ++ c.nickname))) g)
      (refl, refl, refl, refl, refl) w,
  m,
)
print_contact-Counts (c ∷ cs) (suc i) j n g h w = print_contact-Counts cs i j n g (omega arith) w

listed_at :
    (cs : List Contact) (count i : ℕ) (at : ℤ)
    → IsListed (some cs) count at
    → i < count
    → i < length cs
listed_at cs count i (pos n) (at, some_in, all_in, named) h = omega arith
listed_at cs count i (negsuc n) l h = absurd l

print_if_any-Counts :
    (o : Option (List Contact)) (i n : ℕ) (g : Gui)
    → IsListed o g.contacts_count g.cur_pos
    → i < n
    → Counts n g
    → Goes (Counts n) (print_if_any i o g)
print_if_any-Counts none i n g l h w = w
print_if_any-Counts (some cs) i n g l h w =
    print_contact-Counts cs i i n g
      (listed_at cs g.contacts_count i g.cur_pos l (omega (arith, w.1))) w

print_contacts-IsWell :
    (count i : ℕ) (g : Gui) → Counts (i + count) g → Goes IsWell (print_contacts count i g)
unfolding print_contacts
print_contacts-IsWell zero i g (w, h) = w
print_contacts-IsWell (suc count) i g (w, h) =
    let k = out (set_xy 3 (6 + i)) g in
    >>=-Goes (Counts (i + suc count)) IsWell (print_if_any i g.contacts k)
      (print_contacts count (i + 1))
      (print_if_any-Counts g.contacts i (i + suc count) k w.listed (omega arith)
        (IsWell-SameMenu g k (refl, refl, refl, refl, refl) w, h))
      (λ u (v, m). print_contacts-IsWell count (i + 1) u (v, omega arith))

display_body-IsWell : (g : Gui) → IsWell g → Goes IsWell (display_body g)
unfolding display_body
display_body-IsWell g w =
    let k =
      g
      ▸ out (print (codes "Please choose a contact and press X to dial."))
      ▸ out (clean 3 6 68 g.contacts_count) in
    if_Goes IsWell (g.current_state == sip_connected) _ _
      (print_contacts-IsWell g.contacts_count 0 k
        (IsWell-SameMenu g k (refl, refl, refl, refl, refl) w, omega arith))
      (if_Goes IsWell (g.current_state == sip_established) _ _
        (IsWell-SameMenu g _ (refl, refl, refl, refl, refl) w)
        (if_Goes IsWell (g.current_state == sip_trying) _ _
          (IsWell-SameMenu g _ (refl, refl, refl, refl, refl) w)
          (if_Goes IsWell (g.current_state == sip_incoming) _ _
            (IsWell-SameMenu g _ (refl, refl, refl, refl, refl) w)
            (if_Goes IsWell (g.current_state == sip_disconnected) _ _
              (IsWell-SameMenu g _ (refl, refl, refl, refl, refl) w) w))))

close_menu-IsWell : (o : Option Gui) → Goes IsWell o → Goes IsWell (close_menu o)
unfolding display_call_state display_sip_state set_redraw
close_menu-IsWell none w = w
close_menu-IsWell (some g) w = IsWell-SameMenu g _ (refl, refl, refl, refl, refl) w

pub display_menu-IsWell : (g : Gui) → IsWell g → Goes IsWell (display_menu g)
unfolding display_menu
display_menu-IsWell g w =
    let k = g ▸ out (clean 0 3 68 20) ▸ out (set_xy 0 3) in
    if_Goes IsWell g.redraw (close_menu (display_body k)) (some g)
      (close_menu-IsWell (display_body k)
        (display_body-IsWell k (IsWell-SameMenu g k (refl, refl, refl, refl, refl) w)))
      w
