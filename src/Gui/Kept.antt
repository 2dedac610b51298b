-- ===== src/Gui/Kept.antt =====
-- SIPTextGUI/text_gui.c: the buttons and the menu leave alone what follows the engine, and ask for
-- what it can bear.
use furikup.Prelude.{
  ℕ, zero, suc, ◌+◌, ◌<◌, ℤ, pos, negsuc, Bool, true, false, List, [], ◌∷◌, Option, none, some,
  Bytes, codes, ◌==◌, if◌then◌else◌, ◌≡◌, refl, sym, ◌∙◌, arith, length, get_elem?, ◌▸◌,
}
use mathlib.Core.Path.{subst}
use furikup.CString.{strcpy}
use furikup.AddressBook.{Contact}
use furikup.Engine.{sip_connected, sip_trying, sip_incoming, sip_established}
use furikup.Engine.Requests.{IsMild}
use furikup.Engine.Handshake.{is_shutdown}
use furikup.Gui.Types.{Gui, out, set_redraw, set_xy, print, clean}
use furikup.Gui.Status.{clear_status_box}
use furikup.Gui.Buttons.{
  Button, cross, circle, triangle, up, down, start, select, contact_at, move_down, move_up,
  press_global,
}
use furikup.Gui.Requests.{
  Branch, dialling, cancelling, refusing, accepting, hanging_up, Pressed, failed, handled, asks,
  if_handled, ask_call, ask_contact, ask_dial, before_connected, before_trying, before_incoming,
  before_established, before_request, after_request,
}
use furikup.Gui.Screen.{
  print_if_any, print_contacts, display_body, close_menu, display_menu, print_contact,
  display_call_state, display_sip_state,
}
use furikup.Gui.Same.{SameCall, After, status_message-SameCall, >>=-After}

-- Every contact can be called: with a scheme in front, its URI fits into 128 bytes.
abbrev pub AreCallable : List Contact → Type 0
AreCallable [] = Unit {0}
AreCallable (c ∷ cs) = (length c.sip_uri < 124) × AreCallable cs

abbrev pub HasCallable : Option (List Contact) → Type 0
HasCallable none = Unit {0}
HasCallable (some cs) = AreCallable cs

abbrev CanCall : Option Contact → Type 0
CanCall none = Unit {0}
CanCall (some c) = length c.sip_uri < 124

get_elem-CanCall : (cs : List Contact) (i : ℕ) → AreCallable cs → CanCall (get_elem? cs i)
get_elem-CanCall [] i h = tt
get_elem-CanCall (c ∷ cs) zero (h, k) = h
get_elem-CanCall (c ∷ cs) (suc i) (h, k) = get_elem-CanCall cs i k

contact_at-CanCall : (o : Option (List Contact)) (i : ℤ) → HasCallable o → CanCall (contact_at o i)
contact_at-CanCall none i h = tt
contact_at-CanCall (some cs) (pos n) h = get_elem-CanCall cs n h
contact_at-CanCall (some cs) (negsuc n) h = tt

-- The interface as the press finds it, and what the press has come to.
abbrev pub IsKept : Gui → Pressed → Type 0
IsKept g failed = Unit {0}
IsKept g (handled h) = SameCall g h
IsKept g (asks br e h) = SameCall g h × IsMild e × (is_shutdown e ≡ false)

ask_call-IsKept :
    (g h : Gui) (c : Contact) (o : Option Bytes)
    → SameCall g h
    → CanCall (some c)
    → IsKept g (ask_call c h o)
ask_call-IsKept g h c none s k = tt
ask_call-IsKept g h c (some name) s k = (s, k, refl)

ask_contact-IsKept :
    (g h : Gui) (o : Option Contact) → SameCall g h → CanCall o → IsKept g (ask_contact o h)
ask_contact-IsKept g h none s k = tt
ask_contact-IsKept g h (some c) s k = ask_call-IsKept g h c (strcpy 100 c.nickname) s k

ask_dial-IsKept :
    (g : Gui) (o : Option Gui)
    → HasCallable g.contacts
    → After (SameCall g) o
    → IsKept g (ask_dial o)
ask_dial-IsKept g none k s = tt
ask_dial-IsKept g (some h) k s =
    ask_contact-IsKept g h (contact_at h.contacts h.cur_pos) s
      (contact_at-CanCall h.contacts h.cur_pos (subst HasCallable (sym s.2) k))

if_handled-IsKept : (g : Gui) (o : Option Gui) → After (SameCall g) o → IsKept g (if_handled o)
if_handled-IsKept g none s = tt
if_handled-IsKept g (some h) s = s

move_down-SameCall : (g : Gui) → After (SameCall g) (move_down g)
unfolding move_down
move_down-SameCall g = ground arith

connected-IsKept : (b : Button) (g : Gui) → HasCallable g.contacts → IsKept g (before_connected b g)
unfolding move_up clear_status_box
connected-IsKept cross g k =
    ask_dial-IsKept g _ k (status_message-SameCall (codes "Attempting call") (clear_status_box g))
connected-IsKept down g k = if_handled-IsKept g _ (move_down-SameCall g)
connected-IsKept up g k = (refl, refl, refl)
connected-IsKept _ g k = (refl, refl, refl)

trying-IsKept : (b : Button) (g : Gui) → IsKept g (before_trying b g)
trying-IsKept circle g = ((refl, refl, refl), tt, refl)
trying-IsKept _ g = (refl, refl, refl)

incoming-IsKept : (b : Button) (g : Gui) → IsKept g (before_incoming b g)
incoming-IsKept circle g = ((refl, refl, refl), tt, refl)
incoming-IsKept cross g = ((refl, refl, refl), tt, refl)
incoming-IsKept _ g = (refl, refl, refl)

established-IsKept : (b : Button) (g : Gui) → IsKept g (before_established b g)
established-IsKept triangle g = ((refl, refl, refl), tt, refl)
established-IsKept _ g = (refl, refl, refl)

if_IsKept :
    (t : Bool) (g : Gui) (p q : Pressed) → IsKept g p → IsKept g q → IsKept g (if t then p else q)
if_IsKept true g p q h k = h
if_IsKept false g p q h k = k

pub before_request-IsKept :
    (b : Button) (g : Gui) → HasCallable g.contacts → IsKept g (before_request b g)
unfolding before_request
before_request-IsKept b g k =
    if_IsKept (g.current_state == sip_connected) g (before_connected b g) _ (connected-IsKept b g k)
      (if_IsKept (g.current_state == sip_trying) g (before_trying b g) _ (trying-IsKept b g) (
        if_IsKept (g.current_state == sip_incoming) g (before_incoming b g) _ (incoming-IsKept b g)
          (if_IsKept (g.current_state == sip_established) g (before_established b g) (handled g)
            (established-IsKept b g) (refl, refl, refl))))

pub after_request-SameCall : (br : Branch) (g : Gui) → After (SameCall g) (after_request br g)
unfolding after_request clear_status_box
after_request-SameCall dialling g = unfold set_redraw in (refl, refl, refl)
after_request-SameCall cancelling g =
    ground (arith, status_message-SameCall (codes "Cancelling...") g)
after_request-SameCall refusing g = ground (arith, status_message-SameCall (codes "Rejecting...") g)
after_request-SameCall accepting g =
    ground (arith, status_message-SameCall (codes "Answering...") g)
after_request-SameCall hanging_up g =
    ground (arith, status_message-SameCall (codes "Call disconnected.") (clear_status_box g))

pub press_global-SameCall : (b : Button) (g : Gui) → After (SameCall g) (press_global b g)
unfolding press_global
press_global-SameCall start g = (refl, refl, refl)
press_global-SameCall select g = ground (
  arith,
  status_message-SameCall (codes "Extra informational messages ENABLED")
      (record g { show_infos = true }),
  status_message-SameCall (codes "Extra informational messages DISABLED")
      (record g { show_infos = false }),
)
press_global-SameCall _ g = (refl, refl, refl)

SameCall-trans : (f g h : Gui) → SameCall f g → SameCall g h → SameCall f h
SameCall-trans f g h (a, b, c) (d, e, i) = (d ∙ a, e ∙ b, i ∙ c)

pub After-SameCall :
    (f g : Gui) (o : Option Gui) → SameCall f g → After (SameCall g) o → After (SameCall f) o
After-SameCall f g none s h = tt
After-SameCall f g (some h) s k = SameCall-trans f g h s k

print_contact-SameCall :
    (i : ℕ) (o : Option Contact) (g : Gui) → After (SameCall g) (print_contact i o g)
print_contact-SameCall i none g = tt
print_contact-SameCall i (some c) g = (refl, refl, refl)

print_if_any-SameCall :
    (i : ℕ) (o : Option (List Contact)) (g : Gui) → After (SameCall g) (print_if_any i o g)
print_if_any-SameCall i none g = (refl, refl, refl)
print_if_any-SameCall i (some cs) g = print_contact-SameCall i (get_elem? cs i) g

print_contacts-SameCall : (count i : ℕ) (g : Gui) → After (SameCall g) (print_contacts count i g)
unfolding print_contacts
print_contacts-SameCall zero i g = (refl, refl, refl)
print_contacts-SameCall (suc count) i g =
    let k = out (set_xy 3 (6 + i)) g in
    >>=-After (SameCall k) (SameCall g) (print_if_any i g.contacts k) (print_contacts count (i + 1))
      (print_if_any-SameCall i g.contacts k)
      (λ h s. After-SameCall g h _ s (print_contacts-SameCall count (i + 1) h))

display_body-SameCall : (g : Gui) → After (SameCall g) (display_body g)
unfolding display_body
display_body-SameCall g = ground (
  arith,
  print_contacts-SameCall g.contacts_count 0 (
      g
      ▸ out (print (codes "Please choose a contact and press X to dial."))
      ▸ out (clean 3 6 68 g.contacts_count)),
)

close_menu-SameCall :
    (g : Gui) (o : Option Gui) → After (SameCall g) o → After (SameCall g) (close_menu o)
unfolding display_call_state display_sip_state set_redraw
close_menu-SameCall g none s = tt
close_menu-SameCall g (some h) s = ground arith

if_After :
    (P : Gui → Type 0) (t : Bool) (o p : Option Gui)
    → After P o
    → After P p
    → After P (if t then o else p)
if_After P true o p h k = h
if_After P false o p h k = k

pub display_menu-SameCall : (g : Gui) → After (SameCall g) (display_menu g)
unfolding display_menu
display_menu-SameCall g =
    let k = g ▸ out (clean 0 3 68 20) ▸ out (set_xy 0 3) in
    if_After (SameCall g) g.redraw (close_menu (display_body k)) (some g)
      (After-SameCall g k _ (refl, refl, refl) (close_menu-SameCall k _ (display_body-SameCall k)))
      (refl, refl, refl)
