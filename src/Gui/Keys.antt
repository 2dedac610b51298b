-- ===== src/Gui/Keys.antt =====
-- SIPTextGUI/text_gui.c: what each button is for, state by state, apart from the code of the loop.
use furikup.Prelude.{
  ℕ, zero, suc, ◌+◌, ℤ, Bool, true, false, not, ◌||◌, Option, none, some, Bytes, codes, ◌==◌,
  if◌then◌else◌, ◌≡◌, refl, ◌∙◌, arith, take, get_elem?,
}
use furikup.CString.{strcpy}
use furikup.AddressBook.{Contact}
use furikup.Engine.{
  OutEvent, hangup, answer, reject, new_call, sip_connected, sip_trying, sip_incoming,
  sip_established,
}
use furikup.Gui.Types.{Gui, set_redraw}
use furikup.Gui.Status.{
  print_line, print_lines, display_status_lines, add_line, add_checked, redisplay, status_message,
  clear_status_box,
}
use furikup.Gui.Buttons.{
  Button, cross, circle, triangle, up, down, start, select, contact_at, next_pos, prev_pos,
  move_down, move_up, press_global,
}
use furikup.Gui.Requests.{
  Branch, dialling, cancelling, refusing, accepting, hanging_up, Pressed, failed, handled, asks,
  ask_call, ask_contact, ask_dial, if_handled, before_connected, before_trying, before_incoming,
  before_established, before_request,
}
use furikup.Gui.Same.{After}

abbrev calls_for : Button → Option Branch
calls_for cross = some dialling
calls_for _ = none

abbrev cancels_for : Button → Option Branch
cancels_for circle = some cancelling
cancels_for _ = none

abbrev decides_for : Button → Option Branch
decides_for cross = some accepting
decides_for circle = some refusing
decides_for _ = none

abbrev hangs_up_for : Button → Option Branch
hangs_up_for triangle = some hanging_up
hangs_up_for _ = none

abbrev cursor_for : Button → Gui → Option ℤ
cursor_for down g = next_pos g.cur_pos g.contacts_count
cursor_for up g = some (prev_pos g.cur_pos g.contacts_count)
cursor_for _ g = some g.cur_pos

-- What a button asks of the engine, if anything, and where it leaves the cursor.
abbrev pub meaning : Button → Gui → Option Branch × Option ℤ
meaning b g =
    if g.current_state == sip_connected
    then (calls_for b, cursor_for b g)
    else if g.current_state == sip_trying
    then (cancels_for b, some g.cur_pos)
    else if g.current_state == sip_incoming
    then (decides_for b, some g.cur_pos)
    else if g.current_state == sip_established
    then (hangs_up_for b, some g.cur_pos)
    else (none, some g.cur_pos)

-- The event that goes with it.
abbrev pub IsRequest : Branch → Gui → OutEvent → Type 0
IsRequest dialling g e =
    (c : Contact) × (contact_at g.contacts g.cur_pos ≡ some c) × (e ≡ new_call c.sip_uri)
IsRequest cancelling g e = e ≡ reject
IsRequest refusing g e = e ≡ reject
IsRequest accepting g e = e ≡ answer
IsRequest hanging_up g e = e ≡ hangup

abbrev pub is_start : Button → Bool
is_start start = true
is_start _ = false

abbrev pub infos_after : Button → Bool → Bool
infos_after select infos = not infos
infos_after _ infos = infos

-- The fields that the keys are about, and the contacts.
abbrev pub SameKeys : Gui → Gui → Type 0
SameKeys g h =
    (h.cur_pos ≡ g.cur_pos)
    × (h.quit ≡ g.quit)
    × (h.show_infos ≡ g.show_infos)
    × (h.contacts ≡ g.contacts)

print_line-SameKeys : (row : ℕ) (o : Option Bytes) (g : Gui) → SameKeys g (print_line row o g)
print_line-SameKeys row none g = (refl, refl, refl, refl)
print_line-SameKeys row (some t) g = (refl, refl, refl, refl)

print_lines-SameKeys : (rows row : ℕ) (g : Gui) → SameKeys g (print_lines rows row g)
unfolding print_lines
print_lines-SameKeys zero row g = (refl, refl, refl, refl)
print_lines-SameKeys (suc rows) row g =
    let o = get_elem? g.status_lines row in
    let (a, b, c, d) = print_lines-SameKeys rows (row + 1) (print_line row o g) in
    let (e, f, h, i) = print_line-SameKeys row o g in (a ∙ e, b ∙ f, c ∙ h, d ∙ i)

redisplay-SameKeys :
    (g : Gui) (o : Option Gui) → After (SameKeys g) o → After (SameKeys g) (redisplay o)
unfolding display_status_lines
redisplay-SameKeys g none s = tt
redisplay-SameKeys g (some k) (e, f, h, i) =
    let (a, b, c, d) = print_lines-SameKeys k.num_status_lines 0 _ in (a ∙ e, b ∙ f, c ∙ h, d ∙ i)

add_checked-SameKeys : (o : Option Bytes) (g : Gui) → After (SameKeys g) (add_checked o g)
unfolding add_line
add_checked-SameKeys none g = tt
add_checked-SameKeys (some t) g = ground arith

pub status_message-SameKeys : (text : Bytes) (g : Gui) → After (SameKeys g) (status_message text g)
unfolding status_message
status_message-SameKeys text g =
    let o = strcpy 69 (take 255 text) in
    ground (arith, redisplay-SameKeys g (add_checked o g) (add_checked-SameKeys o g))

-- What has become of a press in front of `SIPEngineDoEvent` is what the button means.
abbrev pub IsMeant : Option Branch × Option ℤ → Gui → Pressed → Type 0
IsMeant m g failed = Unit {0}
IsMeant (none, at) g (handled h) =
    (some h.cur_pos ≡ at) × (h.quit ≡ g.quit) × (h.show_infos ≡ g.show_infos)
IsMeant (some br, at) g (handled h) = ⊥
IsMeant (none, at) g (asks br e h) = ⊥
IsMeant (some br, at) g (asks br' e h) = (br' ≡ br) × IsRequest br g e

ask_contact-IsMeant :
    (o : Option Contact) (at : Option ℤ) (g h : Gui)
    → contact_at g.contacts g.cur_pos ≡ o
    → IsMeant (some dialling, at) g (ask_contact o h)
ask_contact-IsMeant none at g h q = tt
ask_contact-IsMeant (some c) at g h q = named (strcpy 100 c.nickname)
  where
    named : (n : Option Bytes) → IsMeant (some dialling, at) g (ask_call c h n)
    named none = tt
    named (some n) = (refl, (c, q, refl))

ask_dial-IsMeant :
    (o : Option Gui) (at : Option ℤ) (g : Gui)
    → After (SameKeys g) o
    → IsMeant (some dialling, at) g (ask_dial o)
ask_dial-IsMeant none at g s = tt
ask_dial-IsMeant (some h) at g (e, f, k, i) =
    ask_contact-IsMeant (contact_at h.contacts h.cur_pos) at g h (rw (e, i) refl)

down-IsMeant :
    (o : Option ℤ) (g : Gui)
    → IsMeant
        (none, o)
        g
        (if_handled
          (elim o [ none ↦ none | some i ↦ some (set_redraw true (record g { cur_pos = i })) ]))
unfolding set_redraw
down-IsMeant none g = tt
down-IsMeant (some i) g = (refl, refl, refl)

connected-IsMeant :
    (b : Button) (g : Gui) → IsMeant (calls_for b, cursor_for b g) g (before_connected b g)
unfolding move_up move_down clear_status_box set_redraw
connected-IsMeant cross g =
    ask_dial-IsMeant _ (some g.cur_pos) g
      (status_message-SameKeys (codes "Attempting call") (clear_status_box g))
connected-IsMeant down g = down-IsMeant (next_pos g.cur_pos g.contacts_count) g
connected-IsMeant up g = (refl, refl, refl)
connected-IsMeant _ g = (refl, refl, refl)

trying-IsMeant :
    (b : Button) (g : Gui) → IsMeant (cancels_for b, some g.cur_pos) g (before_trying b g)
trying-IsMeant circle g = (refl, refl)
trying-IsMeant _ g = (refl, refl, refl)

incoming-IsMeant :
    (b : Button) (g : Gui) → IsMeant (decides_for b, some g.cur_pos) g (before_incoming b g)
incoming-IsMeant circle g = (refl, refl)
incoming-IsMeant cross g = (refl, refl)
incoming-IsMeant _ g = (refl, refl, refl)

established-IsMeant :
    (b : Button) (g : Gui) → IsMeant (hangs_up_for b, some g.cur_pos) g (before_established b g)
established-IsMeant triangle g = (refl, refl)
established-IsMeant _ g = (refl, refl, refl)

if_IsMeant :
    (t : Bool) (g : Gui) (m n : Option Branch × Option ℤ) (p q : Pressed)
    → IsMeant m g p
    → IsMeant n g q
    → IsMeant (if t then m else n) g (if t then p else q)
if_IsMeant true g m n p q h k = h
if_IsMeant false g m n p q h k = k

pub before_request-IsMeant : (b : Button) (g : Gui) → IsMeant (meaning b g) g (before_request b g)
unfolding before_request
before_request-IsMeant b g =
    if_IsMeant (g.current_state == sip_connected) g _ _ (before_connected b g) _
      (connected-IsMeant b g)
      (if_IsMeant (g.current_state == sip_trying) g _ _ (before_trying b g) _ (trying-IsMeant b g) (
        if_IsMeant (g.current_state == sip_incoming) g _ _ (before_incoming b g) _
          (incoming-IsMeant b g)
          (if_IsMeant (g.current_state == sip_established) g _ _ (before_established b g)
            (handled g) (established-IsMeant b g) (refl, refl, refl))))

-- The global keys, behind it.
abbrev pub IsGlobal : Button → Gui → Gui → Type 0
IsGlobal b g h =
    (h.cur_pos ≡ g.cur_pos)
    × (h.quit ≡ (is_start b || g.quit))
    × (h.show_infos ≡ infos_after b g.show_infos)

pub press_global-IsGlobal : (b : Button) (g : Gui) → After (IsGlobal b g) (press_global b g)
unfolding press_global
press_global-IsGlobal start g = (refl, refl, refl)
press_global-IsGlobal select g = ground (
  arith,
  status_message-SameKeys (codes "Extra informational messages ENABLED")
      (record g { show_infos = true }),
  status_message-SameKeys (codes "Extra informational messages DISABLED")
      (record g { show_infos = false }),
)
press_global-IsGlobal _ g = (refl, refl, refl)
