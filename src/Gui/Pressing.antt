-- ===== src/Gui/Pressing.antt =====
-- SIPTextGUI/text_gui.c, the buttons in front of `SIPEngineDoEvent`: with contacts to show, nothing
-- goes out of bounds.
use furikup.Prelude.{
  ℕ, zero, suc, ◌+◌, ◌%◌, ◌<◌, ℤ, pos, negsuc, Bool, true, false, List, [], ◌∷◌, Option, none, some,
  ◌≡◌, refl, sym, arith, codes, ◌==◌, if◌then◌else◌, length, get_elem?,
}
use native.Mathlib.Nat.{mod-lt}
use mathlib.Core.Path.{subst}
use furikup.CString.{strcpy}
use furikup.AddressBook.{Contact}
use furikup.Engine.{sip_connected, sip_trying, sip_incoming, sip_established}
use furikup.Gui.Types.{Gui, set_redraw}
use furikup.Gui.Buttons.{
  Button, cross, circle, triangle, up, down, contact_at, next_pos, prev_pos, move_down, move_up,
}
use furikup.Gui.Requests.{
  Pressed, failed, handled, asks, if_handled, ask_contact, ask_dial, before_connected,
  before_trying, before_incoming, before_established, before_request,
}
use furikup.Gui.Well.{AreNamed, IsListed, IsWell, Goes, IsWell-SameMenu, clear_and_say-IsWell}

abbrev pub GoesOn : Pressed → Type 0
GoesOn failed = ⊥
GoesOn (handled g) = IsWell g
GoesOn (asks br e g) = IsWell g

abbrev IsNamed : Option Contact → Type 0
IsNamed none = ⊥
IsNamed (some c) = length c.nickname < 100

get_elem-IsNamed :
    (cs : List Contact) (i : ℕ) → i < length cs → AreNamed cs → IsNamed (get_elem? cs i)
get_elem-IsNamed [] i h k = absurd (omega arith)
get_elem-IsNamed (c ∷ cs) zero h (k, ks) = k
get_elem-IsNamed (c ∷ cs) (suc i) h (k, ks) = get_elem-IsNamed cs i (omega arith) ks

contact_at-IsNamed :
    (o : Option (List Contact)) (count : ℕ) (i : ℤ) → IsListed o count i → IsNamed (contact_at o i)
contact_at-IsNamed (some cs) count (pos n) (at, some_in, all_in, named) =
    get_elem-IsNamed cs n at named
contact_at-IsNamed none count i l = absurd l
contact_at-IsNamed (some cs) count (negsuc n) l = absurd l

ask_contact-GoesOn :
    (o : Option Contact) (g : Gui) → IsNamed o → IsWell g → GoesOn (ask_contact o g)
ask_contact-GoesOn none g n w = absurd n
ask_contact-GoesOn (some c) g n w =
    let e : strcpy 100 c.nickname ≡ some c.nickname = ground arith in
    rw e (IsWell-SameMenu g (record g { callee = c.nickname }) (refl, refl, refl, refl, refl) w)

ask_dial-GoesOn : (o : Option Gui) → Goes IsWell o → GoesOn (ask_dial o)
ask_dial-GoesOn none w = absurd w
ask_dial-GoesOn (some g) w =
    ask_contact-GoesOn (contact_at g.contacts g.cur_pos) g
      (contact_at-IsNamed g.contacts g.contacts_count g.cur_pos w.listed) w

if_handled-GoesOn : (o : Option Gui) → Goes IsWell o → GoesOn (if_handled o)
if_handled-GoesOn none w = w
if_handled-GoesOn (some g) w = w

-- The new position is one of the contacts in use.
next-IsListed :
    (o : Option (List Contact)) (count : ℕ) (i : ℤ)
    → IsListed o count i
    → (j : ℤ) × (next_pos i count ≡ some j) × IsListed o count j
next-IsListed none count i l = absurd l
next-IsListed (some cs) count (negsuc n) l = absurd l
next-IsListed (some cs) zero (pos n) (at, some_in, all_in, named) = absurd (omega arith)
next-IsListed (some cs) (suc c) (pos n) (at, some_in, all_in, named) = (
  pos ((n + 1) % suc c),
  refl,
  (omega (arith, mod-lt (n + 1) {m = suc c} (omega arith)), some_in, all_in, named),
)

prev-IsListed :
    (o : Option (List Contact)) (count : ℕ) (i : ℤ)
    → IsListed o count i
    → IsListed o count (prev_pos i count)
prev-IsListed none count i l = absurd l
prev-IsListed (some cs) count (negsuc n) l = absurd l
prev-IsListed (some cs) count (pos (suc n)) (at, some_in, all_in, named) =
    (omega arith, some_in, all_in, named)
prev-IsListed (some cs) zero (pos zero) (at, some_in, all_in, named) = absurd (omega arith)
prev-IsListed (some cs) (suc c) (pos zero) (at, some_in, all_in, named) =
    (omega arith, some_in, all_in, named)

move_down-IsWell : (g : Gui) → IsWell g → Goes IsWell (move_down g)
unfolding move_down set_redraw
move_down-IsWell g w =
    let (j, e, l) = next-IsListed g.contacts g.contacts_count g.cur_pos w.listed in
    subst
      (λ o.
        Goes IsWell
          (elim o [ none ↦ none | some i ↦ some (set_redraw true (record g { cur_pos = i })) ]))
      (sym e)
      (record {
        box = record { rows_kept = w.box.rows_kept; rows_used = w.box.rows_used };
        listed = l;
      })

move_up-IsWell : (g : Gui) → IsWell g → IsWell (move_up g)
unfolding move_up set_redraw
move_up-IsWell g w = record {
  box = record { rows_kept = w.box.rows_kept; rows_used = w.box.rows_used };
  listed = prev-IsListed g.contacts g.contacts_count g.cur_pos w.listed;
}

connected-GoesOn : (b : Button) (g : Gui) → IsWell g → GoesOn (before_connected b g)
connected-GoesOn cross g w =
    ask_dial-GoesOn _ (clear_and_say-IsWell true (codes "Attempting call") g (omega arith, refl) w)
connected-GoesOn down g w = if_handled-GoesOn _ (move_down-IsWell g w)
connected-GoesOn up g w = move_up-IsWell g w
connected-GoesOn _ g w = w

trying-GoesOn : (b : Button) (g : Gui) → IsWell g → GoesOn (before_trying b g)
trying-GoesOn circle g w = w
trying-GoesOn _ g w = w

incoming-GoesOn : (b : Button) (g : Gui) → IsWell g → GoesOn (before_incoming b g)
incoming-GoesOn circle g w = w
incoming-GoesOn cross g w = w
incoming-GoesOn _ g w = w

established-GoesOn : (b : Button) (g : Gui) → IsWell g → GoesOn (before_established b g)
established-GoesOn triangle g w = w
established-GoesOn _ g w = w

if_GoesOn : (t : Bool) (p q : Pressed) → GoesOn p → GoesOn q → GoesOn (if t then p else q)
if_GoesOn true p q h k = h
if_GoesOn false p q h k = k

pub before_request-GoesOn : (b : Button) (g : Gui) → IsWell g → GoesOn (before_request b g)
unfolding before_request
before_request-GoesOn b g w =
    if_GoesOn (g.current_state == sip_connected) (before_connected b g) _ (connected-GoesOn b g w) (
      if_GoesOn (g.current_state == sip_trying) (before_trying b g) _ (trying-GoesOn b g w) (
        if_GoesOn (g.current_state == sip_incoming) (before_incoming b g) _ (incoming-GoesOn b g w)
          (if_GoesOn (g.current_state == sip_established) (before_established b g) (handled g)
            (established-GoesOn b g w) w)))
