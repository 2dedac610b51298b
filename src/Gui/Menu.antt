-- ===== src/Gui/Menu.antt =====
-- Moving through the contacts in SIPTextGUI/text_gui.c.
use furikup.Prelude.{
  ℕ, zero, suc, ◌+◌, ◌%◌, ◌<◌, ℤ, pos, negsuc, true, none, some, ◌≡◌, ◌↔◌, inl, inr, refl, ap,
  arith, ltb, Bool-cases, if◌then◌else◌,
}
use native.Mathlib.Nat.{mod-eq_of_lt, mod_self}
use furikup.Gui.Types.{Gui, set_redraw}
use furikup.Gui.Buttons.{next_pos, prev_pos, move_down, move_up}

-- The cursor stands on the i-th of the contacts.
abbrev pub IsOn : ℕ → Gui → Type 0
IsOn i g = (g.cur_pos ≡ pos i) × (i < g.contacts_count)

wrap : (i c : ℕ) → i < suc c → (i + 1) % suc c ≡ (if ltb (i + 1) (suc c) then i + 1 else 0)
wrap i c h = elim (Bool-cases (ltb (i + 1) (suc c))) [
  | inl small ↦ rw small (mod-eq_of_lt (ground arith))
  | inr last ↦ let e : i + 1 ≡ suc c = ground arith in rw last (rw e (mod_self (suc c)))
]

next_pos_lem :
    (i c : ℕ) → i < c → next_pos (pos i) c ≡ some (pos (if ltb (i + 1) c then i + 1 else 0))
next_pos_lem i zero h = absurd (omega arith)
next_pos_lem i (suc c) h = ap (λ n. some (pos n)) (wrap i c h)

-- The button "down" moves the cursor to the next contact and from the last one to the first, asks
-- for a redraw, and moves it off no contact. Condition: the cursor stands on a contact.
pub move_down_lem :
    (i : ℕ) (g : Gui)
    → IsOn i g
    → (h : Gui) × (move_down g ≡ some h)
      × IsOn (if ltb (i + 1) g.contacts_count then i + 1 else 0) h
      × (h.redraw ≡ true)
unfolding move_down
move_down_lem i g o =
    let j = if ltb (i + 1) g.contacts_count then i + 1 else 0 in
    let e : next_pos g.cur_pos g.contacts_count ≡ some (pos j) =
      rw o.0 (next_pos_lem i g.contacts_count o.1) in
    (set_redraw true (record g { cur_pos = pos j }), ground arith, ground arith, ground arith)

back : (i c : ℕ) → i < c → prev_pos (pos (if ltb (i + 1) c then i + 1 else 0)) c ≡ pos i
back i zero h = absurd (omega arith)
back i (suc c) h = ground arith

-- "Up" undoes "down".
pub move_up-move_down :
    (i : ℕ) (g : Gui)
    → IsOn i g
    → (h : Gui) × (move_down g ≡ some h) × ((move_up h).cur_pos ≡ g.cur_pos)
unfolding move_down move_up
move_up-move_down i g o =
    let j = if ltb (i + 1) g.contacts_count then i + 1 else 0 in
    let e : next_pos g.cur_pos g.contacts_count ≡ some (pos j) =
      rw o.0 (next_pos_lem i g.contacts_count o.1) in
    (
      set_redraw true (record g { cur_pos = pos j }),
      ground arith,
      ground (arith, back i g.contacts_count o.1),
    )

faults : (i : ℤ) (c : ℕ) → next_pos i c ≡ none → c ≡ 0
faults i zero h = refl
faults (pos n) (suc c) h = cc
faults (negsuc zero) (suc c) h = cc
faults (negsuc (suc n)) (suc c) h = cc

-- With an empty address book "down" divides by zero, and only then.
pub move_down_faults : (g : Gui) → (move_down g ≡ none) ↔ (g.contacts_count ≡ 0)
unfolding move_down
move_down_faults g = ((λ e. faults g.cur_pos g.contacts_count (ground arith)), λ e. ground arith)
