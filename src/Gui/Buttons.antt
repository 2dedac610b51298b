-- ===== src/Gui/Buttons.antt =====
-- SIPTextGUI/text_gui.c, the loop of `main`: what the buttons do. The engine is a parameter: what
-- `SIPEngineDoEvent` makes of the interface by the events that it raises before it returns.
use furikup.Prelude.{
  ℕ, zero, suc, ◌+◌, ◌-◌, ◌%◌, ℤ, pos, negsuc, true, false, not, List, [], Option, none, some,
  codes, ◌==◌, if◌then◌else◌, get_elem?,
}
use furikup.CString.{strcpy}
use furikup.AddressBook.{Contact}
use furikup.Engine.{
  OutEvent, hangup, answer, reject, new_call, sip_connected, sip_trying, sip_incoming,
  sip_established,
}
use furikup.Gui.Types.{Gui, ◌>>=◌, set_redraw}
use furikup.Gui.Status.{clear_status_box, status_message}

-- The values of `pad.Buttons` that the loop tests; `other_buttons` is any further one but 0.
pub data Button : Type 0 where
  cross circle triangle up down start select other_buttons : Button

abbrev pub contact_at : Option (List Contact) → ℤ → Option Contact
contact_at none i = none
contact_at (some cs) (pos n) = get_elem? cs n
contact_at (some cs) (negsuc n) = none

-- `gCurPos++; gCurPos %= gContactsCount;` on a position that is not negative, as C truncates.
abbrev pub next_pos : ℤ → ℕ → Option ℤ
next_pos i zero = none
next_pos (pos n) (suc c) = some (pos ((n + 1) % suc c))
next_pos (negsuc zero) (suc c) = some (pos 0)
next_pos (negsuc (suc n)) (suc c) =
    some (if (n + 1) % suc c == 0 then pos 0 else negsuc ((n + 1) % suc c - 1))

-- `gCurPos--; if (gCurPos < 0) gCurPos = gContactsCount - 1;`
abbrev pub prev_pos : ℤ → ℕ → ℤ
prev_pos (pos (suc n)) c = pos n
prev_pos _ zero = negsuc 0
prev_pos _ (suc c) = pos c

unfoldable pub move_down : Gui → Option Gui
unfolding set_redraw
move_down g = elim (next_pos g.cur_pos g.contacts_count) [
  | none ↦ none
  | some i ↦ some (set_redraw true (record g { cur_pos = i }))
]

unfoldable pub move_up : Gui → Gui
unfolding set_redraw
move_up g = set_redraw true (record g { cur_pos = prev_pos g.cur_pos g.contacts_count })

module _ (do_event : OutEvent → Gui → Option Gui) where
  abbrev pub call_contact : Option Contact → Gui → Option Gui
  call_contact none g = none
  call_contact (some c) g = elim (strcpy 100 c.nickname) [
    | none ↦ none
    | some name ↦
        do_event (new_call c.sip_uri) (record g { callee = name }) >>= λ h. some (set_redraw true h)
  ]

  unfoldable pub dial : Gui → Option Gui
  unfolding clear_status_box set_redraw
  dial g = status_message (codes "Attempting call") (clear_status_box g) >>= λ h.
      call_contact (contact_at h.contacts h.cur_pos) h

  unfoldable pub cancel : Gui → Option Gui
  unfolding set_redraw
  cancel g = do_event reject g >>= status_message (codes "Cancelling...") >>= λ h.
      some (set_redraw true (record h { callee = [] }))

  unfoldable pub refuse : Gui → Option Gui
  unfolding set_redraw
  refuse g =
      do_event reject g >>= status_message (codes "Rejecting...") >>= λ h. some (set_redraw true h)

  unfoldable pub accept : Gui → Option Gui
  unfolding set_redraw
  accept g =
      do_event answer g >>= status_message (codes "Answering...") >>= λ h. some (set_redraw true h)

  unfoldable pub hang_up : Gui → Option Gui
  unfolding clear_status_box set_redraw
  hang_up g = do_event hangup g >>= λ h.
      status_message (codes "Call disconnected.") (clear_status_box h) >>= λ k.
      some (set_redraw true k)

  abbrev pub press_connected : Button → Gui → Option Gui
  press_connected cross g = dial g
  press_connected down g = move_down g
  press_connected up g = some (move_up g)
  press_connected _ g = some g

  abbrev pub press_trying : Button → Gui → Option Gui
  press_trying circle g = cancel g
  press_trying _ g = some g

  abbrev pub press_incoming : Button → Gui → Option Gui
  press_incoming circle g = refuse g
  press_incoming cross g = accept g
  press_incoming _ g = some g

  abbrev pub press_established : Button → Gui → Option Gui
  press_established triangle g = hang_up g
  press_established _ g = some g

  -- The `switch` on the state.
  unfoldable pub press_in_state : Button → Gui → Option Gui
  unfolding dial cancel refuse accept hang_up move_down move_up
  press_in_state b g =
      if g.current_state == sip_connected
      then press_connected b g
      else if g.current_state == sip_trying
      then press_trying b g
      else if g.current_state == sip_incoming
      then press_incoming b g
      else if g.current_state == sip_established
      then press_established b g
      else some g

-- The global key bindings, behind the `switch`.
unfoldable pub press_global : Button → Gui → Option Gui
press_global start g = some (record g { quit = true })
press_global select g =
    if not g.show_infos
    then status_message (codes "Extra informational messages ENABLED")
        (record g { show_infos = true })
    else status_message (codes "Extra informational messages DISABLED")
        (record g { show_infos = false })
press_global _ g = some g

unfoldable pub press : (OutEvent → Gui → Option Gui) → Button → Gui → Option Gui
unfolding press_in_state press_global
press do_event b g = press_in_state do_event b g >>= press_global b
