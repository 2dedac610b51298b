-- ===== src/Gui/Requests.antt =====
-- SIPTextGUI/text_gui.c: a press of a button, cut where it calls `SIPEngineDoEvent`.
use furikup.Prelude.{
  Bool, true, false, [], Option, none, some, Bytes, codes, ◌==◌, if◌then◌else◌, ◌≡◌, refl, ap,
}
use furikup.CString.{strcpy}
use furikup.AddressBook.{Contact}
use furikup.Engine.{
  OutEvent, hangup, answer, reject, new_call, sip_connected, sip_trying, sip_incoming,
  sip_established,
}
use furikup.Gui.Types.{Gui, ◌>>=◌, set_redraw}
use furikup.Gui.Status.{clear_status_box, status_message}
use furikup.Gui.Buttons.{
  Button, cross, circle, triangle, up, down, contact_at, move_down, move_up, call_contact, dial,
  cancel, refuse, accept, hang_up, press_connected, press_trying, press_incoming, press_established,
  press_global, press,
}

-- Which call of `SIPEngineDoEvent` a press has come to.
pub data Branch : Type 0 where
  dialling cancelling refusing accepting hanging_up : Branch

-- The `switch` on the state either handles the press, or asks the engine.
pub data Pressed : Type 0 where
  failed : Pressed
  handled : Gui → Pressed
  asks : Branch → OutEvent → Gui → Pressed

abbrev pub if_handled : Option Gui → Pressed
if_handled none = failed
if_handled (some g) = handled g

abbrev pub ask_call : Contact → Gui → Option Bytes → Pressed
ask_call c g none = failed
ask_call c g (some name) = asks dialling (new_call c.sip_uri) (record g { callee = name })

abbrev pub ask_contact : Option Contact → Gui → Pressed
ask_contact none g = failed
ask_contact (some c) g = ask_call c g (strcpy 100 c.nickname)

abbrev pub ask_dial : Option Gui → Pressed
ask_dial none = failed
ask_dial (some g) = ask_contact (contact_at g.contacts g.cur_pos) g

abbrev pub before_connected : Button → Gui → Pressed
before_connected cross g = ask_dial (status_message (codes "Attempting call") (clear_status_box g))
before_connected down g = if_handled (move_down g)
before_connected up g = handled (move_up g)
before_connected _ g = handled g

abbrev pub before_trying : Button → Gui → Pressed
before_trying circle g = asks cancelling reject g
before_trying _ g = handled g

abbrev pub before_incoming : Button → Gui → Pressed
before_incoming circle g = asks refusing reject g
before_incoming cross g = asks accepting answer g
before_incoming _ g = handled g

abbrev pub before_established : Button → Gui → Pressed
before_established triangle g = asks hanging_up hangup g
before_established _ g = handled g

-- What stands in front of the call.
unfoldable pub before_request : Button → Gui → Pressed
unfolding clear_status_box status_message move_down move_up
before_request b g =
    if g.current_state == sip_connected
    then before_connected b g
    else if g.current_state == sip_trying
    then before_trying b g
    else if g.current_state == sip_incoming
    then before_incoming b g
    else if g.current_state == sip_established
    then before_established b g
    else handled g

-- What stands behind it.
unfoldable pub after_request : Branch → Gui → Option Gui
unfolding clear_status_box status_message set_redraw
after_request dialling g = some (set_redraw true g)
after_request cancelling g = status_message (codes "Cancelling...") g >>= λ h.
    some (set_redraw true (record h { callee = [] }))
after_request refusing g = status_message (codes "Rejecting...") g >>= λ h. some (set_redraw true h)
after_request accepting g =
    status_message (codes "Answering...") g >>= λ h. some (set_redraw true h)
after_request hanging_up g =
    status_message (codes "Call disconnected.") (clear_status_box g) >>= λ h.
    some (set_redraw true h)

module _ (do_event : OutEvent → Gui → Option Gui) where
  -- The two parts with the call between them.
  abbrev pub put_together : Pressed → Option Gui
  put_together failed = none
  put_together (handled g) = some g
  put_together (asks br e g) = do_event e g >>= after_request br

  if_handled_lem : (o : Option Gui) → o ≡ put_together (if_handled o)
  if_handled_lem none = refl
  if_handled_lem (some g) = refl

  ask_call_lem :
      (c : Contact) (g : Gui) (o : Option Bytes)
      → (elim o [
        | none ↦ none
        | some name ↦ do_event (new_call c.sip_uri) (record g { callee = name }) >>= λ h.
            some (set_redraw true h)
      ])
        ≡ put_together (ask_call c g o)
  unfolding after_request
  ask_call_lem c g none = refl
  ask_call_lem c g (some name) = refl

  ask_contact_lem :
      (o : Option Contact) (g : Gui) → call_contact do_event o g ≡ put_together (ask_contact o g)
  ask_contact_lem none g = refl
  ask_contact_lem (some c) g = ask_call_lem c g (strcpy 100 c.nickname)

  ask_dial_lem :
      (o : Option Gui)
      → (o >>= λ h. call_contact do_event (contact_at h.contacts h.cur_pos) h)
        ≡ put_together (ask_dial o)
  ask_dial_lem none = refl
  ask_dial_lem (some g) = ask_contact_lem (contact_at g.contacts g.cur_pos) g

  connected_lem :
      (b : Button) (g : Gui) → press_connected do_event b g ≡ put_together (before_connected b g)
  unfolding dial
  connected_lem cross g =
      ask_dial_lem (status_message (codes "Attempting call") (clear_status_box g))
  connected_lem down g = if_handled_lem (move_down g)
  connected_lem up g = refl
  connected_lem _ g = refl

  bind_assoc : (o : Option Gui) (f k : Gui → Option Gui) → (o >>= f >>= k) ≡ (o >>= λ h. f h >>= k)
  bind_assoc none f k = refl
  bind_assoc (some g) f k = refl

  trying_lem : (b : Button) (g : Gui) → press_trying do_event b g ≡ put_together (before_trying b g)
  unfolding cancel after_request
  trying_lem circle g = bind_assoc (do_event reject g) _ _
  trying_lem _ g = refl

  incoming_lem :
      (b : Button) (g : Gui) → press_incoming do_event b g ≡ put_together (before_incoming b g)
  unfolding refuse accept after_request
  incoming_lem circle g = bind_assoc (do_event reject g) _ _
  incoming_lem cross g = bind_assoc (do_event answer g) _ _
  incoming_lem _ g = refl

  established_lem :
      (b : Button) (g : Gui)
      → press_established do_event b g ≡ put_together (before_established b g)
  unfolding hang_up after_request
  established_lem triangle g = refl
  established_lem _ g = refl

  either :
      (t : Bool) (x y : Option Gui) (p q : Pressed)
      → x ≡ put_together p
      → y ≡ put_together q
      → (if t then x else y) ≡ put_together (if t then p else q)
  either true x y p q e f = e
  either false x y p q e f = f

  -- A press is what stands in front of the call, the call, and what stands behind it, whatever the
  -- call does; where the state has no use for the button there is no call.
  pub press-put_together :
      (b : Button) (g : Gui)
      → press do_event b g ≡ (put_together (before_request b g) >>= press_global b)
  unfolding press before_request
  press-put_together b g =
      ap (λ o. o >>= press_global b)
        (either (g.current_state == sip_connected) _ _ (before_connected b g) _ (connected_lem b g)
          (either (g.current_state == sip_trying) _ _ (before_trying b g) _ (trying_lem b g) (
            either (g.current_state == sip_incoming) _ _ (before_incoming b g) _ (incoming_lem b g)
              (either (g.current_state == sip_established) _ _ (before_established b g) (handled g)
                (established_lem b g) refl))))
