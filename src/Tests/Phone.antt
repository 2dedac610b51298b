-- ===== src/Tests/Phone.antt =====
-- The telephone on concrete steps: it registers, is asked to call a contact, and is left.
use furikup.Prelude.{
  pos, negsuc, true, false, List, [], ◌∷◌, Option, none, some, ◌≡◌, refl, arith, codes, replicate,
}
use furikup.Config.{config_get_user_uri, config_get_server_uri}
use furikup.CString.{c_string}
use furikup.AddressBook.{Contact, no_contact}
use furikup.Engine.{
  registration_success, call_invite, OutEvent, new_call, shutdown, info_message, incoming, Engine,
  Outcome, running, returned, fault, initial_engine, Turn, turn, run, start, notify_callback,
  is_done,
}
use furikup.Gui.{
  Gui, initial_gui, deliver, status_message, cross, down, dialling, before_request, asks, Pressed,
}
use furikup.Gui.Loop.{Look}
use furikup.Gui.Well.{IsWell}
use furikup.Phone.{
  Step, asking, quitting, gone, Phone, phone_of, effects_of_turn, turned, asked, left, exited,
  Reach, here, next,
}
use furikup.Phone.Consistent.{IsConsistent}
use furikup.Phone.Reached.{Reach-IsConsistent}
use furikup.Phone.Alive.{AreShortEffects, HasTaken, Reach-responds}
use furikup.Phone.Stuck.{Reach-never_gone}
use furikup.Tests.Engine.{phone, yes_answers, on, ask, phone-IsReadable}

abbrev ann : Contact
ann = record no_contact { nickname = codes "Ann"; sip_uri = codes "ann@sip" }

abbrev listing : Gui
listing = record initial_gui { contacts = some (ann ∷ replicate 19 no_contact); contacts_count = 1 }

abbrev gui_of : Option Gui → Gui
gui_of (some g) = g
gui_of none = initial_gui

abbrev engine_of : Outcome → Engine
engine_of (running s) = s
engine_of (returned _ s) = s
engine_of fault = initial_engine phone

-- The engine registers in its first turn.
abbrev first : Phone
first = phone_of phone (pos 7) listing

abbrev connected : Phone
connected = record first {
  gui = gui_of (
      deliver (effects_of_turn (on registration_success 4) (engine_of first.session.thread))
        listing);
  session =
      furikup.Engine.serve (on registration_success 4) (engine_of first.session.thread)
        first.session;
}

abbrev gui_of_press : Pressed → Gui
gui_of_press (asks br e g) = g
gui_of_press _ = initial_gui

-- X calls the contact.
abbrev dialled : Phone
dialled = record connected {
  gui = gui_of_press (before_request cross connected.gui);
  place = asking dialling cross;
  session = notify_callback (new_call (codes "ann@sip")) connected.session;
}

to_connected : Reach first connected
unfolding start turn run config_get_user_uri config_get_server_uri c_string deliver status_message
    effects_of_turn furikup.Engine.serve
to_connected = next here (
    turned (on registration_success 4) (engine_of first.session.thread) connected.gui refl refl refl
      refl)

to_dialled : Reach first dialled
unfolding start turn run config_get_user_uri config_get_server_uri c_string deliver status_message
    effects_of_turn furikup.Engine.serve before_request
to_dialled =
    next to_connected (asked cross dialling (new_call (codes "ann@sip")) dialled.gui refl refl refl)

Reach-IsConsistent_example : IsConsistent phone dialled
unfolding to_dialled to_connected
Reach-IsConsistent_example =
    Reach-IsConsistent phone (pos 7) listing dialled phone-IsReadable refl refl (omega arith)
      to_dialled ((tt, tt), tt)

abbrev asked_call : Turn
asked_call = ask (new_call (codes "ann@sip"))

listing-IsWell : IsWell listing
listing-IsWell = record {
  box = record { rows_kept = refl; rows_used = omega arith };
  listed = (omega arith, omega arith, omega arith, omega arith);
}

-- The events of the first turn, and of the one that places the call.
connected-AreShort :
    AreShortEffects (effects_of_turn (on registration_success 4) (engine_of first.session.thread))
unfolding start turn run config_get_user_uri config_get_server_uri c_string effects_of_turn
connected-AreShort = ground arith

Reach-responds_example : (y : Phone) × Step connected y × HasTaken cross connected y
unfolding to_connected start turn run config_get_user_uri config_get_server_uri c_string deliver
    status_message effects_of_turn
Reach-responds_example =
    Reach-responds phone (pos 7) listing connected cross listing-IsWell to_connected
      (tt, connected-AreShort) refl refl

-- The registration is refused.
abbrev refused : Turn
refused = record {
  callback = none;
  event = none;
  answers = record yes_answers { register_id = negsuc 0 };
}

abbrev refusal : Engine
refusal = engine_of (turn refused (engine_of first.session.thread))

-- The registration cannot be made, `main` is told to end, and asks the engine for it.
abbrev dead : Phone
dead = record first {
  session = furikup.Engine.serve refused (engine_of first.session.thread) first.session;
}

abbrev told_to_end : Phone
told_to_end = record dead { gui = record dead.gui { quit = true } }

abbrev ending : Phone
ending = record told_to_end {
  gui = gui_of (status_message (codes "Quitting...") told_to_end.gui);
  place = quitting;
  session = notify_callback shutdown told_to_end.session;
}

Reach-never_gone_example : ¬ (ending.place ≡ gone)
unfolding start turn run config_get_user_uri config_get_server_uri c_string furikup.Engine.serve
    notify_callback status_message
Reach-never_gone_example =
    Reach-never_gone (negsuc 0) refusal dead ending refl refl (λ p. cc)
      (next (next here exited) (left ending.gui refl refl refl))

abbrev accept_all : OutEvent → Gui → Option Gui
accept_all e g = some g

abbrev ready : Gui
ready = record listing { current_state = 2 }

abbrev looks : List Look
looks =
    record { events = info_message (codes "event") ∷ []; exit = false; buttons = some cross }
    ∷ record { events = []; exit = false; buttons = none }
    ∷ record {
      events = incoming (some (codes "Ann")) (pos 0) ∷ [];
      exit = true;
      buttons = some down;
    }
    ∷ []
