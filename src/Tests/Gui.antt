-- ===== src/Tests/Gui.antt =====
-- SIPTextGUI/text_gui.c on concrete events and buttons.
use furikup.Gui.Launch.{IsLaunched, boot-IsLaunched}
use furikup.Gui.Boot.{Boot, Raised, address_book, visible, quit, boot}
use furikup.Prelude.{
  pos, true, false, List, [], ◌∷◌, Option, none, some, ◌≡◌, ◌⊎◌, refl, arith, Bytes, map, codes,
  replicate, negsuc,
}
use furikup.Config.{config_get_user_uri, config_get_server_uri}
use furikup.CString.{c_string, digits}
use furikup.AddressBook.{no_contact, empty_book}
use furikup.Engine.{
  incoming_call, registration_success, OutEvent, call_invite, Engine, Outcome, running, returned,
  fault, initial_engine, turn, run, call_thread, error_message,
}
use furikup.Gui.{
  Gui, initial_gui, status_message, clear_status_box, deliver, move_up, up, circle, press,
  display_menu,
}
use furikup.Gui.Lines.{
  IsBox, AllShort, box_lines, say, status_message-box_lines, say-clear_status_box,
}
use furikup.Gui.Mirror.{deliver-call_thread}
use furikup.Gui.Loop.{idle, main_loop}
use furikup.Gui.Presses.{seen, seen_held, go_on, main_loop-press}
use furikup.Tests.Engine.{phone, on}

abbrev messages : List Bytes
messages = map codes ("1" ∷ "2" ∷ "3" ∷ "4" ∷ "5" ∷ "6" ∷ "7" ∷ "8" ∷ [])

messages-AllShort : AllShort messages
messages-AllShort = ground arith

say-clear_status_box_example :
    (h : Gui) × (say messages (clear_status_box initial_gui) ≡ some h)
    × (box_lines h ≡ map codes ("2" ∷ "3" ∷ "4" ∷ "5" ∷ "6" ∷ "7" ∷ "8" ∷ []))
say-clear_status_box_example = say-clear_status_box messages initial_gui refl messages-AllShort

status_message-box_lines_example :
    (h : Gui) × (status_message (codes "Ready.") initial_gui ≡ some h)
    × IsBox h
    × (box_lines h ≡ codes "Ready." ∷ [])
status_message-box_lines_example =
    status_message-box_lines (codes "Ready.") initial_gui (omega arith) (omega arith, refl)

-- The last of three contacts is chosen.
abbrev at_last : Gui
at_last = record initial_gui {
  contacts = some (replicate 20 no_contact);
  contacts_count = 3;
  cur_pos = pos 2;
}

abbrev engine_of : Outcome → Engine
engine_of (running s) = s
engine_of (returned _ s) = s
engine_of fault = initial_engine phone

abbrev gui_of : Option Gui → Gui
gui_of (some g) = g
gui_of none = initial_gui

-- Registered, and then called.
abbrev called : Engine
called =
    engine_of (
      call_thread (pos 7) (on registration_success 4 ∷ on call_invite 5 ∷ [])
        (initial_engine phone))

deliver-call_thread_example :
    ((gui_of (deliver called.trace initial_gui)).current_state ≡ 4)
    × (((gui_of (deliver called.trace initial_gui)).ringing ≡ false)
        ⊎ (incoming_call ≡ incoming_call))
unfolding call_thread turn run config_get_user_uri config_get_server_uri c_string deliver
    status_message
deliver-call_thread_example =
    deliver-call_thread phone (pos 7) (on registration_success 4 ∷ on call_invite 5 ∷ []) called
      initial_gui (gui_of (deliver called.trace initial_gui)) refl refl refl refl

-- The engine's answers are of no interest here.
abbrev accept_all : OutEvent → Gui → Option Gui
accept_all e g = some g

abbrev waiting_at_last : Gui
waiting_at_last = record at_last { current_state = 2 }

main_loop-press_example :
    main_loop accept_all
      (seen_held up ∷ seen_held up ∷ seen_held circle ∷ seen none ∷ [])
      idle
      waiting_at_last
    ≡ go_on accept_all [] idle (display_menu (move_up waiting_at_last))
unfolding press display_menu
main_loop-press_example =
    main_loop-press accept_all up (up ∷ circle ∷ []) [] waiting_at_last (move_up waiting_at_last)
      refl refl refl

-- No file for the ringer, and an engine that complains and then fails.
abbrev bad_start : Boot
bad_start = record {
  module_answers = λ m. pos 0;
  statuses = visible ∷ quit ∷ [];
  ring_answer = negsuc 0;
  gui_build = codes "1";
  engine_build = codes "1";
  raised = address_book empty_book ∷ Raised.event (error_message (codes "No USB")) ∷ [];
  result = negsuc 0;
}

boot-IsLaunched_example :
    IsLaunched
      (codes "Processed address book : 0 contacts" ∷ codes "No USB" ∷ [])
      true
      (boot bad_start initial_gui)
unfolding digits
boot-IsLaunched_example =
    boot-IsLaunched bad_start initial_gui tt (tt, ((omega arith, refl), tt))
      (record { rows_kept = refl; rows_used = omega arith })
