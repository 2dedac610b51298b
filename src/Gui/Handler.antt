-- ===== src/Gui/Handler.antt =====
-- SIPTextGUI/text_gui.c, `CallbackEventHandler`: the events that the engine raises.
use furikup.Prelude.{
  ℕ, ℤ, negsuc, is_neg, Bool, true, false, ◌&&◌, ◌||◌, List, [], ◌∷◌, ◌++◌, Option, none, some,
  Bytes, codes, ◌==◌, ltb, leb, if◌then◌else◌, ℤ, pos,
}
use furikup.CString.{strcpy, decimal}
use furikup.AddressBook.{Book}
use furikup.Engine.{
  InEvent, incoming, sip_state, startup, info_message, error_message, Effect, gui, sip_connected,
  sip_established,
}
use furikup.Gui.Types.{set_xy, start_ringer, delay, Gui, out, ◌>>=◌, set_redraw}
use furikup.Gui.Status.{clear_status_box, status_message}

-- A thread is started only if the file could be opened.
unfoldable pub play_ringer : Gui → Gui
play_ringer g =
    let h = record g { ringing = true } in if is_neg g.ring_file then h else out start_ringer h

unfoldable pub stop_ringer : Gui → Gui
stop_ringer g = record g { ringing = false }

-- `clearStatusBox(); statusMessage(text);` under a test.
abbrev pub clear_and_say : Bool → Bytes → Gui → Option Gui
clear_and_say test text g = if test then status_message text (clear_status_box g) else some g

abbrev pub forget_caller : ℕ → Gui → Gui
forget_caller state g =
    if state == sip_connected then record g { caller = []; caller_index = negsuc 0 } else g

abbrev pub settle : ℕ → Gui → Option Gui
settle new g = some (set_redraw true (forget_caller new (record g { current_state = new })))

abbrev pub quiet_for : ℕ → Gui → Gui
quiet_for new g = if new == sip_established || new == sip_connected then stop_ringer g else g

abbrev pub establish : ℕ → Gui → Option Gui
establish new g =
    clear_and_say (new == sip_established) (codes "Call established") (quiet_for new g)
    >>= settle new

unfoldable pub on_sip_state : ℕ → Gui → Option Gui
unfolding clear_status_box stop_ringer set_redraw
on_sip_state new g =
    clear_and_say (ltb sip_connected g.current_state && leb new sip_connected)
      (codes "Call cancelled") g
    >>= establish new

-- The name copied into `gCaller[100]`.
abbrev pub caller_text : Option Bytes → Option Bytes
caller_text none = some (codes "Unknown")
caller_text (some name) = strcpy 100 name

abbrev pub greet : ℤ → Option Bytes → Gui → Option Gui
greet index none g = none
greet index (some name) g =
    status_message (codes "Incoming call... " ++ name)
      (record g { caller = name; caller_index = index })
    >>= λ h. some (set_redraw true h)

unfoldable pub on_incoming : Option Bytes → ℤ → Gui → Option Gui
unfolding play_ringer set_redraw
on_incoming name index g = greet index (caller_text name) (play_ringer g)

unfoldable pub on_startup : ℕ → Gui → Option Gui
unfolding clear_status_box
on_startup n g₀ =
    let g = record (out (set_xy 20 20) g₀) { startup = n } in
    if n == 0
    then status_message (codes "Starting up...") g
    else if n == 1
    then status_message (codes "Registering with server...") g
    else if n == 2
    then status_message (codes "Ready.") (clear_status_box g)
    else status_message (codes "Startup state: " ++ decimal (pos n)) g

-- The texts of the engine are given to `statusMessage` as its format.
unfoldable pub handle : InEvent → Gui → Option Gui
unfolding on_sip_state on_incoming on_startup
handle (sip_state new) g = on_sip_state new g
handle (incoming name index) g = on_incoming name index g
handle (startup n) g = on_startup n g
handle (info_message text) g = if g.show_infos then status_message text g else some g
handle (error_message text) g = status_message text g >>= λ h. some (out (delay 1000000) h)

unfoldable pub on_address_book : Book → Gui → Option Gui
on_address_book b g =
    status_message
      (codes "Processed address book : " ++ (decimal (pos b.max_contact) ++ codes " contacts"))
      (record g { contacts = some b.contacts; contacts_count = b.max_contact })

abbrev pub deliver_one : Effect → Gui → Option Gui
deliver_one (gui e) g = handle e g
deliver_one _ g = some g

-- The events of a trace of the engine, the earliest first.
unfoldable pub deliver : List Effect → Gui → Option Gui
unfolding handle
deliver [] g = some g
deliver (e ∷ es) g = deliver es g >>= deliver_one e
