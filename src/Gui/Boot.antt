-- ===== src/Gui/Boot.antt =====
-- SIPTextGUI/text_gui.c: `LoadModules`, `initAudio`, and `main` up to its loop.
use furikup.Prelude.{
  ℕ, ◌+◌, ◌-◌, ◌/◌, ◌%◌, ℤ, pos, negsuc, is_neg, true, List, [], ◌∷◌, ◌++◌, Option, none, some,
  Bytes, codes, ltb, if◌then◌else◌,
}
use furikup.Engine.{InEvent}
use furikup.Gui.Types.{Gui, print, out, ◌>>=◌, set_redraw}
use furikup.Gui.Status.{clear_status_box, status_message}
use furikup.Gui.Handler.{handle, on_address_book}
use furikup.AddressBook.{Book}

pub data NetModule : Type 0 where
  common inet : NetModule

-- The calls into the system. `draw_frame` stands for a frame of the dialog, from `sceGuStart` to
-- `sceGuSwapBuffers`.
pub data BootCall : Type 0 where
  setup_callbacks setup_gu init_inet : BootCall
  load_net_module : NetModule → BootCall
  print_load_error : ℤ → BootCall
  netconf_start draw_frame netconf_update netconf_shutdown : BootCall
  reserve_ring_channel open_ring_file load_engine init_screen : BootCall

-- Both modules, the second only behind the first: the code, and the calls.
unfoldable pub load_net_modules : (NetModule → ℤ) → ℤ × List BootCall
load_net_modules answers =
    if is_neg (answers common)
    then (answers common, load_net_module common ∷ print_load_error (answers common) ∷ [])
    else if is_neg (answers inet)
    then (
      answers inet,
      load_net_module common ∷ load_net_module inet ∷ print_load_error (answers inet) ∷ [],
    )
    else (pos 0, load_net_module common ∷ load_net_module inet ∷ [])

-- What `sceUtilityNetconfGetStatus` answers: `idle` is any other status.
pub data DialogStatus : Type 0 where
  idle visible quit : DialogStatus

abbrev pub before_calls : List BootCall → Option (List BootCall) → Option (List BootCall)
before_calls cs none = none
before_calls cs (some ds) = some (cs ++ ds)

-- The loop of the network dialog, with the status of each round; `none`: it is still open.
unfoldable pub connect_dialog : List DialogStatus → Option (List BootCall)
connect_dialog [] = none
connect_dialog (idle ∷ ss) = before_calls (draw_frame ∷ []) (connect_dialog ss)
connect_dialog (visible ∷ ss) = before_calls (netconf_update ∷ draw_frame ∷ []) (connect_dialog ss)
connect_dialog (quit ∷ ss) = some (netconf_shutdown ∷ draw_frame ∷ [])

abbrev pub hex_digit : ℕ → ℕ
hex_digit d = if ltb d 10 then b'0' + d else b'A' + (d - 10)

-- `%08X` of an int.
abbrev pub hex8 : ℕ → Bytes
hex8 n =
    hex_digit (n / 268435456 % 16)
    ∷ hex_digit (n / 16777216 % 16)
    ∷ hex_digit (n / 1048576 % 16)
    ∷ hex_digit (n / 65536 % 16)
    ∷ hex_digit (n / 4096 % 16)
    ∷ hex_digit (n / 256 % 16)
    ∷ hex_digit (n / 16 % 16)
    ∷ hex_digit (n % 16)
    ∷ []

abbrev pub hex_of : ℤ → Bytes
hex_of (pos n) = hex8 n
hex_of (negsuc n) = hex8 (4294967295 - n % 4294967296)

abbrev pub ring_error : ℤ → Bytes
ring_error answer = codes "Error 0x" ++ (hex_of answer ++ codes " opening ring.wav file")

-- `initAudio`, on the answer to `sceIoOpen`.
unfoldable pub init_audio : ℤ → Gui → Option Gui
unfolding status_message
init_audio answer g₀ =
    let g = record g₀ { ring_file = answer } in
    if is_neg answer then status_message (ring_error answer) g else some g

-- What the engine raises while it starts: the address book, which `parseAddressbook` announces, or any
-- other event.
pub data Raised : Type 0 where
  event : InEvent → Raised
  address_book : Book → Raised

abbrev pub handle_one : Raised → Gui → Option Gui
handle_one (event e) g = handle e g
handle_one (address_book b) g = on_address_book b g

unfoldable pub handle_raised : List Raised → Gui → Option Gui
unfolding handle on_address_book
handle_raised [] g = some g
handle_raised (e ∷ es) g = handle_one e g >>= handle_raised es

-- What the start meets. `gui_build` and `engine_build` are the texts that the build puts in; `raised`
-- are the events that the engine raises in `SIPEngineInitialize`, and `result` is its code.
pub record Boot : Type 0 where
  pub module_answers : NetModule → ℤ
  pub statuses : List DialogStatus
  pub ring_answer : ℤ
  pub gui_build : Bytes
  pub engine_build : Bytes
  pub raised : List Raised
  pub result : ℤ

abbrev pub welcome : Boot → Gui → Gui
welcome b g =
    out
      (print (
        codes "Build - GUI("
        ++ (b.gui_build ++ (codes "), Engine(" ++ (b.engine_build ++ (b')' ∷ 10 ∷ []))))))
      (out (print (codes "PSP SIP Phone - homebrew wins again!" ++ 10 ∷ [])) g)

abbrev pub camera_text : Bytes
camera_text = codes "Initializing camera... (please ensure it is plugged in)"

abbrev pub failed_text : Bytes
failed_text = codes "Failed to initialize the SIPEngine"

-- The interface from `initAudio` to the message in front of `SIPEngineInitialize`.
unfoldable pub prepare : Boot → Gui → Option Gui
unfolding init_audio clear_status_box status_message
prepare b g =
    init_audio b.ring_answer g >>= λ h. status_message camera_text (clear_status_box (welcome b h))

-- Where `main` is: in the network dialog, in the wait for `quit` behind a failed start, or at its
-- loop.
pub data Stage : Type 0 where
  connecting fault : Stage
  failed started : List BootCall → Gui → Stage

abbrev pub failed_with : List BootCall → Option Gui → Stage
failed_with cs none = fault
failed_with cs (some g) = failed cs g

abbrev pub after_engine : ℤ → List BootCall → Option Gui → Stage
after_engine result cs none = fault
after_engine result cs (some g) =
    if is_neg result
    then failed_with cs (status_message failed_text g)
    else started cs (set_redraw true g)

unfoldable pub start_engine : Boot → List BootCall → Gui → Stage
unfolding handle_raised
start_engine b cs g = after_engine b.result cs (handle_raised b.raised g)

-- The calls, the first one first.
abbrev pub boot_calls : Boot → List BootCall → List BootCall
boot_calls b dialog =
    setup_callbacks
    ∷ setup_gu
    ∷ ((load_net_modules b.module_answers).1
        ++ (init_inet
            ∷ netconf_start
            ∷ (dialog ++ (reserve_ring_channel ∷ open_ring_file ∷ load_engine ∷ init_screen ∷ []))))

abbrev pub behind_dialog : Boot → Option (List BootCall) → Option Gui → Stage
behind_dialog b none g = connecting
behind_dialog b (some dialog) none = fault
behind_dialog b (some dialog) (some g) = start_engine b (boot_calls b dialog) g

unfoldable pub boot : Boot → Gui → Stage
unfolding load_net_modules connect_dialog prepare start_engine
boot b g = behind_dialog b (connect_dialog b.statuses) (prepare b g)
