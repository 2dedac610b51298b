-- ===== src/Startup/Defs.antt =====
-- SIPEngine/sipengine.c: LoadModules, UnloadModules, StartUsb, StopUsb and SIPEngineInitialize, as the
-- calls they make of the PSP's and the SIP libraries, in order. What a call answers is a parameter.
use furikup.Prelude.{
  ℤ, pos, negsuc, Bool, true, false, List, [], ◌∷◌, ◌++◌, Option, none, some, if◌then◌else◌, is_nat,
}
use furikup.Config.{Config}

-- The drivers of <pspusb.h>, the USB modules, and the calls.
pub data Driver : Type 0 where
  bus accessory camera camera_microphone microphone : Driver

pub data UsbModule : Type 0 where
  accessory_module camera_module microphone_module : UsbModule

pub data Call : Type 0 where
  open_log load_audio_freq : Call
  load_module unload_module : UsbModule → Call
  usb_start usb_stop : Driver → Call
  activate_camera activate_microphone get_state : Call
  init_video init_audio exosip_init ortp_setup set_options listen exosip_quit add_authentication :
      Call
  setup_call_thread : Call
  error_message printed : Call

-- The calls made, and the value returned.
pub record Result : Type 0 where
  pub calls : List Call
  pub code : ℤ

abbrev pub is_negative : ℤ → Bool
is_negative (pos n) = false
is_negative (negsuc n) = true

abbrev pub before : Call → Result → Result
before c r = record { calls = c ∷ r.calls; code = r.code }

-- A call whose failure is reported by `report` and returned; otherwise the code goes on.
abbrev pub checked : (Call → ℤ) → Call → Call → Result → Result
checked answers report c next =
    if is_negative (answers c)
    then record { calls = c ∷ report ∷ []; code = answers c }
    else before c next

-- The last call of a function: its answer is returned in either case.
abbrev pub last_call : (Call → ℤ) → Call → Call → Result
last_call answers report c = checked answers report c (record { calls = []; code = answers c })

unfoldable pub load_modules : Config → (Call → ℤ) → Result
load_modules c answers = checked answers error_message load_audio_freq (
    if c.use_usb
    then checked answers error_message (load_module accessory_module) (
        if c.use_video
        then last_call answers error_message (load_module camera_module)
        else last_call answers error_message (load_module microphone_module))
    else record { calls = []; code = answers load_audio_freq })

unfoldable pub unload_modules : Config → (Call → ℤ) → Result
unload_modules c answers =
    if c.use_usb
    then checked answers printed
        (if c.use_video then unload_module camera_module else unload_module microphone_module)
        (last_call answers printed (unload_module accessory_module))
    else record { calls = []; code = pos 0 }

unfoldable pub start_usb : Config → (Call → ℤ) → Result
start_usb c answers = checked answers error_message (usb_start bus) (
    checked answers error_message (usb_start accessory) (
      if c.use_video
      then checked answers error_message (usb_start camera)
          (last_call answers error_message (usb_start camera_microphone))
      else last_call answers error_message (usb_start microphone)))

unfoldable pub stop_usb : Config → (Call → ℤ) → Result
stop_usb c answers =
    let rest =
      checked answers printed (usb_stop accessory) (last_call answers printed (usb_stop bus)) in
    if c.use_video
    then checked answers printed (usb_stop camera_microphone)
        (checked answers printed (usb_stop camera) rest)
    else checked answers printed (usb_stop microphone) rest

-- The calls of `SIPEngineInitialize`, and its code: `none` while it waits for the USB connection.
pub record Launch : Type 0 where
  pub made : List Call
  pub returned : Option ℤ

abbrev pub return : Result → Launch
return r = record { made = r.calls; returned = some r.code }

abbrev pub behind : List Call → Launch → Launch
behind cs o = record o { made = cs ++ o.made }

-- `result = f(); if (result < 0) return result;`
abbrev pub proceed : Result → Launch → Launch
proceed r next = if is_negative r.code then return r else behind r.calls next

-- The endless loop, over what it finds at each poll; it waits on where the list ends.
unfoldable pub await_connection : List Bool → Launch → Launch
await_connection [] next = record { made = []; returned = none }
await_connection (connected ∷ polls) next =
    let rest = await_connection polls next in
    behind (get_state ∷ []) (if connected then next else rest)

-- From `eXosip_init` to the end.
unfoldable pub start_sip : (Call → ℤ) → Launch
start_sip answers =
    if is_nat 0 (answers exosip_init)
    then behind (exosip_init ∷ ortp_setup ∷ set_options ∷ listen ∷ []) (
        if is_nat 0 (answers listen)
        then return (record { calls = add_authentication ∷ setup_call_thread ∷ []; code = pos 0 })
        else return (record { calls = exosip_quit ∷ error_message ∷ []; code = negsuc 0 }))
    else return (record { calls = exosip_init ∷ []; code = negsuc 0 })

-- From `initAudio` on: its failure is reported nowhere.
unfoldable pub start_audio : (Call → ℤ) → Launch
unfolding start_sip
start_audio answers =
    proceed (record { calls = init_audio ∷ []; code = answers init_audio }) (start_sip answers)

abbrev pub activation : Config → Call
activation c = if c.use_video then activate_camera else activate_microphone

unfoldable pub connect_usb : Config → (Call → ℤ) → List Bool → Launch → Launch
unfolding start_usb await_connection
connect_usb c answers polls next = proceed (start_usb c answers) (
    proceed (last_call answers error_message (activation c))
      (await_connection polls (behind (if c.use_video then init_video ∷ [] else []) next)))

abbrev pub open_log_file : Config → List Call
open_log_file c = elim c.log_file [ [] ↦ [] | _ ∷ _ ↦ open_log ∷ [] ]

-- `SIPEngineInitialize` behind the reading of the settings and the contacts.
unfoldable pub initialize : Config → (Call → ℤ) → List Bool → Launch
unfolding load_modules connect_usb start_audio
initialize c answers polls = behind (open_log_file c) (
    proceed (load_modules c answers) (
      if c.use_usb then connect_usb c answers polls (start_audio answers) else start_audio answers))
