-- ===== src/Startup/Order.antt =====
-- The order of the calls in SIPEngine/sipengine.c, and what its return codes mean.
use furikup.Prelude.{
  Bytes, ℤ, pos, negsuc, Bool, true, false, ◌||◌, List, [], ◌∷◌, ◌++◌, Option, none, some, ◌≡◌,
  refl, ap, ◌∙◌, if◌then◌else◌, is_nat,
}
use furikup.Config.{Config}
use furikup.Startup.Defs.{
  Call, load_audio_freq, load_module, usb_start, accessory_module, camera_module, microphone_module,
  bus, accessory, camera, camera_microphone, microphone, activate_camera, activate_microphone,
  get_state, init_video, init_audio, exosip_init, ortp_setup, set_options, listen, error_message,
  before, activation, open_log_file, open_log, add_authentication, exosip_quit, setup_call_thread,
  Result, is_negative, Launch, return, behind, proceed, load_modules, start_usb, start_sip,
  start_audio, connect_usb, await_connection, initialize, checked, last_call,
}

abbrev pub is_setup : Call → Bool
is_setup setup_call_thread = true
is_setup _ = false

-- The thread of the engine is started by one of the calls.
abbrev pub starts_thread : List Call → Bool
starts_thread [] = false
starts_thread (c ∷ cs) = is_setup c || starts_thread cs

abbrev pub is_success : Option ℤ → Bool
is_success none = false
is_success (some z) = is_nat 0 z

-- A run starts the thread exactly if it returns 0.
unfoldable pub Truthful : Launch → Type 0
Truthful o = starts_thread o.made ≡ is_success o.returned

left_false : (a b : Bool) → (a || b) ≡ false → a ≡ false
left_false false b h = refl
left_false true b h = h

right_false : (a b : Bool) → (a || b) ≡ false → b ≡ false
right_false false b h = h
right_false true b h = cc

starts_thread-append :
    (cs ds : List Call) → starts_thread cs ≡ false → starts_thread (cs ++ ds) ≡ starts_thread ds
starts_thread-append [] ds h = refl
starts_thread-append (c ∷ cs) ds h =
    ap (λ b. b || starts_thread (cs ++ ds)) (left_false (is_setup c) (starts_thread cs) h)
    ∙ starts_thread-append cs ds (right_false (is_setup c) (starts_thread cs) h)

behind-Truthful :
    (cs : List Call) (o : Launch) → starts_thread cs ≡ false → Truthful o → Truthful (behind cs o)
unfolding Truthful
behind-Truthful cs o h t = starts_thread-append cs o.made h ∙ t

code-Truthful :
    (cs : List Call) (z : ℤ) (o : Launch)
    → starts_thread cs ≡ false
    → Truthful o
    → Truthful (proceed (record { calls = cs; code = z }) o)
unfolding Truthful
code-Truthful cs (pos n) o h t = behind-Truthful cs o h t
code-Truthful cs (negsuc n) o h t = h

-- A function that starts no thread.
abbrev pub Quiet : Result → Type 0
Quiet r = starts_thread r.calls ≡ false

proceed-Truthful : (r : Result) (o : Launch) → Quiet r → Truthful o → Truthful (proceed r o)
proceed-Truthful r o h t = code-Truthful r.calls r.code o h t

if_Quiet : (b : Bool) (r s : Result) → Quiet r → Quiet s → Quiet (if b then r else s)
if_Quiet true r s h k = h
if_Quiet false r s h k = k

if_Truthful : (b : Bool) (o p : Launch) → Truthful o → Truthful p → Truthful (if b then o else p)
if_Truthful true o p h k = h
if_Truthful false o p h k = k

checked-Quiet :
    (answers : Call → ℤ) (report c : Call) (next : Result)
    → is_setup report ≡ false
    → is_setup c ≡ false
    → Quiet next
    → Quiet (checked answers report c next)
checked-Quiet answers report c next h k q =
    if_Quiet (is_negative (answers c)) (record { calls = c ∷ report ∷ []; code = answers c })
      (before c next) (rw k (rw h refl)) (rw k q)

last_call-Quiet :
    (answers : Call → ℤ) (report c : Call)
    → is_setup report ≡ false
    → is_setup c ≡ false
    → Quiet (last_call answers report c)
last_call-Quiet answers report c h k =
    checked-Quiet answers report c (record { calls = []; code = answers c }) h k refl

load_modules-Quiet : (c : Config) (answers : Call → ℤ) → Quiet (load_modules c answers)
unfolding load_modules
load_modules-Quiet c answers = checked-Quiet answers error_message load_audio_freq _ refl refl (
    if_Quiet c.use_usb _ _
      (checked-Quiet answers error_message (load_module accessory_module) _ refl refl (
        if_Quiet c.use_video _ _
          (last_call-Quiet answers error_message (load_module camera_module) refl refl)
          (last_call-Quiet answers error_message (load_module microphone_module) refl refl)))
      refl)

start_usb-Quiet : (c : Config) (answers : Call → ℤ) → Quiet (start_usb c answers)
unfolding start_usb
start_usb-Quiet c answers = checked-Quiet answers error_message (usb_start bus) _ refl refl (
    checked-Quiet answers error_message (usb_start accessory) _ refl refl (
      if_Quiet c.use_video _ _
        (checked-Quiet answers error_message (usb_start camera) _ refl refl
          (last_call-Quiet answers error_message (usb_start camera_microphone) refl refl))
        (last_call-Quiet answers error_message (usb_start microphone) refl refl)))

await_connection-Truthful :
    (polls : List Bool) (o : Launch) → Truthful o → Truthful (await_connection polls o)
unfolding await_connection
await_connection-Truthful [] o t = unfold Truthful in refl
await_connection-Truthful (connected ∷ polls) o t =
    behind-Truthful (get_state ∷ []) _ refl
      (if_Truthful connected o (await_connection polls o) t (await_connection-Truthful polls o t))

start_sip-Truthful : (answers : Call → ℤ) → Truthful (start_sip answers)
unfolding start_sip
start_sip-Truthful answers =
    let started : Truthful
        (return (record { calls = add_authentication ∷ setup_call_thread ∷ []; code = pos 0 })) =
      unfold Truthful in refl in
    let failed : Truthful
        (return (record { calls = exosip_quit ∷ error_message ∷ []; code = negsuc 0 })) =
      unfold Truthful in refl in
    if_Truthful (is_nat 0 (answers exosip_init)) _ _
      (behind-Truthful (exosip_init ∷ ortp_setup ∷ set_options ∷ listen ∷ []) _ refl
        (if_Truthful (is_nat 0 (answers listen)) _ _ started failed))
      (unfold Truthful in refl)

start_audio-Truthful : (answers : Call → ℤ) → Truthful (start_audio answers)
unfolding start_audio
start_audio-Truthful answers =
    proceed-Truthful (record { calls = init_audio ∷ []; code = answers init_audio })
      (start_sip answers) refl (start_sip-Truthful answers)

activation_no_setup :
    (video : Bool) → is_setup (if video then activate_camera else activate_microphone) ≡ false
activation_no_setup true = refl
activation_no_setup false = refl

video_quiet : (video : Bool) → starts_thread (if video then init_video ∷ [] else []) ≡ false
video_quiet true = refl
video_quiet false = refl

activation-Quiet :
    (c : Config) (answers : Call → ℤ) → Quiet (last_call answers error_message (activation c))
activation-Quiet c answers =
    last_call-Quiet answers error_message (activation c) refl (activation_no_setup c.use_video)

log_quiet : (file : Bytes) → starts_thread (elim file [ [] ↦ [] | _ ∷ _ ↦ open_log ∷ [] ]) ≡ false
log_quiet [] = refl
log_quiet (_ ∷ _) = refl

open_log_file_quiet : (c : Config) → starts_thread (open_log_file c) ≡ false
open_log_file_quiet c = log_quiet c.log_file

connect_usb-Truthful :
    (c : Config) (answers : Call → ℤ) (polls : List Bool) (o : Launch)
    → Truthful o
    → Truthful (connect_usb c answers polls o)
unfolding connect_usb
connect_usb-Truthful c answers polls o t =
    proceed-Truthful (start_usb c answers) _ (start_usb-Quiet c answers) (
      proceed-Truthful (last_call answers error_message (activation c)) _
        (activation-Quiet c answers)
        (await_connection-Truthful polls _ (
          behind-Truthful (if c.use_video then init_video ∷ [] else []) o (video_quiet c.use_video)
            t)))

-- Starting the engine, with whatever settings, answers of the libraries and states of the USB
-- connection: the thread that serves the calls is started exactly in the runs that return 0, and so
-- in none that returns another code or waits for the connection for ever.
pub initialize-Truthful :
    (c : Config) (answers : Call → ℤ) (polls : List Bool) → Truthful (initialize c answers polls)
unfolding initialize
initialize-Truthful c answers polls = behind-Truthful (open_log_file c) _ (open_log_file_quiet c) (
    proceed-Truthful (load_modules c answers) _ (load_modules-Quiet c answers) (
      if_Truthful c.use_usb _ _
        (connect_usb-Truthful c answers polls (start_audio answers) (start_audio-Truthful answers))
        (start_audio-Truthful answers)))
