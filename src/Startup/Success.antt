-- ===== src/Startup/Success.antt =====
-- The runs of SIPEngine/sipengine.c in which nothing fails.
use furikup.Prelude.{
  ℕ, zero, suc, ℤ, pos, Bool, true, false, List, [], ◌∷◌, ◌++◌, Option, some, ◌≡◌, refl, ◌∙◌,
  if◌then◌else◌, replicate, Bool-cases, inl, inr,
}
use mathlib.Core.List.{reverse}
use furikup.Config.{Config}
use furikup.Startup.Defs.{
  Driver, bus, accessory, camera, camera_microphone, microphone, Call, usb_start, usb_stop,
  load_audio_freq, load_module, accessory_module, camera_module, microphone_module, activation,
  init_video, init_audio, exosip_init, listen, error_message, Result, is_negative, Launch, before,
  behind, proceed, load_modules, start_usb, stop_usb, start_sip, start_audio, connect_usb,
  await_connection, initialize, checked, last_call,
}

-- No call fails: none answers a negative number, and the two that the code compares with 0 answer 0.
pub record Well (answers : Call → ℤ) : Type 0 where
  pub fine : (c : Call) → is_negative (answers c) ≡ false
  pub sip : answers exosip_init ≡ pos 0
  pub port : answers listen ≡ pos 0

-- The drivers that the calls start or stop, in order.
abbrev pub driver_of : Call → List Driver
driver_of (usb_start d) = d ∷ []
driver_of (usb_stop d) = d ∷ []
driver_of _ = []

abbrev pub drivers : List Call → List Driver
drivers [] = []
drivers (c ∷ cs) = driver_of c ++ drivers cs

checked-fine :
    (answers : Call → ℤ) (report c : Call) (next : Result)
    → is_negative (answers c) ≡ false
    → checked answers report c next ≡ before c next
checked-fine answers report c next h = rw h refl

-- With either setting of the video: where no call fails, `StopUsb` stops the drivers that `StartUsb`
-- starts, in the reverse order.
pub stop_usb-start_usb :
    (c : Config) (answers : Call → ℤ)
    → Well answers
    → drivers (stop_usb c answers).calls ≡ reverse (drivers (start_usb c answers).calls)
unfolding stop_usb start_usb
stop_usb-start_usb c answers w = elim (Bool-cases c.use_video) [
  | inl v ↦ rw v (
      rw (w.fine (usb_start bus)) (
        rw (w.fine (usb_start accessory)) (
          rw (w.fine (usb_start camera)) (
            rw (w.fine (usb_start camera_microphone)) (
              rw (w.fine (usb_stop camera_microphone)) (
                rw (w.fine (usb_stop camera))
                  (rw (w.fine (usb_stop accessory)) (rw (w.fine (usb_stop bus))))))))))
  | inr v ↦ rw v (
      rw (w.fine (usb_start bus)) (
        rw (w.fine (usb_start accessory)) (
          rw (w.fine (usb_start microphone)) (
            rw (w.fine (usb_stop microphone))
              (rw (w.fine (usb_stop accessory)) (rw (w.fine (usb_stop bus))))))))
]

abbrev Fine : Result → Type 0
Fine r = is_negative r.code ≡ false

if_Fine : (b : Bool) (r s : Result) → Fine r → Fine s → Fine (if b then r else s)
if_Fine true r s h k = h
if_Fine false r s h k = k

checked-Fine :
    (answers : Call → ℤ) (report c : Call) (next : Result)
    → is_negative (answers c) ≡ false
    → Fine next
    → Fine (checked answers report c next)
checked-Fine answers report c next h k = rw h k

last_call-Fine :
    (answers : Call → ℤ) (report c : Call)
    → is_negative (answers c) ≡ false
    → Fine (last_call answers report c)
last_call-Fine answers report c h =
    checked-Fine answers report c (record { calls = []; code = answers c }) h h

load_modules-Fine : (c : Config) (answers : Call → ℤ) → Well answers → Fine (load_modules c answers)
unfolding load_modules
load_modules-Fine c answers w =
    checked-Fine answers error_message load_audio_freq _ (w.fine load_audio_freq) (
      if_Fine c.use_usb _ _
        (checked-Fine answers error_message (load_module accessory_module) _
          (w.fine (load_module accessory_module))
          (if_Fine c.use_video _ _
            (last_call-Fine answers error_message (load_module camera_module)
              (w.fine (load_module camera_module)))
            (last_call-Fine answers error_message (load_module microphone_module)
              (w.fine (load_module microphone_module)))))
        (w.fine load_audio_freq))

start_usb-Fine : (c : Config) (answers : Call → ℤ) → Well answers → Fine (start_usb c answers)
unfolding start_usb
start_usb-Fine c answers w =
    checked-Fine answers error_message (usb_start bus) _ (w.fine (usb_start bus)) (
      checked-Fine answers error_message (usb_start accessory) _ (w.fine (usb_start accessory)) (
        if_Fine c.use_video _ _
          (checked-Fine answers error_message (usb_start camera) _ (w.fine (usb_start camera)) (
            last_call-Fine answers error_message (usb_start camera_microphone)
              (w.fine (usb_start camera_microphone))))
          (last_call-Fine answers error_message (usb_start microphone)
            (w.fine (usb_start microphone)))))

proceed-Fine : (r : Result) (o : Launch) → Fine r → (proceed r o).returned ≡ o.returned
proceed-Fine r o h = rw h refl

await_connection-returned :
    (n : ℕ) (polls : List Bool) (o : Launch)
    → (await_connection (replicate n false ++ true ∷ polls) o).returned ≡ o.returned
unfolding await_connection
await_connection-returned zero polls o = refl
await_connection-returned (suc n) polls o = await_connection-returned n polls o

start_sip-Well : (answers : Call → ℤ) → Well answers → (start_sip answers).returned ≡ some (pos 0)
unfolding start_sip
start_sip-Well answers w = rw w.sip (rw w.port)

start_audio-Well :
    (answers : Call → ℤ) → Well answers → (start_audio answers).returned ≡ some (pos 0)
unfolding start_audio
start_audio-Well answers w =
    proceed-Fine (record { calls = init_audio ∷ []; code = answers init_audio }) (start_sip answers)
      (w.fine init_audio)
    ∙ start_sip-Well answers w

if_returned :
    (b : Bool) (o p : Launch) (r : Option ℤ)
    → o.returned ≡ r
    → p.returned ≡ r
    → (if b then o else p).returned ≡ r
if_returned true o p r h k = h
if_returned false o p r h k = k

connect_usb-returned :
    (c : Config) (answers : Call → ℤ) (n : ℕ) (polls : List Bool) (o : Launch)
    → Well answers
    → (connect_usb c answers (replicate n false ++ true ∷ polls) o).returned ≡ o.returned
unfolding connect_usb
connect_usb-returned c answers n polls o w =
    let next = behind (if c.use_video then init_video ∷ [] else []) o in
    let waits = await_connection (replicate n false ++ true ∷ polls) next in
    let active = last_call answers error_message (activation c) in
    proceed-Fine (start_usb c answers) (proceed active waits) (start_usb-Fine c answers w)
    ∙ proceed-Fine active waits
        (last_call-Fine answers error_message (activation c) (w.fine (activation c)))
    ∙ await_connection-returned n polls next

-- Where no call fails and the USB connection is found at some poll, after any number of polls
-- without it, the start of the engine returns 0, with whatever settings.
pub initialize-returns :
    (c : Config) (answers : Call → ℤ) (n : ℕ) (polls : List Bool)
    → Well answers
    → (initialize c answers (replicate n false ++ true ∷ polls)).returned ≡ some (pos 0)
unfolding initialize
initialize-returns c answers n polls w =
    proceed-Fine (load_modules c answers) _ (load_modules-Fine c answers w)
    ∙ if_returned c.use_usb _ (start_audio answers) (some (pos 0))
        (connect_usb-returned c answers n polls (start_audio answers) w
          ∙ start_audio-Well answers w)
        (start_audio-Well answers w)
