-- ===== src/Audio/Source.antt =====
-- SIPEngine/audio.c: what `initAudio` tells of the source of the voice.
use furikup.Prelude.{
  ℤ, pos, is_neg, is_nat, Bool, true, false, not, ◌||◌, List, [], ◌∷◌, Option, none, some, ◌≡◌,
  arith, if◌then◌else◌,
}
use furikup.Config.{Config}
use furikup.Audio.Init.{
  Call, setup_camera_microphone, start_camera_microphone, init_usb_microphone, init_headset,
  open_input_file, error_message, init_audio,
}

-- The call whose answer is returned.
abbrev pub starter : Config → Option Call
starter c =
    if c.use_usb
    then (if c.use_video then some start_camera_microphone else some init_usb_microphone)
    else if c.use_headset
    then some init_headset
    else if c.use_input_file
    then some open_input_file
    else none

abbrev pub answer_of : (Call → ℤ) → Option Call → ℤ
answer_of answers none = pos 0
answer_of answers (some c) = answers c

-- Something is wrong with the source.
abbrev pub source_fails : Config → (Call → ℤ) → ℤ → Bool
source_fails c answers verdict =
    if c.use_usb
    then (if c.use_video
        then is_neg (answers setup_camera_microphone) || is_neg (answers start_camera_microphone)
        else is_neg (answers init_usb_microphone))
    else if c.use_headset
    then is_neg (answers init_headset)
    else if c.use_input_file
    then is_neg (answers open_input_file) || not (is_nat 0 verdict)
    else false

-- `ErrorMessage` is among the calls.
abbrev pub is_reported : List Call → Bool
is_reported [] = false
is_reported (error_message ∷ cs) = true
is_reported (_ ∷ cs) = is_reported cs

-- For every choice of the source and all answers: an error is reported exactly if a call that the
-- source needs has failed, or the file has a wrong format; what is returned is the answer of one of
-- the calls, so for a camera whose set-up fails and whose start does not it tells of no error, nor
-- for a file of a wrong format that can be opened. Without a source it is 0.
pub init_audio-source_fails :
    (c : Config) (answers : Call → ℤ) (verdict : ℤ)
    → (is_reported (init_audio c answers verdict).calls ≡ source_fails c answers verdict)
      × ((init_audio c answers verdict).code ≡ answer_of answers (starter c))
unfolding init_audio
init_audio-source_fails c answers verdict = ground arith
