-- ===== src/Audio/Init.antt =====
-- SIPEngine/audio.c: `initAudio`, as the calls it makes, in order. What they answer is a parameter, as
-- is the verdict of `checkWavFormat` on the input file.
use furikup.Prelude.{ℤ, pos, negsuc, is_neg, is_nat, List, [], ◌∷◌, ◌++◌, if◌then◌else◌}
use furikup.Config.{Config}

pub data Call : Type 0 where
  setup_camera_microphone start_camera_microphone : Call
  init_usb_microphone init_headset : Call
  open_input_file seek_input_file : Call
  error_message info_message delay : Call
  init_resampler reserve_channel reserve_ringback_channel open_ringback_file : Call

-- `inputFile`, the value returned, and the calls.
pub record Start : Type 0 where
  pub input_file : ℤ
  pub code : ℤ
  pub calls : List Call

-- A call, and a message if it answers a negative number.
abbrev pub reported : (Call → ℤ) → Call → List Call
reported answers c = if is_neg (answers c) then c ∷ error_message ∷ [] else c ∷ []

abbrev pub one_call : (Call → ℤ) → Call → Start
one_call answers c = record { input_file = negsuc 0; code = answers c; calls = reported answers c }

-- The camera: what the set-up answers is reported, and then forgotten.
unfoldable pub start_camera_audio : (Call → ℤ) → Start
start_camera_audio answers = record {
  input_file = negsuc 0;
  code = answers start_camera_microphone;
  calls = reported answers setup_camera_microphone ++ reported answers start_camera_microphone;
}

abbrev pub complain : ℤ → List Call
complain verdict = if is_nat 0 verdict then [] else error_message ∷ delay ∷ []

-- The file is used whatever the verdict on its format is.
unfoldable pub open_wav : (Call → ℤ) → ℤ → Start
open_wav answers verdict =
    if is_neg (answers open_input_file) then one_call answers open_input_file else record {
      input_file = answers open_input_file;
      code = answers open_input_file;
      calls = open_input_file ∷ (complain verdict ++ seek_input_file ∷ []);
    }

unfoldable pub start_source : Config → (Call → ℤ) → ℤ → Start
unfolding start_camera_audio open_wav
start_source c answers verdict =
    if c.use_usb
    then (if c.use_video then start_camera_audio answers else one_call answers init_usb_microphone)
    else if c.use_headset
    then one_call answers init_headset
    else if c.use_input_file
    then open_wav answers verdict
    else record { input_file = negsuc 0; code = pos 0; calls = [] }

abbrev pub ringback_calls : (Call → ℤ) → List Call
ringback_calls answers =
    if is_neg (answers open_ringback_file)
    then open_ringback_file ∷ info_message ∷ []
    else open_ringback_file ∷ []

unfoldable pub init_audio : Config → (Call → ℤ) → ℤ → Start
unfolding start_source
init_audio c answers verdict =
    let s = start_source c answers verdict in
    record s {
      calls =
          s.calls
          ++ (init_resampler ∷ reserve_channel ∷ reserve_ringback_channel ∷ ringback_calls answers);
    }
