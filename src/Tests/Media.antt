-- ===== src/Tests/Media.antt =====
-- SIPEngine/call_api.c with audio.c and video.c: a call from someone whose description is complete.
use furikup.Prelude.{pos, List, [], ◌∷◌, some, refl, inr, codes}
use furikup.Codec.{Media}
use furikup.Engine.{
  registration_success, call_invite, call_ack, answer, Turn, initial_engine, call_thread,
}
use furikup.Engine.Trace.{Always}
use furikup.Engine.Invariant.{is_answered}
use furikup.Video.{Camera}
use furikup.Media.{Peer}
use furikup.Media.Voice.{IsOpen, replay_audio, call_thread-IsOpen}
use furikup.Media.Picture.{IsShown, replay_video, call_thread-IsShown}
use furikup.Tests.Engine.{phone, on, ask}

abbrev voice : Media
voice = record { payloads = codes "0" ∷ codes "8" ∷ []; port = codes "40000" }

abbrev picture : Media
picture = record { payloads = codes "26" ∷ []; port = codes "40002" }

abbrev ann : Peer
ann = record {
  audio = λ tid. record { media = some voice; address = some (codes "10.0.0.9") };
  video = λ tid. record { media = some picture; address = some (codes "10.0.0.9") };
  audio_port = λ tid. 7078;
  video_port = λ tid. 7080;
}

abbrev working : Camera
working = record { setup_answer = pos 0; start_answer = pos 0 }

-- Registered, called, answered, and acknowledged.
abbrev answered_turns : List Turn
answered_turns = on registration_success 4 ∷ on call_invite 5 ∷ ask answer ∷ on call_ack 5 ∷ []

call_thread-IsOpen_example :
    Always
      (λ s. IsOpen (some (is_answered s.current_state)) (replay_audio ann s.trace))
      (call_thread (pos 7) answered_turns (initial_engine phone))
call_thread-IsOpen_example = call_thread-IsOpen ann phone (pos 7) answered_turns (λ tid. record {
  media = voice;
  address = codes "10.0.0.9";
  payload = codes "0";
  has_media = refl;
  has_address = refl;
  has_payload = refl;
})

call_thread-IsShown_example :
    Always
      (λ s. IsShown (some (is_answered s.current_state)) (replay_video ann working s.trace))
      (call_thread (pos 7) answered_turns (initial_engine phone))
call_thread-IsShown_example =
    call_thread-IsShown ann working
      (λ tid. inr (record {
        media = picture;
        address = codes "10.0.0.9";
        payload = codes "26";
        has_media = refl;
        has_address = refl;
        has_payload = refl;
      }))
      phone (pos 7) answered_turns
