-- ===== src/Video.antt =====
-- SIPEngine/video.c: the camera, the RTP session of a call, and the loops of its threads.
use furikup.Prelude.{
  ℕ, ◌+◌, ℤ, is_neg, is_nat, is_pos, Bool, true, false, ◌&&◌, not, List, [], ◌∷◌, Option, none,
  some, Bytes, if◌then◌else◌,
}
use furikup.CString.{atoi}
use furikup.Codec.{Media}
use furikup.Audio.Session.{
  Remote, Call, first_payload, open_calls, terminate_sender, terminate_receiver, destroy_session,
}

-- The globals, with `live` and `lost` as in `Audio.Session`.
pub record Video : Type 0 where
  pub available : Bool
  pub stop_video : Bool
  pub live : Bool
  pub lost : ℕ
  pub calls : List Call

abbrev pub initial_video : Video
initial_video = record { available = false; stop_video = true; live = false; lost = 0; calls = [] }

-- What `sceUsbCamSetupVideo` and `sceUsbCamStartVideo` answer.
pub record Camera : Type 0 where
  pub setup_answer : ℤ
  pub start_answer : ℤ

unfoldable pub init_video : Camera → Video → Video
init_video c v =
    if is_neg c.setup_answer
    then v
    else if is_neg c.start_answer
    then v
    else record v { available = true }

abbrev pub connect : ℕ → Media → Option Bytes → Bytes → Video → Option Video
connect port m none payload v = none
connect port m (some address) payload v = some (record v {
  stop_video = false;
  live = true;
  lost = if v.live then v.lost + 1 else v.lost;
  calls = open_calls port (atoi payload) address m.port v.calls;
})

-- Only profile 26 is supported, and port 0 refuses the stream.
abbrev pub supported : Media → Bytes → Bool
supported m payload = is_nat 26 (atoi payload) && not (is_nat 0 (atoi m.port))

abbrev pub connect_if : ℕ → Media → Option Bytes → Option Bytes → Video → Option Video
connect_if port m address none v = none
connect_if port m address (some payload) v =
    if supported m payload then connect port m address payload v else some v

abbrev pub setup_media : ℕ → Option Media → Option Bytes → Bool → Video → Option Video
setup_media port none address incoming v = some v
setup_media port (some m) address incoming v =
    let payload = if incoming then first_payload (some m) else first_payload (some m) in
    connect_if port m address payload v

-- `port` is what `getVideoPort` answers. The order of the two last steps, the threads started and
-- `stopVideo` reset, is not seen here.
unfoldable pub rtp_video_setup : ℕ → Remote → Bool → Video → Option Video
rtp_video_setup port remote incoming v =
    if v.available then setup_media port remote.media remote.address incoming v else some v

abbrev pub close : Video → Option Video
close v =
    if v.live
    then some (record v {
      live = false;
      stop_video = true;
      calls = destroy_session ∷ terminate_receiver ∷ terminate_sender ∷ v.calls;
    })
    else none

unfoldable pub rtp_video_stop : Video → Option Video
rtp_video_stop v = if v.stop_video then some v else close v

-- `rtpVideoSend`, on what the camera answers round by round: the frames sent, each with its
-- timestamp and its size.
unfoldable pub send_frames : ℕ → List ℤ → List (ℕ × ℤ)
send_frames user_ts [] = []
send_frames user_ts (size ∷ sizes) = elim (is_pos size) [
  | true ↦ (user_ts, size) ∷ send_frames (user_ts + 6000) sizes
  | false ↦ send_frames user_ts sizes
]

-- `rtpVideoRecv`, on what the session answers round by round: what is received is dropped. The
-- timestamps asked for, and the last answer, which is returned.
unfoldable pub receive_frames : ℕ → ℤ → List ℤ → List ℕ × ℤ
receive_frames ts err [] = ([], err)
receive_frames ts err (answer ∷ answers) =
    let (asked, last) = receive_frames (ts + 6000) answer answers in (ts ∷ asked, last)
