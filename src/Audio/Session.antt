-- ===== src/Audio/Session.antt =====
-- SIPEngine/audio.c: `rtpAudioSetup` and `rtpAudioStop`. What eXosip2 finds in the description of the
-- other side is a parameter. `none` is a null pointer followed, or a session destroyed that is none.
use furikup.Prelude.{
  ℕ, ◌+◌, ℤ, pos, Bool, true, false, List, [], ◌∷◌, Option, none, some, Bytes, if◌then◌else◌,
}
use furikup.CString.{atoi}
use furikup.Codec.{Media}

-- The media of one kind in the description that belongs to a transaction, and its address.
pub record Remote : Type 0 where
  pub media : Option Media
  pub address : Option Bytes

-- The calls of oRTP and of the kernel. `configure` stands for the settings that are always the same:
-- the modes, the jitter compensation, and the reset on a new source.
pub data Call : Type 0 where
  new_session configure : Call
  set_local_addr : ℕ → Call
  set_remote_addr : Bytes → ℤ → Call
  set_payload_type : ℤ → Call
  start_receiver start_sender : Call
  terminate_sender terminate_receiver destroy_session : Call

-- `live`: the pointer leads to a session that is not destroyed, with its two threads; `lost` counts
-- those whose pointer was overwritten. The latest call stands first.
pub record Audio : Type 0 where
  pub payload : ℤ
  pub live : Bool
  pub lost : ℕ
  pub calls : List Call

abbrev pub initial_audio : Audio
initial_audio = record { payload = pos 0; live = false; lost = 0; calls = [] }

abbrev pub first_of : List Bytes → Option Bytes
first_of [] = none
first_of (p ∷ _) = some p

abbrev pub first_payload : Option Media → Option Bytes
first_payload none = none
first_payload (some m) = first_of m.payloads

-- The calls from the new session to the threads, on top of those before.
abbrev pub open_calls : ℕ → ℤ → Bytes → Bytes → List Call → List Call
open_calls port payload address remote_port calls =
    start_sender
    ∷ start_receiver
    ∷ set_payload_type payload
    ∷ set_remote_addr address (atoi remote_port)
    ∷ set_local_addr port
    ∷ configure
    ∷ new_session
    ∷ calls

-- The media and the address are there, and a first payload.
abbrev pub connect : ℕ → Option Media → Option Bytes → Option Bytes → Audio → Option Audio
connect port (some m) (some address) (some payload) a = some (record {
  payload = atoi payload;
  live = true;
  lost = if a.live then a.lost + 1 else a.lost;
  calls = open_calls port (atoi payload) address m.port a.calls;
})
connect port _ _ _ a = none

-- The description taken for the local one is that of the other side too, so the flag makes no
-- difference. `port` is what `getAudioPort` answers.
unfoldable pub rtp_audio_setup : ℕ → Remote → Bool → Audio → Option Audio
rtp_audio_setup port remote incoming a =
    let payload = if incoming then first_payload remote.media else first_payload remote.media in
    connect port remote.media remote.address payload a

unfoldable pub rtp_audio_stop : Audio → Option Audio
rtp_audio_stop a =
    if a.live
    then some (record a {
      live = false;
      calls = destroy_session ∷ terminate_receiver ∷ terminate_sender ∷ a.calls;
    })
    else none
