-- ===== src/Media/Peers.antt =====
-- The other sides of the calls, for what SIPEngine/call_api.c makes audio.c and video.c do.
use furikup.Prelude.{ℕ, ℤ, some, ◌≡◌, Bytes}
use furikup.Codec.{Media}
use furikup.Engine.{Engine, Outcome, running, returned, fault}
use furikup.Engine.Trace.{Always}
use furikup.Audio.Session.{Remote, first_payload}

-- What a transaction's description is, and the ports that the getters answer for its set-up.
pub record Peer : Type 0 where
  pub audio : ℤ → Remote
  pub video : ℤ → Remote
  pub audio_port : ℤ → ℕ
  pub video_port : ℤ → ℕ

-- The media are there with an address and a payload.
pub record IsComplete (r : Remote) : Type 0 where
  pub media : Media
  pub address : Bytes
  pub payload : Bytes
  pub has_media : r.media ≡ some media
  pub has_address : r.address ≡ some address
  pub has_payload : first_payload (some media) ≡ some payload

pub weaken-Always :
    (P Q : Engine → Type 0) (o : Outcome) → ((s : Engine) → P s → Q s) → Always P o → Always Q o
weaken-Always P Q (running s) f h = f s h
weaken-Always P Q (returned rc s) f h = f s h
weaken-Always P Q fault f h = tt
