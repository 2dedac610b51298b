-- ===== src/Audio/Heard.antt =====
-- SIPEngine/audio.c: what `rtpAudioRecv` makes of a sample that `rtpAudioSend` has encoded.
use furikup.Prelude.{ℤ, is_nat, Bool, true, false, Bool-cases, inl, inr}
use furikup.SoundConv.Ulaw
use furikup.SoundConv.Alaw
use furikup.Audio.Send.{encode}
use furikup.Audio.Receive.{Floats, scale_for}

-- How near a sample is heard by mu-law, and by A-law.
abbrev pub IsHeard : Bool → ℤ → ℤ → Type 0
IsHeard true x y = Ulaw.Near x y
IsHeard false x y = Alaw.Near x y

-- The code of a 16-bit sample, for the payload that the two threads of a call share, is expanded to a
-- sample that has its sign or is 0, and that is off by at most 1/32 of its magnitude plus 132/32 for
-- payload 0, which is mu-law, and plus 256/32 for every other, which is taken for A-law.
pub encode-IsHeard :
    (floats : Floats) (payload x : ℤ)
    → Ulaw.IsSample x
    → IsHeard (is_nat 0 payload) x (scale_for floats payload (encode payload x))
unfolding encode
encode-IsHeard floats payload x h = elim (Bool-cases (is_nat 0 payload)) [
  | inl p ↦ rw p (Ulaw.s16_to_ulaw-Near x h)
  | inr n ↦ rw n (Alaw.s16_to_alaw-Near x h)
]
