-- ===== src/Audio.antt =====
-- SIPEngine/audio.c: the WAV file that stands in for a microphone, the microphones, the packets that
-- are sent and received, and the RTP session of a call. `Player` models the ring-back tone.
pub mod Wav
pub mod Send
pub mod Packets
pub mod Stream
pub mod Receive
pub mod Upsample
pub mod Session
pub mod Init
pub mod Heard
pub mod Source
