-- ===== src/Media.antt =====
-- SIPEngine/audio.c and SIPEngine/video.c driven by SIPEngine/call_api.c: the calls of the engine that
-- set the media up and stop them, in the order of its trace.
mod Peers
pub mod Voice
pub mod Picture
pub use Peers.*
