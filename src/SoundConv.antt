-- ===== src/SoundConv.antt =====
-- SIPEngine/sound_conv.c: A-law and mu-law.
mod Defs
mod Table
pub mod Ulaw
pub mod Alaw
pub mod Codes
pub mod Buffers
unfoldable pub use Defs.*
