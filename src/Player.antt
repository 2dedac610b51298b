-- ===== src/Player.antt =====
-- The threads that play a file over and over: `playRingbackThread`, `playRingback` and `stopRingback`
-- of SIPEngine/audio.c, and the ringer of SIPTextGUI/text_gui.c, which is the same code.
mod Defs
pub mod Threads
unfoldable pub use Defs.*
