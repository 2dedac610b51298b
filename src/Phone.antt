-- ===== src/Phone.antt =====
-- The whole telephone: SIPTextGUI/text_gui.c and SIPEngine/call_api.c, each with its thread.
mod System
pub mod Consistent
pub mod Reached
pub mod Served
pub mod Stuck
pub mod Alive
unfoldable pub use System.*
