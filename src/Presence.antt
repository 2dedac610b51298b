-- ===== src/Presence.antt =====
-- SIPEngine/presence.c: publishing the user's presence and reading that of a contact.
mod Defs
pub mod Documents
unfoldable pub use Defs.*
