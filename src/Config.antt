-- ===== src/Config.antt =====
-- SIPEngine/config.c: the settings, their setters and getters, and SIPEngine/config_file.c in `File`.
mod Defs
pub mod File
pub mod Line
pub mod Roundtrip
pub mod Uris
unfoldable pub use Defs.*
