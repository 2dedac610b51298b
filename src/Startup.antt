-- ===== src/Startup.antt =====
-- SIPEngine/sipengine.c: the start of the engine.
mod Defs
mod Trace
pub mod Order
pub mod Success
pub mod Tracing
unfoldable pub use Defs.*
unfoldable pub use Trace.*
