-- ===== src/Codec.antt =====
-- SIPEngine/codec.c: the ports of a call and the session description that is offered or answered.
mod Defs
pub mod Append
pub mod Answer
unfoldable pub use Defs.*
