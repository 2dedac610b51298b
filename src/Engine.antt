-- ===== src/Engine.antt =====
-- SIPEngine/call_api.c: the call engine.
mod Types
mod Control
mod Events
mod Thread
pub mod Trace
pub mod Invariant
pub mod Locks
pub mod Calls
pub mod Shutdown
pub mod Semaphore
pub mod Blocked
pub mod Registration
mod Request
pub mod Firewall
pub mod Handshake
pub mod Order
pub mod Readable
pub mod Requests
pub mod Safe
pub mod Frame
unfoldable pub use Types.*
unfoldable pub use Control.*
unfoldable pub use Events.*
unfoldable pub use Thread.*
unfoldable pub use Request.*
