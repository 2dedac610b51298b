-- ===== src/Filter.antt =====
-- SIPEngine/FirAlgs.c, which SIPEngine/sound_resample.c includes, and the resampling of the latter.
mod Defs
mod Lists
pub mod Window
mod Sums
pub mod Shift
pub mod Circle
pub mod Exact
pub mod Twice
pub mod Turned
mod Back
mod Round
pub mod Circular
pub mod Shuffle
pub mod Orders
unfoldable pub use Defs.*
