-- ===== src/Gui.antt =====
-- SIPTextGUI/text_gui.c: the text interface.
mod Types
mod Status
mod Handler
mod Buttons
mod Screen
mod Requests
pub mod Network
pub mod Lines
pub mod Menu
pub mod Well
pub mod Pressing
pub mod Drawn
pub mod Unbroken
pub mod Same
pub mod Mirror
pub mod Kept
pub mod Keys
pub mod Cells
pub mod Loop
pub mod Presses
pub mod Boot
mod Percent
pub mod Raised
pub mod Launch
unfoldable pub use Types.*
unfoldable pub use Status.*
unfoldable pub use Handler.*
unfoldable pub use Buttons.*
unfoldable pub use Screen.*
unfoldable pub use Requests.*
