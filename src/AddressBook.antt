-- ===== src/AddressBook.antt =====
-- SIPEngine/addressbook.c: the contacts and `parseAddressbook`.
mod Defs
pub mod Line
pub mod Roundtrip
unfoldable pub use Defs.*
