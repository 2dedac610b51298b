-- ===== src/CString.antt =====
-- The functions of <string.h>, <strings.h>, <stdlib.h> and <stdio.h> that the phone calls, on byte
-- strings. A string is the list of its bytes before the NUL; a `char[n]` array that the code fills
-- with `strncpy` is the list of its n bytes.
mod Copy
mod Tokens
mod Numbers
pub mod Laws
pub mod Arrays
unfoldable pub use Copy.*
unfoldable pub use Tokens.*
unfoldable pub use Numbers.*
