-- ===== src/AddressBook/Defs.antt =====
-- SIPEngine/addressbook.c. `contacts` is the array of 20, `max_contact` the count of those in use.
use furikup.Prelude.{
  ℕ, ◌+◌, ◌-◌, List, [], ◌∷◌, Option, none, some, Bytes, get_elem?, set, replicate,
}
use furikup.CString.{cut, strtok, strcpy, file_lines}

pub record Contact : Type 0 where
  pub nickname : Bytes
  pub first_name : Bytes
  pub last_name : Bytes
  pub sip_uri : Bytes

pub record Book : Type 0 where
  pub contacts : List Contact
  pub max_contact : ℕ

abbrev pub no_contact : Contact
no_contact = record { nickname = []; first_name = []; last_name = []; sip_uri = [] }

-- After the `memset`.
abbrev pub empty_book : Book
empty_book = record { contacts = replicate 20 no_contact; max_contact = 0 }

-- Up to the first carriage return, and then up to the first newline.
unfoldable pub strip : Bytes → Bytes
unfolding cut
strip buf = cut b'\n' (cut b'\r' buf)

-- The four members of a contact, in the order in which a line gives them.
pub data Field : Type 0 where
  nick uri first last : Field

abbrev pub put_field : Field → Bytes → Contact → Contact
put_field nick v c = record c { nickname = v }
put_field uri v c = record c { sip_uri = v }
put_field first v c = record c { first_name = v }
put_field last v c = record c { last_name = v }

abbrev pub store : ℕ → Field → Book → Option Contact → Option Bytes → Option Book
store i f b (some c) (some v) = some (record b { contacts = set b.contacts i (put_field f v c) })
store i f b _ _ = none

-- `strcpy(con->field, value)` after `strip(value)`: `none` if `con` is not one of the 20 contacts or
-- the text does not fit into the 128 bytes of the field.
unfoldable pub copy_field : ℕ → Field → Bytes → Book → Option Book
unfolding strip
copy_field i f value b = store i f b (get_elem? b.contacts i) (strcpy 128 (strip value))

-- The fields that a line need not have: the first one missing ends the line.
unfoldable pub read_optional : ℕ → List Field → Bytes → Book → Option Book
unfolding copy_field strtok
read_optional i [] line b = some b
read_optional i (f ∷ fs) line b = elim (strtok b',' line) [
  | none ↦ some b
  | some (value, rest) ↦ elim (copy_field i f value b) [
    | none ↦ none
    | some b' ↦ read_optional i fs rest b'
  ]
]

abbrev pub drop_last : Book → Book
drop_last b = record b { max_contact = b.max_contact - 1 }

-- The SIP address: without it the contact is given up, its nickname left in the array.
unfoldable pub read_uri : ℕ → Bytes → Book → Option Book
unfolding copy_field strtok read_optional
read_uri i line b = elim (strtok b',' line) [
  | none ↦ some (drop_last b)
  | some (value, rest) ↦ elim (copy_field i uri value b) [
    | none ↦ none
    | some b' ↦ read_optional i (first ∷ last ∷ []) rest b'
  ]
]

unfoldable pub read_contact : Bytes → Book → Option Book
unfolding copy_field strtok read_uri
read_contact line b =
    let i = b.max_contact in
    let taken = record b { max_contact = i + 1 } in
    elim (strtok b',' line) [
      | none ↦ some (drop_last taken)
      | some (value, rest) ↦ elim (copy_field i nick value taken) [
        | none ↦ none
        | some b' ↦ read_uri i rest b'
      ]
    ]

-- The loop over the lines, each of which the string functions see up to its first NUL.
unfoldable pub read_contacts : List Bytes → Book → Option Book
unfolding cut read_contact
read_contacts [] b = some b
read_contacts (l ∷ ls) b = elim (read_contact (cut 0 l) b) [
  | none ↦ none
  | some b' ↦ read_contacts ls b'
]

-- `none` for the file: it could not be opened, -1 is returned and no event is raised. Otherwise the
-- event SUI_IN_ADDRESS_BOOK carries the book, and its return code is the result.
pub data Parsed : Type 0 where
  not_found : Book → Parsed
  announced : Book → Parsed
  overflow : Parsed

abbrev pub announce : Option Book → Parsed
announce none = overflow
announce (some b) = announced b

unfoldable pub parse_addressbook : Option Bytes → Book → Parsed
unfolding read_contacts
parse_addressbook none b = not_found (record b { contacts = replicate 20 no_contact })
parse_addressbook (some text) b =
    announce (read_contacts (file_lines 511 text) (record b { contacts = replicate 20 no_contact }))
