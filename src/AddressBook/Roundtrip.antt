-- ===== src/AddressBook/Roundtrip.antt =====
-- A file of contacts read by `parseAddressbook` of SIPEngine/addressbook.c.
use furikup.Prelude.{
  ℕ, zero, suc, ◌+◌, ◌-◌, ◌≤◌, ◌<◌, List, [], ◌∷◌, ◌++◌, map, append_assoc, append-nil, Option,
  none, some, ◌≡◌, refl, sym, ap, ap₂, ◌∙◌, arith, Bytes, length, length-append, replicate,
}
use furikup.CString.{cut}
use furikup.CString.Laws.{cut-Free, AreLines, print_lines, end_lines, file_lines-print_lines}
use furikup.AddressBook.Defs.{
  Contact, Book, no_contact, empty_book, read_contact, read_contacts, announced, overflow, announce,
  parse_addressbook,
}
use furikup.AddressBook.Line.{
  contact_text, print_contact, IsContact, contact_text-append, contact_text-Free, line_end, book_at,
  read_contact-print_contact, read_contact-full,
}

abbrev pub print_contacts : List Contact → List Bytes
print_contacts cs = map print_contact cs

abbrev pub AreContacts : List Contact → Type 0
AreContacts [] = Unit {0}
AreContacts (c ∷ cs) = IsContact c × AreContacts cs

contacts-AreLines : (cs : List Contact) → AreContacts cs → AreLines 511 (print_contacts cs)
contacts-AreLines [] h = tt
contacts-AreLines (c ∷ cs)
      (((_, _, _, _, a, _), (_, _, _, _, b, _), (_, _, _, _, x, _), (_, _, _, _, y, _), m), hs) =
    (contact_text-Free b'\n' c (b'\r' ∷ []) refl a b x y (refl, tt), m, contacts-AreLines cs hs)

-- What `fgets` and the string functions see of the line of a contact.
seen : (c : Contact) → IsContact c → cut 0 (print_contact c ++ b'\n' ∷ []) ≡ contact_text c line_end
seen c ((_, a, _, _, _, _), (_, b, _, _, _, _), (_, x, _, _, _, _), (_, y, _, _, _, _), _) =
    ap (cut 0) (contact_text-append c (b'\r' ∷ []) (b'\n' ∷ []))
    ∙ cut-Free 0 (contact_text c line_end)
        (contact_text-Free 0 c line_end refl a b x y (refl, (refl, tt)))

read_contacts-cons :
    (l t : Bytes) (ls : List Bytes) (b : Book) (r : Option Book)
    → cut 0 l ≡ t
    → read_contact t b ≡ r
    → read_contacts (l ∷ ls) b ≡ (elim r [ none ↦ none | some d ↦ read_contacts ls d ])
unfolding read_contacts
read_contacts-cons l t ls b r h k =
    ap (λ x. elim (read_contact x b) [ none ↦ none | some d ↦ read_contacts ls d ]) h
    ∙ ap (λ x. elim x [ none ↦ none | some d ↦ read_contacts ls d ]) k

-- The book behind the contacts `xs`, with n free places.
abbrev pub filled : List Contact → ℕ → Book
filled xs n = record { contacts = xs ++ replicate n no_contact; max_contact = length xs }

step-filled :
    (xs : List Contact) (n : ℕ) (c : Contact)
    → book_at (length xs + 1) xs c (replicate n no_contact) ≡ filled (xs ++ c ∷ []) n
step-filled xs n c =
    ap₂ (λ x y. record { contacts = x; max_contact = y })
      (sym (append_assoc xs (c ∷ []) (replicate n no_contact)))
      (omega (arith, length-append xs (c ∷ [])))

fills :
    (xs cs : List Contact) (n : ℕ)
    → AreContacts cs
    → length cs ≤ n
    → read_contacts (end_lines (print_contacts cs)) (filled xs n)
      ≡ some (filled (xs ++ cs) (n - length cs))
fills xs [] n hs m =
    unfold read_contacts in ap₂ (λ l k. some (filled l k)) (sym (append-nil xs)) (omega arith)
fills xs (c ∷ cs) zero hs m = absurd (omega arith)
fills xs (c ∷ cs) (suc n) (h, hs) m =
    read_contacts-cons (print_contact c ++ b'\n' ∷ []) (contact_text c line_end)
      (end_lines (print_contacts cs)) (filled xs (suc n))
      (some (book_at (length xs + 1) xs c (replicate n no_contact))) (seen c h)
      (read_contact-print_contact xs c (replicate n no_contact) h)
    ∙ ap (read_contacts (end_lines (print_contacts cs))) (step-filled xs n c)
    ∙ fills (xs ++ c ∷ []) cs n hs (omega arith)
    ∙ ap₂ (λ l k. some (filled l k)) (append_assoc xs (c ∷ []) cs) (omega arith)

overfills :
    (xs cs : List Contact) (n : ℕ)
    → AreContacts cs
    → n < length cs
    → read_contacts (end_lines (print_contacts cs)) (filled xs n) ≡ none
overfills xs [] n hs m = absurd (omega arith)
overfills xs (c ∷ cs) zero (h, hs) m =
    read_contacts-cons (print_contact c ++ b'\n' ∷ []) (contact_text c line_end)
      (end_lines (print_contacts cs)) (filled xs zero) none (seen c h)
      (ap
          (λ l.
            read_contact (contact_text c line_end)
              (record { contacts = l; max_contact = length xs }))
          (append-nil xs)
        ∙ read_contact-full xs c h)
overfills xs (c ∷ cs) (suc n) (h, hs) m =
    read_contacts-cons (print_contact c ++ b'\n' ∷ []) (contact_text c line_end)
      (end_lines (print_contacts cs)) (filled xs (suc n))
      (some (book_at (length xs + 1) xs c (replicate n no_contact))) (seen c h)
      (read_contact-print_contact xs c (replicate n no_contact) h)
    ∙ ap (read_contacts (end_lines (print_contacts cs))) (step-filled xs n c)
    ∙ overfills (xs ++ c ∷ []) cs n hs (omega arith)

abbrev pub file_of : List Contact → Bytes
file_of cs = print_lines (print_contacts cs)

-- A file of at most 20 contacts, each on a line "nickname,uri,first,last" with carriage return and
-- newline, of less than 511 bytes, its four fields not empty, shorter than 128 bytes and without
-- NUL, comma, carriage return and newline, read into an empty book: the event is raised for the book
-- that has these contacts in the order of the file, their number, and zeros behind them.
pub parse_addressbook-file_of :
    (cs : List Contact)
    → AreContacts cs
    → length cs ≤ 20
    → parse_addressbook (some (file_of cs)) empty_book
      ≡ announced (record {
        contacts = cs ++ replicate (20 - length cs) no_contact;
        max_contact = length cs;
      })
unfolding parse_addressbook
parse_addressbook-file_of cs hs m =
    ap (λ ls. announce (read_contacts ls empty_book))
      (file_lines-print_lines 511 (print_contacts cs) (contacts-AreLines cs hs))
    ∙ ap announce (fills [] cs 20 hs m)

-- With more than 20 such contacts the parser writes behind the array.
pub contacts_overflow :
    (cs : List Contact)
    → AreContacts cs
    → 20 < length cs
    → parse_addressbook (some (file_of cs)) empty_book ≡ overflow
unfolding parse_addressbook
contacts_overflow cs hs m =
    ap (λ ls. announce (read_contacts ls empty_book))
      (file_lines-print_lines 511 (print_contacts cs) (contacts-AreLines cs hs))
    ∙ ap announce (overfills [] cs 20 hs m)
