-- ===== src/AddressBook/Line.antt =====
-- One line of the contacts file, for `parseAddressbook` of SIPEngine/addressbook.c.
use furikup.Prelude.{
  ℕ, ◌+◌, ◌<◌, false, List, [], ◌∷◌, ◌++◌, append_assoc, Option, none, some, ◌≡◌, ◌≢◌, refl, ap,
  ap₂, ◌∙◌, arith, Bytes, ◌==◌, length, get_elem?, set,
}
use furikup.CString.{cut, strtok, strcpy}
use furikup.CString.Laws.{Free, Free-append, cut-Free, cut-append, strtok-append, strtok-Free}
use furikup.CString.Arrays.{strcpy-fits}
use furikup.AddressBook.Defs.{
  Contact, Book, no_contact, strip, Field, nick, uri, first, last, put_field, store, copy_field,
  read_optional, drop_last, read_uri, read_contact,
}

-- The four fields with the commas between them, and what ends the line.
abbrev pub contact_text : Contact → Bytes → Bytes
contact_text c end =
    c.nickname ++ b',' ∷ (c.sip_uri ++ b',' ∷ (c.first_name ++ b',' ∷ (c.last_name ++ end)))

-- A line of the file, with a carriage return.
abbrev pub print_contact : Contact → Bytes
print_contact c = contact_text c (b'\r' ∷ [])

-- A text that a line can carry and that fits into a field.
abbrev pub IsField : Bytes → Type 0
IsField s = (s ≢ []) × Free 0 s × Free b',' s × Free b'\r' s × Free b'\n' s × (length s < 128)

abbrev pub IsContact : Contact → Type 0
IsContact c =
    IsField c.nickname
    × IsField c.sip_uri
    × IsField c.first_name
    × IsField c.last_name
    × (length (print_contact c) < 511)

pub contact_text-append :
    (c : Contact) (s t : Bytes) → contact_text c s ++ t ≡ contact_text c (s ++ t)
contact_text-append c s t =
    let comma : Bytes → Bytes → Bytes = λ x y. x ++ b',' ∷ y in
    let end = append_assoc c.last_name s t in
    let names =
      append_assoc c.first_name (b',' ∷ (c.last_name ++ s)) t ∙ ap (comma c.first_name) end in
    let behind =
      append_assoc c.sip_uri (b',' ∷ comma c.first_name (c.last_name ++ s)) t
      ∙ ap (comma c.sip_uri) names in
    append_assoc c.nickname (b',' ∷ comma c.sip_uri (comma c.first_name (c.last_name ++ s))) t
    ∙ ap (comma c.nickname) behind

-- A byte that no field has, no comma is and the end does not have.
pub contact_text-Free :
    (d : ℕ) (c : Contact) (s : Bytes)
    → (b',' == d) ≡ false
    → Free d c.nickname
    → Free d c.sip_uri
    → Free d c.first_name
    → Free d c.last_name
    → Free d s
    → Free d (contact_text c s)
contact_text-Free d c s m a b x y z = Free-append d c.nickname _ a (
  m,
  Free-append d c.sip_uri _ b
      (m, Free-append d c.first_name _ x (m, Free-append d c.last_name s y z)),
)

strip-Free : (v : Bytes) → Free b'\r' v → Free b'\n' v → strip v ≡ v
unfolding strip
strip-Free v r n = ap (cut b'\n') (cut-Free b'\r' v r) ∙ cut-Free b'\n' v n

strip-end : (v : Bytes) → Free b'\r' v → Free b'\n' v → strip (v ++ b'\r' ∷ b'\n' ∷ []) ≡ v
unfolding strip
strip-end v r n = ap (cut b'\n') (cut-append b'\r' v (b'\n' ∷ []) r) ∙ cut-Free b'\n' v n

get_elem?-at {ℓ} :
    {A : Type ℓ} (xs : List A) (a : A) (ys : List A) → get_elem? (xs ++ a ∷ ys) (length xs) ≡ some a
get_elem?-at [] a ys = refl
get_elem?-at (x ∷ xs) a ys = get_elem?-at xs a ys

set-at {ℓ} :
    {A : Type ℓ} (xs : List A) (a b : A) (ys : List A)
    → set (xs ++ a ∷ ys) (length xs) b ≡ xs ++ b ∷ ys
set-at [] a b ys = refl
set-at (x ∷ xs) a b ys = ap (◌∷◌ x) (set-at xs a b ys)

-- The book with the contacts `xs`, the one that is being read, and the places behind it.
abbrev pub book_at : ℕ → List Contact → Contact → List Contact → Book
book_at n xs c ys = record { contacts = xs ++ c ∷ ys; max_contact = n }

copy_field-at :
    (n : ℕ) (f : Field) (value v : Bytes) (xs : List Contact) (c : Contact) (ys : List Contact)
    → strip value ≡ v
    → length v < 128
    → copy_field (length xs) f value (book_at n xs c ys) ≡ some (book_at n xs (put_field f v c) ys)
unfolding copy_field
copy_field-at n f value v xs c ys e h =
    ap₂ (store (length xs) f (book_at n xs c ys)) (get_elem?-at xs c ys)
      (ap (strcpy 128) e ∙ strcpy-fits 128 v h)
    ∙ ap (λ l. some (record { contacts = l; max_contact = n })) (set-at xs c (put_field f v c) ys)

-- The next field of a line is there and is stored.
read_optional-cons :
    (i : ℕ) (f : Field) (fs : List Field) (line value rest : Bytes) (b b' : Book)
    → strtok b',' line ≡ some (value, rest)
    → copy_field i f value b ≡ some b'
    → read_optional i (f ∷ fs) line b ≡ read_optional i fs rest b'
unfolding read_optional
read_optional-cons i f fs line value rest b b' h k =
    ap
      (λ x. elim x [
        | none ↦ some b
        | some (v, r) ↦ elim (copy_field i f v b) [ none ↦ none | some d ↦ read_optional i fs r d ]
      ])
      h
    ∙ ap (λ x. elim x [ none ↦ none | some d ↦ read_optional i fs rest d ]) k

read_uri-lem :
    (i : ℕ) (line value rest : Bytes) (b b' : Book)
    → strtok b',' line ≡ some (value, rest)
    → copy_field i uri value b ≡ some b'
    → read_uri i line b ≡ read_optional i (first ∷ last ∷ []) rest b'
unfolding read_uri
read_uri-lem i line value rest b b' h k =
    ap
      (λ x. elim x [
        | none ↦ some (drop_last b)
        | some (v, r) ↦ elim (copy_field i uri v b) [
          | none ↦ none
          | some d ↦ read_optional i (first ∷ last ∷ []) r d
        ]
      ])
      h
    ∙ ap (λ x. elim x [ none ↦ none | some d ↦ read_optional i (first ∷ last ∷ []) rest d ]) k

read_contact-lem :
    (line value rest : Bytes) (b : Book) (r : Option Book)
    → strtok b',' line ≡ some (value, rest)
    → copy_field b.max_contact nick value (record b { max_contact = b.max_contact + 1 }) ≡ r
    → read_contact line b ≡ (elim r [ none ↦ none | some d ↦ read_uri b.max_contact rest d ])
unfolding read_contact
read_contact-lem line value rest b r h k =
    let taken = record b { max_contact = b.max_contact + 1 } in
    ap
      (λ x. elim x [
        | none ↦ some (drop_last taken)
        | some (v, s) ↦ elim (copy_field b.max_contact nick v taken) [
          | none ↦ none
          | some d ↦ read_uri b.max_contact s d
        ]
      ])
      h
    ∙ ap (λ x. elim x [ none ↦ none | some d ↦ read_uri b.max_contact rest d ]) k

abbrev pub line_end : Bytes
line_end = b'\r' ∷ b'\n' ∷ []

append-NotEmpty : (s t : Bytes) → s ≢ [] → s ++ t ≢ []
append-NotEmpty [] t h = absurd (h refl)
append-NotEmpty (c ∷ s) t h = λ e. grind arith

-- The line of a contact fills the next free place of the book.
pub read_contact-print_contact :
    (xs : List Contact) (c : Contact) (ys : List Contact)
    → IsContact c
    → read_contact (contact_text c line_end) (book_at (length xs) xs no_contact ys)
      ≡ some (book_at (length xs + 1) xs c ys)
read_contact-print_contact xs c ys (a, b, x, y, _) =
    let (an, a0, ac, ar, al, am) = a in
    let (bn, b0, bc, br, bl, bm) = b in
    let (xn, x0, xc, xr, xl, xm) = x in
    let (yn, y0, yc, yr, yl, ym) = y in
    let i = length xs in
    let c1 = record no_contact { nickname = c.nickname } in
    let c2 = record c1 { sip_uri = c.sip_uri } in
    let c3 = record c2 { first_name = c.first_name } in
    let r3 = c.last_name ++ line_end in
    let r2 = c.first_name ++ b',' ∷ r3 in
    let r1 = c.sip_uri ++ b',' ∷ r2 in
    read_contact-lem (c.nickname ++ b',' ∷ r1) c.nickname r1 (book_at i xs no_contact ys)
      (some (book_at (i + 1) xs c1 ys)) (strtok-append b',' c.nickname r1 an ac)
      (copy_field-at (i + 1) nick c.nickname c.nickname xs no_contact ys
        (strip-Free c.nickname ar al) am)
    ∙ read_uri-lem i r1 c.sip_uri r2 (book_at (i + 1) xs c1 ys) (book_at (i + 1) xs c2 ys)
        (strtok-append b',' c.sip_uri r2 bn bc)
        (copy_field-at (i + 1) uri c.sip_uri c.sip_uri xs c1 ys (strip-Free c.sip_uri br bl) bm)
    ∙ read_optional-cons i first (last ∷ []) r2 c.first_name r3 (book_at (i + 1) xs c2 ys)
        (book_at (i + 1) xs c3 ys) (strtok-append b',' c.first_name r3 xn xc)
        (copy_field-at (i + 1) first c.first_name c.first_name xs c2 ys
          (strip-Free c.first_name xr xl) xm)
    ∙ read_optional-cons i last [] r3 r3 [] (book_at (i + 1) xs c3 ys) (book_at (i + 1) xs c ys)
        (strtok-Free b',' r3 (append-NotEmpty c.last_name line_end yn)
          (Free-append b',' c.last_name line_end yc (refl, (refl, tt))))
        (copy_field-at (i + 1) last r3 c.last_name xs c3 ys (strip-end c.last_name yr yl) ym)
    ∙ unfold read_optional in refl

-- Without a free place the nickname is written behind the array.
get_elem?-end {ℓ} : {A : Type ℓ} (xs : List A) → get_elem? xs (length xs) ≡ none
get_elem?-end [] = refl
get_elem?-end (x ∷ xs) = get_elem?-end xs

copy_field-full :
    (n : ℕ) (f : Field) (value : Bytes) (xs : List Contact)
    → copy_field (length xs) f value (record { contacts = xs; max_contact = n }) ≡ none
unfolding copy_field
copy_field-full n f value xs =
    ap
      (λ x.
        store (length xs) f (record { contacts = xs; max_contact = n }) x
          (strcpy 128 (strip value)))
      (get_elem?-end xs)

pub read_contact-full :
    (xs : List Contact) (c : Contact)
    → IsContact c
    → read_contact (contact_text c line_end) (record { contacts = xs; max_contact = length xs })
      ≡ none
read_contact-full xs c ((an, _, ac, _, _, _), _, _, _, _) =
    let r1 = c.sip_uri ++ b',' ∷ (c.first_name ++ b',' ∷ (c.last_name ++ line_end)) in
    read_contact-lem (c.nickname ++ b',' ∷ r1) c.nickname r1
      (record { contacts = xs; max_contact = length xs }) none
      (strtok-append b',' c.nickname r1 an ac) (copy_field-full (length xs + 1) nick c.nickname xs)
