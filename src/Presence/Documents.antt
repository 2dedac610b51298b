-- ===== src/Presence/Documents.antt =====
-- What SIPEngine/presence.c publishes, and what it reads of such a document.
use furikup.Prelude.{
  ℕ, pos, false, ◌&&◌, [], ◌∷◌, ◌++◌, map, Option, none, some, Option-cases, inl, inr, ◌≡◌, ◌≢◌,
  refl, ap, ◌∙◌, arith, Bytes, codes, ◌==◌, if◌then◌else◌,
}
use furikup.CString.{strcpy, has_prefix, has_prefix_ignore_case, to_lower}
use furikup.CString.Laws.{Free}
use furikup.Presence.Defs.{
  Presence, offline, online, busy, away, on_phone, presence_code, presence_of, activity_for,
  note_for, state_for, document, Junk, publish_status, update_presence, at_word, find_activity,
  find_status, parse_presence,
}

publish_status-overflows :
    (junk : Junk) (from : Bytes) (p : Presence)
    → p ≢ online
    → publish_status junk from (some p) ≡ none
unfolding publish_status
publish_status-overflows junk from offline h = refl
publish_status-overflows junk from online h = absurd (h refl)
publish_status-overflows junk from busy h = refl
publish_status-overflows junk from away h = refl
publish_status-overflows junk from on_phone h = refl

presence_of-presence_code : (p : Presence) → presence_of (pos (presence_code p)) ≡ some p
presence_of-presence_code offline = refl
presence_of-presence_code online = refl
presence_of-presence_code busy = refl
presence_of-presence_code away = refl
presence_of-presence_code on_phone = refl

-- For every status but "online" the text of the activity does not fit into its array of 25 bytes:
-- whatever the URI of the user is and the arrays held, publishing that status writes past the end of
-- an array.
pub update_presence_overflows :
    (junk : Junk) (uri : Option Bytes) (p : Presence)
    → p ≢ online
    → update_presence junk uri (pos (presence_code p)) ≡ none
unfolding update_presence
update_presence_overflows junk none p h = refl
update_presence_overflows junk (some uri) p h = elim (Option-cases (strcpy 255 uri)) [
  | inl e ↦
      ap
        (λ x. elim x [
          | none ↦ none
          | some u ↦ publish_status junk u (presence_of (pos (presence_code p)))
        ])
        e
  | inr (from, e) ↦
      ap
        (λ x. elim x [
          | none ↦ none
          | some u ↦ publish_status junk u (presence_of (pos (presence_code p)))
        ])
        e
      ∙ ap (publish_status junk from) (presence_of-presence_code p)
      ∙ publish_status-overflows junk from p h
]

abbrev pub text_of : Option Bytes → Bytes
text_of none = []
text_of (some t) = t

-- The document for a status, with empty arrays where the code copies nothing.
abbrev pub document_for : Bytes → Presence → Bytes
document_for from p = document from (state_for p) (text_of (activity_for p)) (text_of (note_for p))

-- Neither "open" nor "closed" starts anywhere in the text, in whatever case but for the first letter.
abbrev pub Quiet : Bytes → Type 0
Quiet [] = Unit {0}
Quiet (c ∷ s) =
    (at_word b'o' (codes "open") c s ≡ false)
    × (at_word b'c' (codes "closed") c s ≡ false)
    × Quiet s

has_prefix-quote :
    (s rest w : Bytes)
    → Free b'"' w
    → has_prefix (map to_lower (s ++ b'"' ∷ rest)) w ≡ has_prefix (map to_lower s) w
unfolding has_prefix
has_prefix-quote [] rest [] f = refl
has_prefix-quote (c ∷ s) rest [] f = refl
has_prefix-quote [] rest (b ∷ w) (n, f) = ground arith
has_prefix-quote (c ∷ s) rest (b ∷ w) (n, f) =
    ap (λ x. (to_lower c == b) && x) (has_prefix-quote s rest w f)

at_word-quote :
    (d c : ℕ) (w s rest : Bytes)
    → Free b'"' (map to_lower w)
    → at_word d w c (s ++ b'"' ∷ rest) ≡ at_word d w c s
unfolding has_prefix_ignore_case
at_word-quote d c w s rest f =
    ap (λ x. (c == d) && x) (has_prefix-quote (c ∷ s) rest (map to_lower w) f)

find_status-cons :
    (c : ℕ) (s : Bytes)
    → at_word b'o' (codes "open") c s ≡ false
    → at_word b'c' (codes "closed") c s ≡ false
    → find_status (c ∷ s) ≡ find_status s
unfolding find_status
find_status-cons c s p q =
    ap
      (λ b.
        if b
        then find_activity (c ∷ s)
        else if at_word b'c' (codes "closed") c s
        then offline
        else find_status s)
      p
    ∙ ap (λ b. if b then offline else find_status s) q

find_status-Quiet :
    (s rest : Bytes) → Quiet s → find_status (s ++ b'"' ∷ rest) ≡ find_status (b'"' ∷ rest)
find_status-Quiet [] rest q = refl
find_status-Quiet (c ∷ s) rest (o, k, q) =
    find_status-cons c (s ++ b'"' ∷ rest)
      (at_word-quote b'o' c (codes "open") s rest (ground arith) ∙ o)
      (at_word-quote b'c' c (codes "closed") s rest (ground arith) ∙ k)
    ∙ find_status-Quiet s rest q

-- What stands in a document behind the quotation mark that ends the first URI.
abbrev behind_uri : Bytes → Bytes → Bytes → Bytes → Bytes
behind_uri from state activity note =
    codes ">\n<tuple id=\"sg89ae\">\n<status>\n<basic>"
    ++ (state
        ++ (codes "</basic>\n"
            ++ (activity
                ++ (codes "</status>\n<contact priority=\"0.8\">"
                    ++ (from
                        ++ (codes "</contact>\n" ++ (note ++ codes "</tuple>\n</presence>")))))))

find_status-document :
    (from state activity note : Bytes)
    → Quiet from
    → find_status (document from state activity note)
      ≡ find_status (b'"' ∷ behind_uri from state activity note)
unfolding find_status has_prefix_ignore_case
find_status-document from state activity note q =
    find_status-Quiet from (behind_uri from state activity note) q

find_status-behind_uri :
    (from : Bytes) (p : Presence)
    → find_status
        (b'"' ∷ behind_uri from (state_for p) (text_of (activity_for p)) (text_of (note_for p)))
      ≡ p
unfolding find_status has_prefix_ignore_case
find_status-behind_uri from offline = refl
find_status-behind_uri from online = refl
find_status-behind_uri from busy = refl
find_status-behind_uri from away = refl
find_status-behind_uri from on_phone = refl

-- What a contact reads of a document for a status is that status, if "open" and "closed" start
-- nowhere in the URI of the document.
pub parse_presence-document_for :
    (from : Bytes) (p : Presence)
    → Quiet from
    → parse_presence (some (document_for from p)) ≡ presence_code p
unfolding parse_presence
parse_presence-document_for from p q = ap presence_code (
    find_status-document from (state_for p) (text_of (activity_for p)) (text_of (note_for p)) q
    ∙ find_status-behind_uri from p)
