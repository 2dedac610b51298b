-- ===== src/Presence/Defs.antt =====
-- SIPEngine/presence.c. The five codes are SUI_PRESENCE_* of SIPEngine/sipengineif.h.
use furikup.Prelude.{
  ℕ, ℤ, Bool, ◌&&◌, [], ◌∷◌, ◌++◌, Option, none, some, Bytes, codes, ◌==◌, if◌then◌else◌, is_nat,
  take,
}
use furikup.CString.{strcpy, has_prefix_ignore_case}

pub data Presence : Type 0 where
  offline online busy away on_phone : Presence

abbrev pub presence_code : Presence → ℕ
presence_code offline = 0
presence_code online = 1
presence_code busy = 2
presence_code away = 3
presence_code on_phone = 4

-- The `switch` on the status: `none` is its default case.
abbrev pub presence_of : ℤ → Option Presence
presence_of z =
    if is_nat 0 z
    then some offline
    else if is_nat 1 z
    then some online
    else if is_nat 2 z
    then some busy
    else if is_nat 3 z
    then some away
    else if is_nat 4 z
    then some on_phone
    else none

abbrev pub activity_text : Bytes → Bytes
activity_text name =
    codes "<es:activities>\n  <es:activity>" ++ (name ++ codes "</es:activity>\n</es:activities>\n")

abbrev pub note_text : Bytes → Bytes
note_text name = codes "<note>" ++ (name ++ codes "</note>\n")

abbrev pub state_for : Presence → Bytes
state_for offline = codes "closed"
state_for _ = codes "open"

-- The text copied into `activity`, `none` where the case copies nothing.
abbrev pub activity_for : Presence → Option Bytes
activity_for offline = some (activity_text (codes "permanent-absence"))
activity_for online = none
activity_for busy = some (activity_text (codes "busy"))
activity_for away = some (activity_text (codes "away"))
activity_for on_phone = some (activity_text (codes "on-the-phone"))

-- The text copied into `note`, `none` where the case copies nothing.
abbrev pub note_for : Presence → Option Bytes
note_for offline = none
note_for online = some (note_text (codes "online"))
note_for busy = some (note_text (codes "busy"))
note_for away = some (note_text (codes "away"))
note_for on_phone = some (note_text (codes "On the phone"))

-- What a `char[25]` holds behind an optional `strcpy` into it; `junk` is the text that the
-- uninitialised array happens to hold, `none` if no NUL ends it.
unfoldable pub fill : Option Bytes → Option Bytes → Option Bytes
fill junk none = junk
fill junk (some text) = strcpy 25 text

abbrev pub document : Bytes → Bytes → Bytes → Bytes → Bytes
document from state activity note =
    codes "<?xml version=\"1.0\" encoding=\"UTF-8\"?>\n"
    ++ (codes "<presence xmlns=\"urn:ietf:params:xml:ns:pidf\"\n"
        ++ (codes "          xmlns:es=\"urn:ietf:params:xml:ns:pidf:status:rpid-status\"\n"
            ++ (codes "          entity=\""
                ++ (from
                    ++ (codes "\">\n<tuple id=\"sg89ae\">\n<status>\n<basic>"
                        ++ (state
                            ++ (codes "</basic>\n"
                                ++ (activity
                                    ++ (codes "</status>\n<contact priority=\"0.8\">"
                                        ++ (from
                                            ++ (codes "</contact>\n"
                                                ++ (note
                                                    ++ codes "</tuple>\n</presence>"))))))))))))

-- What the two arrays of 25 bytes hold before they are written to.
pub record Junk : Type 0 where
  pub activity : Option Bytes
  pub note : Option Bytes

-- What is handed to eXosip2: nothing for an unknown status, else the address and the document.
pub data Publication : Type 0 where
  ignored : Publication
  published : Bytes → Bytes → Publication

abbrev pub print_document : Bytes → Bytes → Option Bytes → Option Bytes → Option Publication
print_document from state (some activity) (some note) =
    some (published from (take 4999 (document from state activity note)))
print_document from state _ _ = none

unfoldable pub publish_status : Junk → Bytes → Option Presence → Option Publication
unfolding fill
publish_status junk from none = some ignored
publish_status junk from (some p) =
    print_document from (state_for p) (fill junk.activity (activity_for p))
      (fill junk.note (note_for p))

-- `update_presence` on the URI of `config_get_user_uri`; `none` is a write or a read past the end of
-- an array. `from` holds 255 bytes.
unfoldable pub update_presence : Junk → Option Bytes → ℤ → Option Publication
unfolding publish_status
update_presence junk none status = none
update_presence junk (some uri) status = elim (strcpy 255 uri) [
  | none ↦ none
  | some from ↦ publish_status junk from (presence_of status)
]

-- `tmp[0] == c && 0 == osip_strncasecmp(tmp, word, strlen(word))`.
abbrev pub at_word : ℕ → Bytes → ℕ → Bytes → Bool
at_word first word c s = c == first && has_prefix_ignore_case (c ∷ s) word

-- The inner loop, from the place of "open" on.
unfoldable pub find_activity : Bytes → Presence
find_activity [] = offline
find_activity (c ∷ s) =
    let rest = find_activity s in
    if at_word b'a' (codes "away") c s
    then away
    else if at_word b'b' (codes "busy") c s
    then busy
    else if at_word b'o' (codes "on-the-phone") c s
    then on_phone
    else if at_word b'/' (codes "/status") c s
    then online
    else rest

unfoldable pub find_status : Bytes → Presence
unfolding find_activity
find_status [] = offline
find_status (c ∷ s) =
    let rest = find_status s in
    if at_word b'o' (codes "open") c s
    then find_activity (c ∷ s)
    else if at_word b'c' (codes "closed") c s
    then offline
    else rest

unfoldable pub parse_presence : Option Bytes → ℕ
unfolding find_status
parse_presence none = presence_code offline
parse_presence (some body) = presence_code (find_status body)
