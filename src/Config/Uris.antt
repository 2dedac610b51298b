-- ===== src/Config/Uris.antt =====
-- The two URIs that SIPEngine/config.c builds of the settings.
use furikup.Prelude.{
  ◌<◌, ◌++◌, none, some, ◌≡◌, ap₂, ◌∙◌, arith, Bytes, codes, ltb, Bool-cases, inl, inr,
  if◌then◌else◌, length, length-append, ◌&&◌,
}
use furikup.CString.{strcpy}
use furikup.CString.Laws.{Free}
use furikup.CString.Arrays.{strcpy-fits, kept, c_string-strncpy-kept}
use furikup.Config.Defs.{Config, config_set_user, config_set_server, join_uri, config_get_user_uri}

abbrev pub user_uri : Bytes → Bytes → Bytes
user_uri user server = codes "sip:" ++ user ++ codes "@" ++ server

user_uri-fits :
    (u h : Bytes)
    → length u < 128
    → length h < 128
    → strcpy 512 (user_uri u h) ≡ some (user_uri u h)
user_uri-fits u h p q =
    strcpy-fits 512 (user_uri u h)
      (omega (arith, length-append (u ++ codes "@") h, length-append u (codes "@")))

join_uri-kept :
    (u h : Bytes)
    → join_uri (kept 128 u) (kept 128 h)
      ≡ (if ltb (length u) 128 && ltb (length h) 128 then some (user_uri u h) else none)
join_uri-kept u h = elim (Bool-cases (ltb (length u) 128)) [
  | inr p ↦ rw p
  | inl p ↦ elim (Bool-cases (ltb (length h) 128)) [
    | inr q ↦ rw p (rw q)
    | inl q ↦ rw p (rw q (user_uri-fits u h (ground arith) (ground arith)))
  ]
]

-- A user and a server without a NUL, stored by their setters: the URI of
-- the user is "sip:user@server" if both are shorter than 128 bytes, and otherwise building it reads
-- past the end of an array.
pub config_get_user_uri_lem :
    (u h : Bytes) (c : Config)
    → Free 0 u
    → Free 0 h
    → config_get_user_uri (config_set_server h (config_set_user u c))
      ≡ (if ltb (length u) 128 && ltb (length h) 128 then some (user_uri u h) else none)
unfolding config_get_user_uri config_set_server config_set_user
config_get_user_uri_lem u h c fu fh =
    ap₂ join_uri (c_string-strncpy-kept 128 u fu) (c_string-strncpy-kept 128 h fh)
    ∙ join_uri-kept u h
